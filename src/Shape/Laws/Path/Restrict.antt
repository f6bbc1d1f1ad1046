-- ===== src/Shape/Laws/Path/Restrict.antt =====
-- graph/shape/path.go: the shapes of the steps that restrict the nodes of a path, or tag them.
use cayley.Prelude.{
  Bool, true, false, not, ◌&&◌, ◌||◌, List, [], ◌∷◌, Eq, ◌==◌, Returns, All, any, all, ◌≡◌, refl,
  sym, ap, ◌∙◌, arith, all-append,
}
use cayley.Quad.{Direction, predicate, label}
use cayley.Shape.{
  Shape, QuadFilters, append, nil, is_nil, all_nodes, quads, nodes_from, filtered, intersect, end,
  part, stop, link,
}
use cayley.Shape.Meaning.{View, has, has_all, has_ends, at_end}
use cayley.Shape.Path.{
  start_of, goal_of, constrain, constrain_label, has_some, has_labels, add_filters,
}
use cayley.Shape.Optimize.Intersect.{intersect_shapes}
use cayley.Shape.Laws.Filters.{and_assoc}
use cayley.Shape.Laws.Faithful.{and_true}
use cayley.Shape.Laws.Parts.{has_all-append}
use cayley.Shape.Laws.Path.{All-map, leads, is_quad, nodes_lem, step_lem, at_goal, at_predicate}

last_and : (a b c : Bool) → (a && (b && (c && true))) ≡ ((a && b) && c)
last_and a b c = ground arith

none_asked : (a b c : Bool) → (a || (b || c)) ≡ true → (((true && not a) && not b) && not c) ≡ false
none_asked a b c h = ground arith

and_false : (a : Bool) → (a && false) ≡ false
and_false a = ground arith

module _ {V W F : Type 0} where
  -- A shape that is not the Intersect of no parts.
  abbrev pub has_parts : Shape V W F → Bool
  has_parts (intersect end) = false
  has_parts s = true

  -- A constraint that gives a filter.
  abbrev pub asks : Shape V W F → Bool
  asks all_nodes = false
  asks s = true

  abbrev pub asks_label : Shape V W F → Bool
  asks_label nil = false
  asks_label s = asks s

  abbrev is_stop : QuadFilters V W F → Bool
  is_stop stop = true
  is_stop (link d s fs) = false

  append-is_stop :
      (d : Direction) (s : Shape V W F) (fs : QuadFilters V W F)
      → is_stop (append fs (link d s stop)) ≡ false
  append-is_stop d s stop = refl
  append-is_stop d s (link c t fs) = refl

  constrain-is_stop :
      (d : Direction) (s : Shape V W F) (fs : QuadFilters V W F)
      → is_stop (constrain d s fs) ≡ (is_stop fs && not (asks s))
  constrain-is_stop d all_nodes fs = sym (and_true (is_stop fs))
  constrain-is_stop d s fs = append-is_stop d s fs ∙ sym (and_false (is_stop fs))

  label-is_stop :
      (s : Shape V W F) (fs : QuadFilters V W F)
      → is_stop (constrain_label s fs) ≡ (is_stop fs && not (asks_label s))
  label-is_stop nil fs = sym (and_true (is_stop fs))
  label-is_stop s fs = constrain-is_stop label s fs

module _ {V W F : Type 0} ⦃e : Eq V⦄ (m : View V W F) where
  -- The values of IntersectShapes are those of both shapes, where neither is an Intersect of no
  -- parts.
  pub intersect_shapes-has :
      (s1 s2 : Shape V W F) (v : V)
      → has_parts s1 ≡ true
      → has_parts s2 ≡ true
      → has m (intersect_shapes s1 s2) v ≡ (has m s1 v && has m s2 v)
  unfolding intersect_shapes has
  intersect_shapes-has all_nodes s2 v h k = refl
  intersect_shapes-has (intersect end) s2 v h k = ground arith
  intersect_shapes-has (intersect (part c cs)) (intersect end) v h k = ground arith
  intersect_shapes-has (intersect (part c cs)) (intersect (part d ds)) v h k =
      ap (λ b. has m c v && b) (has_all-append m cs (part d ds) v)
      ∙ sym (and_assoc (has m c v) (has_all m cs v) (has_all m (part d ds) v))
  intersect_shapes-has (intersect (part c cs)) s2 v h k =
      ap (λ b. has m c v && b) (has_all-append m cs (part s2 end) v)
      ∙ last_and (has m c v) (has_all m cs v) (has m s2 v)
  intersect_shapes-has s1 s2 v h k = ap (λ b. has m s1 v && b) (and_true (has m s2 v))

  has_some_lem :
      (d : Direction) (from : Shape V W F) (fs : QuadFilters V W F) (x : V → Bool) (v : V)
      → is_stop fs ≡ false
      → has_parts from ≡ true
      → All (λ q. has_ends m fs q ≡ x q) m.all_quads
      → Returns (has_some d from fs) (λ s.
        has m s v
        ≡ (has m from v && any (λ q. x q && at_end (m.end_of q d) (λ w. w == v)) m.all_quads))
  has_some_lem d from stop x v z h k = ground arith
  has_some_lem d from (link c s fs) x v z h k =
      intersect_shapes-has from (nodes_from d (quads (link c s fs))) v h refl
      ∙ ap (λ b. has m from v && b) (nodes_lem m d (link c s fs) x v k)

  -- In a store whose quads have all ends but for the label, HasLabels, with a constraint other than
  -- AllNodes and from a shape that is not an Intersect of no parts, returns. The shape has the
  -- nodes of `from` at an end of a quad whose other end is one of `nodes`, with a predicate of `via`
  -- and, unless `labels` is nil or AllNodes, a label of `labels`.
  pub has_labels-has :
      (from via nodes labels : Shape V W F) (rev : Bool) (v : V)
      → All (λ q. is_quad m q ≡ true) m.all_quads
      → has_parts from ≡ true
      → (asks nodes || (asks via || asks_label labels)) ≡ true
      → Returns (has_labels from via nodes labels rev) (λ s. has m s v ≡ (
          has m from v
          && any
              (λ q.
                leads m (goal_of rev) nodes via labels q
                && at_end (m.end_of q (start_of rev)) (λ w. w == v))
              m.all_quads))
  unfolding has_labels
  has_labels-has from via nodes labels rev v h p a =
      let fs1 = constrain (goal_of rev) nodes stop in
      let fs2 = constrain predicate via fs1 in
      let fs = constrain_label labels fs2 in
      has_some_lem (start_of rev) from fs (leads m (goal_of rev) nodes via labels) v
        (label-is_stop labels fs2
          ∙ ap (λ b. b && not (asks_label labels))
              (constrain-is_stop predicate via fs1
                ∙ ap (λ b. b && not (asks via)) (constrain-is_stop (goal_of rev) nodes stop))
          ∙ none_asked (asks nodes) (asks via) (asks_label labels) a)
        p
        (All-map (λ q. is_quad m q ≡ true)
          (λ q. has_ends m fs q ≡ leads m (goal_of rev) nodes via labels q)
          (λ q k.
            step_lem m (goal_of rev) nodes via labels q (at_goal m rev q k) (at_predicate m q k))
          m.all_quads h)

  -- The values of AddFilters are those of the nodes, which are not nil, that pass all the filters.
  pub add_filters-has :
      (nodes : Shape V W F) (fs : List F) (v : V)
      → is_nil nodes ≡ false
      → has m (add_filters nodes fs) v ≡ (has m nodes v && all (λ f. m.passes f v) fs)
  unfolding add_filters has
  add_filters-has nodes [] v h = sym (and_true (has m nodes v))
  add_filters-has nil (f ∷ fs) v h = absurd (ground arith)
  add_filters-has (filtered gs from) (f ∷ fs) v h =
      ap (λ b. has m from v && b) (all-append (λ g. m.passes g v) gs (f ∷ fs))
      ∙ sym
          (and_assoc (has m from v) (all (λ g. m.passes g v) gs) (all (λ g. m.passes g v) (f ∷ fs)))
  add_filters-has nodes (f ∷ fs) v h = refl
