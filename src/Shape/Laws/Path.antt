-- ===== src/Shape/Laws/Path.antt =====
-- graph/shape/path.go: what the shapes of a path's steps stand for.
pub mod Restrict
use cayley.Prelude.{
  Bool, true, false, ◌&&◌, ◌||◌, Option, none, some, is_some, List, [], ◌∷◌, ◌++◌, String, Eq, ◌==◌,
  if◌then◌else◌, Outcome, done, panic, Returns, All, any, all, ◌≡◌, refl, sym, ap, ◌∙◌, arith,
  is_empty, all-append,
}
use cayley.Quad.{Direction, subject, predicate, object, label}
use cayley.Shape.{
  Shape, Shapes, QuadFilters, append, nil, all_nodes, quads, nodes_from, optional, save, filtered,
  intersect, end, part, stop, link,
}
use cayley.Shape.Meaning.{View, has, has_all, has_ends, at_end}
use cayley.Shape.Path.{
  start_of, goal_of, constrain, constrain_label, build_out, save_via_labels, has_some, has_labels,
  add_filters, union_shapes,
}
use cayley.Shape.Optimize.Intersect.{intersect_shapes}
use cayley.Shape.Laws.Quads.{has-append, ends_link, ends_stop}
use cayley.Shape.Laws.Faithful.{and_true, and_left, and_right}
use cayley.Shape.Laws.Parts.{has_all-append}

any_on : {A : Type 0} (p q : A → Bool) (xs : List A) → All (λ x. p x ≡ q x) xs → any p xs ≡ any q xs
any_on p q [] h = refl
any_on p q (x ∷ xs) h = ap (λ b. b || any p xs) h.0 ∙ ap (λ b. q x || b) (any_on p q xs h.1)

pub All-map :
    {A : Type 0} (P Q : A → Type 0) → ((x : A) → P x → Q x) → (xs : List A) → All P xs → All Q xs
All-map P Q f [] h = h
All-map P Q f (x ∷ xs) h = (f x h.0, All-map P Q f xs h.1)

module _ {V W F : Type 0} ⦃e : Eq V⦄ (m : View V W F) where
  -- The end of a quad is one of a shape's values.
  abbrev pub end_in : Direction → Shape V W F → V → Bool
  end_in d s q = at_end (m.end_of q d) (λ w. has m s w)

  -- The label of a quad is one that is asked for: nil and AllNodes ask for none.
  abbrev pub label_in : Shape V W F → V → Bool
  label_in nil q = true
  label_in all_nodes q = true
  label_in s q = end_in label s q

  -- A quad that leads from a node to another, by a predicate and a label.
  abbrev pub leads : Direction → Shape V W F → Shape V W F → Shape V W F → V → Bool
  leads d from via labels q = (end_in d from q && end_in predicate via q) && label_in labels q

  -- A quad with all its ends but for the label.
  abbrev pub is_quad : V → Bool
  is_quad q =
      (is_some (m.end_of q subject) && is_some (m.end_of q object))
      && is_some (m.end_of q predicate)

  constrain_last :
      (d : Direction) (s : Shape V W F) (fs : QuadFilters V W F) (q : V)
      → has_ends m (append fs (link d s stop)) q ≡ (has_ends m fs q && end_in d s q)
  constrain_last d s fs q =
      has-append m fs (link d s stop) q
      ∙ ap (λ b. has_ends m fs q && b)
          (ends_link m d s stop q
            ∙ ap (λ b. end_in d s q && b) (ends_stop m q)
            ∙ and_true (end_in d s q))

  pub all_end : (o : Option V) → is_some o ≡ true → at_end o (λ w. has m all_nodes w) ≡ true
  unfolding has
  all_end none h = ground arith
  all_end (some w) h = refl

  constrain_lem :
      (d : Direction) (s : Shape V W F) (fs : QuadFilters V W F) (q : V)
      → is_some (m.end_of q d) ≡ true
      → has_ends m (constrain d s fs) q ≡ (has_ends m fs q && end_in d s q)
  constrain_lem d all_nodes fs q h =
      sym (and_true (has_ends m fs q))
      ∙ ap (λ b. has_ends m fs q && b) (sym (all_end (m.end_of q d) h))
  constrain_lem d s fs q h = constrain_last d s fs q

  pub constrain_label_lem :
      (s : Shape V W F) (fs : QuadFilters V W F) (q : V)
      → has_ends m (constrain_label s fs) q ≡ (has_ends m fs q && label_in s q)
  constrain_label_lem nil fs q = sym (and_true (has_ends m fs q))
  constrain_label_lem all_nodes fs q = sym (and_true (has_ends m fs q))
  constrain_label_lem s fs q = constrain_last label s fs q

  -- The filters of a step, on one quad.
  pub step_lem :
      (d : Direction) (from via labels : Shape V W F) (q : V)
      → is_some (m.end_of q d) ≡ true
      → is_some (m.end_of q predicate) ≡ true
      → has_ends m (constrain_label labels (constrain predicate via (constrain d from stop))) q
        ≡ leads d from via labels q
  step_lem d from via labels q h k =
      constrain_label_lem labels (constrain predicate via (constrain d from stop)) q
      ∙ ap (λ b. b && label_in labels q)
          (constrain_lem predicate via (constrain d from stop) q k
            ∙ ap (λ b. b && end_in predicate via q)
                (constrain_lem d from stop q h ∙ ap (λ b. b && end_in d from q) (ends_stop m q)))

  pub at_start :
      (inward : Bool) (q : V) → is_quad q ≡ true → is_some (m.end_of q (start_of inward)) ≡ true
  at_start true q h = and_right (is_some (m.end_of q subject)) (is_some (m.end_of q object)) (
      and_left (is_some (m.end_of q subject) && is_some (m.end_of q object))
        (is_some (m.end_of q predicate)) h)
  at_start false q h = and_left (is_some (m.end_of q subject)) (is_some (m.end_of q object)) (
      and_left (is_some (m.end_of q subject) && is_some (m.end_of q object))
        (is_some (m.end_of q predicate)) h)

  pub at_goal :
      (inward : Bool) (q : V) → is_quad q ≡ true → is_some (m.end_of q (goal_of inward)) ≡ true
  at_goal true q h = at_start false q h
  at_goal false q h = at_start true q h

  pub at_predicate : (q : V) → is_quad q ≡ true → is_some (m.end_of q predicate) ≡ true
  at_predicate q h =
      and_right (is_some (m.end_of q subject) && is_some (m.end_of q object))
        (is_some (m.end_of q predicate)) h

  -- The nodes at an end of the quads that pass filters.
  pub nodes_lem :
      (d : Direction) (fs : QuadFilters V W F) (x : V → Bool) (v : V)
      → All (λ q. has_ends m fs q ≡ x q) m.all_quads
      → has m (nodes_from d (quads fs)) v
        ≡ any (λ q. x q && at_end (m.end_of q d) (λ w. w == v)) m.all_quads
  unfolding has
  nodes_lem d fs x v h =
      any_on (λ q. has_ends m fs q && at_end (m.end_of q d) (λ w. w == v))
        (λ q. x q && at_end (m.end_of q d) (λ w. w == v)) m.all_quads
        (All-map (λ q. has_ends m fs q ≡ x q)
          (λ q.
            (has_ends m fs q && at_end (m.end_of q d) (λ w. w == v))
            ≡ (x q && at_end (m.end_of q d) (λ w. w == v)))
          (λ q k. ap (λ b. b && at_end (m.end_of q d) (λ w. w == v)) k) m.all_quads h)

  end_in-save :
      (tags : List String) (via : Shape V W F) (q : V)
      → end_in predicate (save tags via) q ≡ end_in predicate via q
  unfolding has
  end_in-save tags via q = refl

  built_lem :
      (inward : Bool) (from via via' labels : Shape V W F) (v : V)
      → ((q : V) → end_in predicate via' q ≡ end_in predicate via q)
      → All (λ q. is_quad q ≡ true) m.all_quads
      → has m
          (nodes_from (goal_of inward) (
            quads (
              constrain_label labels
                (constrain predicate via' (constrain (start_of inward) from stop)))))
          v
        ≡ any
            (λ q.
              leads (start_of inward) from via labels q
              && at_end (m.end_of q (goal_of inward)) (λ w. w == v))
            m.all_quads
  built_lem inward from via via' labels v s h =
      nodes_lem (goal_of inward)
        (constrain_label labels (constrain predicate via' (constrain (start_of inward) from stop)))
        (leads (start_of inward) from via labels) v
        (All-map (λ q. is_quad q ≡ true)
          (λ q.
            has_ends m
              (constrain_label labels
                (constrain predicate via' (constrain (start_of inward) from stop)))
              q
            ≡ leads (start_of inward) from via labels q)
          (λ q k.
            step_lem (start_of inward) from via' labels q (at_start inward q k) (at_predicate q k)
            ∙ ap (λ b. (end_in (start_of inward) from q && b) && label_in labels q) (s q))
          m.all_quads h)

  -- In a store whose quads have all ends but for the label, the shape of a step out of, or into,
  -- the nodes of `from` has the nodes at the other end of the quads that lead from there by a
  -- predicate of `via` and, unless `labels` is nil or AllNodes, with a label of `labels`. The tags
  -- do not matter.
  pub build_out-has :
      (from via labels : Shape V W F) (tags : List String) (inward : Bool) (v : V)
      → All (λ q. is_quad q ≡ true) m.all_quads
      → has m (build_out from via labels tags inward) v
        ≡ any
            (λ q.
              leads (start_of inward) from via labels q
              && at_end (m.end_of q (goal_of inward)) (λ w. w == v))
            m.all_quads
  unfolding build_out
  build_out-has from via labels [] inward v h = built_lem inward from via via labels v (λ q. refl) h
  build_out-has from via labels (t ∷ ts) inward v h =
      built_lem inward from via (save (t ∷ ts) via) labels v (end_in-save (t ∷ ts) via) h
