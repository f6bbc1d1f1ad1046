-- ===== src/Shape/Laws/Push.antt =====
-- graph/shape/shape.go: the end of Optimize of Intersect, where fixed values are pushed down.
use cayley.Prelude.{
  suc, ◌+◌, ◌≤◌, Bool, true, false, not, ◌&&◌, ◌||◌, some, List, [], ◌∷◌, Eq, ◌==◌, string_eq,
  if◌then◌else◌, is_empty, length, refl, ◌≡◌, ◌∙◌, ap, sym, arith, Bool-cases, Option-cases,
  some_inj, subst, inl, inr, all, any, elem, fun_ext, Option, none,
}
use cayley.Quad.{is_set, Direction, direction_eq}
use cayley.Shape.{
  Shape, Shapes, ◌⧺◌, QuadFilters, quads, nodes_from, quads_action, fixed, intersect, end, part,
  stop, link,
}
use cayley.Shape.Meaning.{
  View, plain_part, plain_filter, inhabited, seen, has, has_all, has_ends, plain, plain_parts,
  plain_filters, firm, some_firm, weight, weight_parts, weight_filters, leads_away, at_end,
}
use cayley.Shape.Optimize.Intersect.{
  intersect_shapes, has_filter, push_filter, push_fixed, fixed_parts, parts_result, place_fixed,
}
use cayley.Shape.Laws.Faithful.{part_plain, and_left, and_right, and_both, and_true}
use cayley.Shape.Laws.Filters.{and_assoc, and_last}
use cayley.Shape.Laws.Passes.{plain_fixeds}
use cayley.Shape.Laws.Nodes.{any-ext}
use cayley.Shape.Laws.Parts.{or_both, plain_parts-append, some_firm-append, weight_parts-append}
use cayley.Shape.Laws.Pinned.{
  IsAsked, or_true, both_ends, leads_away-push_filter, plain-push_filter, weight-push_filter,
  some_if, fixed_parts_plain, fixed_parts_weight, fixed_firm,
}
use cayley.Shape.Laws.Action.{Stands, Stands-lighter, parts_result_lem, found_at, push_action_lem}

-- What follows from each element that passes follows from there being one.
any-elim :
    {A : Type 0} (p : A → Bool) (c : Bool) (xs : List A)
    → ((x : A) → p x ≡ true → c ≡ true)
    → any p xs ≡ true
    → c ≡ true
any-elim p c [] k h = absurd (ground arith)
any-elim p c (x ∷ xs) k h = elim (Bool-cases (p x)) [
  | inl here ↦ k x here
  | inr there ↦ any-elim p c xs k (rw there at h)
]

any-weaken :
    {A : Type 0} (p q : A → Bool) (xs : List A)
    → ((x : A) → p x ≡ true → q x ≡ true)
    → any p xs ≡ true
    → any q xs ≡ true
any-weaken p q [] k h = h
any-weaken p q (x ∷ xs) k h = elim (Bool-cases (p x)) [
  | inl here ↦ rw (k x here) refl
  | inr there ↦ or_true (q x) (any q xs) (any-weaken p q xs k (rw there at h))
]

module _ {V W F : Type 0} (m : View V W F) where
  pub seen-weaken :
      (p q : V → Bool) → ((v : V) → p v ≡ true → q v ≡ true) → seen m p ≡ true → seen m q ≡ true
  unfolding seen
  seen-weaken p q k h =
      or_both (any p m.nodes) (any p m.all_quads) (any q m.nodes) (any q m.all_quads)
        (any-weaken p q m.nodes k) (any-weaken p q m.all_quads k) h

module _ {V W F : Type 0} ⦃e : Eq V⦄ (m : View V W F) where
  -- A value at the end of a quad that passes the filters.
  asked_value :
      (d : Direction) (fs : QuadFilters V W F) (t : Shape V W F) (u : V)
      → IsAsked m d fs t
      → has m (nodes_from d (quads fs)) u ≡ true
      → has m t u ≡ true
  unfolding has
  asked_value d fs t u k h =
      any-elim (λ q. has_ends m fs q && at_end (m.end_of q d) (λ w. w == u)) (has m t u) m.all_quads
        (λ q a.
          at_end_elim q (m.end_of q d) refl
            (and_left (has_ends m fs q) (at_end (m.end_of q d) (λ w. w == u)) a)
            (and_right (has_ends m fs q) (at_end (m.end_of q d) (λ w. w == u)) a))
        h
    where
      at_end_elim :
          (q : V) (o : Option V)
          → m.end_of q d ≡ o
          → has_ends m fs q ≡ true
          → at_end o (λ w. w == u) ≡ true
          → has m t u ≡ true
      at_end_elim q none z a b = absurd (ground arith)
      at_end_elim q (some w) z a b = subst (λ x. has m t x ≡ true) ((e.beq_iff w u).0 b) (k q w a z)

  -- The fixed values and those of a filter, which are together in the store.
  asked_fixed :
      (d : Direction) (vs : List V) (fs : QuadFilters V W F) (t : Shape V W F)
      → seen m (λ u. elem u vs && (has m (nodes_from d (quads fs)) u && true)) ≡ true
      → IsAsked m d fs t
      → inhabited m (intersect (part (fixed vs) (part t end))) ≡ true
  unfolding has
  asked_fixed d vs fs t h k =
      seen-weaken m (λ u. elem u vs && (has m (nodes_from d (quads fs)) u && true))
        (has m (intersect (part (fixed vs) (part t end))))
        (λ u a.
          and_both (elem u vs) (has m t u && true)
            (and_left (elem u vs) (has m (nodes_from d (quads fs)) u && true) a)
            (and_both (has m t u) true
              (asked_value d fs t u k (
                and_left (has m (nodes_from d (quads fs)) u) true
                  (and_right (elem u vs) (has m (nodes_from d (quads fs)) u && true) a)))
              refl))
        h

  -- The fixed values, among what a NodesFrom asks of the quads.
  abbrev fixed_end : Direction → List V → V → Bool
  fixed_end d vs q = at_end (m.end_of q d) (λ w. elem w vs)

  has-push_filter :
      (d : Direction) (vs : List V) (fs : QuadFilters V W F) (q : V)
      → has_filter d fs ≡ true
      → has_ends m (push_filter d (fixed vs) fs) q ≡ (fixed_end d vs q && has_ends m fs q)
  unfolding push_filter intersect_shapes has
  has-push_filter d vs stop q h = absurd (ground arith)
  has-push_filter d vs (link c s fs) q h = elim (Bool-cases (c == d)) [
    | inl here ↦ rw here (
        ap (λ b. b && has_ends m fs q) (both_ends (m.end_of q c) (λ w. elem w vs) (λ w. has m s w))
        ∙ and_assoc (at_end (m.end_of q c) (λ w. elem w vs))
            (at_end (m.end_of q c) (λ w. has m s w)) (has_ends m fs q)
        ∙ ap (λ z. fixed_end z vs q && (at_end (m.end_of q c) (λ w. has m s w) && has_ends m fs q))
            ((direction_eq.beq_iff c d).0 here))
    | inr there ↦ rw there (
        ap (λ b. at_end (m.end_of q c) (λ w. has m s w) && b)
          (has-push_filter d vs fs q (rw there at h))
        ∙ and_last (at_end (m.end_of q c) (λ w. has m s w)) (fixed_end d vs q) (has_ends m fs q))
  ]

  -- A Quads with fixed values for the end that is the result.
  nodes_pinned :
      (d : Direction) (vs : List V) (fs gs : QuadFilters V W F)
      → ((q : V) → has_ends m gs q ≡ (fixed_end d vs q && has_ends m fs q))
      → is_set d ≡ true
      → leads_away d gs ≡ true
      → plain_filters m gs ≡ true
      → weight_filters gs ≤ suc (suc (weight_filters fs))
      → Stands m
          (λ u. elem u vs && (has m (nodes_from d (quads fs)) u && true))
          (suc (suc (suc (suc (weight_filters fs)))))
          (nodes_from d (quads gs))
  unfolding has plain firm weight
  nodes_pinned d vs fs gs h j a p w = record {
    same = λ u.
        any-ext (λ q. has_ends m gs q && at_end (m.end_of q d) (λ w. w == u))
          (λ q. (fixed_end d vs q && has_ends m fs q) && at_end (m.end_of q d) (λ w. w == u))
          m.all_quads (λ q. ap (λ b. b && at_end (m.end_of q d) (λ w. w == u)) (h q))
        ∙ found_at m d (λ w. elem w vs) (λ q. has_ends m fs q) u
        ∙ ap (λ b. elem u vs && b) (sym (and_true (has m (nodes_from d (quads fs)) u)));
    is_plain =
        and_both (is_set d && leads_away d gs) (plain_filters m gs)
          (and_both (is_set d) (leads_away d gs) j a) p;
    is_firm = refl;
    light = omega (arith, w);
  }

  push_nodes_lem :
      (vs : List V) (d : Direction) (fs : QuadFilters V W F)
      → is_set d ≡ true
      → leads_away d fs ≡ true
      → plain_filters m fs ≡ true
      → inhabited m (fixed vs) ≡ true
      → seen m (λ u. elem u vs && (has m (nodes_from d (quads fs)) u && true)) ≡ true
      → Stands m
          (λ u. elem u vs && (has m (nodes_from d (quads fs)) u && true))
          (suc (suc (suc (suc (weight_filters fs)))))
          (if has_filter d fs
            then nodes_from d (quads (push_filter d (fixed vs) fs))
            else nodes_from d (quads (link d (fixed vs) fs)))
  unfolding has plain weight
  push_nodes_lem vs d fs j a p i z = elim (Bool-cases (has_filter d fs)) [
    | inl there ↦ rw there (
        nodes_pinned d vs fs (push_filter d (fixed vs) fs) (λ q. has-push_filter d vs fs q there) j
          (leads_away-push_filter d d (fixed vs) fs ∙ a)
          (plain-push_filter m d vs fs p i λ t k. asked_fixed d vs fs t z k)
          (weight-push_filter d vs fs))
    | inr new ↦ rw new (
        nodes_pinned d vs fs (link d (fixed vs) fs) (λ q. refl) j
          (or_true (not (d == d)) (leads_away d fs) a)
          (and_both (plain_filter m d (fixed vs)) (plain_filters m fs)
            (and_both (is_set d) (plain_part m (fixed vs)) j
              (and_both (inhabited m (fixed vs)) true i refl))
            p)
          (omega arith))
  ]

  fixed_parts_lem :
      (vss : List (List V)) (cs : Shapes V W F) (v : V)
      → has_all m (fixed_parts vss ⧺ cs) v ≡ (all (λ vs. elem v vs) vss && has_all m cs v)
  unfolding has
  fixed_parts_lem [] cs v = refl
  fixed_parts_lem (vs ∷ vss) cs v =
      ap (λ b. elem v vs && b) (fixed_parts_lem vss cs v)
      ∙ sym (and_assoc (elem v vs) (all (λ us. elem v us) vss) (has_all m cs v))

  -- What the shape at the end of the method stands for.
  abbrev pub left_over : List (List V) → Shapes V W F → V → Bool
  left_over vss cs v = all (λ vs. elem v vs) vss && has_all m cs v

  push_nodes_found :
      (vs : List V) (d : Direction) (fs : QuadFilters V W F) (s : Shape V W F)
      → is_set d ≡ true
      → leads_away d fs ≡ true
      → plain_filters m fs ≡ true
      → inhabited m (fixed vs) ≡ true
      → seen m (λ u. elem u vs && (has m (nodes_from d (quads fs)) u && true)) ≡ true
      → (if has_filter d fs
          then some (nodes_from d (quads (push_filter d (fixed vs) fs)))
          else some (nodes_from d (quads (link d (fixed vs) fs))))
        ≡ some s
      → Stands m
          (λ u. elem u vs && (has m (nodes_from d (quads fs)) u && true))
          (suc (suc (suc (suc (weight_filters fs)))))
          s
  push_nodes_found vs d fs s j a p i z h =
      subst
        (Stands m (λ u. elem u vs && (has m (nodes_from d (quads fs)) u && true))
          (suc (suc (suc (suc (weight_filters fs))))))
        (some_inj (
          some_if (has_filter d fs) (nodes_from d (quads (push_filter d (fixed vs) fs)))
            (nodes_from d (quads (link d (fixed vs) fs)))
          ∙ h))
        (push_nodes_lem vs d fs j a p i z)

  single_left :
      (vs : List V) (cs : Shapes V W F) (s : Shape V W F)
      → Stands m (λ u. elem u vs && has_all m cs u) (suc (suc (weight_parts cs))) s
      → Stands m (left_over (vs ∷ []) cs) (suc (1 + weight_parts cs)) s
  single_left vs cs s h = record {
    same = λ v. h.same v ∙ ap (λ b. b && has_all m cs v) (sym (and_true (elem v vs)));
    is_plain = h.is_plain;
    is_firm = h.is_firm;
    light = omega (arith, h.light);
  }

  push_fixed_lem :
      (vs : List V) (cs : Shapes V W F) (s : Shape V W F)
      → plain_parts m cs ≡ true
      → inhabited m (fixed vs) ≡ true
      → seen m (λ u. elem u vs && has_all m cs u) ≡ true
      → push_fixed vs cs ≡ some s
      → Stands m (λ u. elem u vs && has_all m cs u) (suc (suc (weight_parts cs))) s
  unfolding push_fixed plain has weight
  push_fixed_lem (v ∷ []) (part (quads_action size d sv filt) end) s p i z h =
      subst (Stands m (λ u. (v == u || false) && (has m (quads_action size d sv filt) u && true)) 3)
        (some_inj h)
        (push_action_lem m v size d sv filt (
          part_plain m (quads_action size d sv filt)
            (and_left (plain_part m (quads_action size d sv filt)) true p)))
  push_fixed_lem vs (part (nodes_from d (quads fs)) end) s p i z h =
      let q =
        part_plain m (nodes_from d (quads fs))
          (and_left (plain_part m (nodes_from d (quads fs))) true p) in
      Stands-lighter m (λ u. elem u vs && (has m (nodes_from d (quads fs)) u && true)) s
        (push_nodes_found vs d fs s
          (and_left (is_set d) (leads_away d fs)
            (and_left (is_set d && leads_away d fs) (plain_filters m fs) q))
          (and_right (is_set d) (leads_away d fs)
            (and_left (is_set d && leads_away d fs) (plain_filters m fs) q))
          (and_right (is_set d && leads_away d fs) (plain_filters m fs) q) i z h)
        (omega arith)
  push_fixed_lem vs cs s p i z h = absurd (ground arith)

  listed_lem :
      (vss : List (List V)) (cs : Shapes V W F) (opt : Bool)
      → plain_parts m cs ≡ true
      → (some_firm cs || not (is_empty vss)) ≡ true
      → plain_fixeds m vss ≡ true
      → seen m (left_over vss cs) ≡ true
      → Stands m
          (left_over vss cs)
          (suc (length vss + weight_parts cs))
          (parts_result (fixed_parts vss ⧺ cs) opt).0
  listed_lem vss cs opt p f i z =
      let all_parts = fixed_parts vss ⧺ cs in
      let r =
        parts_result_lem m all_parts opt
          (some_firm-append (fixed_parts vss) cs ∙ fixed_firm V W F vss (some_firm cs) f)
          (plain_parts-append m (fixed_parts vss) cs
            ∙ and_both (plain_parts m (fixed_parts vss)) (plain_parts m cs)
                (fixed_parts_plain m vss i) p)
          (ap (seen m) (fun_ext λ v. fixed_parts_lem vss cs v) ∙ z) in
      record {
        same = λ v. r.same v ∙ fixed_parts_lem vss cs v;
        is_plain = r.is_plain;
        is_firm = r.is_firm;
        light = omega (
          arith,
          r.light,
          weight_parts-append (fixed_parts vss) cs,
          fixed_parts_weight V W F vss,
        );
      }

  pub place_fixed_lem :
      (vss : List (List V)) (cs : Shapes V W F) (opt : Bool)
      → plain_parts m cs ≡ true
      → (some_firm cs || not (is_empty vss)) ≡ true
      → plain_fixeds m vss ≡ true
      → seen m (left_over vss cs) ≡ true
      → Stands m (left_over vss cs) (suc (length vss + weight_parts cs)) (place_fixed vss cs opt).0
  unfolding place_fixed
  place_fixed_lem (vs ∷ []) cs opt p f i z = elim (Option-cases (push_fixed vs cs)) [
    | inl not_pushed ↦ rw (place_fixed, not_pushed) (listed_lem (vs ∷ []) cs opt p f i z)
    | inr (s, pushed) ↦
        rw (place_fixed, pushed)
          (single_left vs cs s (
            push_fixed_lem vs cs s p (and_left (inhabited m (fixed vs)) true i)
              (ap (seen m) (fun_ext λ u. ap (λ b. b && has_all m cs u) (sym (and_true (elem u vs))))
                ∙ z)
              pushed))
  ]
  place_fixed_lem [] cs opt p f i z = listed_lem [] cs opt p f i z
  place_fixed_lem (vs ∷ us ∷ vss) cs opt p f i z = listed_lem (vs ∷ us ∷ vss) cs opt p f i z
