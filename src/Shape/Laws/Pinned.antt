-- ===== src/Shape/Laws/Pinned.antt =====
-- graph/shape/shape.go: fixed values among filters, and as the end of a quad.
use cayley.Prelude.{
  suc, ◌≤◌, Bool, true, false, not, ◌&&◌, ◌||◌, Option, none, some, List, [], ◌∷◌, Eq, ◌==◌,
  string_eq, if◌then◌else◌, is_empty, length, refl, ◌≡◌, ◌∙◌, ap, sym, arith, Bool-cases, subst,
  inl, inr, any,
}
use cayley.Quad.{is_set, Direction, direction_eq}
use cayley.Shape.{Shape, QuadFilters, fixed, intersect, end, part, stop, link}
use cayley.Shape.Laws.Passes.{plain_fixeds}
use cayley.Shape.Meaning.{
  View, has, has_ends, inhabited, plain_part, plain_filter, plain, plain_parts, plain_filters, firm,
  some_firm, weight, weight_parts, weight_filters, leads_away, at_end,
}
use cayley.Shape.Optimize.Intersect.{intersect_shapes, push_filter, fixed_parts}
use cayley.Shape.Laws.Faithful.{and_left, and_right, and_both, and_true}
use cayley.Shape.Laws.Filters.{and_assoc, or_false}

pub and_or : (b p q : Bool) → ((b && p) || (b && q)) ≡ (b && (p || q))
and_or b p q = ground arith

pub none_pinned : (x b : Bool) → ((false && b) && false) ≡ (x && (b && false))
none_pinned x b = ground arith

pub not_pinned : (y b x : Bool) → ((y && b) && false) ≡ (x && (b && false))
not_pinned y b x = ground arith

pub or_true : (a b : Bool) → b ≡ true → (a || b) ≡ true
or_true a b h = ground arith

pub both_ends :
    {V : Type 0} (o : Option V) (p q : V → Bool)
    → at_end o (λ w. p w && (q w && true)) ≡ (at_end o p && at_end o q)
both_ends none p q = refl
both_ends (some v) p q = ap (λ b. p v && b) (and_true (q v))

module _ {V W F : Type 0} where
  pub leads_away-push_filter :
      (c d : Direction) (s : Shape V W F) (fs : QuadFilters V W F)
      → leads_away c (push_filter d s fs) ≡ leads_away c fs
  unfolding push_filter
  leads_away-push_filter c d s stop = refl
  leads_away-push_filter c d s (link b t fs) = elim (Bool-cases (b == d)) [
    | inl here ↦ rw here refl
    | inr there ↦ rw there (ap (λ z. not (b == c) || z) (leads_away-push_filter c d s fs))
  ]

module _ {V W F : Type 0} ⦃e : Eq V⦄ (m : View V W F) where
  -- Every quad that passes the filters has a value of the shape for this end.
  abbrev pub IsAsked : Direction → QuadFilters V W F → Shape V W F → Type 0
  IsAsked d fs t = (q v : V) → has_ends m fs q ≡ true → m.end_of q d ≡ some v → has m t v ≡ true

  at_end-value : (o : Option V) (p : V → Bool) (v : V) → at_end o p ≡ true → o ≡ some v → p v ≡ true
  at_end-value o p v h k = rw k at h

  pub plain-push_filter :
      (d : Direction) (vs : List V) (fs : QuadFilters V W F)
      → plain_filters m fs ≡ true
      → inhabited m (fixed vs) ≡ true
      → ((t : Shape V W F)
          → IsAsked d fs t
          → inhabited m (intersect (part (fixed vs) (part t end))) ≡ true)
      → plain_filters m (push_filter d (fixed vs) fs) ≡ true
  unfolding push_filter intersect_shapes plain firm has
  plain-push_filter d vs stop p i k = refl
  plain-push_filter d vs (link b t fs) p i k =
      let pb = and_left (plain_filter m b t) (plain_filters m fs) p in
      let set = and_left (is_set b) (plain_part m t) pb in
      let pt = and_right (is_set b) (plain_part m t) pb in
      let ps = and_right (plain_filter m b t) (plain_filters m fs) p in
      elim (Bool-cases (b == d)) [
        | inl here ↦
            let both = intersect (part (fixed vs) (part t end)) in
            let seen_both = k t (λ q v a z.
              at_end-value (m.end_of q b) (λ w. has m t w) v
                (and_left (at_end (m.end_of q b) (λ w. has m t w)) (has_ends m fs q) a)
                (ap (m.end_of q) ((direction_eq.beq_iff b d).0 here) ∙ z)) in
            rw here (
              and_both (plain_filter m b both) (plain_filters m fs)
                (and_both (is_set b) (plain_part m both) set (
                  and_both (inhabited m both) (plain m both) seen_both (
                    and_both (inhabited m both)
                      (plain_part m (fixed vs) && (plain_part m t && true)) seen_both
                      (and_both (plain_part m (fixed vs)) (plain_part m t && true)
                        (and_both (inhabited m (fixed vs)) true i refl)
                        (and_both (plain_part m t) true pt refl)))))
                ps)
        | inr there ↦ rw there (
            and_both (plain_filter m b t) (plain_filters m (push_filter d (fixed vs) fs)) pb (
              plain-push_filter d vs fs ps i λ u h. k u λ q v a z.
                h q v (and_right (at_end (m.end_of q b) (λ w. has m t w)) (has_ends m fs q) a) z))
      ]

module _ {V W F : Type 0} where
  pub weight-push_filter :
      (d : Direction) (vs : List V) (fs : QuadFilters V W F)
      → weight_filters (push_filter d (fixed vs) fs) ≤ suc (suc (weight_filters fs))
  unfolding push_filter intersect_shapes weight
  weight-push_filter d vs stop = omega arith
  weight-push_filter d vs (link b t fs) = elim (Bool-cases (b == d)) [
    | inl here ↦ rw here (omega arith)
    | inr there ↦ rw there (omega (arith, weight-push_filter d vs fs))
  ]

pub some_if :
    {A : Type 0} (b : Bool) (x y : A) → some (if b then x else y) ≡ (if b then some x else some y)
some_if true x y = refl
some_if false x y = refl

module _ {V W F : Type 0} ⦃e : Eq V⦄ (m : View V W F) where
  pub fixed_parts_plain :
      (vss : List (List V)) → plain_fixeds m vss ≡ true → plain_parts m (fixed_parts vss) ≡ true
  unfolding plain
  fixed_parts_plain [] h = refl
  fixed_parts_plain (vs ∷ vss) h =
      let i = and_left (inhabited m (fixed vs)) (plain_fixeds m vss) h in
      and_both (plain_part m (fixed vs)) (plain_parts m (fixed_parts vss))
        (and_both (inhabited m (fixed vs)) true i refl)
        (fixed_parts_plain vss (and_right (inhabited m (fixed vs)) (plain_fixeds m vss) h))

module _ (V W F : Type 0) ⦃e : Eq V⦄ where
  pub fixed_parts_weight :
      (vss : List (List V)) → weight_parts (fixed_parts {V = V} {W = W} {F = F} vss) ≡ length vss
  unfolding weight
  fixed_parts_weight [] = refl
  fixed_parts_weight (vs ∷ vss) = omega (arith, fixed_parts_weight vss)

  pub fixed_firm :
      (vss : List (List V)) (b : Bool)
      → (b || not (is_empty vss)) ≡ true
      → (some_firm (fixed_parts {V = V} {W = W} {F = F} vss) || b) ≡ true
  unfolding firm
  fixed_firm [] b h = sym (or_false b) ∙ h
  fixed_firm (vs ∷ vss) b h = refl

pub two_more : (x a : Bool) → (x && a) ≡ ((x || false) && (a && true))
two_more x a = ground arith

pub any-pinned :
    {A : Type 0} (b : Bool) (p : A → Bool) (xs : List A) → any (λ x. b && p x) xs ≡ (b && any p xs)
any-pinned b p [] = ground arith
any-pinned b p (x ∷ xs) = ap (λ c. (b && p x) || c) (any-pinned b p xs) ∙ and_or b (p x) (any p xs)

module _ {V : Type 0} ⦃e : Eq V⦄ where
  -- The test `x` of an end is one of the value that this end is.
  pub pinned :
      (x : V → Bool) (o : Option V) (b : Bool) (u : V)
      → ((at_end o x && b) && at_end o (λ w. w == u)) ≡ (x u && (b && at_end o (λ w. w == u)))
  pinned x none b u = none_pinned (x u) b
  pinned x (some w) b u = elim (Bool-cases (w == u)) [
    | inl here ↦ rw (here, (e.beq_iff w u).0 here) (and_assoc (x u) b true)
    | inr there ↦ rw there (not_pinned (x w) b (x u))
  ]

  -- Values other than the one that is there.
  pub disjoint :
      (v w u : V) (a : Bool)
      → (w == v) ≡ false
      → a ≡ ((w == u) && a)
      → ((v == u || false) && (a && true)) ≡ false
  disjoint v w u a h k = elim (Bool-cases (v == u)) [
    | inl here ↦
        let apart : (w == u) ≡ false = subst (λ z. (w == z) ≡ false) ((e.beq_iff v u).0 here) h in
        rw here (and_true a ∙ k ∙ ap (λ b. b && a) apart)
    | inr there ↦ rw there refl
  ]
