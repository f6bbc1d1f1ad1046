-- ===== src/Iterator/Sweep.antt =====
-- A pass of Contains calls over sub-iterators: it keeps them valid, and keeps the sets they hold.
use cayley.Prelude.{
  ◌≤◌, Bool, true, false, ◌&&◌, ◌||◌, List, [], ◌∷◌, ◌++◌, map, ◌≡◌, refl, ◌∙◌, All, total,
  total-append, arith,
}
use mathlib.Core.List.{map-append}
use cayley.Graph.Value.{Value}
use cayley.Iterator.Laws.{Membership}

-- The conjunction and the disjunction of some sets.
abbrev pub every : {N : Type 0} → List (Value N → Bool) → Value N → Bool
every [] v = true
every (p ∷ ps) v = p v && every ps v

abbrev pub some_of : {N : Type 0} → List (Value N → Bool) → Value N → Bool
some_of [] v = false
some_of (p ∷ ps) v = p v || some_of ps v

module _ {A : Type 0} (P : A → Type 0) where
  pub All-before : (xs ys : List A) → All P (xs ++ ys) → All P xs
  All-before [] ys h = tt
  All-before (x ∷ xs) ys h = (h.0, All-before xs ys h.1)

  pub All-after : (xs ys : List A) → All P (xs ++ ys) → All P ys
  All-after [] ys h = h
  All-after (x ∷ xs) ys h = All-after xs ys h.1

  pub All-join : (xs ys : List A) → All P xs → All P ys → All P (xs ++ ys)
  All-join [] ys h k = k
  All-join (x ∷ xs) ys h k = (h.0, All-join xs ys h.1 k)

module _ {N S : Type 0} (m : Membership N S) where
  -- `out` may stand for `subs`.
  pub record Swept (subs out : List S) : Type 0 where
    pub valid : All m.Valid out
    pub same : map m.has out ≡ map m.has subs
    pub cheaper : total m.cost out ≤ total m.cost subs

  pub Swept-refl : (subs : List S) → All m.Valid subs → Swept subs subs
  Swept-refl subs h = record { valid = h; same = refl; cheaper = omega arith }

  pub Swept-cons :
      (sub sub' : S) {subs out : List S}
      → m.Valid sub'
      → m.has sub' ≡ m.has sub
      → m.cost sub' ≤ m.cost sub
      → Swept subs out
      → Swept (sub ∷ subs) (sub' ∷ out)
  Swept-cons sub sub' v e c w = record {
    valid = (v, w.valid);
    same = λ i. e i ∷ w.same i;
    cheaper = omega (arith, w.cheaper);
  }

  pub Swept-trans : {xs ys zs : List S} → Swept xs ys → Swept ys zs → Swept xs zs
  Swept-trans v w = record {
    valid = w.valid;
    same = w.same ∙ v.same;
    cheaper = omega (arith, v.cheaper, w.cheaper);
  }

  pub Swept-append :
      (xs xs' : List S) {ys ys' : List S}
      → Swept xs xs'
      → Swept ys ys'
      → Swept (xs ++ ys) (xs' ++ ys')
  Swept-append xs xs' {ys} {ys'} v w = record {
    valid = All-join m.Valid xs' ys' v.valid w.valid;
    same = rw (map-append m.has xs' ys', map-append m.has xs ys) (λ i. v.same i ++ w.same i);
    cheaper =
        omega (arith, total-append m.cost xs ys, total-append m.cost xs' ys', v.cheaper, w.cheaper);
  }
