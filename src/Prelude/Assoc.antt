-- ===== src/Prelude/Assoc.antt =====
-- A Go map: an association list in which a write replaces the entry of its key.
use mathlib.Core.Path.{◌≡◌, refl}
use mathlib.Core.List.{List, [], ◌∷◌}
use mathlib.Core.Option.{Option, none, some}
use native.Mathlib.Omega.{arith}
use Prim.Native.Nat.{suc, ◌≤◌}
use mathlib.Core.Logic.{inl, inr}
use cayley.Prelude.Lists.{length}
use cayley.Prelude.Tests.{if◌then◌else◌, Eq, ◌==◌, Bool-cases}

module _ {K A : Type 0} ⦃e : Eq K⦄ where
  -- `m[k]`, where the key is missing.
  unfoldable pub lookup : K → List (K × A) → Option A
  lookup k [] = none
  lookup k ((j, v) ∷ m) = if j == k then some v else lookup k m

  -- `m[k] = v`
  unfoldable pub write : K → A → List (K × A) → List (K × A)
  write k v [] = (k, v) ∷ []
  write k v ((j, w) ∷ m) = if j == k then (k, v) ∷ m else (j, w) ∷ write k v m

  -- `delete(m, k)`
  unfoldable pub erase : K → List (K × A) → List (K × A)
  erase k [] = []
  erase k ((j, w) ∷ m) = if j == k then erase k m else (j, w) ∷ erase k m

  pub lookup-write :
      (k j : K) (v : A) (m : List (K × A))
      → lookup j (write k v m) ≡ (if k == j then some v else lookup j m)
  unfolding lookup write
  lookup-write k j v [] = refl
  lookup-write k j v ((i, w) ∷ m) =
      ground (arith, e.beq_iff k j, e.beq_iff i k, e.beq_iff i j, lookup-write k j v m)

  pub lookup-erase :
      (k j : K) (m : List (K × A)) → lookup j (erase k m) ≡ (if k == j then none else lookup j m)
  unfolding lookup erase
  lookup-erase k j [] = ground arith
  lookup-erase k j ((i, w) ∷ m) =
      ground (arith, e.beq_iff k j, e.beq_iff i k, e.beq_iff i j, lookup-erase k j m)

  pub length-erase : (k : K) (m : List (K × A)) → length (erase k m) ≤ length m
  unfolding erase
  length-erase k [] = omega arith
  length-erase k ((j, v) ∷ m) = elim (Bool-cases (j == k)) [
    | inl here ↦ rw here (omega (arith, length-erase k m))
    | inr there ↦ rw there (omega (arith, length-erase k m))
  ]

  -- A key that is there is taken out.
  pub length-erase_found :
      (k : K) (m : List (K × A)) (v : A) → lookup k m ≡ some v → suc (length (erase k m)) ≤ length m
  unfolding erase lookup
  length-erase_found k [] v h = absurd (ground arith)
  length-erase_found k ((j, w) ∷ m) v h = elim (Bool-cases (j == k)) [
    | inl here ↦ rw here (omega (arith, length-erase k m))
    | inr there ↦ rw there (omega (arith, length-erase_found k m v (rw there at h)))
  ]
