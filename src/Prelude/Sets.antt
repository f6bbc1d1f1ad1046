-- ===== src/Prelude/Sets.antt =====
-- Writes into a list, and what they leave alone.
use Prim.Native.Nat.{ℕ, zero, suc, ◌+◌, ◌≤◌, ◌<◌}
use mathlib.Core.Path.{◌≡◌, refl, ap, subst}
use mathlib.Core.List.{List, [], ◌∷◌}
use mathlib.Core.Option.{some}
use native.Mathlib.Omega.{arith}
use cayley.Prelude.Lists.{length, get_elem?, set, drop, All, total}

module _ {ℓ} {A : Type ℓ} where
  pub some_inj : {a b : A} → some a ≡ some b → a ≡ b
  some_inj h = ground arith

  pub length-set : (xs : List A) (i : ℕ) (v : A) → length (set xs i v) ≡ length xs
  length-set [] i v = refl
  length-set (x ∷ xs) zero v = refl
  length-set (x ∷ xs) (suc i) v = ap suc (length-set xs i v)

  -- Behind an index lie its element and the rest, which a write there leaves alone.
  pub drop-set_self :
      (xs : List A) (i : ℕ) (x v : A)
      → get_elem? xs i ≡ some x
      → drop i (set xs i v) ≡ v ∷ drop (suc i) xs
  drop-set_self [] i x v e = cc
  drop-set_self (y ∷ xs) zero x v e = refl
  drop-set_self (y ∷ xs) (suc i) x v e = drop-set_self xs i x v e

  pub drop-set-suc : (xs : List A) (i : ℕ) (v : A) → drop (suc i) (set xs i v) ≡ drop (suc i) xs
  drop-set-suc [] i v = refl
  drop-set-suc (y ∷ xs) zero v = refl
  drop-set-suc (y ∷ xs) (suc i) v = drop-set-suc xs i v

  pub drop_found :
      (xs : List A) (i : ℕ) (x : A) → get_elem? xs i ≡ some x → drop i xs ≡ x ∷ drop (suc i) xs
  drop_found [] i x e = cc
  drop_found (y ∷ xs) zero x e = ap (λ z. z ∷ xs) (some_inj e)
  drop_found (y ∷ xs) (suc i) x e = drop_found xs i x e

  pub All-get {κ} :
      (P : A → Type κ) (xs : List A) (i : ℕ) (x : A) → get_elem? xs i ≡ some x → All P xs → P x
  All-get P [] i x e h = cc
  All-get P (y ∷ xs) zero x e h = subst P (some_inj e) h.0
  All-get P (y ∷ xs) (suc i) x e h = All-get P xs i x e h.1

  pub All-set {κ} :
      (P : A → Type κ) (xs : List A) (i : ℕ) (v : A) → P v → All P xs → All P (set xs i v)
  All-set P [] i v p h = h
  All-set P (y ∷ xs) zero v p h = (p, h.1)
  All-set P (y ∷ xs) (suc i) v p h = (h.0, All-set P xs i v p h.1)

  pub total-set :
      (f : A → ℕ) (xs : List A) (i : ℕ) (x v : A)
      → get_elem? xs i ≡ some x
      → total f (set xs i v) + f x ≡ total f xs + f v
  total-set f [] i x v e = cc
  total-set f (y ∷ xs) zero x v e = omega (arith, ap f (some_inj e))
  total-set f (y ∷ xs) (suc i) x v e = omega (arith, total-set f xs i x v e)

  pub total-get :
      (f : A → ℕ) (xs : List A) (i : ℕ) (x : A) → get_elem? xs i ≡ some x → f x ≤ total f xs
  total-get f [] i x e = cc
  total-get f (y ∷ xs) zero x e = omega (arith, ap f (some_inj e))
  total-get f (y ∷ xs) (suc i) x e = omega (arith, total-get f xs i x e)

  pub lt-length_of_found : (xs : List A) (i : ℕ) (x : A) → get_elem? xs i ≡ some x → i < length xs
  lt-length_of_found [] i x e = cc
  lt-length_of_found (y ∷ xs) zero x e = omega arith
  lt-length_of_found (y ∷ xs) (suc i) x e = omega (arith, lt-length_of_found xs i x e)

  pub drop-eq-nil : (xs : List A) (i : ℕ) → length xs ≤ i → drop i xs ≡ []
  drop-eq-nil [] zero h = refl
  drop-eq-nil [] (suc i) h = refl
  drop-eq-nil (y ∷ xs) zero h = absurd (omega arith)
  drop-eq-nil (y ∷ xs) (suc i) h = drop-eq-nil xs i (omega arith)
