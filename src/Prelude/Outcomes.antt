-- ===== src/Prelude/Outcomes.antt =====
-- What a call comes to: it returns, it panics (a nil pointer, an index out of range), or the fuel
-- that stands for its loops runs out.
use mathlib.Core.Path.{◌≡◌, refl}

pub data Outcome {ℓ} (A : Type ℓ) : Type ℓ where
  done : A → Outcome A
  panic : Outcome A
  out_of_fuel : Outcome A

infixl 5 ◌>>=◌
abbrev pub ◌>>=◌ {ℓ κ} : {A : Type ℓ} {B : Type κ} → Outcome A → (A → Outcome B) → Outcome B
done a >>= f = f a
panic >>= f = panic
out_of_fuel >>= f = out_of_fuel

-- The call returns, and its result satisfies `P`.
abbrev pub Returns {ℓ} : {A : Type ℓ} → Outcome A → (A → Type 0) → Type 0
Returns (done a) P = P a
Returns panic P = ⊥
Returns out_of_fuel P = ⊥

pub Returns-bind {ℓ} :
    {A : Type ℓ} {B : Type ℓ} (P : A → Type 0) (Q : B → Type 0) (m : Outcome A) (f : A → Outcome B)
    → Returns m P
    → ((a : A) → P a → Returns (f a) Q)
    → Returns (m >>= f) Q
Returns-bind P Q (done a) f h k = k a h
Returns-bind P Q panic f h k = absurd h
Returns-bind P Q out_of_fuel f h k = absurd h

pub Returns-weaken {ℓ} :
    {A : Type ℓ} (P : A → Type 0) (Q : A → Type 0) (m : Outcome A)
    → Returns m P
    → ((a : A) → P a → Q a)
    → Returns m Q
Returns-weaken P Q (done a) h k = k a h
Returns-weaken P Q panic h k = absurd h
Returns-weaken P Q out_of_fuel h k = absurd h

-- The value of a call that returns.
pub Returns-value {ℓ} :
    {A : Type ℓ} (P : A → Type 0) (m : Outcome A) → Returns m P → (a : A) × (m ≡ done a) × P a
Returns-value P (done a) h = (a, refl, h)
Returns-value P panic h = absurd h
Returns-value P out_of_fuel h = absurd h

pub bind_assoc {ℓ} :
    {A B C : Type ℓ} (m : Outcome A) (f : A → Outcome B) (g : B → Outcome C)
    → (m >>= f >>= g) ≡ (m >>= λ a. f a >>= g)
bind_assoc (done a) f g = refl
bind_assoc panic f g = refl
bind_assoc out_of_fuel f g = refl

-- The call does not run out of fuel: it panics, or returns a result that satisfies `P`.
abbrev pub Halts {ℓ} : {A : Type ℓ} → Outcome A → (A → Type 0) → Type 0
Halts (done a) P = P a
Halts panic P = Unit
Halts out_of_fuel P = ⊥

pub Halts-bind {ℓ} :
    {A : Type ℓ} {B : Type ℓ} (P : A → Type 0) (Q : B → Type 0) (m : Outcome A) (f : A → Outcome B)
    → Halts m P
    → ((a : A) → P a → Halts (f a) Q)
    → Halts (m >>= f) Q
Halts-bind P Q (done a) f h k = k a h
Halts-bind P Q panic f h k = tt
Halts-bind P Q out_of_fuel f h k = absurd h

pub Halts-weaken {ℓ} :
    {A : Type ℓ} (P : A → Type 0) (Q : A → Type 0) (m : Outcome A)
    → Halts m P
    → ((a : A) → P a → Q a)
    → Halts m Q
Halts-weaken P Q (done a) h k = k a h
Halts-weaken P Q panic h k = tt
Halts-weaken P Q out_of_fuel h k = absurd h

pub bind-ext {ℓ} :
    {A B : Type ℓ} (m : Outcome A) (f g : A → Outcome B)
    → ((a : A) → f a ≡ g a)
    → (m >>= f) ≡ (m >>= g)
bind-ext (done a) f g h = h a
bind-ext panic f g h = refl
bind-ext out_of_fuel f g h = refl
