-- ===== src/Graph/Value.antt =====
-- graph/values.go: the values of a quad store. A Go interface value that may be nil is an option.
use cayley.Prelude.{Option, none, some, Bool, ◌≡◌, ◌↔◌, refl, true, false, Eq, ap, arith}

-- `graph.Value`, over the store's own values.
abbrev pub Value : Type 0 → Type 0
Value N = Option N

-- The method `Key` of the store's values, whose results Go compares by `==`.
pub record Keyer (N K : Type 0) : Type 0 where
  pub key : N → K
  pub eq : Eq K

module _ {N K : Type 0} (keyer : Keyer N K) where
  -- `ToKey`: nil has the key nil.
  unfoldable pub to_key : Value N → Option K
  to_key none = none
  to_key (some n) = some (keyer.key n)

  -- Go's `==` on two keys, either of which may be nil.
  unfoldable pub key_beq : Option K → Option K → Bool
  key_beq none none = true
  key_beq none (some b) = false
  key_beq (some a) none = false
  key_beq (some a) (some b) = keyer.eq.beq a b

  pub key_beq_iff : (a b : Option K) → (key_beq a b ≡ true) ↔ (a ≡ b)
  unfolding key_beq
  key_beq_iff none none = (λ _. refl, λ _. refl)
  key_beq_iff none (some b) = (λ h. cc, λ h. cc)
  key_beq_iff (some a) none = (λ h. cc, λ h. cc)
  key_beq_iff (some a) (some b) =
      (λ h. ap some ((keyer.eq.beq_iff a b).0 h), λ h. (keyer.eq.beq_iff a b).1 (ground arith))

  -- Keys as comparable values.
  pub key_eq : Eq (Option K)
  key_eq = record { beq = key_beq; beq_iff = key_beq_iff }
