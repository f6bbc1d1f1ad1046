-- ===== src/Prelude/Int64.antt =====
-- Go's int64: an integer, with the wrap-around written out. `negsuc n` is -(n + 1).
use Prim.Native.Nat.{ℕ, zero, suc, ◌+◌, ◌-◌, ◌*◌, ◌/◌, ◌%◌, ◌^◌, ◌≤◌, ◌<◌}
use mathlib.Core.Path.{◌≡◌}
use mathlib.Core.Bool.{Bool, true, false}
use native.Mathlib.Omega.{arith}
use cayley.Prelude.Outcomes.{Outcome, done, panic}
use mathlib.Core.Logic.{◌↔◌}
use cayley.Prelude.Tests.{ltb, leb, nat_beq, Eq, if◌then◌else◌}

pub data ℤ : Type 0 where
  pos : ℕ → ℤ
  negsuc : ℕ → ℤ

abbrev pub pos_part : ℤ → ℕ
pos_part (pos n) = n
pos_part (negsuc n) = 0

abbrev pub neg_part : ℤ → ℕ
neg_part (pos n) = 0
neg_part (negsuc n) = suc n

-- a - b, as an integer.
abbrev pub sub_ℕ : ℕ → ℕ → ℤ
sub_ℕ a b = if leb b a then pos (a - b) else negsuc (b - a - 1)

-- The bit pattern of an int64, as a number below 2^64, and back.
abbrev pub to_word : ℤ → ℕ
to_word (pos n) = n % 2 ^ 64
to_word (negsuc n) = 2 ^ 64 - 1 - n % 2 ^ 64

abbrev pub of_word : ℕ → ℤ
of_word w = if ltb w (2 ^ 63) then pos w else negsuc (2 ^ 64 - 1 - w)

unfoldable pub wrap64 : ℤ → ℤ
wrap64 z = of_word (to_word z)

infixl 65 ◌+ℤ◌ ◌-ℤ◌
infixl 70 ◌*ℤ◌
-- int64 sums, differences and products.
unfoldable pub ◌+ℤ◌ : ℤ → ℤ → ℤ
a +ℤ b = wrap64 (sub_ℕ (pos_part a + pos_part b) (neg_part a + neg_part b))

unfoldable pub ◌-ℤ◌ : ℤ → ℤ → ℤ
a -ℤ b = wrap64 (sub_ℕ (pos_part a + neg_part b) (neg_part a + pos_part b))

unfoldable pub ◌*ℤ◌ : ℤ → ℤ → ℤ
a *ℤ b = wrap64 (
    sub_ℕ (pos_part a * pos_part b + neg_part a * neg_part b)
      (pos_part a * neg_part b + neg_part a * pos_part b))

abbrev pub ltb_ℤ : ℤ → ℤ → Bool
ltb_ℤ a b = ltb (pos_part a + neg_part b) (pos_part b + neg_part a)

abbrev pub leb_ℤ : ℤ → ℤ → Bool
leb_ℤ a b = leb (pos_part a + neg_part b) (pos_part b + neg_part a)

pub wrap64_pos : (n : ℕ) → n < 2 ^ 63 → wrap64 (pos n) ≡ pos n
unfolding wrap64
wrap64_pos n h = ground arith

pub pos-add : (a b : ℕ) → a + b < 2 ^ 63 → pos a +ℤ pos b ≡ pos (a + b)
unfolding ◌+ℤ◌ wrap64
pos-add a b h = ground arith

pub pos-sub : (a b : ℕ) → a < 2 ^ 63 → b ≤ a → pos a -ℤ pos b ≡ pos (a - b)
unfolding ◌-ℤ◌ wrap64
pos-sub a b h k = ground arith

-- int64 quotients, towards zero. A zero divisor panics.
unfoldable pub div_ℤ : ℤ → ℤ → Outcome ℤ
unfolding wrap64
div_ℤ a (pos zero) = panic
div_ℤ (pos a) (pos (suc b)) = done (pos (a / suc b))
div_ℤ (pos a) (negsuc b) = done (sub_ℕ 0 (a / suc b))
div_ℤ (negsuc a) (pos (suc b)) = done (sub_ℕ 0 (suc a / suc b))
div_ℤ (negsuc a) (negsuc b) = done (wrap64 (pos (suc a / suc b)))

abbrev pub beq_ℤ : ℤ → ℤ → Bool
beq_ℤ (pos a) (pos b) = nat_beq a b
beq_ℤ (negsuc a) (negsuc b) = nat_beq a b
beq_ℤ a b = false

pub beq_ℤ_iff : (a b : ℤ) → (beq_ℤ a b ≡ true) ↔ (a ≡ b)
beq_ℤ_iff a b = ground arith

instance abbrev pub eq_ℤ : Eq ℤ
eq_ℤ = record { beq = beq_ℤ; beq_iff = beq_ℤ_iff }
