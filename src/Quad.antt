-- ===== src/Quad.antt =====
-- quad/quad.go: quads and their directions, over a type `V` of values. A nil value is `none`.
pub mod Streams
use cayley.Prelude.{
  ℕ, List, [], ◌∷◌, Option, none, Outcome, done, panic, Bool, true, false, nat_beq, Eq, ◌≡◌, ◌↔◌,
  arith,
}

-- `Direction`, a byte: one of the five constants, or a value that is none of them.
pub data Direction : Type 0 where
  any subject predicate object label : Direction
  illegal : ℕ → Direction

-- Go's `==` on directions.
unfoldable pub direction_beq : Direction → Direction → Bool
direction_beq any any = true
direction_beq subject subject = true
direction_beq predicate predicate = true
direction_beq object object = true
direction_beq label label = true
direction_beq (illegal a) (illegal b) = nat_beq a b
direction_beq a b = false

pub direction_beq_iff : (a b : Direction) → (direction_beq a b ≡ true) ↔ (a ≡ b)
unfolding direction_beq
direction_beq_iff a b = ground arith

instance abbrev pub direction_eq : Eq Direction
direction_eq = record { beq = direction_beq; beq_iff = direction_beq_iff }

-- A direction other than quad.Any.
abbrev pub is_set : Direction → Bool
is_set any = false
is_set d = true

-- `Directions`
abbrev pub directions : List Direction
directions = subject ∷ predicate ∷ object ∷ label ∷ []

pub record Quad (V : Type 0) : Type 0 where
  pub subject : Option V
  pub predicate : Option V
  pub object : Option V
  pub label : Option V

module _ {V : Type 0} where
  -- The zero value.
  abbrev pub no_quad : Quad V
  no_quad = record { subject = none; predicate = none; object = none; label = none }

  -- `Get`
  unfoldable pub get : Quad V → Direction → Outcome (Option V)
  get q subject = done q.subject
  get q predicate = done q.predicate
  get q label = done q.label
  get q object = done q.object
  get q any = panic
  get q (illegal b) = panic

  -- `Set`
  unfoldable pub set : Quad V → Direction → Option V → Outcome (Quad V)
  set q subject v = done (record q { subject = v })
  set q predicate v = done (record q { predicate = v })
  set q label v = done (record q { label = v })
  set q object v = done (record q { object = v })
  set q any v = panic
  set q (illegal b) v = panic
