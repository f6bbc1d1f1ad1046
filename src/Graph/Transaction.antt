-- ===== src/Graph/Transaction.antt =====
-- graph/transaction.go: the deltas of a transaction, in order and without duplicates. The Go map
-- `deltas` is the list of its keys.
pub mod Laws
pub mod Refines
use cayley.Prelude.{
  ℕ, nat_beq, Bool, true, false, ◌&&◌, ◌||◌, List, [], ◌∷◌, ◌++◌, Eq, ◌==◌, if◌then◌else◌,
}

-- `Procedure` of quadwriter.go, an int8: +1, -1, or some other value, which is invalid.
pub data Procedure : Type 0 where
  add_it delete_it : Procedure
  invalid : ℕ → Procedure

pub record Delta (Q : Type 0) : Type 0 where
  pub quad : Q
  pub action : Procedure

abbrev pub procedure_beq : Procedure → Procedure → Bool
procedure_beq add_it add_it = true
procedure_beq delete_it delete_it = true
procedure_beq (invalid a) (invalid b) = nat_beq a b
procedure_beq p q = false

pub record Transaction (Q : Type 0) : Type 0 where
  pub ordered : List (Delta Q)
  pub deltas : List (Delta Q)

-- `NewTransaction`
abbrev pub new_transaction : {Q : Type 0} → Transaction Q
new_transaction = record { ordered = []; deltas = [] }

module _ {Q : Type 0} ⦃e : Eq Q⦄ where
  -- Go's `==` on deltas.
  unfoldable pub delta_beq : Delta Q → Delta Q → Bool
  delta_beq a b = a.quad == b.quad && procedure_beq a.action b.action

  -- `_, exists := t.deltas[d]`
  unfoldable pub has_delta : Delta Q → List (Delta Q) → Bool
  has_delta d [] = false
  has_delta d (x ∷ ds) = delta_beq x d || has_delta d ds

  -- `delete(t.deltas, d)`
  unfoldable pub forget : Delta Q → List (Delta Q) → List (Delta Q)
  forget d [] = []
  forget d (x ∷ ds) = if delta_beq x d then forget d ds else x ∷ forget d ds

  -- The loop of `deleteDelta`: the first occurrence is cut out.
  unfoldable pub cut : Delta Q → List (Delta Q) → List (Delta Q)
  cut d [] = []
  cut d (x ∷ ds) = if delta_beq x d then ds else x ∷ cut d ds

  -- `addDelta`
  unfoldable pub add_delta : Delta Q → Transaction Q → Transaction Q
  add_delta d t = record { ordered = t.ordered ++ d ∷ []; deltas = d ∷ t.deltas }

  -- `deleteDelta`
  unfoldable pub delete_delta : Delta Q → Transaction Q → Transaction Q
  unfolding forget cut
  delete_delta d t = record { ordered = cut d t.ordered; deltas = forget d t.deltas }

  -- `createDeltas`
  abbrev pub ad : Q → Delta Q
  ad q = record { quad = q; action = add_it }

  abbrev pub rd : Q → Delta Q
  rd q = record { quad = q; action = delete_it }

  -- `AddQuad`
  unfoldable pub add_quad : Q → Transaction Q → Transaction Q
  unfolding add_delta delete_delta
  add_quad q t =
      if has_delta (ad q) t.deltas
      then t
      else if has_delta (rd q) t.deltas
      then delete_delta (rd q) t
      else add_delta (ad q) t

  -- `RemoveQuad`
  unfoldable pub remove_quad : Q → Transaction Q → Transaction Q
  unfolding add_delta delete_delta
  remove_quad q t =
      if has_delta (ad q) t.deltas
      then delete_delta (ad q) t
      else if has_delta (rd q) t.deltas
      then t
      else add_delta (rd q) t
