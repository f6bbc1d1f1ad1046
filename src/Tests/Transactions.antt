-- ===== src/Tests/Transactions.antt =====
-- Transactions over numbered quads.
use cayley.Prelude.{ℕ, true, false, [], ◌∷◌, ◌≡◌, refl, ◌==◌, nat_beq, nat_eq, if◌then◌else◌, ◌⊎◌}
use cayley.Graph.Transaction.{Transaction, new_transaction, add_quad, remove_quad, ad, rd}
use cayley.Graph.Transaction.Laws.{
  IsWellFormed, IsWellFormed-new, add_quad-IsWellFormed, remove_quad-IsWellFormed,
}
use cayley.Graph.Transaction.Refines.{
  after, IsStrict, IsStrict-new, add_quad-after, remove_quad-after,
}

abbrev empty : Transaction ℕ
empty = new_transaction

add_then_remove :
    remove_quad 1 (add_quad 1 (remove_quad 2 empty))
    ≡ record { ordered = rd 2 ∷ []; deltas = rd 2 ∷ [] }
unfolding add_quad remove_quad cayley.Graph.Transaction.has_delta cayley.Graph.Transaction.delta_beq
add_then_remove = refl

abbrev one : Transaction ℕ
one = record { ordered = ad 1 ∷ []; deltas = ad 1 ∷ [] }

add_quad-IsWellFormed_example : IsWellFormed (add_quad 1 empty)
add_quad-IsWellFormed_example = add_quad-IsWellFormed 1 empty IsWellFormed-new

remove_quad-IsWellFormed_example : IsWellFormed (remove_quad 1 (add_quad 1 empty))
remove_quad-IsWellFormed_example =
    remove_quad-IsWellFormed 1 (add_quad 1 empty) (add_quad-IsWellFormed 1 empty IsWellFormed-new)

add_quad-after_example :
    ((q : ℕ)
      → after (add_quad 1 empty) (nat_beq 2) q
        ≡ (if 1 == q then true else after empty (nat_beq 2) q))
    × ((after empty (nat_beq 2) 1 ≡ true) ⊎ IsStrict (add_quad 1 empty) (nat_beq 2))
add_quad-after_example = add_quad-after 1 empty (nat_beq 2) (IsStrict-new (nat_beq 2))

remove_quad-after_example :
    ((q : ℕ)
      → after (remove_quad 2 empty) (nat_beq 2) q
        ≡ (if 2 == q then false else after empty (nat_beq 2) q))
    × ((after empty (nat_beq 2) 2 ≡ false) ⊎ IsStrict (remove_quad 2 empty) (nat_beq 2))
remove_quad-after_example = remove_quad-after 2 empty (nat_beq 2) (IsStrict-new (nat_beq 2))
