-- ===== src/Tests/Streams.antt =====
-- Copying quads between slices, and from a reader that fails.
use cayley.Prelude.{
  ℕ, zero, suc, ◌++◌, List, [], ◌∷◌, Option, none, some, ◌≡◌, refl, done, Returns, length, take,
  arith,
}
use cayley.Prelude.Int64.{ℤ, pos, ◌+ℤ◌, wrap64}
use cayley.Quad.{Quad, no_quad}
use cayley.Quad.Streams.{
  Fault, eof, failed, Quads, new_reader, read_item, write_item, read_batch, read_all, copy,
  copy_batch, copy_batches,
}
use cayley.Quad.Streams.Laws.{read_all-unless_failed, new_reader-Yields}
use cayley.Quad.Streams.Laws.Copying.{Most, copy-all, copy-same, copy_batch-Most}

abbrev quad_of : ℕ → Quad ℕ
quad_of n = record { subject = some n; predicate = some 7; object = some 2; label = none }

abbrev two_quads : List (Quad ℕ)
two_quads = quad_of 1 ∷ quad_of 3 ∷ []

-- A reader of so many quads more, which then fails with the error 5.
abbrev countdown : ℕ → Quad ℕ × Option (Fault ℕ) × ℕ
countdown zero = (no_quad, some (failed 5), zero)
countdown (suc n) = (quad_of n, none, n)

abbrev empty : Quads ℕ
empty = new_reader []

abbrev write_quads : Quads ℕ → List (Quad ℕ) → ℤ × Option (Fault ℕ) × Quads ℕ
write_quads r qs = (pos (length qs), none, record { s = r.s ++ qs })

read_all-unless_failed_example :
    Returns
      (read_all {E = ℕ} read_item 3 (some (new_reader two_quads)))
      (λ r. (r.0 ≡ two_quads) × (r.1 ≡ none))
read_all-unless_failed_example =
    read_all-unless_failed read_item 3 two_quads eof (some (new_reader two_quads))
      (new_reader-Yields ℕ two_quads) (omega arith)

copy-all_example :
    Returns
      (copy countdown none write_item none 3 empty 2)
      (λ r. (r.n ≡ pos 2) × (r.err ≡ some (failed 5)) × (r.dst.s ≡ quad_of 1 ∷ quad_of 0 ∷ []))
unfolding write_item
copy-all_example =
    copy-all countdown (λ w. w.s) write_item (λ dst q. (record { s = dst.s ++ q ∷ [] }, refl, refl))
      3 empty 2 (quad_of 1 ∷ quad_of 0 ∷ []) (failed 5) (1, refl, (0, refl, (no_quad, 0, refl)))
      (omega arith) (omega arith)

copy-same_example :
    Returns
      (copy {E = ℕ} read_item none write_item none 3 empty (some (new_reader two_quads)))
      (λ r.
        Returns
          (copy read_item none write_item (some write_quads) 3 empty (some (new_reader two_quads)))
          (λ r'. (r.n ≡ r'.n) × (r.err ≡ r'.err) × (r.dst.s ≡ r'.dst.s)))
unfolding write_item
copy-same_example =
    copy-same read_item (λ w. w.s) write_quads (λ dst qs. (record { s = dst.s ++ qs }, refl, refl))
      write_item (λ dst q. (record { s = dst.s ++ q ∷ [] }, refl, refl)) 3 empty
      (some (new_reader two_quads)) two_quads (new_reader-Yields ℕ two_quads) (omega arith)
      (omega arith)

copy_batch-Most_example :
    Returns (copy_batch (read_batch countdown) write_quads 4 (pos 2) empty 3) (λ r.
      (m : ℕ) × Most {E = ℕ} 2 m 3 (failed 5)
      × (r.n ≡ pos m)
      × (r.err ≡ some (failed 5))
      × (r.dst.s ≡ take m (quad_of 2 ∷ quad_of 1 ∷ quad_of 0 ∷ [])))
copy_batch-Most_example =
    copy_batch-Most countdown (λ w. w.s) write_quads
      (λ dst qs. (record { s = dst.s ++ qs }, refl, refl)) 4 (pos 2) empty 3
      (quad_of 2 ∷ quad_of 1 ∷ quad_of 0 ∷ []) (failed 5)
      (2, refl, (1, refl, (0, refl, (no_quad, 0, refl)))) (omega arith) (omega arith)

-- The third quad was read, and a copy without batches writes it.
copy_batch-lost :
    copy_batch (read_batch countdown) write_quads 4 (pos 2) empty 3
    ≡ done (record {
      n = pos 2;
      err = some (failed 5);
      dst = new_reader (quad_of 2 ∷ quad_of 1 ∷ []);
      src = 0;
    })
unfolding copy_batches read_batch ◌+ℤ◌ wrap64
copy_batch-lost = refl
