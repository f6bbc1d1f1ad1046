-- ===== src/Quad/Streams/Laws.antt =====
-- The copying loops of quad/rw.go against the sequence of quads that a reader yields.
pub mod Copying
use cayley.Prelude.{
  ℕ, zero, suc, ◌+◌, ◌-◌, ◌^◌, ◌<◌, ◌≤◌, List, [], ◌∷◌, ◌++◌, Option, none, some, ◌≡◌, refl, sym,
  ap, ◌∙◌, Outcome, done, Returns, length, take, drop, ◌⊎◌, inl, inr, append-nil, append_assoc,
  arith,
}
use cayley.Quad.{Quad, no_quad}
use cayley.Quad.Streams.{
  Fault, eof, failed, read_all, read_all_loop, read_batch, read_item, new_reader, Quads,
  read_all_items,
}

-- io.EOF is no error of the loops.
abbrev pub reported : {E : Type 0} → Fault E → Option (Fault E)
reported eof = none
reported (failed e) = some (failed e)

module _ {V E R : Type 0} (read_quad : R → Quad V × Option (Fault E) × R) where
  -- The reader yields these quads, and then the error.
  abbrev pub Yields : R → List (Quad V) → Fault E → Type 0
  Yields src [] end = (q : Quad V) × (src' : R) × (read_quad src ≡ (q, some end, src'))
  Yields src (x ∷ xs) end = (src' : R) × (read_quad src ≡ (x, none, src')) × Yields src' xs end

  -- The quads of a reader up to its end, or none if it fails.
  abbrev pub unless_failed : Fault E → List (Quad V) → List (Quad V)
  unless_failed eof xs = xs
  unless_failed (failed e) xs = []

  read_all_loop_lem :
      (fuel : ℕ) (arr xs : List (Quad V)) (end : Fault E) (src : R)
      → Yields src xs end
      → length xs < fuel
      → Returns
          (read_all_loop read_quad fuel arr src)
          (λ r. (r.0 ≡ unless_failed end (arr ++ xs)) × (r.1 ≡ reported end))
  unfolding read_all_loop
  read_all_loop_lem zero arr xs end src y h = absurd (omega arith)
  read_all_loop_lem (suc fuel) arr [] eof src (q, src', e) h = rw (e) (sym (append-nil arr), refl)
  read_all_loop_lem (suc fuel) arr [] (failed c) src (q, src', e) h = rw (e) (refl, refl)
  read_all_loop_lem (suc fuel) arr (x ∷ xs) end src (src', e, y) h =
      rw (e, sym (append_assoc arr (x ∷ []) xs))
        (read_all_loop_lem fuel (arr ++ x ∷ []) xs end src' y (omega arith))

  -- What a batch of the size `room` gets, of a reader that yields these quads.
  pub read_batch_lem :
      (room : ℕ) (xs : List (Quad V)) (end : Fault E) (src : R)
      → Yields src xs end
      → ((length xs < room) × (src' : R) × (read_batch read_quad room src ≡ (xs, some end, src')))
        ⊎ ((room ≤ length xs)
            × (src' : R) × (read_batch read_quad room src ≡ (take room xs, none, src'))
            × Yields src' (drop room xs) end)
  unfolding read_batch
  read_batch_lem zero xs end src y = inr (omega arith, src, refl, y)
  read_batch_lem (suc room) [] end src (q, src', e) = inl (omega arith, src', rw (e) refl)
  read_batch_lem (suc room) (x ∷ xs) end src (src', e, y) =
      elim (read_batch_lem room xs end src' y) [
        | inl (h, s, k) ↦ inl (omega arith, s, rw (e, k) refl)
        | inr (h, s, k, z) ↦ inr (omega arith, s, rw (e, k) refl, z)
      ]

  -- ReadAll, of a reader that is no `Quads`, returns with more fuel than the reader has quads: all
  -- of them, in their order, and no error, if the reader ends with io.EOF, and else no quads and
  -- the error.
  pub read_all-unless_failed :
      (fuel : ℕ) (xs : List (Quad V)) (end : Fault E) (src : R)
      → Yields src xs end
      → length xs < fuel
      → Returns
          (read_all read_quad fuel src)
          (λ r. (r.0 ≡ unless_failed end xs) × (r.1 ≡ reported end))
  read_all-unless_failed fuel xs end src y h = read_all_loop_lem fuel [] xs end src y h

-- A reader of a slice yields the quads of the slice.
pub new_reader-Yields :
    {V : Type 0} (E : Type 0) (xs : List (Quad V))
    → Yields {E = E} read_item (some (new_reader xs)) xs eof
unfolding read_item
new_reader-Yields E [] = (no_quad, some (new_reader []), refl)
new_reader-Yields E (x ∷ xs) = (some (new_reader xs), refl, new_reader-Yields E xs)

-- ReadAll of a `Quads` gives what its general loop would give.
pub read_all_items-same :
    {V : Type 0} (E : Type 0) (fuel : ℕ) (r : Quads V)
    → length r.s < fuel
    → Returns
        (read_all {E = E} read_item fuel (some r))
        (λ a. (a.0 ≡ (read_all_items r).0) × (a.1 ≡ none))
read_all_items-same E fuel r h =
    read_all-unless_failed read_item fuel r.s eof (some r) (new_reader-Yields E r.s) h
