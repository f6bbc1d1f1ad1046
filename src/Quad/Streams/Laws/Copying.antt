-- ===== src/Quad/Streams/Laws/Copying.antt =====
-- Copy and CopyBatch of quad/rw.go: how many of the quads of a reader get to the writer.
use cayley.Prelude.{
  ℕ, zero, suc, ◌+◌, ◌^◌, ◌<◌, ◌≤◌, List, [], ◌∷◌, ◌++◌, Option, none, some, ◌≡◌, refl, sym, ap,
  ◌∙◌, Outcome, Returns, Returns-weaken, length, take, drop, append-nil, append_assoc, arith, inl,
  inr, subst,
}
use cayley.Prelude.Int64.{ℤ, pos, negsuc, pos-add}
use cayley.Quad.{Quad}
use cayley.Quad.Streams.{
  Fault, eof, failed, Copied, copy, copy_loop, copy_batch, copy_batches, read_batch, batch_of,
  batches_step,
}
use cayley.Quad.Streams.Laws.{reported, Yields, read_batch_lem}

length-drop :
    {A : Type 0} (n : ℕ) (xs : List A) → n ≤ length xs → n + length (drop n xs) ≡ length xs
length-drop zero xs h = omega arith
length-drop (suc n) [] h = absurd (omega arith)
length-drop (suc n) (x ∷ xs) h = omega (arith, length-drop n xs (omega arith))

length-take : {A : Type 0} (n : ℕ) (xs : List A) → n ≤ length xs → length (take n xs) ≡ n
length-take zero xs h = refl
length-take (suc n) [] h = absurd (omega arith)
length-take (suc n) (x ∷ xs) h = ap suc (length-take n xs (omega arith))

take-length : {A : Type 0} (xs : List A) → take (length xs) xs ≡ xs
take-length [] = refl
take-length (x ∷ xs) = ap (λ ys. x ∷ ys) (take-length xs)

take-none : {A : Type 0} (n : ℕ) → take {A = A} n [] ≡ []
take-none zero = refl
take-none (suc n) = refl

take-add : {A : Type 0} (n m : ℕ) (xs : List A) → take (n + m) xs ≡ take n xs ++ take m (drop n xs)
take-add zero m xs = ap (λ i. take i xs) (omega arith)
take-add (suc n) m [] = take-none (suc n + m) ∙ sym (take-none m)
take-add (suc n) m (x ∷ xs) =
    let one_less : suc n + m ≡ suc (n + m) = omega arith in
    ap (λ i. take i (x ∷ xs)) one_less ∙ ap (λ ys. x ∷ ys) (take-add n m xs)

-- All but the last, incomplete batch of the size `room`, and that too up to io.EOF.
abbrev pub Most : {E : Type 0} → ℕ → ℕ → ℕ → Fault E → Type 0
Most room m n eof = m ≡ n
Most room m n (failed e) = (m ≤ n) × (n < m + room)

batch_of-positive : (z : ℤ) → 0 < batch_of z
batch_of-positive (pos zero) = omega arith
batch_of-positive (pos (suc n)) = omega arith
batch_of-positive (negsuc n) = omega arith

module _ {V E R W : Type 0} (read_quad : R → Quad V × Option (Fault E) × R)
    (view : W → List (Quad V)) where
  -- So many of the quads came to the writer, behind those it had.
  abbrev pub Wrote : W → ℕ → ℕ → List (Quad V) → Fault E → Copied E R W → Type 0
  Wrote dst k m xs end r =
      (r.n ≡ pos (k + m)) × (r.err ≡ reported end) × (view r.dst ≡ view dst ++ take m xs)

  module _ (write_quad : W → Quad V → Option (Fault E) × W)
      (accepts : (dst : W) (q : Quad V)
        → (dst' : W) × (write_quad dst q ≡ (none, dst')) × (view dst' ≡ view dst ++ q ∷ [])) where
    copy_loop_lem :
        (fuel k : ℕ) (dst : W) (src : R) (xs : List (Quad V)) (end : Fault E)
        → Yields read_quad src xs end
        → k + length xs < 2 ^ 63
        → length xs < fuel
        → Returns
            (copy_loop read_quad write_quad fuel (pos k) dst src)
            (Wrote dst k (length xs) xs end)
    unfolding copy_loop
    copy_loop_lem zero k dst src xs end y b h = absurd (omega arith)
    copy_loop_lem (suc fuel) k dst src [] eof (q, src', e) b h =
        rw (e) (ap pos (omega arith), refl, sym (append-nil (view dst)))
    copy_loop_lem (suc fuel) k dst src [] (failed c) (q, src', e) b h =
        rw (e) (ap pos (omega arith), refl, sym (append-nil (view dst)))
    copy_loop_lem (suc fuel) k dst src (x ∷ xs) end (src', e, y) b h =
        let (dst', w, v) = accepts dst x in
        rw (e, w, pos-add k 1 (omega arith))
          (Returns-weaken (Wrote dst' (k + 1) (length xs) xs end)
            (Wrote dst k (suc (length xs)) (x ∷ xs) end)
            (copy_loop read_quad write_quad fuel (pos (k + 1)) dst' src')
            (copy_loop_lem fuel (k + 1) dst' src' xs end y (omega arith) (omega arith))
            (λ r (a, c, d). (
              a ∙ ap pos (omega arith),
              c,
              d
                  ∙ ap (λ l. l ++ take (length xs) xs) v
                  ∙ append_assoc (view dst) (x ∷ []) (take (length xs) xs),
            )))

    -- Copy, from a reader that takes no batches and whose quads an int64 can count to a writer that
    -- takes every quad and no batches, returns with more fuel than quads. All the quads are written,
    -- in their order, and counted, and the error is that of the reader, with none for io.EOF.
    pub copy-all :
        (fuel : ℕ) (dst : W) (src : R) (xs : List (Quad V)) (end : Fault E)
        → Yields read_quad src xs end
        → length xs < 2 ^ 63
        → length xs < fuel
        → Returns
            (copy read_quad none write_quad none fuel dst src)
            (λ r. (r.n ≡ pos (length xs)) × (r.err ≡ reported end) × (view r.dst ≡ view dst ++ xs))
    unfolding copy
    copy-all fuel dst src xs end y b h =
        Returns-weaken (Wrote dst 0 (length xs) xs end)
          (λ r. (r.n ≡ pos (length xs)) × (r.err ≡ reported end) × (view r.dst ≡ view dst ++ xs))
          (copy_loop read_quad write_quad fuel (pos 0) dst src)
          (copy_loop_lem fuel 0 dst src xs end y (omega arith) h)
          (λ r (a, c, d).
            (a ∙ ap pos (omega arith), c, d ∙ ap (λ l. view dst ++ l) (take-length xs)))

  module _ (write_quads : W → List (Quad V) → ℤ × Option (Fault E) × W)
      (accepts : (dst : W) (qs : List (Quad V))
        → (dst' : W) × (write_quads dst qs ≡ (pos (length qs), none, dst'))
          × (view dst' ≡ view dst ++ qs)) where
    last_batch :
        (room k : ℕ) (loop : ℤ → W → R → Outcome (Copied E R W)) (dst : W) (src : R)
        (xs : List (Quad V)) (end : Fault E)
        → 0 < room
        → k + length xs < 2 ^ 63
        → length xs < room
        → Returns
            (batches_step (read_batch read_quad) write_quads loop (pos k) dst (xs, some end, src))
            (λ r. (m : ℕ) × Most room m (length xs) end × Wrote dst k m xs end r)
    last_batch room k loop dst src xs eof p b l =
        let (dst', w, v) = accepts dst xs in
        rw (w, pos-add k (length xs) b)
          (length xs, refl, (refl, refl, v ∙ ap (λ l. view dst ++ l) (sym (take-length xs))))
    last_batch room k loop dst src xs (failed c) p b l =
        (0, (omega arith, omega arith), (ap pos (omega arith), refl, sym (append-nil (view dst))))

    Most-more :
        (room m n : ℕ) (end : Fault E) → Most room m n end → Most room (room + m) (room + n) end
    Most-more room m n eof h = omega arith
    Most-more room m n (failed e) h = (omega arith, omega arith)

    copy_batches_lem :
        (room fuel k : ℕ) (dst : W) (src : R) (xs : List (Quad V)) (end : Fault E)
        → 0 < room
        → Yields read_quad src xs end
        → k + length xs < 2 ^ 63
        → length xs < fuel
        → Returns
            (copy_batches (read_batch read_quad) write_quads room fuel (pos k) dst src)
            (λ r. (m : ℕ) × Most room m (length xs) end × Wrote dst k m xs end r)
    unfolding copy_batches
    copy_batches_lem room zero k dst src xs end p y b h = absurd (omega arith)
    copy_batches_lem room (suc fuel) k dst src xs end p y b h =
        elim (read_batch_lem read_quad room xs end src y) [
          | inl (l, s, e) ↦ rw (e) (
              last_batch room k (copy_batches (read_batch read_quad) write_quads room fuel) dst s xs
                end p b l)
          | inr (l, s, e, z) ↦
              let (dst', w, v) = accepts dst (take room xs) in
              let whole = length-drop room xs l in
              rw (e, w, length-take room xs l, pos-add k room (omega arith))
                (Returns-weaken
                  (λ r.
                    (m : ℕ) × Most room m (length (drop room xs)) end
                    × Wrote dst' (k + room) m (drop room xs) end r)
                  (λ r. (m : ℕ) × Most room m (length xs) end × Wrote dst k m xs end r)
                  (copy_batches (read_batch read_quad) write_quads room fuel (pos (k + room)) dst'
                    s)
                  (copy_batches_lem room fuel (k + room) dst' s (drop room xs) end p z (omega arith)
                    (omega arith))
                  (λ r (m, most, (a, c, d)). (
                    room + m,
                    subst (λ n. Most room (room + m) n end) whole
                        (Most-more room m (length (drop room xs)) end most),
                    (
                      a ∙ ap pos (omega arith),
                      c,
                      d
                          ∙ ap (λ l. l ++ take m (drop room xs)) v
                          ∙ append_assoc (view dst) (take room xs) (take m (drop room xs))
                          ∙ ap (λ l. view dst ++ l) (sym (take-add room m xs)),
                    ),
                  )))
        ]

    -- CopyBatch, from a reader that takes no batches and whose quads an int64 can count, to a
    -- writer that takes every batch, returns with more fuel than quads. If the reader ends with
    -- io.EOF, all its quads are written, in their order, and counted, with no error. If it fails,
    -- its error is returned, and of its quads the last ones may not be written or counted, but
    -- fewer than the size of a batch.
    pub copy_batch-Most :
        (fuel : ℕ) (size : ℤ) (dst : W) (src : R) (xs : List (Quad V)) (end : Fault E)
        → Yields read_quad src xs end
        → length xs < 2 ^ 63
        → length xs < fuel
        → Returns (copy_batch (read_batch read_quad) write_quads fuel size dst src) (λ r.
          (m : ℕ) × Most (batch_of size) m (length xs) end
          × (r.n ≡ pos m)
          × (r.err ≡ reported end)
          × (view r.dst ≡ view dst ++ take m xs))
    copy_batch-Most fuel size dst src xs end y b h =
        Returns-weaken
          (λ r. (m : ℕ) × Most (batch_of size) m (length xs) end × Wrote dst 0 m xs end r)
          (λ r.
            (m : ℕ) × Most (batch_of size) m (length xs) end
            × (r.n ≡ pos m)
            × (r.err ≡ reported end)
            × (view r.dst ≡ view dst ++ take m xs))
          (copy_batches (read_batch read_quad) write_quads (batch_of size) fuel (pos 0) dst src)
          (copy_batches_lem (batch_of size) fuel 0 dst src xs end (batch_of-positive size) y
            (omega arith) h)
          (λ r (m, most, (a, c, d)). (m, most, a ∙ ap pos (omega arith), c, d))

    module _ (write_quad : W → Quad V → Option (Fault E) × W)
        (accepts_one : (dst : W) (q : Quad V)
          → (dst' : W) × (write_quad dst q ≡ (none, dst')) × (view dst' ≡ view dst ++ q ∷ [])) where
      -- From a reader that takes no batches, ends with io.EOF and has no more quads than an int64
      -- can count, and to a writer that takes every quad and every batch, Copy returns with more
      -- fuel than quads, and the count, the error and what is written are the same whether it
      -- copies quad by quad or in batches.
      pub copy-same :
          (fuel : ℕ) (dst : W) (src : R) (xs : List (Quad V))
          → Yields read_quad src xs eof
          → length xs < 2 ^ 63
          → length xs < fuel
          → Returns (copy read_quad none write_quad none fuel dst src) (λ r.
            Returns
              (copy read_quad none write_quad (some write_quads) fuel dst src)
              (λ r'. (r.n ≡ r'.n) × (r.err ≡ r'.err) × (view r.dst ≡ view r'.dst)))
      unfolding copy
      copy-same fuel dst src xs y b h =
          Returns-weaken
            (λ r. (r.n ≡ pos (length xs)) × (r.err ≡ none) × (view r.dst ≡ view dst ++ xs))
            (λ r.
              Returns (copy read_quad none write_quad (some write_quads) fuel dst src)
                (λ r'. (r.n ≡ r'.n) × (r.err ≡ r'.err) × (view r.dst ≡ view r'.dst)))
            (copy read_quad none write_quad none fuel dst src)
            (copy-all write_quad accepts_one fuel dst src xs eof y b h)
            (λ r (a, c, d).
              Returns-weaken
                (λ r'.
                  (m : ℕ) × (m ≡ length xs)
                  × (r'.n ≡ pos m)
                  × (r'.err ≡ none)
                  × (view r'.dst ≡ view dst ++ take m xs))
                (λ r'. (r.n ≡ r'.n) × (r.err ≡ r'.err) × (view r.dst ≡ view r'.dst))
                (copy_batch (read_batch read_quad) write_quads fuel (pos 0) dst src)
                (copy_batch-Most fuel (pos 0) dst src xs eof y b h)
                (λ r' (m, all, a', c', d'). (
                  a ∙ ap pos (sym all) ∙ sym a',
                  c ∙ sym c',
                  d
                      ∙ ap (λ l. view dst ++ l) (sym (take-length xs))
                      ∙ ap (λ i. view dst ++ take i xs) (sym all)
                      ∙ sym d',
                )))
