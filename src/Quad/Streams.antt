-- ===== src/Quad/Streams.antt =====
-- quad/rw.go: streams of quads, and the loops that copy one into another.
pub mod Laws
use cayley.Prelude.{
  ℕ, zero, suc, ◌≤◌, List, [], ◌∷◌, ◌++◌, Option, none, some, Outcome, done, out_of_fuel, Bool,
  true, false, length,
}
use cayley.Prelude.Int64.{ℤ, pos, negsuc, ◌+ℤ◌}
use cayley.Quad.{Quad, no_quad}

-- An error that a stream returns: io.EOF, or another one.
pub data Fault (E : Type 0) : Type 0 where
  eof : Fault E
  failed : E → Fault E

-- `Quads`: a slice of quads, as a reader and as a writer.
pub record Quads (V : Type 0) : Type 0 where
  pub s : List (Quad V)

module _ {V E : Type 0} where
  -- `WriteQuad`
  unfoldable pub write_item : Quads V → Quad V → Option (Fault E) × Quads V
  write_item r q = (none, record { s = r.s ++ q ∷ [] })

  abbrev first_item : List (Quad V) → Quad V × Option (Fault E) × Option (Quads V)
  first_item [] = (no_quad, some eof, some (record { s = [] }))
  first_item (q ∷ rest) = (q, none, some (record { s = rest }))

  -- `ReadQuad`, of a pointer that may be nil.
  unfoldable pub read_item : Option (Quads V) → Quad V × Option (Fault E) × Option (Quads V)
  read_item none = (no_quad, some eof, none)
  read_item (some r) = first_item r.s

-- `ReadAll`, of a reader that is a `Quads`.
abbrev pub read_all_items : {V : Type 0} → Quads V → List (Quad V) × Quads V
read_all_items r = (r.s, record { s = [] })

-- `NewReader`
abbrev pub new_reader : {V : Type 0} → List (Quad V) → Quads V
new_reader items = record { s = items }

-- What the copying loops return, with the writer and the reader as they leave them.
pub record Copied (E R W : Type 0) : Type 0 where
  pub n : ℤ
  pub err : Option (Fault E)
  pub dst : W
  pub src : R

-- `DefaultBatch`
abbrev pub default_batch : ℕ
default_batch = 10000

-- The batch size that CopyBatch uses.
abbrev pub batch_of : ℤ → ℕ
batch_of (pos zero) = default_batch
batch_of (pos (suc n)) = suc n
batch_of (negsuc n) = default_batch

-- The readers: `ReadQuad` is `read_quad`.
module _ {V E R : Type 0} (read_quad : R → Quad V × Option (Fault E) × R) where
  -- The body of the loop of `ReadQuads`, on what ReadQuad returned.
  abbrev batch_step :
      (R → List (Quad V) × Option (Fault E) × R)
      → Quad V × Option (Fault E) × R
      → List (Quad V) × Option (Fault E) × R
  batch_step loop (q, some e, src) = ([], some e, src)
  batch_step loop (q, none, src) = (q ∷ (loop src).0, (loop src).1, (loop src).2)

  -- `batchReader.ReadQuads`, into a buffer with room for so many quads.
  unfoldable pub read_batch : ℕ → R → List (Quad V) × Option (Fault E) × R
  read_batch zero src = ([], none, src)
  read_batch (suc room) src = batch_step (read_batch room) (read_quad src)

  abbrev all_step :
      (List (Quad V) → R → Outcome (List (Quad V) × Option (Fault E) × R))
      → List (Quad V)
      → Quad V × Option (Fault E) × R
      → Outcome (List (Quad V) × Option (Fault E) × R)
  all_step loop arr (q, some eof, src) = done (arr, none, src)
  all_step loop arr (q, some (failed e), src) = done ([], some (failed e), src)
  all_step loop arr (q, none, src) = loop (arr ++ q ∷ []) src

  -- The loop of `ReadAll`.
  unfoldable pub read_all_loop :
      ℕ → List (Quad V) → R → Outcome (List (Quad V) × Option (Fault E) × R)
  read_all_loop zero arr src = out_of_fuel
  read_all_loop (suc fuel) arr src = all_step (read_all_loop fuel) arr (read_quad src)

  -- `ReadAll`, of a reader that is no `Quads`.
  abbrev pub read_all : ℕ → R → Outcome (List (Quad V) × Option (Fault E) × R)
  read_all fuel src = read_all_loop fuel [] src

  -- Copying to a writer: `WriteQuad` is `write_quad`.
  module _ {W : Type 0} (write_quad : W → Quad V → Option (Fault E) × W) where
    abbrev copy_written :
        (ℤ → W → R → Outcome (Copied E R W)) → ℤ → R → Option (Fault E) × W → Outcome (Copied E R W)
    copy_written loop n src (some e, dst) =
        done (record { n = n; err = some e; dst = dst; src = src })
    copy_written loop n src (none, dst) = loop (n +ℤ pos 1) dst src

    abbrev copy_step :
        (ℤ → W → R → Outcome (Copied E R W))
        → ℤ
        → W
        → Quad V × Option (Fault E) × R
        → Outcome (Copied E R W)
    copy_step loop n dst (q, some eof, src) =
        done (record { n = n; err = none; dst = dst; src = src })
    copy_step loop n dst (q, some (failed e), src) =
        done (record { n = n; err = some (failed e); dst = dst; src = src })
    copy_step loop n dst (q, none, src) = copy_written loop n src (write_quad dst q)

    -- The loop of `Copy`, to a writer that takes no batches.
    unfoldable pub copy_loop : ℕ → ℤ → W → R → Outcome (Copied E R W)
    copy_loop zero n dst src = out_of_fuel
    copy_loop (suc fuel) n dst src = copy_step (copy_loop fuel) n dst (read_quad src)

-- Copying in batches: `ReadQuads` into a buffer of the size `room` is `read_quads room`, and
-- `WriteQuads` is `write_quads`.
module _ {V E R W : Type 0} (read_quads : ℕ → R → List (Quad V) × Option (Fault E) × R)
    (write_quads : W → List (Quad V) → ℤ × Option (Fault E) × W) where
  abbrev written_step :
      (ℤ → W → R → Outcome (Copied E R W))
      → ℤ
      → R
      → ℤ × Option (Fault E) × W
      → Outcome (Copied E R W)
  written_step loop cnt src (n, some e, dst) =
      done (record { n = cnt +ℤ n; err = some e; dst = dst; src = src })
  written_step loop cnt src (n, none, dst) = loop (cnt +ℤ n) dst src

  abbrev last_step : ℤ → R → ℤ × Option (Fault E) × W → Outcome (Copied E R W)
  last_step cnt src (n, err, dst) = done (record { n = cnt +ℤ n; err = err; dst = dst; src = src })

  abbrev pub batches_step :
      (ℤ → W → R → Outcome (Copied E R W))
      → ℤ
      → W
      → List (Quad V) × Option (Fault E) × R
      → Outcome (Copied E R W)
  batches_step loop cnt dst (buf, some (failed e), src) =
      done (record { n = cnt; err = some (failed e); dst = dst; src = src })
  batches_step loop cnt dst (buf, some eof, src) = last_step cnt src (write_quads dst buf)
  batches_step loop cnt dst (buf, none, src) = written_step loop cnt src (write_quads dst buf)

  unfoldable pub copy_batches : ℕ → ℕ → ℤ → W → R → Outcome (Copied E R W)
  copy_batches room zero cnt dst src = out_of_fuel
  copy_batches room (suc fuel) cnt dst src =
      batches_step (copy_batches room fuel) cnt dst (read_quads room src)

  -- `CopyBatch`
  abbrev pub copy_batch : ℕ → ℤ → W → R → Outcome (Copied E R W)
  copy_batch fuel batch_size dst src = copy_batches (batch_of batch_size) fuel (pos 0) dst src

-- What CopyBatch reads from: the reader itself if it reads batches, and else `batchReader`.
abbrev pub batch_source :
    {V E R : Type 0}
    → (R → Quad V × Option (Fault E) × R)
    → Option (ℕ → R → List (Quad V) × Option (Fault E) × R)
    → ℕ
    → R
    → List (Quad V) × Option (Fault E) × R
batch_source read_quad none = read_batch read_quad
batch_source read_quad (some read_quads) = read_quads

-- `Copy`, from a reader and to a writer that may also take batches.
unfoldable pub copy :
    {V E R W : Type 0}
    → (R → Quad V × Option (Fault E) × R)
    → Option (ℕ → R → List (Quad V) × Option (Fault E) × R)
    → (W → Quad V → Option (Fault E) × W)
    → Option (W → List (Quad V) → ℤ × Option (Fault E) × W)
    → ℕ
    → W
    → R
    → Outcome (Copied E R W)
copy read_quad read_quads write_quad none fuel dst src =
    copy_loop read_quad write_quad fuel (pos 0) dst src
copy read_quad read_quads write_quad (some write_quads) fuel dst src =
    copy_batch (batch_source read_quad read_quads) write_quads fuel (pos 0) dst src
