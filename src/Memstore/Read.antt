-- ===== src/Memstore/Read.antt =====
-- graph/memstore/quadstore.go: what the store tells of the values that it hands out.
use cayley.Prelude.{
  Bool, true, false, not, Option, none, some, ◌==◌, Outcome, done, panic, ◌>>=◌, get_elem?, length,
  if◌then◌else◌,
}
use cayley.Prelude.Int64.{ℤ, pos, wrap64, eq_ℤ}
use cayley.Quad.{Direction, Quad}
use cayley.Memstore.{InternalQuad, no_quad, quad_eq, is_zero, dir, Naming, QuadStore, prim_at}
use cayley.Memstore.Resolve.{lookup_val, lookup_quad_dirs}
use cayley.Memstore.AllIterator.{StoreValue, bnode, qprim, as_id}

module _ {V T : Type 0} where
  -- `quad`: a node's quad, or that of a primitive, unless it is zero.
  unfoldable pub quad_of : Option StoreValue → QuadStore V T → Outcome (InternalQuad × Bool)
  quad_of none qs = done (no_quad, false)
  quad_of (some (bnode id)) qs = elim (prim_at id qs) [
    | none ↦ done (no_quad, false)
    | some (at, p) ↦ done (p.quad, not (is_zero p.quad))
  ]
  quad_of (some (qprim at)) qs = elim (get_elem? qs.heap at) [
    | none ↦ panic
    | some p ↦ done (p.quad, not (is_zero p.quad))
  ]

  -- `QuadDirection`
  unfoldable pub quad_direction :
      Option StoreValue → Direction → QuadStore V T → Outcome (Option StoreValue)
  unfolding quad_of
  quad_direction val d qs = quad_of val qs >>= λ (q, ok).
      done (if ok then (if dir q d == pos 0 then none else some (bnode (dir q d))) else none)

  -- `Size`
  unfoldable pub size : QuadStore V T → ℤ
  size qs = wrap64 (pos (length qs.prim))

module _ {V T : Type 0} (naming : Naming V) where
  -- `Quad`
  unfoldable pub quad : Option StoreValue → QuadStore V T → Outcome (Quad V)
  unfolding quad_of
  quad index qs = quad_of index qs >>= λ (q, ok). elim ok [
    | true ↦ lookup_quad_dirs naming q qs
    | false ↦ done cayley.Quad.no_quad
  ]

  -- `NameOf`, of the store's own values.
  unfoldable pub name_of : Option StoreValue → QuadStore V T → Outcome (Option V)
  unfolding as_id
  name_of v qs = as_id qs v >>= λ found. elim found [
    | none ↦ done none
    | some n ↦ elim (prim_at n qs) [
      | none ↦ done none
      | some p ↦ done (some (lookup_val naming n qs))
    ]
  ]
