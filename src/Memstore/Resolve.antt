-- ===== src/Memstore/Resolve.antt =====
-- graph/memstore/quadstore.go: from values and quads to ids, and back.
pub mod Laws
pub mod Added
pub mod Twice
use cayley.Prelude.{
  ℕ, Bool, true, false, not, ◌&&◌, ◌||◌, List, [], ◌∷◌, Option, none, some, String, string_eq, Eq,
  ◌==◌, Outcome, done, panic, ◌>>=◌, if◌then◌else◌, is_some,
}
use cayley.Prelude.Int64.{ℤ, pos, ◌+ℤ◌, beq_ℤ, eq_ℤ}
use cayley.Prelude.Assoc.{lookup, write}
use cayley.Quad.{Direction, directions, Quad, get}
use cayley.Memstore.{
  InternalQuad, no_quad, set_dir, dir, quad_eq, is_zero, Primitive, Naming, QuadStore,
  append_primitive, add_primitive, prim_at, add_refs,
}

-- A primitive without a quad.
abbrev node : {V : Type 0} → Option V → ℤ → Primitive V
node value refs = record { id = pos 0; quad = no_quad; value = value; refs = refs }

module _ {V T : Type 0} (naming : Naming V) where
  -- `resolveVal` of an internal blank node with the id `id`.
  unfoldable pub resolve_internal :
      ℤ → Bool → Option (ℕ × Primitive V) → QuadStore V T → ℤ × Bool × QuadStore V T
  resolve_internal id false found qs = (id, is_some found, qs)
  resolve_internal id true (some p) qs = (id, true, add_refs (pos 1) p qs)
  resolve_internal id true none qs =
      (id, true, append_primitive (record (node none (pos 1)) { id = id }) qs)

  -- `qs.prim[id].refs++`: a missing primitive is a nil pointer.
  unfoldable pub take_ref : ℤ → QuadStore V T → Outcome (QuadStore V T)
  take_ref id qs = elim (prim_at id qs) [ none ↦ panic | some p ↦ done (add_refs (pos 1) p qs) ]

  -- `resolveVal` of any other value, whose text has the id `known` in the map.
  unfoldable pub resolve_named :
      V → Bool → Option ℤ → QuadStore V T → Outcome (ℤ × Bool × QuadStore V T)
  resolve_named v false none qs = done (pos 0, false, qs)
  resolve_named v false (some id) qs = done (id, true, qs)
  resolve_named v true (some id) qs = take_ref id qs >>= λ qs'. done (id, true, qs')
  resolve_named v true none qs =
      let (id, qs') = add_primitive (node (some v) (pos 0)) qs in
      done (id, true, record qs' { vals = write (naming.name v) id qs'.vals })

  -- `resolveVal` of a value, where `internal` is the id that it spells.
  unfoldable pub resolve_value :
      V → Bool → Option ℤ → QuadStore V T → Outcome (ℤ × Bool × QuadStore V T)
  unfolding resolve_internal resolve_named take_ref
  resolve_value v add (some id) qs = done (resolve_internal id add (prim_at id qs) qs)
  resolve_value v add none qs = resolve_named v add (lookup (naming.name v) qs.vals) qs

  -- `resolveVal`
  unfoldable pub resolve_val : Option V → Bool → QuadStore V T → Outcome (ℤ × Bool × QuadStore V T)
  unfolding resolve_value
  resolve_val none add qs = done (pos 0, false, qs)
  resolve_val (some v) add qs = resolve_value v add (naming.internal_id v) qs

  -- The loop of `resolveQuad`.
  unfoldable pub resolve_dirs :
      Quad V
      → Bool
      → List Direction
      → InternalQuad
      → QuadStore V T
      → Outcome (InternalQuad × Bool × QuadStore V T)
  unfolding resolve_val
  resolve_dirs q add [] p qs = done (p, true, qs)
  resolve_dirs q add (d ∷ ds) p qs = get q d >>= λ v. elim v [
    | none ↦ resolve_dirs q add ds p qs
    | some w ↦ resolve_val (some w) add qs >>= λ (vid, known, qs'). elim (vid == pos 0) [
      | false ↦ set_dir p d vid >>= λ p'. resolve_dirs q add ds p' qs'
      | true ↦ elim add [ true ↦ resolve_dirs q add ds p qs' | false ↦ done (no_quad, false, qs') ]
    ]
  ]

  -- `resolveQuad`
  unfoldable pub resolve_quad :
      Quad V → Bool → QuadStore V T → Outcome (InternalQuad × Bool × QuadStore V T)
  unfolding resolve_dirs
  resolve_quad q add qs = resolve_dirs q add directions no_quad qs

  -- `qs.quads[p]`, which is 0 where the key is missing.
  abbrev pub quad_id : InternalQuad → QuadStore V T → ℤ
  quad_id p qs = elim (lookup p qs.quads) [ none ↦ pos 0 | some id ↦ id ]

  -- `findQuad`
  unfoldable pub find_quad :
      Quad V → QuadStore V T → Outcome (ℤ × InternalQuad × Bool × QuadStore V T)
  unfolding resolve_quad
  find_quad q qs = resolve_quad q false qs >>= λ (p, ok, qs'). elim ok [
    | false ↦ done (pos 0, p, false, qs')
    | true ↦ done (quad_id p qs', p, not (quad_id p qs' == pos 0), qs')
  ]

  -- `lookupVal`
  unfoldable pub lookup_val : ℤ → QuadStore V T → V
  lookup_val id qs = elim (prim_at id qs) [
    | none ↦ naming.internal_node id
    | some (at, p) ↦ elim p.value [ none ↦ naming.internal_node id | some v ↦ v ]
  ]

  -- The loop of `lookupQuadDirs`.
  unfoldable pub lookup_dirs :
      InternalQuad → List Direction → Quad V → QuadStore V T → Outcome (Quad V)
  unfolding lookup_val
  lookup_dirs p [] q qs = done q
  lookup_dirs p (d ∷ ds) q qs = elim (dir p d == pos 0) [
    | true ↦ lookup_dirs p ds q qs
    | false ↦ cayley.Quad.set q d (some (lookup_val (dir p d) qs)) >>= λ q'. lookup_dirs p ds q' qs
  ]

  -- `lookupQuadDirs`
  unfoldable pub lookup_quad_dirs : InternalQuad → QuadStore V T → Outcome (Quad V)
  unfolding lookup_dirs
  lookup_quad_dirs p qs = lookup_dirs p directions cayley.Quad.no_quad qs

  -- `AddValue`
  unfoldable pub add_value : Option V → QuadStore V T → Outcome (ℤ × Bool × QuadStore V T)
  unfolding resolve_val
  add_value v qs = resolve_val v true qs >>= λ (id, exists', qs'). done (id, not exists', qs')

  -- `AddBNode`
  unfoldable pub add_bnode : QuadStore V T → ℤ × QuadStore V T
  add_bnode qs = add_primitive (node none (pos 0)) qs

  -- `ValueOf`: the id of the node that a name has.
  unfoldable pub value_of : Option V → QuadStore V T → Option ℤ
  value_of none qs = none
  value_of (some v) qs = elim (lookup (naming.name v) qs.vals) [
    | none ↦ none
    | some id ↦ if id == pos 0 then none else some id
  ]
