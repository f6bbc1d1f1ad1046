-- ===== src/Memstore/Change.antt =====
-- graph/memstore/quadstore.go: adding and deleting quads, and applying deltas.
pub mod Check
pub mod Halting
pub mod Add
use cayley.Prelude.{
  ℕ, zero, suc, Bool, true, false, not, ◌&&◌, ◌||◌, List, [], ◌∷◌, Option, none, some, String,
  string_eq, Eq, ◌==◌, nat_beq, length, Outcome, done, panic, out_of_fuel, ◌>>=◌, if◌then◌else◌,
}
use cayley.Prelude.Int64.{ℤ, pos, negsuc, ◌+ℤ◌, ltb_ℤ, eq_ℤ}
use cayley.Prelude.Assoc.{lookup, write, erase}
use cayley.Quad.{Direction, directions, Quad}
use cayley.Graph.Transaction.{Delta, add_it, delete_it, invalid}
use cayley.Memstore.{
  InternalQuad, no_quad, dir, quad_eq, Primitive, KeyTree, Naming, DirectionIndex, change_tree,
  QuadStore, add_primitive, prim_at, add_refs,
}
use cayley.Memstore.Resolve.{resolve_quad, find_quad, quad_id}

-- `IgnoreOpts`
pub record IgnoreOpts : Type 0 where
  pub ignore_dup : Bool
  pub ignore_missing : Bool

pub data Reason : Type 0 where
  quad_exists quad_not_exist invalid_action : Reason

-- `DeltaError`
pub record DeltaError (V : Type 0) : Type 0 where
  pub delta : Delta (Quad V)
  pub err : Reason

-- The loop over `qs.all` that cuts a pointer out, the first time that it stands there.
unfoldable pub cut : ℕ → List ℕ → List ℕ
cut at [] = []
cut at (x ∷ xs) = if nat_beq at x then xs else x ∷ cut at xs

-- The new value of `reading`: a slice that was cut is a new one or was not read.
unfoldable pub still_reading : ℕ → List ℕ → Bool → Bool
still_reading at [] reading = reading
still_reading at (x ∷ xs) reading = if nat_beq at x then false else still_reading at xs reading

module _ {T : Type 0} (trees : KeyTree T) where
  -- A change of all the trees that `indexesForQuad` returns.
  unfoldable pub change_trees :
      InternalQuad → (T → T) → List Direction → DirectionIndex T → Outcome (DirectionIndex T)
  change_trees q change [] x = done x
  change_trees q change (d ∷ ds) x = elim (dir q d == pos 0) [
    | true ↦ change_trees q change ds x
    | false ↦ change_tree trees d (dir q d) change x >>= λ x'. change_trees q change ds x'
  ]

module _ {V T : Type 0} (trees : KeyTree T) (naming : Naming V) where
  -- The end of `AddQuad`, for a quad that the store lacks.
  unfoldable pub insert_quad : InternalQuad → QuadStore V T → Outcome (ℤ × Bool × QuadStore V T)
  unfolding add_primitive
  insert_quad p qs =
      let pr : Primitive V = record { id = pos 0; quad = p; value = none; refs = pos 0 } in
      let at = length qs.heap in
      let (id, qs') = add_primitive pr qs in
      change_trees trees p (trees.tree_set id at) directions qs'.index >>= λ x.
      done (id, true, record qs' { quads = write p id qs'.quads; index = x })

  -- `AddQuad`
  unfoldable pub add_quad : Quad V → QuadStore V T → Outcome (ℤ × Bool × QuadStore V T)
  unfolding insert_quad
  add_quad q qs = resolve_quad naming q true qs >>= λ (p, ok, qs').
      elim (quad_id naming p qs' == pos 0) [
        | false ↦ done (quad_id naming p qs', false, qs')
        | true ↦ insert_quad p qs'
      ]

  -- What `Delete` does to the primitive `p` at the pointer `at`, before its nodes.
  unfoldable pub unlink : ℤ → ℕ × Primitive V → QuadStore V T → Outcome (QuadStore V T)
  unfolding change_trees cut still_reading
  unlink id (at, p) qs =
      change_trees trees p.quad (trees.tree_delete id) directions qs.index >>= λ x.
      done (record qs {
        vals = elim p.value [ none ↦ qs.vals | some v ↦ erase (naming.name v) qs.vals ];
        index = x;
        quads = erase p.quad qs.quads;
        prim = erase id qs.prim;
        all = cut at qs.all;
        reading = still_reading at qs.all qs.reading;
      })

  -- The loop of `deleteQuadNodes`, where `remove` is `Delete`.
  unfoldable pub delete_nodes :
      (ℤ → QuadStore V T → Outcome (Bool × QuadStore V T))
      → InternalQuad
      → List Direction
      → QuadStore V T
      → Outcome (QuadStore V T)
  delete_nodes remove q [] qs = done qs
  delete_nodes remove q (d ∷ ds) qs = elim (dir q d == pos 0) [
    | true ↦ delete_nodes remove q ds qs
    | false ↦ elim (prim_at (dir q d) qs) [
      | none ↦ delete_nodes remove q ds qs
      | some (at, p) ↦
          let refs = p.refs +ℤ negsuc 0 in
          let qs' = add_refs (negsuc 0) (at, p) qs in
          elim (ltb_ℤ refs (pos 0)) [
            | true ↦ panic
            | false ↦ elim (refs == pos 0) [
              | true ↦ remove (dir q d) qs' >>= λ (ok, qs''). delete_nodes remove q ds qs''
              | false ↦ delete_nodes remove q ds qs'
            ]
          ]
    ]
  ]

  -- `Delete`. Each call removes a primitive from the map before it calls itself, so the number of
  -- primitives bounds the depth.
  unfoldable pub delete : ℕ → ℤ → QuadStore V T → Outcome (Bool × QuadStore V T)
  unfolding unlink delete_nodes
  delete zero id qs = out_of_fuel
  delete (suc fuel) id qs = elim (prim_at id qs) [
    | none ↦ done (false, qs)
    | some (at, p) ↦ unlink id (at, p) qs >>= λ qs'.
        delete_nodes (delete fuel) p.quad directions qs' >>= λ qs''. done (true, qs'')
  ]

  -- One round of the precheck of `ApplyDeltas`: the reason to refuse a delta, if there is one.
  unfoldable pub precheck_one :
      IgnoreOpts → Delta (Quad V) → QuadStore V T → Outcome (Option Reason × QuadStore V T)
  precheck_one opts d qs = elim d.action [
    | add_it ↦ elim opts.ignore_dup [
      | true ↦ done (none, qs)
      | false ↦ find_quad naming d.quad qs >>= λ (id, p, ok, qs').
          done (if ok then some quad_exists else none, qs')
    ]
    | delete_it ↦ elim opts.ignore_missing [
      | true ↦ done (none, qs)
      | false ↦ find_quad naming d.quad qs >>= λ (id, p, ok, qs').
          done (if ok then none else some quad_not_exist, qs')
    ]
    | invalid n ↦ done (some invalid_action, qs)
  ]

  -- The loop of the precheck.
  unfoldable pub precheck :
      IgnoreOpts
      → List (Delta (Quad V))
      → QuadStore V T
      → Outcome (Option (DeltaError V) × QuadStore V T)
  unfolding precheck_one
  precheck opts [] qs = done (none, qs)
  precheck opts (d ∷ ds) qs = precheck_one opts d qs >>= λ (r, qs'). elim r [
    | some e ↦ done (some (record { delta = d; err = e }), qs')
    | none ↦ precheck opts ds qs'
  ]

  -- One round of the loop that applies the deltas.
  unfoldable pub apply_one :
      ℕ → Delta (Quad V) → QuadStore V T → Outcome (Option Reason × QuadStore V T)
  unfolding add_quad delete
  apply_one fuel d qs = elim d.action [
    | add_it ↦ add_quad d.quad qs >>= λ (id, new, qs'). done (none, qs')
    | delete_it ↦ find_quad naming d.quad qs >>= λ (id, p, ok, qs'). elim ok [
      | true ↦ delete fuel id qs' >>= λ (gone, qs''). done (none, qs'')
      | false ↦ done (none, qs')
    ]
    | invalid n ↦ done (some invalid_action, qs)
  ]

  unfoldable pub apply_all :
      ℕ → List (Delta (Quad V)) → QuadStore V T → Outcome (Option (DeltaError V) × QuadStore V T)
  unfolding apply_one
  apply_all fuel [] qs = done (none, record qs { horizon = qs.horizon +ℤ pos 1 })
  apply_all fuel (d ∷ ds) qs = apply_one fuel d qs >>= λ (r, qs'). elim r [
    | some e ↦ done (some (record { delta = d; err = e }), qs')
    | none ↦ apply_all fuel ds qs'
  ]

  -- `ApplyDeltas`
  unfoldable pub apply_deltas :
      ℕ
      → List (Delta (Quad V))
      → IgnoreOpts
      → QuadStore V T
      → Outcome (Option (DeltaError V) × QuadStore V T)
  unfolding precheck apply_all
  apply_deltas fuel deltas opts qs = elim (not opts.ignore_dup || not opts.ignore_missing) [
    | false ↦ apply_all fuel deltas qs
    | true ↦ precheck opts deltas qs >>= λ (refused, qs'). elim refused [
      | some e ↦ done (some e, qs')
      | none ↦ apply_all fuel deltas qs'
    ]
  ]
