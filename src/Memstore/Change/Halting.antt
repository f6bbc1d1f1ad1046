-- ===== src/Memstore/Change/Halting.antt =====
-- graph/memstore/quadstore.go: Delete comes to an end.
use cayley.Prelude.{
  ℕ, zero, suc, ◌≤◌, ◌<◌, Bool, true, List, [], ◌∷◌, some, Option-cases, Bool-cases, inl, inr, ◌==◌,
  length, Outcome, done, ◌>>=◌, Halts, Halts-bind, Halts-weaken, ◌≡◌, arith,
}
use cayley.Prelude.Int64.{ℤ, pos, negsuc, ◌+ℤ◌, ltb_ℤ, eq_ℤ}
use cayley.Prelude.Assoc.{lookup, length-erase_found}
use cayley.Quad.{Direction, directions, any, illegal}
use cayley.Memstore.{
  InternalQuad, dir, Primitive, KeyTree, Naming, DirectionIndex, index_at, change_tree, QuadStore,
  prim_at, add_refs,
}
use cayley.Memstore.Change.{change_trees, unlink, delete_nodes, delete}

index_at-Halts :
    {T : Type 0} (x : DirectionIndex T) (d : Direction) → Halts (index_at x d) (λ m. Unit)
index_at-Halts x any = tt
index_at-Halts x (illegal b) = tt
index_at-Halts x d = tt

module _ {V T : Type 0} (trees : KeyTree T) (naming : Naming V) where
  -- The number of primitives, after a call that deletes some or none.
  abbrev pub Fewer : QuadStore V T → QuadStore V T → Type 0
  Fewer qs r = length r.prim ≤ length qs.prim

  change_tree-Halts :
      (d : Direction) (id : ℤ) (change : T → T) (x : DirectionIndex T)
      → Halts (change_tree trees d id change x) (λ y. Unit)
  unfolding change_tree
  change_tree-Halts d id change x =
      Halts-bind (λ m. Unit) (λ y. Unit) (index_at x d) _ (index_at-Halts x d) λ m u. tt

  change_trees-Halts :
      (q : InternalQuad) (change : T → T) (ds : List Direction) (x : DirectionIndex T)
      → Halts (change_trees trees q change ds x) (λ y. Unit)
  unfolding change_trees change_tree
  change_trees-Halts q change [] x = tt
  change_trees-Halts q change (d ∷ ds) x = elim (Bool-cases (dir q d == pos 0)) [
    | inl zero_end ↦ rw (Halts, change_trees, zero_end) (change_trees-Halts q change ds x)
    | inr node ↦
        rw (Halts, change_trees, node)
          (Halts-bind (λ m. Unit) (λ y. Unit) (change_tree trees d (dir q d) change x)
            (λ x'. change_trees trees q change ds x') (change_tree-Halts d (dir q d) change x)
            λ x' u. change_trees-Halts q change ds x')
  ]

  lookup-prim_at :
      (id : ℤ) (qs : QuadStore V T) (r : ℕ × Primitive V)
      → prim_at id qs ≡ some r
      → (at : ℕ) × (lookup id qs.prim ≡ some at)
  unfolding prim_at
  lookup-prim_at id qs r h = elim (Option-cases (lookup id qs.prim)) [
    | inl gone ↦ absurd (ground (arith, rw (prim_at, gone) at h))
    | inr found ↦ found
  ]

  unlink-Halts :
      (id : ℤ) (r : ℕ × Primitive V) (qs : QuadStore V T)
      → prim_at id qs ≡ some r
      → Halts (unlink trees naming id r qs) (λ s. suc (length s.prim) ≤ length qs.prim)
  unfolding unlink
  unlink-Halts id (at, p) qs h =
      let (at', found) = lookup-prim_at id qs (at, p) h in
      Halts-bind (λ x. Unit) (λ s. suc (length s.prim) ≤ length qs.prim)
        (change_trees trees p.quad (trees.tree_delete id) directions qs.index) _
        (change_trees-Halts p.quad (trees.tree_delete id) directions qs.index)
        λ x u. length-erase_found id qs.prim at' found

  removed_then :
      (remove : ℤ → QuadStore V T → Outcome (Bool × QuadStore V T)) (n : ℕ) (q : InternalQuad)
      (ds : List Direction) (qs : QuadStore V T) (id : ℤ) (rs : QuadStore V T)
      → ((id : ℤ) (r : QuadStore V T)
          → length r.prim ≤ n
          → Halts (remove id r) (λ s. length s.1.prim ≤ length r.prim))
      → length qs.prim ≤ n
      → length rs.prim ≤ length qs.prim
      → ((s : QuadStore V T)
          → length s.prim ≤ n
          → Halts (delete_nodes trees naming remove q ds s) (λ r. length r.prim ≤ length s.prim))
      → Halts
          (remove id rs >>= λ (ok, s). delete_nodes trees naming remove q ds s)
          (λ r. length r.prim ≤ length qs.prim)
  removed_then remove n q ds qs id rs k h w rest =
      Halts-bind (λ s. length s.1.prim ≤ length rs.prim) (λ r. length r.prim ≤ length qs.prim)
        (remove id rs) (λ s. delete_nodes trees naming remove q ds s.1)
        (k id rs (omega (arith, h, w)))
        λ s u.
          Halts-weaken (λ r. length r.prim ≤ length s.1.prim) (λ r. length r.prim ≤ length qs.prim)
            (delete_nodes trees naming remove q ds s.1) (rest s.1 (omega (arith, u, h, w)))
            λ r v. omega (arith, v, u, w)

  delete_nodes-Halts :
      (remove : ℤ → QuadStore V T → Outcome (Bool × QuadStore V T)) (n : ℕ) (q : InternalQuad)
      (ds : List Direction) (qs : QuadStore V T)
      → ((id : ℤ) (r : QuadStore V T)
          → length r.prim ≤ n
          → Halts (remove id r) (λ s. length s.1.prim ≤ length r.prim))
      → length qs.prim ≤ n
      → Halts (delete_nodes trees naming remove q ds qs) (λ r. length r.prim ≤ length qs.prim)
  unfolding delete_nodes add_refs
  delete_nodes-Halts remove n q [] qs k h = omega arith
  delete_nodes-Halts remove n q (d ∷ ds) qs k h = elim (Bool-cases (dir q d == pos 0)) [
    | inl no_end ↦ rw (Halts, delete_nodes, no_end) (delete_nodes-Halts remove n q ds qs k h)
    | inr node ↦ elim (Option-cases (prim_at (dir q d) qs)) [
      | inl gone ↦ rw (Halts, delete_nodes, node, gone) (delete_nodes-Halts remove n q ds qs k h)
      | inr (r, found) ↦ elim (Bool-cases (ltb_ℤ (r.1.refs +ℤ negsuc 0) (pos 0))) [
        | inl below ↦ rw (Halts, delete_nodes, node, found, below) tt
        | inr above ↦ elim (Bool-cases (r.1.refs +ℤ negsuc 0 == pos 0)) [
          | inl last ↦
              rw (Halts, delete_nodes, node, found, above, last)
                (removed_then remove n q ds qs (dir q d) (add_refs (negsuc 0) r qs) k h
                  (omega arith) λ s w. delete_nodes-Halts remove n q ds s k w)
          | inr more ↦
              rw (Halts, delete_nodes, node, found, above, more)
                (delete_nodes-Halts remove n q ds (add_refs (negsuc 0) r qs) k h)
        ]
      ]
    ]
  ]

  -- Where the map of primitives has fewer entries than the fuel, Delete does not run out of fuel:
  -- it panics, or returns and leaves no more entries there than before.
  pub delete-Halts :
      (fuel : ℕ) (id : ℤ) (qs : QuadStore V T)
      → length qs.prim < fuel
      → Halts (delete trees naming fuel id qs) (λ r. length r.1.prim ≤ length qs.prim)
  unfolding delete unlink delete_nodes
  delete-Halts zero id qs h = absurd (omega arith)
  delete-Halts (suc fuel) id qs h = elim (Option-cases (prim_at id qs)) [
    | inl gone ↦ rw (Halts, delete, gone) (omega arith)
    | inr (r, found) ↦
        rw (Halts, delete, found)
          (let answer : QuadStore V T → Outcome (Bool × QuadStore V T) = λ t. done (true, t) in
            Halts-bind (λ s. suc (length s.prim) ≤ length qs.prim)
              (λ t. length t.1.prim ≤ length qs.prim) (unlink trees naming id r qs)
              (λ s.
                delete_nodes trees naming (delete trees naming fuel) r.1.quad directions s
                >>= answer)
              (unlink-Halts id r qs found)
              λ s u.
                Halts-bind (λ t. length t.prim ≤ length s.prim)
                  (λ t. length t.1.prim ≤ length qs.prim)
                  (delete_nodes trees naming (delete trees naming fuel) r.1.quad directions s)
                  answer
                  (delete_nodes-Halts (delete trees naming fuel) (length s.prim) r.1.quad directions
                    s (λ id' t v. delete-Halts fuel id' t (omega (arith, h, u, v))) (omega arith))
                  λ t v. omega (arith, u, v))
  ]
