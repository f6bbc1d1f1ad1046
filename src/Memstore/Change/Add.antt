-- ===== src/Memstore/Change/Add.antt =====
-- `AddQuad` against `findQuad`: what was added is found.
use cayley.Prelude.{
  suc, Bool, true, false, List, [], ◌∷◌, none, ◌≡◌, refl, ap, ◌∙◌, inl, inr, All, done, ◌>>=◌,
  Returns, Bool-cases, string_eq, ◌==◌, length, arith,
}
use cayley.Prelude.Int64.{ℤ, pos, ◌+ℤ◌, pos-add, eq_ℤ}
use cayley.Prelude.Assoc.{write, lookup-write}
use cayley.Quad.{Direction, subject, predicate, object, label, any, illegal, directions, Quad}
use cayley.Memstore.{
  InternalQuad, no_quad, dir, quad_eq, quad_beq_iff, Primitive, KeyTree, Naming, DirectionIndex,
  change_tree, QuadStore, append_primitive, prim_at,
}
use cayley.Memstore.Resolve.{resolve_quad, find_quad, quad_id}
use cayley.Memstore.Resolve.Laws.{IsLegal}
use cayley.Memstore.Resolve.Added.{IsSound, HasRoom, Extends, IsPresent-append}
use cayley.Memstore.Resolve.Twice.{IsPlain, HasRoom-weaken, resolve_dirs-Resolved}
use cayley.Memstore.Change.{change_trees, insert_quad, add_quad}

module _ {T : Type 0} (trees : KeyTree T) where
  change_tree-legal :
      (d : Direction) (id : ℤ) (change : T → T) (x : DirectionIndex T)
      → IsLegal d
      → (x' : DirectionIndex T) × (change_tree trees d id change x ≡ done x')
  unfolding change_tree
  change_tree-legal subject id change x h = (_, refl)
  change_tree-legal predicate id change x h = (_, refl)
  change_tree-legal object id change x h = (_, refl)
  change_tree-legal label id change x h = (_, refl)
  change_tree-legal any id change x h = absurd h
  change_tree-legal (illegal b) id change x h = absurd h

  change_trees_next :
      (q : InternalQuad) (change : T → T) (d : Direction) (ds : List Direction)
      (x x1 : DirectionIndex T)
      → (dir q d == pos 0) ≡ false
      → change_tree trees d (dir q d) change x ≡ done x1
      → change_trees trees q change (d ∷ ds) x ≡ change_trees trees q change ds x1
  unfolding change_trees
  change_trees_next q change d ds x x1 used changed = rw (change_trees, used, changed, ◌>>=◌) refl

  -- The trees of the four directions can be changed.
  pub change_trees-legal :
      (q : InternalQuad) (change : T → T) (ds : List Direction) (x : DirectionIndex T)
      → All IsLegal ds
      → (x' : DirectionIndex T) × (change_trees trees q change ds x ≡ done x')
  unfolding change_trees
  change_trees-legal q change [] x h = (x, refl)
  change_trees-legal q change (d ∷ ds) x (l, ls) = elim (Bool-cases (dir q d == pos 0)) [
    | inl unused ↦
        let (x', rest) = change_trees-legal q change ds x ls in (x', rw (change_trees, unused) rest)
    | inr used ↦
        let (x1, changed) = change_tree-legal d (dir q d) change x l in
        let (x', rest) = change_trees-legal q change ds x1 ls in
        (x', change_trees_next q change d ds x x1 used changed ∙ rest)
  ]

module _ {V T : Type 0} (naming : Naming V) where
  -- A quad that resolves is found if the map has an id for it.
  find_quad_of :
      (q : Quad V) (p : InternalQuad) (qs : QuadStore V T)
      → resolve_quad naming q false qs ≡ done (p, true, qs)
      → (quad_id naming p qs == pos 0) ≡ false
      → find_quad naming q qs ≡ done (quad_id naming p qs, p, true, qs)
  unfolding find_quad
  find_quad_of q p qs resolved known = rw (find_quad, resolved, ◌>>=◌, known) refl

-- The store with a quad that is new in it.
abbrev with_quad :
    {V T : Type 0} → InternalQuad → ℤ → DirectionIndex T → QuadStore V T → QuadStore V T
with_quad {V} p id x qs =
    let pr : Primitive V = record { id = id; quad = p; value = none; refs = pos 1 } in
    let qs' = append_primitive pr (record qs { last = id }) in
    record qs' { quads = write p id qs'.quads; index = x }

module _ {V T : Type 0} (trees : KeyTree T) (naming : Naming V) where
  insert_quad-done :
      (p : InternalQuad) (qs : QuadStore V T)
      → (x : DirectionIndex T) × (insert_quad trees naming p qs
          ≡ done (qs.last +ℤ pos 1, true, with_quad p (qs.last +ℤ pos 1) x qs))
  unfolding insert_quad append_primitive
  insert_quad-done p qs =
      let id = qs.last +ℤ pos 1 in
      let (x, changed) =
        change_trees-legal trees p (trees.tree_set id (length qs.heap)) directions qs.index
          (tt, (tt, (tt, (tt, tt)))) in
      (x, rw (changed, ◌>>=◌) refl)

  quad_id-with_quad :
      (p : InternalQuad) (id : ℤ) (x : DirectionIndex T) (qs : QuadStore V T)
      → quad_id naming p (with_quad p id x qs) ≡ id
  unfolding append_primitive
  quad_id-with_quad p id x qs =
      let same = (quad_beq_iff p p).1 refl in rw (quad_id, lookup-write p p id qs.quads, same) refl

  IsSound-with_quad :
      (p : InternalQuad) (id : ℤ) (x : DirectionIndex T) (qs : QuadStore V T)
      → IsSound qs
      → IsSound (with_quad p id x qs)
  unfolding append_primitive prim_at
  IsSound-with_quad p id x qs h = record {
    nonzero = h.nonzero;
    present = λ s j e.
        IsPresent-append j (record { id = id; quad = p; value = none; refs = pos 1 }) qs
          (h.present s j e);
  }

  Extends-with_quad :
      (p : InternalQuad) (id : ℤ) (x : DirectionIndex T) (qs : QuadStore V T)
      → Extends qs (with_quad p id x qs)
  unfolding append_primitive
  Extends-with_quad p id x qs = record { names = λ s j e. e }

  -- What `AddQuad` promises: the store stays sound, and the quad is found under the id returned.
  pub record IsAdded (q : Quad V) (r : ℤ × Bool × QuadStore V T) : Type 0 where
    pub sound : IsSound r.2
    pub found : Returns (find_quad naming q r.2) (λ f. (f.0 ≡ r.0) × (f.2 ≡ true) × (f.3 ≡ r.2))

  -- The end of `AddQuad`, behind the resolved quad.
  IsAdded-known :
      (q : Quad V) (p : InternalQuad) (qs : QuadStore V T)
      → IsSound qs
      → resolve_quad naming q false qs ≡ done (p, true, qs)
      → (quad_id naming p qs == pos 0) ≡ false
      → IsAdded q (quad_id naming p qs, false, qs)
  IsAdded-known q p qs s resolved known = record {
    sound = s;
    found = rw (Returns, find_quad_of naming q p qs resolved known) (refl, refl, refl);
  }

  IsAdded-new :
      (q : Quad V) (p : InternalQuad) (id : ℤ) (x : DirectionIndex T) (qs : QuadStore V T)
      → IsSound qs
      → resolve_quad naming q false (with_quad p id x qs) ≡ done (p, true, with_quad p id x qs)
      → (id == pos 0) ≡ false
      → IsAdded q (id, true, with_quad p id x qs)
  IsAdded-new q p id x qs s resolved nonzero =
      let own = quad_id-with_quad p id x qs in
      let known = ap (λ i. i == pos 0) own ∙ nonzero in
      record {
        sound = IsSound-with_quad p id x qs s;
        found =
            rw (Returns, find_quad_of naming q p (with_quad p id x qs) resolved known)
              (own, refl, refl);
      }

  add_resolved :
      (q : Quad V) (p : InternalQuad) (qs qs1 : QuadStore V T)
      → resolve_quad naming q true qs ≡ done (p, true, qs1)
      → IsSound qs1
      → HasRoom 1 qs1
      → ((later : QuadStore V T)
          → Extends qs1 later
          → resolve_quad naming q false later ≡ done (p, true, later))
      → Returns (add_quad trees naming q qs) (IsAdded q)
  unfolding add_quad
  add_resolved q p qs qs1 resolved sound room again =
      elim (Bool-cases (quad_id naming p qs1 == pos 0)) [
        | inr known ↦
            rw (Returns, add_quad, resolved, ◌>>=◌, known)
              (IsAdded-known q p qs1 sound (again qs1 (record { names = λ s j e. e })) known)
        | inl new ↦
            let (x, inserted) = insert_quad-done p qs1 in
            let id = qs1.last +ℤ pos 1 in
            let next_id : id ≡ pos (suc room.count) =
              ap (λ l. l +ℤ pos 1) room.is_last
              ∙ pos-add room.count 1 (omega (arith, room.below))
              ∙ ap pos {y = suc room.count} (omega arith) in
            let nonzero : (id == pos 0) ≡ false = ap (λ i. i == pos 0) next_id ∙ ground arith in
            rw (Returns, add_quad, resolved, ◌>>=◌, new, inserted)
              (IsAdded-new q p id x qs1 sound
                (again (with_quad p id x qs1) (Extends-with_quad p id x qs1)) nonzero)
      ]

  -- In a store whose names stand for primitives, and whose counter can go up by five more,
  -- `AddQuad` of a quad without internal blank nodes returns. The store stays one of this kind, and
  -- `findQuad` then finds the quad, under the id that `AddQuad` returned.
  pub add_quad-IsAdded :
      (q : Quad V) (qs : QuadStore V T)
      → IsPlain naming q
      → IsSound qs
      → HasRoom 5 qs
      → Returns (add_quad trees naming q qs) (IsAdded q)
  unfolding resolve_quad
  add_quad-IsAdded q qs plain sound room =
      let (p, qs1, resolved, rest) =
        resolve_dirs-Resolved naming q directions no_quad 1 qs (tt, (tt, (tt, (tt, tt)))) plain
          sound (HasRoom-weaken qs (omega arith) room) in
      add_resolved q p qs qs1 resolved rest.sound rest.room rest.again
