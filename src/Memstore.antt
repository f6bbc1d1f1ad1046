-- ===== src/Memstore.antt =====
-- graph/memstore/quadstore.go: the data of the in-memory quad store. A `*primitive` is an index
-- into `heap`, since the map `prim`, the slice `all` and the trees point to the same primitives.
-- A slice is a list, so that what an iterator holds of `all` never changes under it, which is what
-- the flag `reading` is for. The trees of keys.go, a generated copy of a library, are a parameter.
pub mod Resolve
pub mod Change
pub mod AllIterator
pub mod Read
use cayley.Prelude.{
  ℕ, Bool, true, false, ◌&&◌, List, [], ◌∷◌, ◌++◌, Option, none, some, String, ◌≡◌, ◌↔◌, refl, ap,
  Eq, ◌==◌, Outcome, done, panic, ◌>>=◌, arith, length, get_elem?, set, if◌then◌else◌,
}
use cayley.Prelude.Int64.{ℤ, pos, ◌+ℤ◌, ◌-ℤ◌, beq_ℤ, beq_ℤ_iff, eq_ℤ}
use cayley.Prelude.Assoc.{lookup, write}
use cayley.Quad.{Direction, any, subject, predicate, object, label, illegal}

pub record InternalQuad : Type 0 where
  pub s : ℤ
  pub p : ℤ
  pub o : ℤ
  pub l : ℤ

abbrev pub no_quad : InternalQuad
no_quad = record { s = pos 0; p = pos 0; o = pos 0; l = pos 0 }

abbrev pub quad_beq : InternalQuad → InternalQuad → Bool
quad_beq a b = beq_ℤ a.s b.s && beq_ℤ a.p b.p && beq_ℤ a.o b.o && beq_ℤ a.l b.l

pub quad_beq_iff : (a b : InternalQuad) → (quad_beq a b ≡ true) ↔ (a ≡ b)
quad_beq_iff a b = (
  λ h.
      let s = (beq_ℤ_iff a.s b.s).0 (ground arith) in
      let p = (beq_ℤ_iff a.p b.p).0 (ground arith) in
      let o = (beq_ℤ_iff a.o b.o).0 (ground arith) in
      let l = (beq_ℤ_iff a.l b.l).0 (ground arith) in
      λ i. record { s = s i; p = p i; o = o i; l = l i },
  λ h.
      let s = (beq_ℤ_iff a.s b.s).1 (ap (λ q. q.s) h) in
      let p = (beq_ℤ_iff a.p b.p).1 (ap (λ q. q.p) h) in
      let o = (beq_ℤ_iff a.o b.o).1 (ap (λ q. q.o) h) in
      let l = (beq_ℤ_iff a.l b.l).1 (ap (λ q. q.l) h) in rw (s, p, o, l) refl,
)

instance abbrev pub quad_eq : Eq InternalQuad
quad_eq = record { beq = quad_beq; beq_iff = quad_beq_iff }

-- `Zero`
abbrev pub is_zero : InternalQuad → Bool
is_zero q = q == no_quad

-- `SetDir`
unfoldable pub set_dir : InternalQuad → Direction → ℤ → Outcome InternalQuad
set_dir q subject n = done (record q { s = n })
set_dir q predicate n = done (record q { p = n })
set_dir q object n = done (record q { o = n })
set_dir q label n = done (record q { l = n })
set_dir q any n = panic
set_dir q (illegal b) n = panic

-- `Dir`
unfoldable pub dir : InternalQuad → Direction → ℤ
dir q subject = q.s
dir q predicate = q.p
dir q object = q.o
dir q label = q.l
dir q any = pos 0
dir q (illegal b) = pos 0

pub record Primitive (V : Type 0) : Type 0 where
  pub id : ℤ
  pub quad : InternalQuad
  pub value : Option V
  pub refs : ℤ

-- The calls of a tree from ids to primitives.
pub record KeyTree (T : Type 0) : Type 0 where
  pub tree_new : T
  pub tree_set : ℤ → ℕ → T → T
  pub tree_delete : ℤ → T → T
  pub tree_len : T → ℤ

-- What a value tells the store: its text, and the id that the text of an internal blank node
-- spells behind its prefix, if it spells one that is not 0.
pub record Naming (V : Type 0) : Type 0 where
  pub name : V → String
  pub internal_id : V → Option ℤ
  pub internal_node : ℤ → V

-- `QuadDirectionIndex`, one map for each direction.
pub record DirectionIndex (T : Type 0) : Type 0 where
  pub subjects : List (ℤ × T)
  pub predicates : List (ℤ × T)
  pub objects : List (ℤ × T)
  pub labels : List (ℤ × T)

-- The entry `index[d-1]`, and the index with another map there.
abbrev pub index_at : {T : Type 0} → DirectionIndex T → Direction → Outcome (List (ℤ × T))
index_at x subject = done x.subjects
index_at x predicate = done x.predicates
index_at x object = done x.objects
index_at x label = done x.labels
index_at x any = panic
index_at x (illegal b) = panic

abbrev pub with_index :
    {T : Type 0} → DirectionIndex T → Direction → List (ℤ × T) → DirectionIndex T
with_index x subject m = record x { subjects = m }
with_index x predicate m = record x { predicates = m }
with_index x object m = record x { objects = m }
with_index x label m = record x { labels = m }
with_index x any m = x
with_index x (illegal b) m = x

module _ {T : Type 0} (trees : KeyTree T) where
  abbrev tree_or_new : Option T → T
  tree_or_new none = trees.tree_new
  tree_or_new (some t) = t

  -- `Tree`, and a change of the tree that it returns, which is a new one if there was none.
  unfoldable pub change_tree :
      Direction → ℤ → (T → T) → DirectionIndex T → Outcome (DirectionIndex T)
  change_tree d id change x =
      index_at x d >>= λ m. done (with_index x d (write id (change (tree_or_new (lookup id m))) m))

  -- `Get`
  unfoldable pub get_tree : Direction → ℤ → DirectionIndex T → Outcome (Option T)
  get_tree d id x = index_at x d >>= λ m. done (lookup id m)

pub record QuadStore (V T : Type 0) : Type 0 where
  pub last : ℤ
  pub vals : List (String × ℤ)
  pub quads : List (InternalQuad × ℤ)
  pub heap : List (Primitive V)
  pub prim : List (ℤ × ℕ)
  pub all : List ℕ
  pub reading : Bool
  pub index : DirectionIndex T
  pub horizon : ℤ

module _ {V T : Type 0} where
  -- `newQuadStore`
  abbrev pub new_quad_store : QuadStore V T
  new_quad_store = record {
    last = pos 0;
    vals = [];
    quads = [];
    heap = [];
    prim = [];
    all = [];
    reading = false;
    index = record { subjects = []; predicates = []; objects = []; labels = [] };
    horizon = pos 0;
  }

  -- `cloneAll`
  unfoldable pub clone_all : QuadStore V T → List ℕ × QuadStore V T
  clone_all qs = (qs.all, record qs { reading = true })

  -- `appendPrimitive`, for a primitive that is new on the heap.
  unfoldable pub append_primitive : Primitive V → QuadStore V T → QuadStore V T
  append_primitive p qs = record qs {
    heap = qs.heap ++ p ∷ [];
    prim = write p.id (length qs.heap) qs.prim;
    all = qs.all ++ length qs.heap ∷ [];
    reading = false;
  }

  -- `addPrimitive`
  unfoldable pub add_primitive : Primitive V → QuadStore V T → ℤ × QuadStore V T
  unfolding append_primitive
  add_primitive p qs =
      let id = qs.last +ℤ pos 1 in
      (id, append_primitive (record p { id = id; refs = pos 1 }) (record qs { last = id }))

  -- The primitive that the map has at an id.
  unfoldable pub prim_at : ℤ → QuadStore V T → Option (ℕ × Primitive V)
  prim_at id qs = elim (lookup id qs.prim) [
    | none ↦ none
    | some at ↦ elim (get_elem? qs.heap at) [ none ↦ none | some p ↦ some (at, p) ]
  ]

  -- `p.refs += by`, through a pointer.
  unfoldable pub add_refs : ℤ → ℕ × Primitive V → QuadStore V T → QuadStore V T
  add_refs by (at, p) qs = record qs { heap = set qs.heap at (record p { refs = p.refs +ℤ by }) }
