-- ===== src/Memstore/AllIterator.antt =====
-- graph/memstore/all_iterator.go: the nodes, or the quads, of an in-memory store. The store is an
-- argument, since the primitives that the iterator points to are the store's.
pub mod Laws
use cayley.Prelude.{
  ℕ, zero, suc, Bool, true, false, not, ◌&&◌, ◌||◌, List, [], ◌∷◌, Option, none, some, is_some, Eq,
  ◌==◌, Outcome, done, panic, get_elem?, length, drop, leb, ◌>>=◌, if◌then◌else◌,
}
use cayley.Prelude.Int64.{ℤ, pos, wrap64, ltb_ℤ}
use cayley.Graph.Stats.{IteratorStats, no_stats}
use cayley.Graph.Iterator.{Iterator}
use cayley.Graph.Tagger.{Tagger, Tags, no_tags, tag_result}
use cayley.Memstore.{Primitive, is_zero, quad_eq, QuadStore, clone_all, prim_at}

-- `graph.Value` as this store makes it: the id of a node, or a pointer to a primitive.
pub data StoreValue : Type 0 where
  bnode : ℤ → StoreValue
  qprim : ℕ → StoreValue

-- The index `i` starts at -1; here it is the index of the next primitive, `i + 1`.
pub record AllIterator : Type 0 where
  pub tags : Tagger StoreValue
  pub all : List ℕ
  pub maxid : ℤ
  pub nodes : Bool
  pub i : ℕ
  pub cur : Option ℕ
  pub is_done : Bool

-- `ok`
unfoldable pub is_ok : {V : Type 0} → Primitive V → AllIterator → Bool
is_ok p it =
    not (ltb_ℤ it.maxid p.id)
    && ((it.nodes && is_some p.value) || (not it.nodes && not (is_zero p.quad)))

module _ {V T : Type 0} where
  -- `newAllIterator`
  unfoldable pub new_all_iterator : QuadStore V T → Bool → ℤ → AllIterator × QuadStore V T
  new_all_iterator qs nodes maxid =
      let (all, qs') = clone_all qs in
      (
        record {
          tags = no_tags;
          all = all;
          maxid = maxid;
          nodes = nodes;
          i = 0;
          cur = none;
          is_done = false;
        },
        qs',
      )

  -- The loop of `Next`, over the pointers that are left; `i` is the index of the first of them.
  unfoldable pub next_from : QuadStore V T → List ℕ → ℕ → AllIterator → Outcome (Bool × AllIterator)
  next_from qs [] i it = done (false, record it { i = suc i; is_done = true })
  next_from qs (at ∷ rest) i it = elim (get_elem? qs.heap at) [
    | none ↦ panic
    | some p ↦ elim (ltb_ℤ it.maxid p.id) [
      | true ↦ done (false, record it { i = suc i; is_done = true })
      | false ↦ elim (is_ok p it) [
        | true ↦ done (true, record it { i = suc i; cur = some at })
        | false ↦ next_from qs rest (suc i) it
      ]
    ]
  ]

  unfoldable pub next : QuadStore V T → AllIterator → Outcome (Bool × AllIterator)
  unfolding next_from
  next qs it = elim it.is_done [
    | true ↦ done (false, record it { cur = none })
    | false ↦ elim (leb (suc (length it.all)) it.i) [
      | true ↦ done (false, record it { cur = none; is_done = true })
      | false ↦ next_from qs (drop it.i it.all) it.i (record it { cur = none })
    ]
  ]

  -- `asID`
  unfoldable pub as_id : QuadStore V T → Option StoreValue → Outcome (Option ℤ)
  as_id qs none = done none
  as_id qs (some (bnode id)) = done (some id)
  as_id qs (some (qprim at)) = elim (get_elem? qs.heap at) [
    | none ↦ panic
    | some p ↦ done (some p.id)
  ]

  -- `Contains`. A node that the store no longer has is a nil pointer.
  unfoldable pub contains :
      QuadStore V T → Option StoreValue → AllIterator → Outcome (Bool × AllIterator)
  unfolding as_id is_ok
  contains qs v it = elim it.is_done [
    | true ↦ done (false, record it { cur = none })
    | false ↦ as_id qs v >>= λ found. elim found [
      | none ↦ done (false, record it { cur = none })
      | some id ↦ elim (prim_at id qs) [
        | none ↦ panic
        | some (at, p) ↦ done (
            if is_ok p it
            then (true, record it { cur = some at })
            else (false, record it { cur = none }))
      ]
    ]
  ]

  -- `Result` of a primitive: a quad is a pointer, and a node its id.
  unfoldable pub value_at : QuadStore V T → ℕ → Option StoreValue
  value_at qs at = elim (get_elem? qs.heap at) [
    | none ↦ none
    | some p ↦ some (if is_zero p.quad then bnode p.id else qprim at)
  ]

  unfoldable pub result : QuadStore V T → AllIterator → Option StoreValue
  unfolding value_at
  result qs it = elim it.cur [ none ↦ none | some at ↦ value_at qs at ]

unfoldable pub reset : AllIterator → AllIterator
reset it = record it { i = 0; cur = none; is_done = false }

-- `Close` drops the slice.
unfoldable pub close : AllIterator → AllIterator
close it = record it { is_done = true; all = [] }

unfoldable pub size : AllIterator → ℤ × Bool
size it = (wrap64 (pos (length it.all)), true)

unfoldable pub stats : AllIterator → IteratorStats
unfolding size
stats it =
    let (s, exact) = size it in
    record no_stats { next_cost = pos 1; contains_cost = pos 1; size = s; exact_size = exact }

-- The iterator over a store, as the iterators above it see it.
abbrev pub all_iterator : {V T E : Type 0} → QuadStore V T → Iterator StoreValue E AllIterator
all_iterator qs = record {
  tag_results = λ it dst. done (tag_result it.tags dst (result qs it));
  result = result qs;
  next = λ fuel it. next qs it;
  next_path = λ fuel it. done (false, it);
  contains = λ fuel v it. contains qs v it;
  err = λ it. none;
  reset = reset;
  size = λ it. done (size it);
  stats = λ it. done (stats it);
  close = λ it. (none, close it);
}
