-- ===== src/Iterator/Or.antt =====
-- graph/iterator/or.go: the union of the sub-iterators, one after the other, or the first of them
-- that has results. The index -1, before the first call of `Next`, is `none`.
pub mod Sequence
pub mod Round
pub mod Next
pub mod Contains
use cayley.Prelude.{
  ℕ, zero, suc, ◌+◌, Bool, true, false, not, ◌&&◌, List, [], ◌∷◌, ◌++◌, map, Option, none, some,
  Outcome, done, panic, out_of_fuel, ◌>>=◌, get_elem?, set, length, leb, if◌then◌else◌,
}
use cayley.Prelude.Int64.{ℤ, pos, ltb_ℤ, ◌+ℤ◌}
use cayley.Graph.Value.{Value}
use cayley.Graph.Tagger.{Tagger, Tags, no_tags, tag_result}
use cayley.Graph.Stats.{IteratorStats, no_stats}
use cayley.Graph.Iterator.{Iterator}

pub record Or (N E S : Type 0) : Type 0 where
  pub tags : Tagger N
  pub is_short_circuiting : Bool
  pub internal_iterators : List S
  pub current_iterator : Option ℕ
  pub result : Value N
  pub err : Option E

-- The index that the loop of `Next` works at, and its flag `first`.
abbrev pub start : Bool → Option ℕ → ℕ × Bool
start first none = (0, true)
start first (some i) = (i, first)

-- `it.currentIterator >= len(it.internalIterators)`
abbrev pub is_past : Option ℕ → ℕ → Bool
is_past none len = false
is_past (some i) len = leb len i

module _ {N E S : Type 0} where
  -- `AddSubIterator`
  unfoldable pub add_sub_iterator : Or N E S → S → Or N E S
  add_sub_iterator o sub = record o { internal_iterators = o.internal_iterators ++ sub ∷ [] }

  unfoldable pub add_sub_iterators : Or N E S → List S → Or N E S
  unfolding add_sub_iterator
  add_sub_iterators o [] = o
  add_sub_iterators o (sub ∷ subs) = add_sub_iterators (add_sub_iterator o sub) subs

  -- `NewShortCircuitOr`
  abbrev pub new_short_circuit_or : Or N E S
  new_short_circuit_or = record {
    tags = no_tags;
    is_short_circuiting = true;
    internal_iterators = [];
    current_iterator = none;
    result = none;
    err = none;
  }

  -- `NewOr`
  unfoldable pub new_or : List S → Or N E S
  unfolding add_sub_iterators
  new_or = add_sub_iterators (record new_short_circuit_or { is_short_circuiting = false })

  -- The end of the body of the loop of `Next`, where the current sub-iterator has stopped with the
  -- error `e`: the loop may break here, break behind the last index, or go on.
  unfoldable pub stop_at :
      (Or N E S → Outcome (Bool × Or N E S))
      → Option E
      → Bool
      → Bool
      → ℕ
      → Or N E S
      → Outcome (Bool × Or N E S)
  stop_at again (some e) breaks last cur o = done (false, record o { err = some e })
  stop_at again none true last cur o = done (false, record o { err = none })
  stop_at again none false true cur o =
      done (false, record o { err = none; current_iterator = some (suc cur) })
  stop_at again none false false cur o =
      again (record o { err = none; current_iterator = some (suc cur) })

module _ {N E S : Type 0} (it : Iterator N E S) where
  -- The body of the loop of `Next` at the index `cur`, where `again` goes on with the loop.
  unfoldable pub next_at :
      (Or N E S → Outcome (Bool × Or N E S))
      → ℕ
      → ℕ
      → Bool
      → Option S
      → Or N E S
      → Outcome (Bool × Or N E S)
  next_at again fuel cur first none o = panic
  next_at again fuel cur first (some sub) o = it.next fuel sub >>= λ (ok, sub').
      let o' = record o {
        internal_iterators = set o.internal_iterators cur sub';
        current_iterator = some cur;
      } in
      elim ok [
        | true ↦ done (true, record o' { result = it.result sub' })
        | false ↦
            stop_at again (it.err sub') (o.is_short_circuiting && not first)
              (leb (length o.internal_iterators) (suc cur)) cur o'
      ]

  -- The loop of `Next`. Each round but the last moves on to the next sub-iterator.
  unfoldable pub next_loop : ℕ → ℕ → Bool → Or N E S → Outcome (Bool × Or N E S)
  unfolding next_at
  next_loop zero fuel first o = out_of_fuel
  next_loop (suc rounds) fuel first o =
      let (cur, first') = start first o.current_iterator in
      next_at (next_loop rounds fuel first') fuel cur first' (get_elem? o.internal_iterators cur) o

  unfoldable pub next : ℕ → Or N E S → Outcome (Bool × Or N E S)
  unfolding next_loop
  next fuel o =
      if is_past o.current_iterator (length o.internal_iterators)
      then done (false, o)
      else next_loop (suc (length o.internal_iterators)) fuel false o

  -- The loop of `subItsContain`, behind the sub-iterators `before`, `i` of them: the answer, the
  -- error, and the index that is current afterwards.
  unfoldable pub contain_from :
      ℕ → Value N → ℕ → List S → List S → Option ℕ → Outcome (Bool × Option E × Option ℕ × List S)
  contain_from fuel val i before [] cur = done (false, none, cur, before)
  contain_from fuel val i before (sub ∷ after) cur = it.contains fuel val sub >>= λ (good, sub').
      elim good [
        | true ↦ done (true, none, some i, before ++ sub' ∷ after)
        | false ↦ elim (it.err sub') [
          | some e ↦ done (false, some e, cur, before ++ sub' ∷ after)
          | none ↦ contain_from fuel val (suc i) (before ++ sub' ∷ []) after cur
        ]
      ]

  unfoldable pub contains : ℕ → Value N → Or N E S → Outcome (Bool × Or N E S)
  unfolding contain_from
  contains fuel val o =
      contain_from fuel val 0 [] o.internal_iterators o.current_iterator
      >>= λ (any_good, e, cur, subs).
          let o' = record o { internal_iterators = subs; current_iterator = cur } in
          elim e [
            | some x ↦ done (false, record o' { err = some x })
            | none ↦ elim any_good [
              | true ↦ done (true, record o' { result = val })
              | false ↦ done (false, o')
            ]
          ]

  unfoldable pub next_path : ℕ → Or N E S → Outcome (Bool × Or N E S)
  next_path fuel o = elim o.current_iterator [
    | none ↦ done (false, o)
    | some cur ↦ elim (get_elem? o.internal_iterators cur) [
      | none ↦ panic
      | some sub ↦ it.next_path fuel sub >>= λ (ok, sub').
          let o' = record o { internal_iterators = set o.internal_iterators cur sub' } in
          done (ok, if ok then o' else record o' { err = it.err sub' })
    ]
  ]

  unfoldable pub size_from : Bool → ℤ × Bool → List S → Outcome (ℤ × Bool)
  size_from short (val, b) [] = done (val, b)
  size_from short (val, b) (sub ∷ subs) = it.size sub >>= λ (newval, newb).
      size_from short
        (if short then (if ltb_ℤ val newval then newval else val) else val +ℤ newval, newb && b)
        subs

  -- `Size`: the largest of the sizes, or their sum.
  unfoldable pub size : Or N E S → Outcome (ℤ × Bool)
  unfolding size_from
  size o = size_from o.is_short_circuiting (pos 0, true) o.internal_iterators

  unfoldable pub stats_from : Bool → IteratorStats → List S → Outcome IteratorStats
  stats_from short acc [] = done acc
  stats_from short acc (sub ∷ subs) = it.stats sub >>= λ st.
      let larger = ltb_ℤ acc.size st.size in
      stats_from short
        (record acc {
          next_cost = acc.next_cost +ℤ st.next_cost;
          contains_cost = acc.contains_cost +ℤ st.contains_cost;
          size = if short then (if larger then st.size else acc.size) else acc.size +ℤ st.size;
          exact_size =
              if short
              then (if larger then st.exact_size else acc.exact_size)
              else acc.exact_size && st.exact_size;
        })
        subs

  unfoldable pub stats : Or N E S → Outcome IteratorStats
  unfolding stats_from
  stats o =
      stats_from o.is_short_circuiting (record no_stats { exact_size = true }) o.internal_iterators

  -- `Close` closes every sub-iterator and returns the first error.
  unfoldable pub close_all : Option E → List S → Option E × List S
  close_all e [] = (e, [])
  close_all e (sub ∷ subs) =
      let (e', sub') = it.close sub in
      let (out, subs') = close_all (elim e [ some x ↦ some x | none ↦ e' ]) subs in
      (out, sub' ∷ subs')

  unfoldable pub close : Or N E S → Option E × Or N E S
  unfolding close_all
  close o =
      let (e, subs) = close_all none o.internal_iterators in
      (e, record o { internal_iterators = subs })

  unfoldable pub reset : Or N E S → Or N E S
  reset o = record o {
    internal_iterators = map it.reset o.internal_iterators;
    current_iterator = none;
  }

  unfoldable pub tag_results : Or N E S → Tags N → Outcome (Tags N)
  tag_results o dst = elim o.current_iterator [
    | none ↦ panic
    | some cur ↦ elim (get_elem? o.internal_iterators cur) [
      | none ↦ panic
      | some sub ↦ it.tag_results sub (tag_result o.tags dst o.result)
    ]
  ]

  abbrev pub or_iterator : Iterator N E (Or N E S)
  or_iterator = record {
    tag_results = tag_results;
    result = λ o. o.result;
    next = next;
    next_path = next_path;
    contains = contains;
    err = λ o. o.err;
    reset = reset;
    size = size;
    stats = stats;
    close = close;
  }
