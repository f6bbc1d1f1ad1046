-- ===== src/Iterator/And.antt =====
-- graph/iterator/and.go: the intersection of the sub-iterators. The model starts from the first
-- sub-iterator, which becomes the primary one; with none, `primaryIt` is nil and calls panic.
-- The check list of the source holds the same pointers as the other two fields, so here it is a
-- list of references: 0 is the primary iterator, i + 1 the i-th internal one.
pub mod Sweep
pub mod Next
pub mod CheckList
pub mod Contains
use cayley.Prelude.{
  ℕ, zero, suc, ◌+◌, Bool, true, false, ◌&&◌, List, [], ◌∷◌, ◌++◌, Option, none, some, Outcome,
  done, panic, out_of_fuel, ◌>>=◌, get_elem?, set, map, if◌then◌else◌,
}
use cayley.Prelude.Int64.{ℤ, pos, ltb_ℤ, ◌+ℤ◌, ◌*ℤ◌, div_ℤ}
use cayley.Graph.Value.{Value}
use cayley.Graph.Tagger.{Tagger, Tags, no_tags, tag_result}
use cayley.Graph.Iterator.{Iterator}
use cayley.Graph.Stats.{IteratorStats, no_stats, count_next, count_contains}

pub record And (N E S : Type 0) : Type 0 where
  pub tags : Tagger N
  pub internal_iterators : List S
  pub it_count : ℕ
  pub primary_it : S
  pub check_list : Option (List ℕ)
  pub result : Value N
  pub runstats : IteratorStats
  pub err : Option E

module _ {N E S : Type 0} where
  -- `AddSubIterator`, when there is a primary iterator.
  unfoldable pub add_sub_iterator : And N E S → S → And N E S
  add_sub_iterator a sub = record a {
    internal_iterators = a.internal_iterators ++ sub ∷ [];
    it_count = a.it_count + 1;
  }

  unfoldable pub add_sub_iterators : And N E S → List S → And N E S
  unfolding add_sub_iterator
  add_sub_iterators a [] = a
  add_sub_iterators a (sub ∷ subs) = add_sub_iterators (add_sub_iterator a sub) subs

  -- `NewAnd`
  unfoldable pub new_and : S → List S → And N E S
  unfolding add_sub_iterators
  new_and first = add_sub_iterators (record {
    tags = no_tags;
    internal_iterators = [];
    it_count = 1;
    primary_it = first;
    check_list = none;
    result = none;
    runstats = no_stats;
    err = none;
  })

  -- `SubIterators`
  abbrev pub sub_iterators : And N E S → List S
  sub_iterators a = a.primary_it ∷ a.internal_iterators

  -- The iterator that an entry of the check list points to.
  unfoldable pub sub_at : And N E S → ℕ → Option S
  sub_at a zero = some a.primary_it
  sub_at a (suc i) = get_elem? a.internal_iterators i

  unfoldable pub set_sub_at : And N E S → ℕ → S → And N E S
  set_sub_at a zero s = record a { primary_it = s }
  set_sub_at a (suc i) s = record a { internal_iterators = set a.internal_iterators i s }

module _ {N E S : Type 0} (it : Iterator N E S) where
  -- `Err`: the iterator's own error, else the first one among the sub-iterators.
  unfoldable pub first_err : List S → Option E
  first_err [] = none
  first_err (s ∷ subs) = elim (it.err s) [ some e ↦ some e | none ↦ first_err subs ]

  unfoldable pub err : And N E S → Option E
  unfolding first_err
  err a = elim a.err [ some e ↦ some e | none ↦ first_err (sub_iterators a) ]

  -- The inner loop of `subItsContain`: the iterators that said yes are asked for the last result
  -- again, which sets their results and tags back.
  unfoldable pub rewind : ℕ → Value N → List S → Outcome (List S)
  rewind fuel none subs = done subs
  rewind fuel (some last) [] = done []
  rewind fuel (some last) (sub ∷ subs) = it.contains fuel (some last) sub >>= λ (ok, sub').
      rewind fuel (some last) subs >>= λ subs'. done (sub' ∷ subs')

  -- The loop of `subItsContain`, behind the sub-iterators `before`.
  unfoldable pub contain_from : ℕ → Value N → Value N → List S → List S → Outcome (Bool × List S)
  unfolding rewind
  contain_from fuel val last before [] = done (true, before)
  contain_from fuel val last before (sub ∷ after) = it.contains fuel val sub >>= λ (good, sub').
      elim good [
        | true ↦ contain_from fuel val last (before ++ sub' ∷ []) after
        | false ↦ rewind fuel last before >>= λ before'. done (false, before' ++ sub' ∷ after)
      ]

  unfoldable pub sub_its_contain : ℕ → Value N → Value N → List S → Outcome (Bool × List S)
  unfolding contain_from
  sub_its_contain fuel val last subs = contain_from fuel val last [] subs

  -- The loop of `Next`: `rounds` bounds the candidates that it takes from the primary iterator.
  unfoldable pub next_loop : ℕ → ℕ → And N E S → Outcome (Bool × And N E S)
  unfolding sub_its_contain
  next_loop zero fuel a = out_of_fuel
  next_loop (suc rounds) fuel a = it.next fuel a.primary_it >>= λ (more, p). elim more [
    | false ↦ done (false, record a { primary_it = p; err = it.err p })
    | true ↦ sub_its_contain fuel (it.result p) none a.internal_iterators >>= λ (good, subs).
        elim good [
          | true ↦
              done
                (true, record a { primary_it = p; internal_iterators = subs; result = it.result p })
          | false ↦ next_loop rounds fuel (record a { primary_it = p; internal_iterators = subs })
        ]
  ]

  unfoldable pub next : ℕ → And N E S → Outcome (Bool × And N E S)
  unfolding next_loop
  next fuel a = next_loop fuel fuel (record a { runstats = count_next a.runstats })

  -- The inner loop of `checkContainsList`: its answer is false, whatever the iterators say.
  unfoldable pub rewind_list : ℕ → Value N → List ℕ → And N E S → Outcome (Bool × And N E S)
  rewind_list fuel none before a = done (false, a)
  rewind_list fuel (some last) [] a = done (false, a)
  rewind_list fuel (some last) (j ∷ before) a = elim (sub_at a j) [
    | none ↦ panic
    | some sub ↦ it.contains fuel (some last) sub >>= λ (ok, sub').
        let a' = record (set_sub_at a j sub') { err = it.err sub' } in
        elim (it.err sub') [
          | some e ↦ done (false, a')
          | none ↦ rewind_list fuel (some last) before a'
        ]
  ]

  -- The loop of `checkContainsList`, behind the entries `before`.
  unfoldable pub check_from :
      ℕ → Value N → Value N → List ℕ → List ℕ → And N E S → Outcome (Bool × And N E S)
  unfolding rewind_list
  check_from fuel val last before [] a = done (true, record a { result = val })
  check_from fuel val last before (c ∷ after) a = elim (sub_at a c) [
    | none ↦ panic
    | some sub ↦ it.contains fuel val sub >>= λ (good, sub'). elim good [
      | true ↦ check_from fuel val last (before ++ c ∷ []) after (set_sub_at a c sub')
      | false ↦
          let a' = record (set_sub_at a c sub') { err = it.err sub' } in
          elim (it.err sub') [ some e ↦ done (false, a') | none ↦ rewind_list fuel last before a' ]
    ]
  ]

  -- The end of `Contains`: the primary iterator is asked for the last result again.
  unfoldable pub refuse : ℕ → Value N → And N E S → Outcome (Bool × And N E S)
  refuse fuel none a = done (false, a)
  refuse fuel (some last) a = it.contains fuel (some last) a.primary_it >>= λ (ok, p).
      done (false, record a { primary_it = p })

  -- `Contains` without a check list.
  unfoldable pub contains_plain : ℕ → Value N → And N E S → Outcome (Bool × And N E S)
  unfolding sub_its_contain refuse
  contains_plain fuel val a = it.contains fuel val a.primary_it >>= λ (main_good, p).
      elim main_good [
        | false ↦ refuse fuel a.result (record a { primary_it = p })
        | true ↦ sub_its_contain fuel val a.result a.internal_iterators >>= λ (others_good, subs).
            let a' = record a { primary_it = p; internal_iterators = subs } in
            elim others_good [
              | true ↦ done (true, record a' { result = val })
              | false ↦ refuse fuel a.result a'
            ]
      ]

  -- `Contains` goes by the check list if there is one.
  unfoldable pub contains_by :
      ℕ → Value N → Option (List ℕ) → And N E S → Outcome (Bool × And N E S)
  unfolding check_from contains_plain
  contains_by fuel val (some list) a = check_from fuel val a.result [] list a
  contains_by fuel val none a = contains_plain fuel val a

  unfoldable pub contains : ℕ → Value N → And N E S → Outcome (Bool × And N E S)
  unfolding contains_by
  contains fuel val a =
      contains_by fuel val a.check_list (record a { runstats = count_contains a.runstats })

  -- The loops of `Size`, `NextPath`, `Close` and `TagResults` over the internal iterators.
  unfoldable pub smallest : ℤ × Bool → List S → Outcome (ℤ × Bool)
  smallest (val, b) [] = done (val, b)
  smallest (val, b) (sub ∷ subs) = it.size sub >>= λ (newval, newb).
      smallest (if ltb_ℤ newval val then newval else val, newb && b) subs

  unfoldable pub size : And N E S → Outcome (ℤ × Bool)
  unfolding smallest
  size a = it.size a.primary_it >>= λ s. smallest s a.internal_iterators

  -- The loop of `getStatsForSlice`, which is all of `Stats` but its counters.
  unfoldable pub joint_stats : IteratorStats → IteratorStats → List S → Outcome IteratorStats
  joint_stats primary acc [] = done acc
  joint_stats primary acc (sub ∷ subs) = it.stats sub >>= λ st.
      div_ℤ primary.size (st.size +ℤ pos 1) >>= λ q.
      joint_stats primary
        (record acc {
          next_cost = acc.next_cost +ℤ st.contains_cost *ℤ (pos 1 +ℤ q);
          contains_cost = acc.contains_cost +ℤ st.contains_cost;
          size = if ltb_ℤ st.size acc.size then st.size else acc.size;
          exact_size = if ltb_ℤ st.size acc.size then st.exact_size else acc.exact_size;
        })
        subs

  unfoldable pub stats : And N E S → Outcome IteratorStats
  unfolding joint_stats
  stats a = it.stats a.primary_it >>= λ primary.
      joint_stats primary
        (record primary {
          next = a.runstats.next;
          contains = a.runstats.contains;
          contains_next = pos 0;
        })
        a.internal_iterators

  unfoldable pub next_path_from : ℕ → List S → Outcome (Bool × Option E × List S)
  next_path_from fuel [] = done (false, none, [])
  next_path_from fuel (sub ∷ subs) = it.next_path fuel sub >>= λ (ok, sub'). elim ok [
    | true ↦ done (true, none, sub' ∷ subs)
    | false ↦ elim (it.err sub') [
      | some e ↦ done (false, some e, sub' ∷ subs)
      | none ↦ next_path_from fuel subs >>= λ (found, e, subs'). done (found, e, sub' ∷ subs')
    ]
  ]

  -- `NextPath`. A sub-iterator that finds a path leaves `err` as the ones before it set it: nil.
  unfoldable pub next_path : ℕ → And N E S → Outcome (Bool × And N E S)
  unfolding next_path_from
  next_path fuel a = it.next_path fuel a.primary_it >>= λ (ok, p). elim ok [
    | true ↦ done (true, record a { primary_it = p })
    | false ↦ elim (it.err p) [
      | some e ↦ done (false, record a { primary_it = p; err = some e })
      | none ↦ next_path_from fuel a.internal_iterators >>= λ (found, e, subs).
          done (found, record a { primary_it = p; internal_iterators = subs; err = e })
    ]
  ]

  -- `Close` closes every sub-iterator and returns the first error.
  unfoldable pub close_all : Option E → List S → Option E × List S
  close_all e [] = (e, [])
  close_all e (sub ∷ subs) =
      let (e', sub') = it.close sub in
      let (out, subs') = close_all (elim e [ some x ↦ some x | none ↦ e' ]) subs in
      (out, sub' ∷ subs')

  unfoldable pub close : And N E S → Option E × And N E S
  unfolding close_all
  close a =
      let (e, p) = it.close a.primary_it in
      let (out, subs) = close_all e a.internal_iterators in
      (out, record a { primary_it = p; internal_iterators = subs })

  unfoldable pub reset : And N E S → And N E S
  reset a = record a {
    result = none;
    primary_it = it.reset a.primary_it;
    internal_iterators = map it.reset a.internal_iterators;
    check_list = none;
  }

  unfoldable pub tag_subs : List S → Tags N → Outcome (Tags N)
  tag_subs [] dst = done dst
  tag_subs (sub ∷ subs) dst = it.tag_results sub dst >>= tag_subs subs

  unfoldable pub tag_results : And N E S → Tags N → Outcome (Tags N)
  unfolding tag_subs
  tag_results a dst = tag_subs (sub_iterators a) (tag_result a.tags dst a.result)

  -- The And iterator, as the iterators above it see it.
  abbrev pub and_iterator : Iterator N E (And N E S)
  and_iterator = record {
    tag_results = tag_results;
    result = λ a. a.result;
    next = next;
    next_path = next_path;
    contains = contains;
    err = err;
    reset = reset;
    size = size;
    stats = stats;
    close = close;
  }
