-- ===== src/Iterator/Not.antt =====
-- graph/iterator/not.go: the values of `allIt` that the primary iterator does not contain.
pub mod Laws
use cayley.Prelude.{
  ℕ, zero, suc, Bool, true, false, Option, none, some, Outcome, done, out_of_fuel, ◌>>=◌,
}
use cayley.Prelude.Int64.{ℤ, ◌+ℤ◌, ◌-ℤ◌}
use cayley.Graph.Value.{Value}
use cayley.Graph.Tagger.{Tagger, Tags, no_tags, tag_result}
use cayley.Graph.Iterator.{Iterator}
use cayley.Graph.Stats.{IteratorStats, no_stats, count_next, count_contains, count_contains_next}

pub record Not (N E S : Type 0) : Type 0 where
  pub tags : Tagger N
  pub primary_it : S
  pub all_it : S
  pub result : Value N
  pub runstats : IteratorStats
  pub err : Option E

-- `NewNot`
unfoldable pub new_not : {N E S : Type 0} → S → S → Not N E S
new_not primary_it all_it = record {
  tags = no_tags;
  primary_it = primary_it;
  all_it = all_it;
  result = none;
  runstats = no_stats;
  err = none;
}

module _ {N E S : Type 0} (it : Iterator N E S) where
  -- The loop of `Next`: `rounds` bounds the values that it takes from `allIt`.
  unfoldable pub next_loop : ℕ → ℕ → Not N E S → Outcome (Bool × Not N E S)
  next_loop zero fuel n = out_of_fuel
  next_loop (suc rounds) fuel n = it.next fuel n.all_it >>= λ (more, all'). elim more [
    | false ↦ done (false, record n { all_it = all'; err = it.err all' })
    | true ↦ it.contains fuel (it.result all') n.primary_it >>= λ (held, p). elim held [
      | true ↦ next_loop rounds fuel (record n { all_it = all'; primary_it = p })
      | false ↦ done (
        true,
        record n {
          all_it = all';
          primary_it = p;
          result = it.result all';
          runstats = count_contains_next n.runstats;
        },
      )
    ]
  ]

  unfoldable pub next : ℕ → Not N E S → Outcome (Bool × Not N E S)
  unfolding next_loop
  next fuel n = next_loop fuel fuel (record n { runstats = count_next n.runstats })

  unfoldable pub contains : ℕ → Value N → Not N E S → Outcome (Bool × Not N E S)
  contains fuel val n = it.contains fuel val n.primary_it >>= λ (held, p).
      let n' = record n { primary_it = p; runstats = count_contains n.runstats } in
      elim held [
        | true ↦ done (false, n')
        | false ↦ elim (it.err p) [
          | some e ↦ done (false, record n' { err = some e })
          | none ↦ done (true, record n' { err = none; result = val })
        ]
      ]

  unfoldable pub reset : Not N E S → Not N E S
  reset n = record n {
    result = none;
    primary_it = it.reset n.primary_it;
    all_it = it.reset n.all_it;
  }

  unfoldable pub close : Not N E S → Option E × Not N E S
  close n =
      let (e, p) = it.close n.primary_it in
      let (e', all') = it.close n.all_it in
      (elim e [ some x ↦ some x | none ↦ e' ], record n { primary_it = p; all_it = all' })

  -- `TagResults`: the primary iterator writes over the iterator's own tags.
  unfoldable pub tag_results : Not N E S → Tags N → Outcome (Tags N)
  tag_results n dst = it.tag_results n.primary_it (tag_result n.tags dst n.result)

  unfoldable pub stats : Not N E S → Outcome IteratorStats
  stats n = it.stats n.primary_it >>= λ primary_stats. it.stats n.all_it >>= λ all_stats.
      done (record {
        next_cost = all_stats.next_cost +ℤ primary_stats.contains_cost;
        contains_cost = primary_stats.contains_cost;
        size = all_stats.size -ℤ primary_stats.size;
        exact_size = false;
        next = n.runstats.next;
        contains = n.runstats.contains;
        contains_next = n.runstats.contains_next;
      })

  unfoldable pub size : Not N E S → Outcome (ℤ × Bool)
  unfolding stats
  size n = stats n >>= λ st. done (st.size, st.exact_size)

  abbrev pub not_iterator : Iterator N E (Not N E S)
  not_iterator = record {
    tag_results = tag_results;
    result = λ n. n.result;
    next = next;
    next_path = λ fuel n. done (false, n);
    contains = contains;
    err = λ n. n.err;
    reset = reset;
    size = size;
    stats = stats;
    close = close;
  }
