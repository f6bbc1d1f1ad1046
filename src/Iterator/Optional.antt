-- ===== src/Iterator/Optional.antt =====
-- graph/iterator/optional.go: a constraint that need not hold. `Contains` says yes to every value,
-- and keeps what the iterator below answered.
pub mod Laws
use cayley.Prelude.{ℕ, Bool, true, false, ◌^◌, Option, none, Outcome, done, ◌>>=◌, if◌then◌else◌}
use cayley.Prelude.Int64.{ℤ, pos, ◌+ℤ◌}
use cayley.Graph.Value.{Value}
use cayley.Graph.Tagger.{Tagger, Tags, no_tags}
use cayley.Graph.Stats.{IteratorStats, no_stats}
use cayley.Graph.Iterator.{Iterator}

pub record Optional (N E S : Type 0) : Type 0 where
  pub tags : Tagger N
  pub sub_it : S
  pub last_check : Bool
  pub result : Value N
  pub err : Option E

-- `NewOptional`
unfoldable pub new_optional : {N E S : Type 0} → S → Optional N E S
new_optional it = record {
  tags = no_tags;
  sub_it = it;
  last_check = false;
  result = none;
  err = none;
}

module _ {N E S : Type 0} (it : Iterator N E S) where
  unfoldable pub reset : Optional N E S → Optional N E S
  reset o = record o { sub_it = it.reset o.sub_it; last_check = false }

  unfoldable pub close : Optional N E S → Option E × Optional N E S
  close o = let (e, sub) = it.close o.sub_it in (e, record o { sub_it = sub })

  unfoldable pub next_path : ℕ → Optional N E S → Outcome (Bool × Optional N E S)
  next_path fuel o = elim o.last_check [
    | false ↦ done (false, o)
    | true ↦ it.next_path fuel o.sub_it >>= λ (ok, sub).
        let o' = record o { sub_it = sub } in
        done (ok, if ok then o' else record o' { err = it.err sub })
  ]

  unfoldable pub contains : ℕ → Value N → Optional N E S → Outcome (Bool × Optional N E S)
  contains fuel val o = it.contains fuel val o.sub_it >>= λ (checked, sub).
      done (true, record o { sub_it = sub; last_check = checked; err = it.err sub; result = val })

  unfoldable pub tag_results : Optional N E S → Tags N → Outcome (Tags N)
  tag_results o dst = if o.last_check then it.tag_results o.sub_it dst else done dst

  unfoldable pub stats : Optional N E S → Outcome IteratorStats
  stats o = it.stats o.sub_it >>= λ sub_stats. done (record no_stats {
    contains_cost = sub_stats.contains_cost;
    next_cost = pos (2 ^ 62);
    size = sub_stats.size +ℤ pos 1;
    exact_size = sub_stats.exact_size;
  })

  unfoldable pub size : Optional N E S → Outcome (ℤ × Bool)
  unfolding stats
  size o = stats o >>= λ st. done (st.size, false)

  abbrev pub optional_iterator : Iterator N E (Optional N E S)
  optional_iterator = record {
    tag_results = tag_results;
    result = λ o. o.result;
    next = λ fuel o. done (false, o);
    next_path = next_path;
    contains = contains;
    err = λ o. o.err;
    reset = reset;
    size = size;
    stats = stats;
    close = close;
  }
