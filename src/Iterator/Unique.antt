-- ===== src/Iterator/Unique.antt =====
-- graph/iterator/unique.go: each key once. The Go map `seen` is the list of its keys, and
-- `no_map` says that it is nil, so that it may be read and not written.
pub mod Laws
use cayley.Prelude.{
  ℕ, zero, suc, Bool, true, false, ◌||◌, List, [], ◌∷◌, Option, none, some, Outcome, done, panic,
  if◌then◌else◌, out_of_fuel, ◌>>=◌,
}
use cayley.Prelude.Int64.{ℤ, pos, ◌*ℤ◌, div_ℤ}
use cayley.Graph.Value.{Value, Keyer, to_key, key_beq}
use cayley.Graph.Tagger.{Tagger, Tags, no_tags, tag_result}
use cayley.Graph.Iterator.{Iterator}
use cayley.Graph.Stats.{IteratorStats, no_stats, count_next, count_contains}

pub record Unique (N E K S : Type 0) : Type 0 where
  pub tags : Tagger N
  pub sub_it : S
  pub result : Value N
  pub runstats : IteratorStats
  pub err : Option E
  pub seen : List (Option K)
  pub no_map : Bool

-- `NewUnique`
unfoldable pub new_unique : {N E K S : Type 0} → S → Unique N E K S
new_unique sub_it = record {
  tags = no_tags;
  sub_it = sub_it;
  result = none;
  runstats = no_stats;
  err = none;
  seen = [];
  no_map = false;
}

module _ {N K : Type 0} (keyer : Keyer N K) where
  -- `seen[key]`
  unfoldable pub is_seen : Option K → List (Option K) → Bool
  is_seen key [] = false
  is_seen key (k ∷ seen) = key_beq keyer k key || is_seen key seen

module _ {N E K S : Type 0} (it : Iterator N E S) (keyer : Keyer N K) where
  -- The loop of `Next`: `rounds` bounds the values that it takes from the iterator below.
  unfoldable pub next_loop : ℕ → ℕ → Unique N E K S → Outcome (Bool × Unique N E K S)
  next_loop zero fuel u = out_of_fuel
  next_loop (suc rounds) fuel u = it.next fuel u.sub_it >>= λ (more, sub). elim more [
    | false ↦ done (false, record u { sub_it = sub; err = it.err sub })
    | true ↦
        let key = to_key keyer (it.result sub) in
        elim (is_seen keyer key u.seen) [
          | true ↦ next_loop rounds fuel (record u { sub_it = sub })
          | false ↦
              let u' = record u { sub_it = sub; result = it.result sub } in
              if u.no_map then panic else done (true, record u' { seen = key ∷ u.seen })
        ]
  ]

  unfoldable pub next : ℕ → Unique N E K S → Outcome (Bool × Unique N E K S)
  unfolding next_loop
  next fuel u = next_loop fuel fuel (record u { runstats = count_next u.runstats })

  unfoldable pub contains : ℕ → Value N → Unique N E K S → Outcome (Bool × Unique N E K S)
  contains fuel val u = it.contains fuel val u.sub_it >>= λ (held, sub).
      done (held, record u { sub_it = sub; runstats = count_contains u.runstats })

  unfoldable pub reset : Unique N E K S → Unique N E K S
  reset u = record u { result = none; sub_it = it.reset u.sub_it; seen = []; no_map = false }

  -- `Close` sets the map to nil.
  unfoldable pub close : Unique N E K S → Option E × Unique N E K S
  close u =
      let (e, sub) = it.close u.sub_it in (e, record u { sub_it = sub; seen = []; no_map = true })

  unfoldable pub tag_results : Unique N E K S → Tags N → Outcome (Tags N)
  tag_results u dst = it.tag_results u.sub_it (tag_result u.tags dst u.result)

  abbrev uniqueness_factor : ℤ
  uniqueness_factor = pos 2

  unfoldable pub stats : Unique N E K S → Outcome IteratorStats
  stats u = it.stats u.sub_it >>= λ sub_stats. div_ℤ sub_stats.size uniqueness_factor >>= λ half.
      done (record {
        next_cost = sub_stats.next_cost *ℤ uniqueness_factor;
        contains_cost = sub_stats.contains_cost;
        size = half;
        exact_size = false;
        next = u.runstats.next;
        contains = u.runstats.contains;
        contains_next = u.runstats.contains_next;
      })

  unfoldable pub size : Unique N E K S → Outcome (ℤ × Bool)
  unfolding stats
  size u = stats u >>= λ st. done (st.size, st.exact_size)

  abbrev pub unique_iterator : Iterator N E (Unique N E K S)
  unique_iterator = record {
    tag_results = tag_results;
    result = λ u. u.result;
    next = next;
    next_path = λ fuel u. done (false, u);
    contains = contains;
    err = λ u. u.err;
    reset = reset;
    size = size;
    stats = stats;
    close = close;
  }
