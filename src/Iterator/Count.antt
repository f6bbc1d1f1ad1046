-- ===== src/Iterator/Count.antt =====
-- graph/iterator/count.go: one result, the number of the results of the iterator below.
pub mod Laws
use cayley.Prelude.{
  ℕ, zero, suc, Bool, true, false, Option, none, some, Outcome, done, out_of_fuel, ◌>>=◌, Eq,
  if◌then◌else◌,
}
use cayley.Prelude.Int64.{ℤ, pos, ◌+ℤ◌, ◌*ℤ◌}
use cayley.Graph.Value.{Value}
use cayley.Graph.Tagger.{Tagger, Tags, no_tags, tag_result}
use cayley.Graph.Stats.{IteratorStats, no_stats}
use cayley.Graph.Iterator.{Iterator}

-- The values of quads, as far as the iterator needs them: quad.Int, `==`, graph.PreFetched, and
-- NameOf, which is `fetched` of a value that is a PreFetchedValue.
pub record Names (N Q : Type 0) : Type 0 where
  pub int : ℤ → Q
  pub eq : Eq Q
  pub pre_fetched : Q → N
  pub fetched : Value N → Option (Option Q)

-- `Count`, over the quad values `Q`. `qs` is NameOf of the store, if there is one.
pub record Count (N Q S : Type 0) : Type 0 where
  pub it : S
  pub is_done : Bool
  pub tags : Tagger N
  pub result : Option Q
  pub qs : Option (Value N → Option Q)

-- `NewCount`
unfoldable pub new_count : {N Q S : Type 0} → S → Option (Value N → Option Q) → Count N Q S
new_count it qs = record { it = it; is_done = false; tags = no_tags; result = none; qs = qs }

module _ {N E Q S : Type 0} (api : Iterator N E S) (names : Names N Q) where
  unfoldable pub reset : Count N Q S → Count N Q S
  reset c = record c { is_done = false; result = none; it = api.reset c.it }

  -- The loops of `Next`, the first one over the paths of a result.
  unfoldable pub count_paths : ℕ → ℕ → ℤ → S → Outcome (ℤ × S)
  count_paths zero fuel size s = out_of_fuel
  count_paths (suc rounds) fuel size s = api.next_path fuel s >>= λ (ok, s'). elim ok [
    | true ↦ count_paths rounds fuel (size +ℤ pos 1) s'
    | false ↦ done (size, s')
  ]

  unfoldable pub count_results : ℕ → ℕ → ℤ → S → Outcome (ℤ × S)
  count_results zero fuel size s = out_of_fuel
  count_results (suc rounds) fuel size s = api.next fuel s >>= λ (ok, s'). elim ok [
    | true ↦ count_paths fuel fuel size s' >>= λ (paths, s'').
        count_results rounds fuel (paths +ℤ pos 1) s''
    | false ↦ done (size, s')
  ]

  abbrev pub counted : Count N Q S → ℤ → S → Bool × Count N Q S
  counted c size s = (true, record c { it = s; result = some (names.int size); is_done = true })

  -- `Next`: an exact size is the answer.
  unfoldable pub next : ℕ → Count N Q S → Outcome (Bool × Count N Q S)
  next fuel c = elim c.is_done [
    | true ↦ done (false, c)
    | false ↦ api.size c.it >>= λ (size, exact). elim exact [
      | true ↦ done (counted c size c.it)
      | false ↦ count_results fuel fuel (pos 0) c.it >>= λ (n, s). done (counted c n s)
    ]
  ]

  abbrev pub result_of : Option Q → Value N
  result_of none = none
  result_of (some q) = some (names.pre_fetched q)

  unfoldable pub tag_results : Count N Q S → Tags N → Tags N
  tag_results c dst = tag_result c.tags dst (result_of c.result)

  -- Go's `==` on two quad values that may be nil.
  abbrev pub is_same : Option Q → Option Q → Bool
  is_same none none = true
  is_same (some a) (some b) = names.eq.beq a b
  is_same a b = false

  -- `Contains` behind its call of Next.
  abbrev pub is_result : Option (Option Q) → Option (Value N → Option Q) → Value N → Option Q → Bool
  is_result (some name) qs v result = is_same name result
  is_result none (some name_of) v result = is_same (name_of v) result
  is_result none none v result = false

  unfoldable pub contains : ℕ → Value N → Count N Q S → Outcome (Bool × Count N Q S)
  contains fuel v c = (if c.is_done then done (false, c) else next fuel c) >>= λ (ok, c').
      done (is_result (names.fetched v) c'.qs v c'.result, c')

  unfoldable pub stats : Count N Q S → Outcome IteratorStats
  stats c = api.stats c.it >>= λ sub.
      let cost = if sub.exact_size then pos 1 else sub.next_cost *ℤ sub.size in
      done (record no_stats {
        next_cost = cost;
        contains_cost = cost;
        size = pos 1;
        exact_size = true;
      })

  -- The Count iterator, as the iterators above it see it.
  abbrev pub count_iterator : Iterator N E (Count N Q S)
  count_iterator = record {
    tag_results = λ c dst. done (tag_results c dst);
    result = λ c. result_of c.result;
    next = next;
    next_path = λ fuel c. done (false, c);
    contains = contains;
    err = λ c. api.err c.it;
    reset = reset;
    size = λ c. done (pos 1, true);
    stats = stats;
    close = λ c. ((api.close c.it).0, record c { it = (api.close c.it).1 });
  }
