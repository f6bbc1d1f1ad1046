-- ===== src/Iterator/Skip.antt =====
-- graph/iterator/skip.go: all but the first `skip` results.
pub mod Laws
use cayley.Prelude.{
  ℕ, zero, suc, Bool, true, false, Option, Outcome, done, out_of_fuel, ◌>>=◌, if◌then◌else◌,
}
use cayley.Prelude.Int64.{ℤ, pos, ltb_ℤ, ◌+ℤ◌, ◌-ℤ◌}
use cayley.Graph.Value.{Value}
use cayley.Graph.Stats.{IteratorStats}
use cayley.Graph.Iterator.{Iterator}

pub record Skip (S : Type 0) : Type 0 where
  pub skip : ℤ
  pub skipped : ℤ
  pub primary_it : S

-- `NewSkip`
unfoldable pub new_skip : {S : Type 0} → S → ℤ → Skip S
new_skip primary_it skip = record { skip = skip; skipped = pos 0; primary_it = primary_it }

module _ {S : Type 0} where
  -- The loops of `Next` and of `NextPath`, over the call `step` of the iterator below; the last
  -- call is the one behind the loop. `rounds` bounds the calls.
  unfoldable pub skip_loop : (S → Outcome (Bool × S)) → ℕ → Skip S → Outcome (Bool × Skip S)
  skip_loop step zero k = out_of_fuel
  skip_loop step (suc rounds) k = step k.primary_it >>= λ (ok, p). elim (ltb_ℤ k.skipped k.skip) [
    | false ↦ done (ok, record k { primary_it = p })
    | true ↦ elim ok [
      | false ↦ done (false, record k { primary_it = p })
      | true ↦ skip_loop step rounds (record k { primary_it = p; skipped = k.skipped +ℤ pos 1 })
    ]
  ]

module _ {N E S : Type 0} (it : Iterator N E S) where
  unfoldable pub next : ℕ → Skip S → Outcome (Bool × Skip S)
  unfolding skip_loop
  next fuel k = skip_loop (it.next fuel) fuel k

  unfoldable pub next_path : ℕ → Skip S → Outcome (Bool × Skip S)
  unfolding skip_loop
  next_path fuel k = skip_loop (it.next_path fuel) fuel k

  -- `Contains` skips nothing.
  unfoldable pub contains : ℕ → Value N → Skip S → Outcome (Bool × Skip S)
  contains fuel val k =
      it.contains fuel val k.primary_it >>= λ (ok, p). done (ok, record k { primary_it = p })

  -- The skipped results are taken off a size, down to zero.
  unfoldable pub cut : ℤ → Skip S → ℤ
  cut size k = let less = size -ℤ k.skip in if ltb_ℤ less (pos 0) then pos 0 else less

  unfoldable pub size : Skip S → Outcome (ℤ × Bool)
  unfolding cut
  size k = it.size k.primary_it >>= λ (primary_size, exact).
      done (if exact then cut primary_size k else primary_size, exact)

  unfoldable pub stats : Skip S → Outcome IteratorStats
  unfolding cut
  stats k = it.stats k.primary_it >>= λ primary_stats.
      done (record primary_stats { size = cut primary_stats.size k })

  unfoldable pub reset : Skip S → Skip S
  reset k = record k { skipped = pos 0; primary_it = it.reset k.primary_it }

  unfoldable pub close : Skip S → Option E × Skip S
  close k = let (e, p) = it.close k.primary_it in (e, record k { primary_it = p })

  abbrev pub skip_iterator : Iterator N E (Skip S)
  skip_iterator = record {
    tag_results = λ k dst. it.tag_results k.primary_it dst;
    result = λ k. it.result k.primary_it;
    next = next;
    next_path = next_path;
    contains = contains;
    err = λ k. it.err k.primary_it;
    reset = reset;
    size = size;
    stats = stats;
    close = close;
  }
