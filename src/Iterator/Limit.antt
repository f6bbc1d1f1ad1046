-- ===== src/Iterator/Limit.antt =====
-- graph/iterator/limit.go: the first `limit` results. A limit that is not positive is none.
pub mod Laws
use cayley.Prelude.{ℕ, Bool, true, false, ◌&&◌, Option, Outcome, done, ◌>>=◌, if◌then◌else◌}
use cayley.Prelude.Int64.{ℤ, pos, ltb_ℤ, leb_ℤ, ◌+ℤ◌}
use cayley.Graph.Value.{Value}
use cayley.Graph.Stats.{IteratorStats}
use cayley.Graph.Iterator.{Iterator}

pub record Limit (S : Type 0) : Type 0 where
  pub limit : ℤ
  pub count : ℤ
  pub primary_it : S

module _ {S : Type 0} where
  -- `NewLimit`
  unfoldable pub new_limit : S → ℤ → Limit S
  new_limit primary_it limit = record { limit = limit; count = pos 0; primary_it = primary_it }

  -- The test with which `Next` and `NextPath` begin.
  unfoldable pub is_reached : Limit S → Bool
  is_reached l = ltb_ℤ (pos 0) l.limit && leb_ℤ l.limit l.count

module _ {N E S : Type 0} (it : Iterator N E S) where
  -- The call below, counted if it succeeds.
  unfoldable pub counted : Outcome (Bool × S) → Limit S → Outcome (Bool × Limit S)
  counted call l = call >>= λ (ok, p). elim ok [
    | true ↦ done (true, record l { primary_it = p; count = l.count +ℤ pos 1 })
    | false ↦ done (false, record l { primary_it = p })
  ]

  unfoldable pub next : ℕ → Limit S → Outcome (Bool × Limit S)
  unfolding counted
  next fuel l = if is_reached l then done (false, l) else counted (it.next fuel l.primary_it) l

  unfoldable pub next_path : ℕ → Limit S → Outcome (Bool × Limit S)
  unfolding counted
  next_path fuel l =
      if is_reached l then done (false, l) else counted (it.next_path fuel l.primary_it) l

  -- `Contains` ignores the limit.
  unfoldable pub contains : ℕ → Value N → Limit S → Outcome (Bool × Limit S)
  contains fuel val l =
      it.contains fuel val l.primary_it >>= λ (ok, p). done (ok, record l { primary_it = p })

  -- A size above a positive limit is the limit.
  unfoldable pub cut : ℤ → Limit S → ℤ
  cut size l = if ltb_ℤ (pos 0) l.limit && ltb_ℤ l.limit size then l.limit else size

  unfoldable pub size : Limit S → Outcome (ℤ × Bool)
  unfolding cut
  size l = it.size l.primary_it >>= λ (primary_size, exact). done (cut primary_size l, exact)

  unfoldable pub stats : Limit S → Outcome IteratorStats
  unfolding cut
  stats l = it.stats l.primary_it >>= λ primary_stats.
      done (record primary_stats { size = cut primary_stats.size l })

  unfoldable pub reset : Limit S → Limit S
  reset l = record l { count = pos 0; primary_it = it.reset l.primary_it }

  unfoldable pub close : Limit S → Option E × Limit S
  close l = let (e, p) = it.close l.primary_it in (e, record l { primary_it = p })

  abbrev pub limit_iterator : Iterator N E (Limit S)
  limit_iterator = record {
    tag_results = λ l dst. it.tag_results l.primary_it dst;
    result = λ l. it.result l.primary_it;
    next = next;
    next_path = next_path;
    contains = contains;
    err = λ l. it.err l.primary_it;
    reset = reset;
    size = size;
    stats = stats;
    close = close;
  }
