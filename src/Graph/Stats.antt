-- ===== src/Graph/Stats.antt =====
-- graph/iterator.go, type IteratorStats: costs, sizes, and counters of calls.
use cayley.Prelude.{Bool, false}
use cayley.Prelude.Int64.{ℤ, pos, ◌+ℤ◌}

pub record IteratorStats : Type 0 where
  pub contains_cost : ℤ
  pub next_cost : ℤ
  pub size : ℤ
  pub exact_size : Bool
  pub next : ℤ
  pub contains : ℤ
  pub contains_next : ℤ

-- The zero value.
abbrev pub no_stats : IteratorStats
no_stats = record {
  contains_cost = pos 0;
  next_cost = pos 0;
  size = pos 0;
  exact_size = false;
  next = pos 0;
  contains = pos 0;
  contains_next = pos 0;
}

-- The counters of an iterator's own `runstats`.
unfoldable pub count_next : IteratorStats → IteratorStats
count_next r = record r { next = r.next +ℤ pos 1 }

unfoldable pub count_contains : IteratorStats → IteratorStats
count_contains r = record r { contains = r.contains +ℤ pos 1 }

unfoldable pub count_contains_next : IteratorStats → IteratorStats
count_contains_next r = record r { contains_next = r.contains_next +ℤ pos 1 }
