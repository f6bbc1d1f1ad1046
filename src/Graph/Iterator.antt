-- ===== src/Graph/Iterator.antt =====
-- graph/iterator.go, the interface Iterator: what every iterator offers to the ones above it.
use cayley.Prelude.{ℕ, Bool, Option, Outcome}
use cayley.Prelude.Int64.{ℤ}
use cayley.Graph.Value.{Value}
use cayley.Graph.Tagger.{Tags}
use cayley.Graph.Stats.{IteratorStats}

-- The methods of an iterator with the states `S` over the store's values `N` and the errors `E`.
-- A call that loops takes fuel. A method that changes the receiver returns the new state.
pub record Iterator (N E S : Type 0) : Type 0 where
  pub tag_results : S → Tags N → Outcome (Tags N)
  pub result : S → Value N
  pub next : ℕ → S → Outcome (Bool × S)
  pub next_path : ℕ → S → Outcome (Bool × S)
  pub contains : ℕ → Value N → S → Outcome (Bool × S)
  pub err : S → Option E
  pub reset : S → S
  pub size : S → Outcome (ℤ × Bool)
  pub stats : S → Outcome IteratorStats
  pub close : S → Option E × S
