-- ===== src/Graph/Iterate.antt =====
-- graph/iterate.go, type IterateChain: the loops that run an iterator to its end. The model begins
-- behind `start`: the iterator is the one that `Optimize` left, and the context is not cancelled.
pub mod Walk
pub mod Laws
use cayley.Prelude.{
  ℕ, zero, suc, Bool, true, false, ◌&&◌, ◌||◌, List, [], ◌∷◌, ◌++◌, Option, none, some, Outcome,
  done, out_of_fuel, ◌>>=◌, if◌then◌else◌,
}
use cayley.Prelude.Int64.{ℤ, pos, negsuc, ltb_ℤ, ◌+ℤ◌}
use cayley.Graph.Value.{Value}
use cayley.Graph.Tagger.{Tags}
use cayley.Graph.Iterator.{Iterator}

pub record IterateChain (S : Type 0) : Type 0 where
  pub it : S
  pub paths : Bool
  pub limit : ℤ
  pub n : ℤ

module _ {S : Type 0} where
  -- `Iterate`
  unfoldable pub iterate : S → IterateChain S
  iterate it = record { it = it; paths = true; limit = negsuc 0; n = pos 0 }

  -- `Limit` and `Paths`
  unfoldable pub set_limit : ℤ → IterateChain S → IterateChain S
  set_limit n c = record c { limit = n }

  unfoldable pub set_paths : Bool → IterateChain S → IterateChain S
  set_paths enable c = record c { paths = enable }

  -- `c.limit < 0 || c.n < c.limit`
  unfoldable pub has_room : IterateChain S → Bool
  has_room c = ltb_ℤ c.limit (pos 0) || ltb_ℤ c.n c.limit

module _ {N E S : Type 0} (api : Iterator N E S) where
  -- The call below, counted if it succeeds.
  unfoldable pub counted : Outcome (Bool × S) → IterateChain S → Outcome (Bool × IterateChain S)
  counted call c = call >>= λ (ok, s). elim ok [
    | true ↦ done (true, record c { it = s; n = c.n +ℤ pos 1 })
    | false ↦ done (false, record c { it = s })
  ]

  unfoldable pub next : ℕ → IterateChain S → Outcome (Bool × IterateChain S)
  unfolding counted
  next fuel c = if has_room c then counted (api.next fuel c.it) c else done (false, c)

  unfoldable pub next_path : ℕ → IterateChain S → Outcome (Bool × IterateChain S)
  unfolding counted
  next_path fuel c =
      if c.paths && has_room c then counted (api.next_path fuel c.it) c else done (false, c)

  module _ {A : Type 0} (visit : A → S → Outcome A) where
    -- The two loops that `Each`, `Count`, `All` and `TagEach` have in common, the inner one over
    -- the paths of a result. `visit` is the body of both.
    unfoldable pub walk_paths : ℕ → ℕ → A → IterateChain S → Outcome (A × IterateChain S)
    unfolding next_path
    walk_paths zero fuel a c = out_of_fuel
    walk_paths (suc rounds) fuel a c = next_path fuel c >>= λ (ok, c'). elim ok [
      | true ↦ visit a c'.it >>= λ a'. walk_paths rounds fuel a' c'
      | false ↦ done (a, c')
    ]

    unfoldable pub walk : ℕ → ℕ → A → IterateChain S → Outcome (A × IterateChain S)
    unfolding next walk_paths
    walk zero fuel a c = out_of_fuel
    walk (suc rounds) fuel a c = next fuel c >>= λ (ok, c'). elim ok [
      | true ↦ visit a c'.it >>= λ a'.
          walk_paths fuel fuel a' c' >>= λ (a'', c''). walk rounds fuel a'' c''
      | false ↦ done (a, c')
    ]

  -- `Each`, with a callback that changes the state `A`.
  unfoldable pub each :
      {A : Type 0} → (A → Value N → A) → ℕ → A → IterateChain S → Outcome (A × Option E)
  unfolding walk
  each fnc fuel a c = walk (λ x s. done (fnc x (api.result s))) fuel fuel a c >>= λ (out, c').
      done (out, api.err c'.it)

  unfoldable pub all : ℕ → IterateChain S → Outcome (List (Value N) × Option E)
  unfolding walk
  all fuel c = walk (λ out s. done (out ++ api.result s ∷ [])) fuel fuel [] c >>= λ (out, c').
      done (out, api.err c'.it)

  unfoldable pub count_loop : ℕ → IterateChain S → Outcome (ℤ × Option E)
  unfolding walk
  count_loop fuel c = walk (λ cnt s. done (cnt +ℤ pos 1)) fuel fuel (pos 0) c >>= λ (cnt, c').
      done (cnt, api.err c'.it)

  -- `Count`: an exact size is the answer.
  unfoldable pub count : ℕ → IterateChain S → Outcome (ℤ × Option E)
  unfolding count_loop
  count fuel c = elim (api.err c.it) [
    | some e ↦ done (pos 0, some e)
    | none ↦ api.size c.it >>= λ (size, exact). elim exact [
      | true ↦ done (size, none)
      | false ↦ count_loop fuel c
    ]
  ]

  unfoldable pub first : ℕ → IterateChain S → Outcome (Value N × Option E)
  unfolding next
  first fuel c = next fuel c >>= λ (ok, c'). elim ok [
    | true ↦ done (api.result c'.it, none)
    | false ↦ done (none, api.err c'.it)
  ]

  -- `TagEach`: each result's tags are written to a new map.
  unfoldable pub tag_each :
      {A : Type 0} → (A → Tags N → A) → ℕ → A → IterateChain S → Outcome (A × Option E)
  unfolding walk
  tag_each fnc fuel a c =
      walk (λ x s. api.tag_results s [] >>= λ tags. done (fnc x tags)) fuel fuel a c
      >>= λ (out, c'). done (out, api.err c'.it)
