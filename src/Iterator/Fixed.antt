-- ===== src/Iterator/Fixed.antt =====
-- graph/iterator/fixed.go: an explicit array of values, compared by their keys.
pub mod Laws
use cayley.Prelude.{
  ℕ, ◌+◌, Bool, true, false, List, [], ◌∷◌, ◌++◌, Option, none, some, Outcome, done, panic,
  get_elem?, length, nat_beq, if◌then◌else◌,
}
use cayley.Prelude.Int64.{ℤ, pos, wrap64}
use cayley.Graph.Value.{Value, Keyer, to_key, key_beq}
use cayley.Graph.Tagger.{Tagger, Tags, no_tags, tag_result, copy_from}
use cayley.Graph.Stats.{IteratorStats, no_stats}
use cayley.Graph.Iterator.{Iterator}

pub record Fixed (N : Type 0) : Type 0 where
  pub tags : Tagger N
  pub values : List (Value N)
  pub last_index : ℕ
  pub result : Value N

module _ {N : Type 0} where
  -- `Add`
  unfoldable pub add : Value N → Fixed N → Fixed N
  add v f = record f { values = f.values ++ v ∷ [] }

  unfoldable pub add_all : List (Value N) → Fixed N → Fixed N
  unfolding add
  add_all [] f = f
  add_all (v ∷ vals) f = add_all vals (add v f)

  -- `NewFixed`
  unfoldable pub new_fixed : List (Value N) → Fixed N
  unfolding add_all
  new_fixed vals =
      add_all vals (record { tags = no_tags; values = []; last_index = 0; result = none })

  -- `Clone`
  unfoldable pub clone : Fixed N → Fixed N
  unfolding new_fixed
  clone f = let out = new_fixed f.values in record out { tags = copy_from f.tags out.tags }

  unfoldable pub reset : Fixed N → Fixed N
  reset f = record f { last_index = 0 }

  -- `values[lastIndex]`
  unfoldable pub take_at : Option (Value N) → Fixed N → Outcome (Bool × Fixed N)
  take_at none f = panic
  take_at (some out) f = done (true, record f { result = out; last_index = f.last_index + 1 })

  unfoldable pub next : Fixed N → Outcome (Bool × Fixed N)
  unfolding take_at
  next f =
      if nat_beq f.last_index (length f.values)
      then done (false, f)
      else take_at (get_elem? f.values f.last_index) f

  unfoldable pub size : Fixed N → ℤ × Bool
  size f = (wrap64 (pos (length f.values)), true)

  unfoldable pub stats : Fixed N → IteratorStats
  unfolding size
  stats f =
      let (s, exact) = size f in
      record no_stats { contains_cost = s; next_cost = s; size = s; exact_size = exact }

module _ {N K : Type 0} (keyer : Keyer N K) where
  -- The loop of `Contains`, over the values that are left.
  unfoldable pub search_in : Value N → List (Value N) → Fixed N → Bool × Fixed N
  unfolding to_key
  search_in v [] f = (false, f)
  search_in v (x ∷ values) f =
      if key_beq keyer (to_key keyer x) (to_key keyer v)
      then (true, record f { result = x })
      else search_in v values f

  unfoldable pub contains : Value N → Fixed N → Bool × Fixed N
  unfolding search_in
  contains v f = search_in v f.values f

  -- The Fixed iterator, as the iterators above it see it.
  abbrev pub fixed_iterator : {E : Type 0} → Iterator N E (Fixed N)
  fixed_iterator = record {
    tag_results = λ f dst. done (tag_result f.tags dst f.result);
    result = λ f. f.result;
    next = λ fuel f. next f;
    next_path = λ fuel f. done (false, f);
    contains = λ fuel v f. done (contains v f);
    err = λ f. none;
    reset = reset;
    size = λ f. done (size f);
    stats = λ f. done (stats f);
    close = λ f. (none, f);
  }
