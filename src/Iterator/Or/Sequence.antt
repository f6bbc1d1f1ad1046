-- ===== src/Iterator/Or/Sequence.antt =====
-- What an Or iterator still enumerates, when it does not short-circuit.
use cayley.Prelude.{
  ℕ, ◌≤◌, ◌<◌, false, List, [], ◌∷◌, ◌++◌, Option, none, some, ◌≡◌, ◌⊎◌, All, total, drop, length,
}
use cayley.Graph.Value.{Value}
use cayley.Iterator.Laws.{Sequence}
use cayley.Iterator.Or.{Or}

-- What comes after an iterator, unless it stopped with an error.
abbrev pub unless : {A E : Type 0} → Option E → List A → List A
unless (some e) vs = []
unless none vs = vs

abbrev pub first_of : {E : Type 0} → Option E → Option E → Option E
first_of (some e) e' = some e
first_of none e' = e'

module _ {N E S : Type 0} (n : Sequence N E S) where
  -- The values of some iterators, one after the other, up to the first that stops with an error.
  abbrev pub chain : List S → List (Value N)
  chain [] = []
  chain (s ∷ subs) = n.rest s ++ unless (n.stop s) (chain subs)

  abbrev pub chain_stop : List S → Option E
  chain_stop [] = none
  chain_stop (s ∷ subs) = first_of (n.stop s) (chain_stop subs)

  -- The iterators that `Next` has not left behind.
  abbrev pub at_work : Option ℕ → List S → List S
  at_work none subs = subs
  at_work (some i) subs = drop i subs

  abbrev pub InRange : Option ℕ → List S → Type 0
  InRange none subs = 0 < length subs
  InRange (some i) subs = i ≤ length subs

  pub record IsReady (o : Or N E S) : Type 0 where
    pub plain : o.is_short_circuiting ≡ false
    pub subs : All n.Valid o.internal_iterators
    pub range : InRange o.current_iterator o.internal_iterators
    pub clean :
        (o.err ≡ none)
        ⊎ ((chain (at_work o.current_iterator o.internal_iterators) ≡ [])
            × (o.err ≡ chain_stop (at_work o.current_iterator o.internal_iterators)))

  abbrev pub or_sequence : Sequence N E (Or N E S)
  or_sequence = record {
    Valid = IsReady;
    cost = λ o. total n.cost o.internal_iterators;
    rest = λ o. chain (at_work o.current_iterator o.internal_iterators);
    stop = λ o. chain_stop (at_work o.current_iterator o.internal_iterators);
  }
