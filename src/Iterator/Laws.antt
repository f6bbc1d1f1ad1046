-- ===== src/Iterator/Laws.antt =====
-- What an iterator promises on each of its two paths: on the Next path it enumerates a sequence,
-- and on the Contains path it decides a set.
pub mod Rules
use cayley.Prelude.{
  ℕ, ◌≤◌, ◌<◌, Bool, true, false, List, [], ◌∷◌, Option, none, ◌≡◌, ◌∙◌, subst, Outcome, Returns,
  Returns-weaken, arith,
}
use cayley.Graph.Value.{Value}
use cayley.Graph.Iterator.{Iterator}

-- The abstract view on the Next path: the values still to come, the error with which the
-- enumeration stops, and the fuel that one call may need.
pub record Sequence (N E S : Type 0) : Type 1 where
  pub Valid : S → Type 0
  pub cost : S → ℕ
  pub rest : S → List (Value N)
  pub stop : S → Option E

module _ {N E S : Type 0} (it : Iterator N E S) (view : Sequence N E S) where
  -- `Next` returned false: nothing is left, and `Err` tells why it stopped.
  pub record Stopped (s : S) (r : Bool × S) : Type 0 where
    pub refused : r.0 ≡ false
    pub valid : view.Valid r.1
    pub empty : view.rest r.1 ≡ []
    pub reason : it.err r.1 ≡ view.stop s
    pub same_stop : view.stop r.1 ≡ view.stop s
    pub cheaper : view.cost r.1 ≤ view.cost s

  -- `Next` returned true: `Result` is the first value that was to come.
  pub record Produced (s : S) (v : Value N) (vs : List (Value N)) (r : Bool × S) : Type 0 where
    pub moved : r.0 ≡ true
    pub valid : view.Valid r.1
    pub value : it.result r.1 ≡ v
    pub remains : view.rest r.1 ≡ vs
    pub no_error : it.err r.1 ≡ none
    pub same_stop : view.stop r.1 ≡ view.stop s
    pub cheaper : view.cost r.1 < view.cost s

  abbrev pub Steps : S → List (Value N) → Bool × S → Type 0
  Steps s [] r = Stopped s r
  Steps s (v ∷ vs) r = Produced s v vs r

  -- What is promised of a call from `s'` is promised of one from `s`, which came to `s'` first.
  pub Steps-shift :
      {s s' : S} (vs : List (Value N)) (r : Bool × S)
      → view.stop s' ≡ view.stop s
      → view.cost s' ≤ view.cost s
      → Steps s' vs r
      → Steps s vs r
  Steps-shift [] r e c h = record {
    refused = h.refused;
    valid = h.valid;
    empty = h.empty;
    reason = h.reason ∙ e;
    same_stop = h.same_stop ∙ e;
    cheaper = omega (arith, h.cheaper);
  }
  Steps-shift (v ∷ vs) r e c h = record {
    moved = h.moved;
    valid = h.valid;
    value = h.value;
    remains = h.remains;
    no_error = h.no_error;
    same_stop = h.same_stop ∙ e;
    cheaper = omega (arith, h.cheaper);
  }

  -- The same of an outcome, where the two states have the same values to come.
  pub Steps-again :
      (s s' : S) (xs vs : List (Value N)) (m : Outcome (Bool × S))
      → view.stop s' ≡ view.stop s
      → view.cost s' ≤ view.cost s
      → xs ≡ vs
      → Returns m (Steps s' xs)
      → Returns m (Steps s vs)
  Steps-again s s' xs vs m e c l h =
      Returns-weaken (Steps s' vs) (Steps s vs) m (subst (λ l. Returns m (Steps s' l)) l h)
        λ r k. Steps-shift vs r e c k

  pub record Enumerates : Type 0 where
    pub next_law :
        (fuel : ℕ) (s : S)
        → view.Valid s
        → view.cost s < fuel
        → Returns (it.next fuel s) (Steps s (view.rest s))

-- The abstract view on the Contains path: the set, which no call changes.
pub record Membership (N S : Type 0) : Type 1 where
  pub Valid : S → Type 0
  pub cost : S → ℕ
  pub has : S → Value N → Bool

module _ {N E S : Type 0} (it : Iterator N E S) (view : Membership N S) where
  pub record Checked (s : S) (v : Value N) (r : Bool × S) : Type 0 where
    pub answer : r.0 ≡ view.has s v
    pub valid : view.Valid r.1
    pub same : view.has r.1 ≡ view.has s
    pub cheaper : view.cost r.1 ≤ view.cost s

  -- What is promised of a call from `s'` is promised of one from `s`, which came to `s'` first.
  pub Checked-shift :
      {s s' : S} (v : Value N) (r : Bool × S)
      → view.has s' ≡ view.has s
      → view.cost s' ≤ view.cost s
      → Checked s' v r
      → Checked s v r
  Checked-shift v r e c h = record {
    answer = h.answer ∙ (λ i. e i v);
    valid = h.valid;
    same = h.same ∙ e;
    cheaper = omega (arith, h.cheaper);
  }

  pub record Decides : Type 0 where
    pub quiet : (s : S) → view.Valid s → it.err s ≡ none
    pub contains_law :
        (fuel : ℕ) (v : Value N) (s : S)
        → view.Valid s
        → view.cost s < fuel
        → Returns (it.contains fuel v s) (Checked s v)
