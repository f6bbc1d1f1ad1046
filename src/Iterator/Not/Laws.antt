-- ===== src/Iterator/Not/Laws.antt =====
-- The Not iterator against the complement of the set below it.
use cayley.Prelude.{
  ℕ, zero, suc, ◌+◌, ◌<◌, Bool, not, List, [], none, ◌≡◌, refl, sym, ap, ◌∙◌, ◌⊎◌, inl, inr, filter,
  Returns, arith,
}
use cayley.Graph.Value.{Value}
use cayley.Graph.Iterator.{Iterator}
use cayley.Graph.Stats.{count_next}
use cayley.Iterator.Laws.{Sequence, Membership, Enumerates, Decides, Steps, Steps-again, Checked}
use cayley.Iterator.Laws.Rules.{next_rule, contains_rule}
use cayley.Iterator.Not.{Not, not_iterator, next, next_loop, contains}

module _ {N E S : Type 0} (n : Sequence N E S) (m : Membership N S) where
  -- The values that the primary iterator lacks.
  abbrev pub lacked : Not N E S → List (Value N) → List (Value N)
  lacked o = filter (λ v. not (m.has o.primary_it v))

  pub record IsReady (o : Not N E S) : Type 0 where
    pub all_valid : n.Valid o.all_it
    pub primary : m.Valid o.primary_it
    pub clean : (o.err ≡ none) ⊎ (n.rest o.all_it ≡ [])

  abbrev pub not_sequence : Sequence N E (Not N E S)
  not_sequence = record {
    Valid = IsReady;
    cost = λ o. n.cost o.all_it + m.cost o.primary_it;
    rest = λ o. lacked o (n.rest o.all_it);
    stop = λ o. n.stop o.all_it;
  }

module _ {N E S : Type 0} (m : Membership N S) where
  pub record IsOpen (o : Not N E S) : Type 0 where
    pub primary : m.Valid o.primary_it
    pub clean : o.err ≡ none

  abbrev pub not_membership : Membership N (Not N E S)
  not_membership = record {
    Valid = IsOpen;
    cost = λ o. m.cost o.primary_it;
    has = λ o v. not (m.has o.primary_it v);
  }

module _ {N E S : Type 0} (it : Iterator N E S) (n : Sequence N E S) (m : Membership N S)
    (seq : Enumerates it n) (law : Decides it m) where
  next_loop-Steps :
      (rounds fuel : ℕ) (o : Not N E S)
      → IsReady n m o
      → n.cost o.all_it < rounds
      → n.cost o.all_it + m.cost o.primary_it < fuel
      → Returns
          (next_loop it rounds fuel o)
          (Steps (not_iterator it) (not_sequence n m) o (lacked n m o (n.rest o.all_it)))
  unfolding next_loop
  next_loop-Steps zero fuel o h c d = absurd (omega arith)
  next_loop-Steps (suc rounds) fuel o h c d =
      next_rule it n seq fuel o.all_it _ _ h.all_valid (omega arith)
        (λ all' e s. rw e (record {
          refused = refl;
          valid = record { all_valid = s.valid; primary = h.primary; clean = inr s.empty };
          empty = rw s.empty;
          reason = s.reason;
          same_stop = s.same_stop;
          cheaper = omega (arith, s.cheaper);
        }))
        (λ v vs all' e s.
          let clean : o.err ≡ none = ground (arith, h.clean) in
          contains_rule it m law fuel (it.result all') o.primary_it _ _ h.primary (omega arith)
            (λ p has k.
              rw (e, has_value s.value has)
                (Steps-again (not_iterator it) (not_sequence n m) o
                  (record o { all_it = all'; primary_it = p }) _ (lacked n m o vs) _ s.same_stop
                  (omega (arith, s.cheaper, k.cheaper)) (rw (k.same, s.remains))
                  (next_loop-Steps rounds fuel (record o { all_it = all'; primary_it = p })
                    (record { all_valid = s.valid; primary = k.valid; clean = inl clean })
                    (omega (arith, s.cheaper)) (omega (arith, s.cheaper, k.cheaper)))))
            (λ p has k.
              rw (e, has_value s.value has)
                (record {
                  moved = refl;
                  valid = record { all_valid = s.valid; primary = k.valid; clean = inl clean };
                  value = s.value;
                  remains = rw (k.same, s.remains);
                  no_error = clean;
                  same_stop = s.same_stop;
                  cheaper = omega (arith, s.cheaper, k.cheaper);
                })))
    where
      has_value :
          {v w : Value N} {b : Bool} → w ≡ v → m.has o.primary_it w ≡ b → m.has o.primary_it v ≡ b
      has_value e f = sym (ap (m.has o.primary_it) e) ∙ f

  -- Where `allIt` enumerates a sequence and the primary iterator decides a set, each call of `Next`
  -- of the Not iterator with enough fuel returns: it moves to the first value of `allIt` that the
  -- primary iterator does not contain, or returns false with the error of `allIt`.
  pub not_next-Steps :
      (fuel : ℕ) (o : Not N E S)
      → IsReady n m o
      → n.cost o.all_it + m.cost o.primary_it < fuel
      → Returns
          (next it fuel o)
          (Steps (not_iterator it) (not_sequence n m) o (lacked n m o (n.rest o.all_it)))
  unfolding next
  not_next-Steps fuel o h c =
      let o' = record o { runstats = count_next o.runstats } in
      Steps-again (not_iterator it) (not_sequence n m) o o' _ _ (next_loop it fuel fuel o') refl
        (omega arith) refl
        (next_loop-Steps fuel fuel o'
          (record { all_valid = h.all_valid; primary = h.primary; clean = h.clean }) (omega arith)
          c)

  -- The same, as the law that iterators above this one rely on.
  pub not-Enumerates : Enumerates (not_iterator it) (not_sequence n m)
  not-Enumerates = record { next_law = not_next-Steps }

module _ {N E S : Type 0} (it : Iterator N E S) (m : Membership N S) (law : Decides it m) where
  -- Where the primary iterator decides a set, `Contains` of the Not iterator returns with enough
  -- fuel: it says yes exactly to what the primary iterator does not contain.
  pub not_contains-Checked :
      (fuel : ℕ) (v : Value N) (o : Not N E S)
      → IsOpen m o
      → m.cost o.primary_it < fuel
      → Returns (contains it fuel v o) (Checked (not_iterator it) (not_membership m) o v)
  unfolding contains
  not_contains-Checked fuel v o h c =
      contains_rule it m law fuel v o.primary_it _ _ h.primary c
        (λ p has k. record {
          answer = rw has;
          valid = record { primary = k.valid; clean = h.clean };
          same = λ i w. not (k.same i w);
          cheaper = k.cheaper;
        })
        (λ p has k. rw (law.quiet p k.valid) (record {
          answer = rw has;
          valid = record { primary = k.valid; clean = refl };
          same = λ i w. not (k.same i w);
          cheaper = k.cheaper;
        }))

  pub not-Decides : Decides (not_iterator it) (not_membership m)
  not-Decides = record { quiet = λ o h. h.clean; contains_law = not_contains-Checked }
