-- ===== src/Iterator/And/Next.antt =====
-- `Next` of the And iterator against the intersection of the sequences below it.
use cayley.Prelude.{
  ℕ, zero, suc, ◌+◌, ◌<◌, Bool, true, false, List, [], ◌∷◌, map, Option, none, ◌≡◌, refl, sym, ap,
  ◌∙◌, ◌⊎◌, inl, inr, All, total, filter, Returns, Returns-bind, Returns-weaken, List-cases,
  Bool-cases, arith,
}
use cayley.Graph.Value.{Value}
use cayley.Graph.Iterator.{Iterator}
use cayley.Iterator.Laws.{
  Sequence, Membership, Enumerates, Decides, Steps, Steps-shift, Stopped, Produced,
}
use cayley.Graph.Stats.{count_next}
use cayley.Iterator.And.{And, and_iterator, next, next_loop, err, first_err, sub_its_contain}
use cayley.Iterator.Sweep.{every, Swept}
use cayley.Iterator.And.Sweep.{Answered, sub_its_contain-Answered}

module _ {N E S : Type 0} (n : Sequence N E S) (m : Membership N S) where
  -- Every value of the primary iterator that all the others hold.
  abbrev pub selected : And N E S → List (Value N) → List (Value N)
  selected a = filter (every (map m.has a.internal_iterators))

  pub record IsReady (a : And N E S) : Type 0 where
    pub primary : n.Valid a.primary_it
    pub internals : All m.Valid a.internal_iterators
    pub clean : (a.err ≡ none) ⊎ (n.rest a.primary_it ≡ [])

  abbrev pub and_sequence : Sequence N E (And N E S)
  and_sequence = record {
    Valid = IsReady;
    cost = λ a. n.cost a.primary_it + total m.cost a.internal_iterators;
    rest = λ a. selected a (n.rest a.primary_it);
    stop = λ a. n.stop a.primary_it;
  }

module _ {N E S : Type 0} (it : Iterator N E S) (n : Sequence N E S) (m : Membership N S)
    (seq : Enumerates it n) (law : Decides it m) where
  first_err_quiet : (subs : List S) → All m.Valid subs → first_err it subs ≡ none
  unfolding first_err
  first_err_quiet [] h = refl
  first_err_quiet (s ∷ subs) h = rw (first_err, law.quiet s h.0) (first_err_quiet subs h.1)

  -- Where the iterator's own error is that of the primary one, `Err` returns it.
  err_of_primary :
      (a : And N E S) {e : Option E}
      → All m.Valid a.internal_iterators
      → it.err a.primary_it ≡ e
      → (a.err ≡ none) ⊎ (a.err ≡ e)
      → err it a ≡ e
  unfolding err first_err
  err_of_primary a h p own = ground (arith, first_err_quiet a.internal_iterators h)

  -- The primary iterator has stopped.
  and-Stopped :
      (a : And N E S) (r : Bool × S)
      → IsReady n m a
      → Stopped it n a.primary_it r
      → Stopped
          (and_iterator it)
          (and_sequence n m)
          a
          (false, record a { primary_it = r.1; err = it.err r.1 })
  and-Stopped a r h s =
      let a' = record a { primary_it = r.1; err = it.err r.1 } in
      record {
        refused = refl;
        valid = record { primary = s.valid; internals = h.internals; clean = inr s.empty };
        empty = rw s.empty;
        reason = err_of_primary a' h.internals s.reason (inr s.reason);
        same_stop = s.same_stop;
        cheaper = omega (arith, s.cheaper);
      }

  -- A candidate that every other iterator holds is the next value.
  and-Produced :
      (a : And N E S) (v : Value N) (vs : List (Value N)) (r : Bool × S) (subs : List S)
      → a.err ≡ none
      → Produced it n a.primary_it v vs r
      → Swept m a.internal_iterators subs
      → Produced
          (and_iterator it)
          (and_sequence n m)
          a
          v
          (selected n m a vs)
          (true, record a { primary_it = r.1; internal_iterators = subs; result = it.result r.1 })
  and-Produced a v vs r subs clean s w =
      let a' = record a { primary_it = r.1; internal_iterators = subs; result = it.result r.1 } in
      record {
        moved = refl;
        valid = record { primary = s.valid; internals = w.valid; clean = inl clean };
        value = s.value;
        remains = rw (w.same, s.remains);
        no_error = err_of_primary a' w.valid s.no_error (inl clean);
        same_stop = s.same_stop;
        cheaper = omega (arith, s.cheaper, w.cheaper);
      }

  -- What the loop promises after a candidate that some other iterator lacks.
  again :
      (a : And N E S) (v : Value N) (vs : List (Value N)) (r : Bool × S) (subs : List S)
      → Produced it n a.primary_it v vs r
      → Swept m a.internal_iterators subs
      → let a' = record a { primary_it = r.1; internal_iterators = subs } in
        (q : Bool × And N E S)
        → Steps (and_iterator it) (and_sequence n m) a' (selected n m a' (n.rest r.1)) q
        → Steps (and_iterator it) (and_sequence n m) a (selected n m a vs) q
  again a v vs r subs s w q k =
      Steps-shift (and_iterator it) (and_sequence n m) (selected n m a vs) q s.same_stop
        (omega (arith, s.cheaper, w.cheaper)) (rw (w.same, s.remains) at k)

  next_loop-Steps :
      (rounds fuel : ℕ) (a : And N E S)
      → IsReady n m a
      → n.cost a.primary_it < rounds
      → n.cost a.primary_it + total m.cost a.internal_iterators < fuel
      → Returns
          (next_loop it rounds fuel a)
          (Steps (and_iterator it) (and_sequence n m) a (selected n m a (n.rest a.primary_it)))
  unfolding next_loop
  next_loop-Steps zero fuel a h c d = absurd (omega arith)
  next_loop-Steps (suc rounds) fuel a h c d = elim (List-cases (n.rest a.primary_it)) [
    | inl empty ↦
        let goal = Steps (and_iterator it) (and_sequence n m) a [] in
        rw empty (
          Returns-bind (Stopped it n a.primary_it) goal (it.next fuel a.primary_it) _
            (rw empty at (seq.next_law fuel a.primary_it h.primary (omega arith)))
            λ r s. rw s.refused (and-Stopped a r h s))
    | inr (v, vs, e) ↦
        let goal = Steps (and_iterator it) (and_sequence n m) a (selected n m a (v ∷ vs)) in
        let others = every (map m.has a.internal_iterators) in
        let clean : a.err ≡ none = ground (arith, h.clean) in
        rw e (
          Returns-bind (Produced it n a.primary_it v vs) goal (it.next fuel a.primary_it) _
            (rw e at (seq.next_law fuel a.primary_it h.primary (omega arith)))
            λ r s. rw s.moved (
              Returns-bind (Answered it m law a.internal_iterators (others (it.result r.1))) goal
                (sub_its_contain it fuel (it.result r.1) none a.internal_iterators) _
                (sub_its_contain-Answered it m law fuel (it.result r.1) none a.internal_iterators
                  h.internals (omega arith))
                λ (good, subs) w. elim (Bool-cases good) [
                  | inl holds ↦
                      rw (holds, sym (ap others s.value) ∙ sym w.answer ∙ holds)
                        (and-Produced a v vs r subs clean s w.swept)
                  | inr misses ↦
                      rw (misses, sym (ap others s.value) ∙ sym w.answer ∙ misses)
                        (Returns-weaken _ _ _
                          (next_loop-Steps rounds fuel
                            (record a { primary_it = r.1; internal_iterators = subs })
                            (record {
                              primary = s.valid;
                              internals = w.swept.valid;
                              clean = inl clean;
                            })
                            (omega (arith, s.cheaper)) (omega (arith, s.cheaper, w.swept.cheaper)))
                          (again a v vs r subs s w.swept))
                ]))
  ]

  -- Over a primary iterator that enumerates a sequence and others that decide sets, each call of
  -- `Next` with enough fuel returns: it moves to the first value still to come of the primary
  -- iterator that all the others contain and leaves the later ones to come, or, where there is no
  -- such value, it returns false with the primary iterator's error.
  pub and_next-Steps :
      (fuel : ℕ) (a : And N E S)
      → IsReady n m a
      → n.cost a.primary_it + total m.cost a.internal_iterators < fuel
      → Returns
          (next it fuel a)
          (Steps (and_iterator it) (and_sequence n m) a (selected n m a (n.rest a.primary_it)))
  unfolding next
  and_next-Steps fuel a h c =
      let a' = record a { runstats = count_next a.runstats } in
      Returns-weaken
        (Steps (and_iterator it) (and_sequence n m) a' (selected n m a' (n.rest a.primary_it))) _
        (next_loop it fuel fuel a')
        (next_loop-Steps fuel fuel a'
          (record { primary = h.primary; internals = h.internals; clean = h.clean }) (omega arith)
          c)
        λ r k. Steps-shift (and_iterator it) (and_sequence n m) _ r refl (omega arith) k

  -- The same, as the law that iterators above this one rely on.
  pub and-Enumerates : Enumerates (and_iterator it) (and_sequence n m)
  and-Enumerates = record { next_law = and_next-Steps }
