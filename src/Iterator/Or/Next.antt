-- ===== src/Iterator/Or/Next.antt =====
-- `Next` of the Or iterator, when it does not short-circuit, against the sequences below it.
use cayley.Prelude.{
  ℕ, zero, suc, ◌+◌, ◌<◌, Bool, true, false, ◌&&◌, not, [], ◌++◌, Option, none, some, ◌≡◌, refl,
  sym, ap, ◌∙◌, ◌⊎◌, inl, inr, All, total, drop, set, length, get_elem?, Returns, Bool-cases,
  Option-cases, Outcome, arith, leb, drop-get_elem?, length-set, drop_found, drop-eq-nil, All-get,
  total-get,
}
use cayley.Graph.Iterator.{Iterator}
use cayley.Iterator.Laws.{Sequence, Enumerates, Steps, Steps-again, Stopped}
use cayley.Iterator.Laws.Rules.{next_rule}
use cayley.Iterator.Or.{Or, or_iterator, next, next_loop, next_at, stop_at}
use cayley.Iterator.Or.Sequence.{unless, chain, chain_stop, at_work, IsReady, or_sequence}
use cayley.Iterator.Or.Round.{
  moved, chain_here, stop_here, cost_written, or-Produced, or-Failed, moved-IsReady, later-written,
  or-Stopped,
}

module _ {N E S : Type 0} (it : Iterator N E S) (n : Sequence N E S) (seq : Enumerates it n) where
  abbrev Promise : Or N E S → Bool × Or N E S → Type 0
  Promise o =
      Steps (or_iterator it) (or_sequence n) o
        (chain n (at_work n o.current_iterator o.internal_iterators))

  -- A round in which the sub-iterator has stopped.
  Stopped-Steps :
      (again : Or N E S → Outcome (Bool × Or N E S)) (fuel cur : ℕ) (first : Bool) (o : Or N E S)
      (sub sub' : S) (found : get_elem? o.internal_iterators cur ≡ some sub)
      (plain : o.is_short_circuiting ≡ false) (valid : All n.Valid o.internal_iterators)
      (sub'_valid : n.Valid sub')
      → n.rest sub ≡ []
      → Stopped it n sub (false, sub')
      → total n.cost o.internal_iterators < fuel
      → (suc cur < length o.internal_iterators
          → IsReady n (moved o cur sub')
          → total n.cost (moved o cur sub').internal_iterators < fuel
          → Returns (again (moved o cur sub')) (Promise (moved o cur sub')))
      → Returns
          (stop_at again
            (it.err sub')
            (o.is_short_circuiting && not first)
            (leb (length o.internal_iterators) (suc cur))
            cur
            (record o {
              internal_iterators = set o.internal_iterators cur sub';
              current_iterator = some cur;
            }))
          (Promise (record o { current_iterator = some cur }))
  unfolding stop_at
  Stopped-Steps again fuel cur first o sub sub' found plain valid v e s c loop =
      elim (Option-cases (n.stop sub)) [
        | inr (x, failed) ↦
            let front : chain n (drop cur o.internal_iterators) ≡ [] =
              chain_here it n o cur sub sub' found plain valid v ∙ rw (e, failed) in
            rw (front, s.reason ∙ failed)
              (or-Failed it n o cur sub sub' found plain valid v x failed s)
        | inl ended ↦
            let stays : (o.is_short_circuiting && not first) ≡ false =
              ap (λ b. b && not first) plain in
            let front : chain n (drop cur o.internal_iterators)
                ≡ chain n (drop (suc cur) o.internal_iterators) =
              chain_here it n o cur sub sub' found plain valid v ∙ rw (e, ended) in
            elim (Bool-cases (leb (length o.internal_iterators) (suc cur))) [
              | inl last ↦
                  let nothing = drop-eq-nil o.internal_iterators (suc cur) (ground arith) in
                  rw (s.reason ∙ ended, stays, last, front ∙ ap (chain n) nothing)
                    (or-Stopped it n o cur sub sub' found plain valid v ended (ground arith) s)
              | inr more ↦
                  let kept = cost_written it n o cur sub sub' found plain valid v in
                  let later' = later-written it n o cur sub sub' found plain valid v in
                  rw (s.reason ∙ ended, stays, more, front)
                    (Steps-again (or_iterator it) (or_sequence n)
                      (record o { current_iterator = some cur }) (moved o cur sub') _ _
                      (again (moved o cur sub'))
                      (ap (chain_stop n) later'
                        ∙ sym (stop_here it n o cur sub sub' found plain valid v ∙ rw ended))
                      (omega (arith, kept, s.cheaper)) (ap (chain n) later')
                      (loop (ground arith) (moved-IsReady it n o cur sub sub' found plain valid v)
                        (omega (arith, kept, s.cheaper))))
            ]
      ]

  -- One round, where the loop behind it keeps its promise.
  next_at-Steps :
      (again : Or N E S → Outcome (Bool × Or N E S)) (fuel cur : ℕ) (first : Bool) (o : Or N E S)
      (sub : S)
      → get_elem? o.internal_iterators cur ≡ some sub
      → o.is_short_circuiting ≡ false
      → All n.Valid o.internal_iterators
      → (o.err ≡ none) ⊎ (chain n (drop cur o.internal_iterators) ≡ [])
      → total n.cost o.internal_iterators < fuel
      → ((sub' : S)
          → let next' = moved o cur sub' in
            suc cur < length o.internal_iterators
            → IsReady n next'
            → total n.cost next'.internal_iterators < fuel
            → Returns (again next') (Promise next'))
      → Returns
          (next_at it again fuel cur first (some sub) o)
          (Promise (record o { current_iterator = some cur }))
  unfolding next_at
  next_at-Steps again fuel cur first o sub found plain valid clean c loop =
      let sub_valid = All-get n.Valid o.internal_iterators cur sub found valid in
      next_rule it n seq fuel sub _ _ sub_valid
        (omega (arith, total-get n.cost o.internal_iterators cur sub found))
        (λ sub' e s.
          let on = Stopped-Steps again fuel cur first o sub sub' found plain valid s.valid e s c in
          on (loop sub'))
        (λ v vs sub' e s.
          let queue = drop_found o.internal_iterators cur sub found in
          let front : chain n (drop cur o.internal_iterators) ≡ _ =
            ap (chain n) queue
            ∙ ap (λ l. l ++ unless (n.stop sub) (chain n (drop (suc cur) o.internal_iterators)))
                e in
          rw front (
            or-Produced it n o cur sub sub' found plain valid s.valid v vs
              (ground (arith, clean, front)) s))

  -- The loop from the index `cur`.
  loop_from-Steps :
      (rounds fuel cur : ℕ) (first : Bool) (o : Or N E S)
      → cur < length o.internal_iterators
      → length o.internal_iterators < suc rounds + cur
      → IsReady n (record o { current_iterator = some cur })
      → total n.cost o.internal_iterators < fuel
      → Returns
          (next_loop it rounds fuel first (record o { current_iterator = some cur }))
          (Promise (record o { current_iterator = some cur }))
  unfolding next_loop
  loop_from-Steps zero fuel cur first o l r h c = absurd (omega arith)
  loop_from-Steps (suc rounds) fuel cur first o l r h c =
      let (sub, found, _) = drop-get_elem? o.internal_iterators cur l in
      rw (Returns, next_loop, found)
        (next_at-Steps (next_loop it rounds fuel first) fuel cur first
          (record o { current_iterator = some cur }) sub found h.plain h.subs
          (ground (arith, h.clean)) c
          λ sub' more ready d.
            loop_from-Steps rounds fuel (suc cur) first (moved o cur sub')
              (omega (arith, length-set o.internal_iterators cur sub'))
              (omega (arith, length-set o.internal_iterators cur sub')) ready d)

  -- The loop from the first index.
  loop-Steps :
      (rounds fuel : ℕ) (first : Bool) (o : Or N E S)
      → 0 < length o.internal_iterators
      → length o.internal_iterators < suc rounds
      → IsReady n (record o { current_iterator = none })
      → total n.cost o.internal_iterators < fuel
      → Returns
          (next_loop it rounds fuel first (record o { current_iterator = none }))
          (Promise (record o { current_iterator = none }))
  unfolding next_loop
  loop-Steps zero fuel first o l r h c = absurd (omega arith)
  loop-Steps (suc rounds) fuel first o l r h c =
      let (sub, found, _) = drop-get_elem? o.internal_iterators 0 l in
      rw (Returns, next_loop, found)
        (Steps-again (or_iterator it) (or_sequence n) (record o { current_iterator = none })
          (record o { current_iterator = some 0 }) _ _ _ refl (omega arith) refl
          (next_at-Steps (next_loop it rounds fuel true) fuel 0 true
            (record o { current_iterator = none }) sub found h.plain h.subs
            (ground (arith, h.clean)) c
            λ sub' more ready d.
              loop_from-Steps rounds fuel 1 true (moved o 0 sub')
                (omega (arith, length-set o.internal_iterators 0 sub'))
                (omega (arith, length-set o.internal_iterators 0 sub')) ready d))

  next_from-Steps :
      (current : Option ℕ) (fuel : ℕ) (o : Or N E S)
      → IsReady n (record o { current_iterator = current })
      → total n.cost o.internal_iterators < fuel
      → Returns
          (next it fuel (record o { current_iterator = current }))
          (Promise (record o { current_iterator = current }))
  unfolding next
  next_from-Steps none fuel o h c =
      loop-Steps (suc (length o.internal_iterators)) fuel false o h.range (omega arith) h c
  next_from-Steps (some cur) fuel o h c =
      elim (Bool-cases (leb (length o.internal_iterators) cur)) [
        | inr more ↦ rw more (
            loop_from-Steps (suc (length o.internal_iterators)) fuel cur false o (ground arith)
              (omega arith) h c)
        | inl past ↦
            let nothing = drop-eq-nil o.internal_iterators cur (ground arith) in
            let empty = ap (chain n) nothing in
            let ended = ap (chain_stop n) nothing in
            rw (past, empty)
              (record {
                refused = refl;
                valid = h;
                empty = empty;
                reason = ground (arith, h.clean, ended);
                same_stop = refl;
                cheaper = omega arith;
              })
      ]

  -- Over sub-iterators that enumerate sequences, and of which there is at least one, each call of
  -- `Next` of an Or iterator that does not short-circuit, and that has an error only if nothing is
  -- left, returns with enough fuel: it moves to the next value of the current sub-iterator or of
  -- the ones after it, and returns false when all are at their end, with no error, or when one
  -- stopped with an error, with that error.
  pub or_next-Steps :
      (fuel : ℕ) (o : Or N E S)
      → IsReady n o
      → total n.cost o.internal_iterators < fuel
      → Returns (next it fuel o) (
          Steps
            (or_iterator it)
            (or_sequence n)
            o
            (chain n (at_work n o.current_iterator o.internal_iterators)))
  or_next-Steps fuel o h c = next_from-Steps o.current_iterator fuel o h c

  pub or-Enumerates : Enumerates (or_iterator it) (or_sequence n)
  or-Enumerates = record { next_law = or_next-Steps }
