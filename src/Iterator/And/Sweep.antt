-- ===== src/Iterator/And/Sweep.antt =====
-- `subItsContain` asks the sub-iterators of an And iterator, and leaves them as they may be left.
use cayley.Prelude.{
  ℕ, ◌<◌, Bool, List, [], ◌∷◌, ◌++◌, map, none, some, ◌≡◌, refl, append-nil, append_assoc, All,
  total, total-append, Returns, Returns-bind, Returns-weaken, arith, inl, inr, Bool-cases,
}
use cayley.Graph.Value.{Value}
use cayley.Graph.Iterator.{Iterator}
use cayley.Iterator.Laws.{Membership, Decides, Checked}
use cayley.Iterator.Sweep.{
  every, Swept, Swept-refl, Swept-cons, Swept-trans, Swept-append, All-before, All-after,
}
use cayley.Iterator.And.{rewind, contain_from, sub_its_contain}

module _ {N E S : Type 0} (it : Iterator N E S) (m : Membership N S) (law : Decides it m) where
  pub rewind-Swept :
      (fuel : ℕ) (last : Value N) (subs : List S)
      → All m.Valid subs
      → total m.cost subs < fuel
      → Returns (rewind it fuel last subs) (Swept m subs)
  unfolding rewind
  rewind-Swept fuel none subs h c = Swept-refl m subs h
  rewind-Swept fuel (some last) [] h c = Swept-refl m [] h
  rewind-Swept fuel (some last) (sub ∷ subs) h c =
      Returns-bind (Checked it m sub (some last)) (Swept m (sub ∷ subs))
        (it.contains fuel (some last) sub) _
        (law.contains_law fuel (some last) sub h.0 (omega arith))
        λ r checked.
          Returns-bind (Swept m subs) (Swept m (sub ∷ subs)) (rewind it fuel (some last) subs) _
            (rewind-Swept fuel (some last) subs h.1 (omega arith))
            λ subs' w. Swept-cons m sub r.1 checked.valid checked.same checked.cheaper w

  -- The answer of a pass, and what it leaves.
  pub record Answered (subs : List S) (wanted : Bool) (r : Bool × List S) : Type 0 where
    pub answer : r.0 ≡ wanted
    pub swept : Swept m subs r.1

  contain_from-Answered :
      (fuel : ℕ) (val last : Value N) (before after : List S)
      → All m.Valid (before ++ after)
      → total m.cost (before ++ after) < fuel
      → Returns
          (contain_from it fuel val last before after)
          (Answered (before ++ after) (every (map m.has after) val))
  unfolding contain_from
  contain_from-Answered fuel val last before [] h c = record {
    answer = refl;
    swept = rw append-nil (Swept-refl m before (rw append-nil at h));
  }
  contain_from-Answered fuel val last before (sub ∷ after) h c =
      let front = All-before m.Valid before (sub ∷ after) h in
      let own = All-after m.Valid before (sub ∷ after) h in
      let costs = total-append m.cost before (sub ∷ after) in
      let wanted = Answered (before ++ sub ∷ after) (every (map m.has (sub ∷ after)) val) in
      Returns-bind (Checked it m sub val) wanted (it.contains fuel val sub) _
        (law.contains_law fuel val sub own.0 (omega (arith, costs)))
        λ r checked.
          let back =
            Swept-cons m sub r.1 checked.valid checked.same checked.cheaper
              (Swept-refl m after own.1) in
          let kept = Swept-append m before before (Swept-refl m before front) back in
          elim (Bool-cases r.0) [
            | inl yes' ↦ rw yes' (
                Returns-weaken
                  (Answered ((before ++ r.1 ∷ []) ++ after) (every (map m.has after) val)) wanted
                  (contain_from it fuel val last (before ++ r.1 ∷ []) after)
                  (contain_from-Answered fuel val last (before ++ r.1 ∷ []) after
                    (rw append_assoc kept.valid) (rw append_assoc (omega (arith, kept.cheaper))))
                  λ q a. record {
                    answer = rw (← checked.answer, yes') a.answer;
                    swept = Swept-trans m kept (rw append_assoc at a.swept);
                  })
            | inr no' ↦ rw no' (
                Returns-bind (Swept m before) wanted (rewind it fuel last before) _
                  (rewind-Swept fuel last before front (omega (arith, costs)))
                  λ before' w. record {
                    answer = rw (← checked.answer, no');
                    swept = Swept-append m before before' w back;
                  })
          ]

  pub sub_its_contain-Answered :
      (fuel : ℕ) (val last : Value N) (subs : List S)
      → All m.Valid subs
      → total m.cost subs < fuel
      → Returns (sub_its_contain it fuel val last subs) (Answered subs (every (map m.has subs) val))
  unfolding sub_its_contain
  sub_its_contain-Answered fuel val last subs h c = contain_from-Answered fuel val last [] subs h c
