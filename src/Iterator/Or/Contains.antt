-- ===== src/Iterator/Or/Contains.antt =====
-- `Contains` of the Or iterator against the union of the sets below it.
use cayley.Prelude.{
  ℕ, suc, ◌<◌, Bool, true, false, List, [], ◌∷◌, ◌++◌, map, Option, none, ◌≡◌, refl, sym, ap, ◌∙◌,
  append-nil, append_assoc, All, total, total-append, Returns, Returns-bind, Returns-weaken,
  Bool-cases, inl, inr, arith,
}
use cayley.Graph.Value.{Value}
use cayley.Graph.Iterator.{Iterator}
use cayley.Iterator.Laws.{Membership, Decides, Checked}
use cayley.Iterator.Laws.Rules.{contains_rule}
use cayley.Iterator.Sweep.{
  some_of, Swept, Swept-refl, Swept-cons, Swept-trans, Swept-append, All-before, All-after,
}
use cayley.Iterator.Or.{Or, or_iterator, contain_from, contains}

module _ {N E S : Type 0} (m : Membership N S) where
  pub record IsOpen (o : Or N E S) : Type 0 where
    pub subs : All m.Valid o.internal_iterators
    pub clean : o.err ≡ none

  abbrev pub or_membership : Membership N (Or N E S)
  or_membership = record {
    Valid = IsOpen;
    cost = λ o. total m.cost o.internal_iterators;
    has = λ o. some_of (map m.has o.internal_iterators);
  }

module _ {N E S : Type 0} (it : Iterator N E S) (m : Membership N S) (law : Decides it m) where
  record Found (subs : List S) (wanted : Bool) (r : Bool × Option E × Option ℕ × List S)
      : Type 0 where
    answer : r.0 ≡ wanted
    quiet : r.1 ≡ none
    swept : Swept m subs r.3

  contain_from-Found :
      (fuel : ℕ) (val : Value N) (i : ℕ) (before after : List S) (cur : Option ℕ)
      → All m.Valid (before ++ after)
      → total m.cost (before ++ after) < fuel
      → Returns
          (contain_from it fuel val i before after cur)
          (Found (before ++ after) (some_of (map m.has after) val))
  unfolding contain_from
  contain_from-Found fuel val i before [] cur h c = record {
    answer = refl;
    quiet = refl;
    swept = rw append-nil (Swept-refl m before (rw append-nil at h));
  }
  contain_from-Found fuel val i before (sub ∷ after) cur h c =
      let front = All-before m.Valid before (sub ∷ after) h in
      let own = All-after m.Valid before (sub ∷ after) h in
      let costs = total-append m.cost before (sub ∷ after) in
      let wanted = Found (before ++ sub ∷ after) (some_of (map m.has (sub ∷ after)) val) in
      let kept = λ (sub' : S) (k : (b : Bool) × Checked it m sub val (b, sub')).
        Swept-append m before before (Swept-refl m before front)
          (Swept-cons m sub sub' k.1.valid k.1.same k.1.cheaper (Swept-refl m after own.1)) in
      contains_rule it m law fuel val sub wanted _ own.0 (omega (arith, costs))
        (λ sub' has k. record { answer = rw has; quiet = refl; swept = kept sub' (true, k) })
        (λ sub' has k. rw (law.quiet sub' k.valid) (
          Returns-weaken (Found ((before ++ sub' ∷ []) ++ after) (some_of (map m.has after) val))
            wanted (contain_from it fuel val (suc i) (before ++ sub' ∷ []) after cur)
            (contain_from-Found fuel val (suc i) (before ++ sub' ∷ []) after cur
              (rw append_assoc (kept sub' (false, k)).valid)
              (rw append_assoc (omega (arith, (kept sub' (false, k)).cheaper))))
            λ r f. record {
              answer = rw has f.answer;
              quiet = f.quiet;
              swept = Swept-trans m (kept sub' (false, k)) (rw append_assoc at f.swept);
            }))

  -- Over sub-iterators that decide sets, `Contains` of the Or iterator returns with enough fuel:
  -- it says yes exactly to the values that some sub-iterator contains.
  pub or_contains-Checked :
      (fuel : ℕ) (v : Value N) (o : Or N E S)
      → IsOpen m o
      → total m.cost o.internal_iterators < fuel
      → Returns (contains it fuel v o) (Checked (or_iterator it) (or_membership m) o v)
  unfolding contains
  or_contains-Checked fuel v o h c =
      Returns-bind (Found o.internal_iterators (some_of (map m.has o.internal_iterators) v)) _
        (contain_from it fuel v 0 [] o.internal_iterators o.current_iterator) _
        (contain_from-Found fuel v 0 [] o.internal_iterators o.current_iterator h.subs c)
        λ r f. elim (Bool-cases r.0) [
          | inl yes' ↦
              rw (f.quiet, yes')
                (record {
                  answer = sym yes' ∙ f.answer;
                  valid = record { subs = f.swept.valid; clean = h.clean };
                  same = ap some_of f.swept.same;
                  cheaper = f.swept.cheaper;
                })
          | inr no' ↦
              rw (f.quiet, no')
                (record {
                  answer = sym no' ∙ f.answer;
                  valid = record { subs = f.swept.valid; clean = h.clean };
                  same = ap some_of f.swept.same;
                  cheaper = f.swept.cheaper;
                })
        ]

  pub or-Decides : Decides (or_iterator it) (or_membership m)
  or-Decides = record { quiet = λ o h. h.clean; contains_law = or_contains-Checked }
