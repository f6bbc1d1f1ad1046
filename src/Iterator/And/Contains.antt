-- ===== src/Iterator/And/Contains.antt =====
-- `Contains` of the And iterator against the intersection of the sets below it, with and without
-- a check list.
use cayley.Prelude.{
  ℕ, ◌<◌, Bool, true, false, List, [], ◌∷◌, map, Option, none, some, ◌≡◌, refl, sym, ◌∙◌, inl, inr,
  All, all, elem, total, length, Returns, Returns-bind, Returns-weaken, Bool-cases, nat_eq, arith,
}
use cayley.Graph.Value.{Value}
use cayley.Graph.Iterator.{Iterator}
use cayley.Iterator.Laws.{Membership, Decides, Checked, Checked-shift}
use cayley.Graph.Stats.{count_contains}
use cayley.Iterator.And.{
  And, and_iterator, sub_iterators, err, first_err, contains, contains_by, contains_plain, refuse,
  check_from, sub_its_contain,
}
use cayley.Iterator.Sweep.{every, Swept, Swept-refl, Swept-cons}
use cayley.Iterator.And.Sweep.{Answered, sub_its_contain-Answered}
use cayley.Iterator.And.CheckList.{
  set_at, at_of_every, every_of_at, all_of_each, each_of_all, length-map, length-Swept, Kept,
  Kept-trans, Listed, check_from-Listed,
}

-- The entries of a check list refer to sub-iterators, and leave none out.
pub record Covers (k : ℕ) (cs : List ℕ) : Type 0 where
  pub inside : All (λ c. c < k) cs
  pub full : (c : ℕ) → c < k → elem c cs ≡ true

abbrev pub CoversAll : ℕ → Option (List ℕ) → Type 0
CoversAll k none = Unit {0}
CoversAll k (some cs) = Covers k cs

-- Asking through the list is asking every sub-iterator.
all-eq-every :
    {N : Type 0} (ps : List (Value N → Bool)) (v : Value N) (cs : List ℕ)
    → Covers (length ps) cs
    → all (set_at ps v) cs ≡ every ps v
all-eq-every ps v cs h = elim (Bool-cases (every ps v)) [
  | inl yes' ↦ all_of_each (set_at ps v) cs (λ c. at_of_every ps v c yes') ∙ sym yes'
  | inr no' ↦ elim (Bool-cases (all (set_at ps v) cs)) [
    | inr no'' ↦ no'' ∙ sym no'
    | inl yes' ↦
        yes' ∙ sym (every_of_at ps v (λ c l. each_of_all (set_at ps v) cs c yes' (h.full c l)))
  ]
]

module _ {N E S : Type 0} (m : Membership N S) where
  pub record IsOpen (a : And N E S) : Type 0 where
    pub subs : All m.Valid (sub_iterators a)
    pub list : CoversAll (length (sub_iterators a)) a.check_list
    pub clean : a.err ≡ none

  abbrev pub and_membership : Membership N (And N E S)
  and_membership = record {
    Valid = IsOpen;
    cost = λ a. total m.cost (sub_iterators a);
    has = λ a. every (map m.has (sub_iterators a));
  }

module _ {N E S : Type 0} (it : Iterator N E S) (m : Membership N S) (law : Decides it m) where
  IsOpen-quiet : (a : And N E S) → IsOpen m a → err it a ≡ none
  unfolding err first_err
  IsOpen-quiet a h = rw (h.clean, first_err) (first_err_quiet (sub_iterators a) h.subs)
    where
      first_err_quiet : (subs : List S) → All m.Valid subs → first_err it subs ≡ none
      first_err_quiet [] k = refl
      first_err_quiet (s ∷ subs) k = rw (first_err, law.quiet s k.0) (first_err_quiet subs k.1)

  -- A call that answers `w` and keeps the iterator is what the law wants.
  Checked-Kept :
      (a a' : And N E S) (v : Value N) (b : Bool)
      → IsOpen m a
      → b ≡ every (map m.has (sub_iterators a)) v
      → Kept m a a'
      → Checked (and_iterator it) (and_membership m) a v (b, a')
  Checked-Kept a a' v b h e k = record {
    answer = e;
    valid = record {
      subs = k.subs.valid;
      list = rw (k.list, length-Swept m k.subs) h.list;
      clean = k.clean;
    };
    same = rw k.subs.same;
    cheaper = k.subs.cheaper;
  }

  refuse-Kept :
      (fuel : ℕ) (last : Value N) (a : And N E S)
      → All m.Valid (sub_iterators a)
      → total m.cost (sub_iterators a) < fuel
      → a.err ≡ none
      → Returns (refuse it fuel last a) (λ r. (r.0 ≡ false) × Kept m a r.1)
  unfolding refuse
  refuse-Kept fuel none a h c e =
      (refl, record { subs = Swept-refl m (sub_iterators a) h; list = refl; clean = e })
  refuse-Kept fuel (some last) a h c e =
      Returns-bind (Checked it m a.primary_it (some last)) _
        (it.contains fuel (some last) a.primary_it) _
        (law.contains_law fuel (some last) a.primary_it h.0 (omega arith))
        λ r k. (
          refl,
          record {
            subs =
                Swept-cons m a.primary_it r.1 k.valid k.same k.cheaper
                  (Swept-refl m a.internal_iterators h.1);
            list = refl;
            clean = e;
          },
        )

  -- A refusal after the sub-iterators went from `a` to `a'`.
  refuse-Checked :
      (fuel : ℕ) (a a' : And N E S) (v : Value N)
      → IsOpen m a
      → total m.cost (sub_iterators a) < fuel
      → Swept m (sub_iterators a) (sub_iterators a')
      → a'.check_list ≡ a.check_list
      → a'.err ≡ none
      → every (map m.has (sub_iterators a)) v ≡ false
      → Returns (refuse it fuel a.result a') (Checked (and_iterator it) (and_membership m) a v)
  refuse-Checked fuel a a' v h c w l e no' =
      Returns-weaken (λ r. (r.0 ≡ false) × Kept m a' r.1) _ (refuse it fuel a.result a')
        (refuse-Kept fuel a.result a' w.valid (omega (arith, w.cheaper)) e)
        λ r k.
          Checked-Kept a r.1 v r.0 h (k.0 ∙ sym no')
            (Kept-trans m (record { subs = w; list = l; clean = e }) k.1)

  contains_plain-Checked :
      (fuel : ℕ) (v : Value N) (a : And N E S)
      → IsOpen m a
      → total m.cost (sub_iterators a) < fuel
      → Returns (contains_plain it fuel v a) (Checked (and_iterator it) (and_membership m) a v)
  unfolding contains_plain
  contains_plain-Checked fuel v a h c =
      let goal = Checked (and_iterator it) (and_membership m) a v in
      let (sub, subs) = h.subs in
      Returns-bind (Checked it m a.primary_it v) goal (it.contains fuel v a.primary_it) _
        (law.contains_law fuel v a.primary_it sub (omega arith))
        λ r k. elim (Bool-cases r.0) [
          | inr lacks ↦
              let swept =
                Swept-cons m a.primary_it r.1 k.valid k.same k.cheaper
                  (Swept-refl m a.internal_iterators subs) in
              rw lacks (
                refuse-Checked fuel a (record a { primary_it = r.1 }) v h c swept refl h.clean
                  (rw (← k.answer, lacks)))
          | inl holds ↦ rw holds (
              Returns-bind
                (Answered it m law a.internal_iterators (every (map m.has a.internal_iterators) v))
                goal (sub_its_contain it fuel v a.result a.internal_iterators) _
                (sub_its_contain-Answered it m law fuel v a.result a.internal_iterators subs
                  (omega arith))
                λ q w.
                  let swept = Swept-cons m a.primary_it r.1 k.valid k.same k.cheaper w.swept in
                  elim (Bool-cases q.0) [
                    | inl good ↦ rw good (
                        Checked-Kept a
                          (record a { primary_it = r.1; internal_iterators = q.1; result = v }) v
                          true h (rw (← k.answer, holds, ← w.answer, good))
                          (record { subs = swept; list = refl; clean = h.clean }))
                    | inr bad ↦ rw bad (
                        refuse-Checked fuel a
                          (record a { primary_it = r.1; internal_iterators = q.1 }) v h c swept refl
                          h.clean (rw (← k.answer, holds, ← w.answer, bad)))
                  ])
        ]

  check_from-Checked :
      (fuel : ℕ) (v last : Value N) (a : And N E S) (cs : List ℕ)
      → IsOpen m a
      → total m.cost (sub_iterators a) < fuel
      → Covers (length (sub_iterators a)) cs
      → Returns
          (check_from it fuel v last [] cs a)
          (Checked (and_iterator it) (and_membership m) a v)
  check_from-Checked fuel v last a cs h c l =
      Returns-weaken (Listed it m law a (all (set_at (map m.has (sub_iterators a)) v) cs))
        (Checked (and_iterator it) (and_membership m) a v) (check_from it fuel v last [] cs a)
        (check_from-Listed it m law fuel v last [] cs a
          (record { subs = h.subs; cheap = c; clean = h.clean }) tt l.inside)
        λ r k.
          Checked-Kept a r.1 v r.0 h
            (k.answer
              ∙ all-eq-every (map m.has (sub_iterators a)) v cs
                  (rw (length-map m.has (sub_iterators a)) l))
            k.kept

  contains_by-Checked :
      (fuel : ℕ) (v : Value N) (list : Option (List ℕ)) (a : And N E S)
      → IsOpen m a
      → total m.cost (sub_iterators a) < fuel
      → CoversAll (length (sub_iterators a)) list
      → Returns (contains_by it fuel v list a) (Checked (and_iterator it) (and_membership m) a v)
  unfolding contains_by
  contains_by-Checked fuel v none a h c l = contains_plain-Checked fuel v a h c
  contains_by-Checked fuel v (some cs) a h c l = check_from-Checked fuel v a.result a cs h c l

  -- Over sub-iterators that decide sets, `Contains` of the And iterator, with enough fuel, returns:
  -- it says yes exactly to the values that all of them contain, with no check list or with one that
  -- leaves none of them out, in any order and with repeated entries, and the set stays the same.
  pub and_contains-Checked :
      (fuel : ℕ) (v : Value N) (a : And N E S)
      → IsOpen m a
      → total m.cost (sub_iterators a) < fuel
      → Returns (contains it fuel v a) (Checked (and_iterator it) (and_membership m) a v)
  unfolding contains
  and_contains-Checked fuel v a h c =
      let a' = record a { runstats = count_contains a.runstats } in
      Returns-weaken (Checked (and_iterator it) (and_membership m) a' v) _
        (contains_by it fuel v a.check_list a')
        (contains_by-Checked fuel v a.check_list a'
          (record { subs = h.subs; list = h.list; clean = h.clean }) c h.list)
        λ r k. Checked-shift (and_iterator it) (and_membership m) v r refl (omega arith) k

  -- The same, as the law that iterators above this one rely on.
  pub and-Decides : Decides (and_iterator it) (and_membership m)
  and-Decides = record { quiet = IsOpen-quiet; contains_law = and_contains-Checked }
