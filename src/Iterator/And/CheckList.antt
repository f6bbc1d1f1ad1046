-- ===== src/Iterator/And/CheckList.antt =====
-- The loop over the check list of an And iterator.
use cayley.Prelude.{
  ℕ, zero, suc, ◌≤◌, ◌<◌, Bool, true, false, List, [], ◌∷◌, ◌++◌, map, Option, none, some, ◌≡◌,
  refl, sym, ap, subst, ◌∙◌, inl, inr, All, All-append, all, elem, total, length, get_elem?, set,
  Returns, Returns-bind, Returns-weaken, Bool-cases, nat_eq, arith,
}
use cayley.Graph.Value.{Value}
use cayley.Graph.Iterator.{Iterator}
use cayley.Iterator.Laws.{Membership, Decides, Checked}
use cayley.Iterator.And.{And, sub_iterators, sub_at, set_sub_at, check_from, rewind_list}
use cayley.Iterator.Sweep.{every, Swept, Swept-refl, Swept-cons, Swept-trans}

module _ {N : Type 0} where
  -- The set that an entry of the check list refers to.
  abbrev pub set_at : List (Value N → Bool) → Value N → ℕ → Bool
  set_at [] v c = true
  set_at (p ∷ ps) v zero = p v
  set_at (p ∷ ps) v (suc c) = set_at ps v c

  pub at_of_every :
      (ps : List (Value N → Bool)) (v : Value N) (c : ℕ) → every ps v ≡ true → set_at ps v c ≡ true
  at_of_every [] v c h = refl
  at_of_every (p ∷ ps) v zero h = ground arith
  at_of_every (p ∷ ps) v (suc c) h = at_of_every ps v c (ground arith)

  pub every_of_at :
      (ps : List (Value N → Bool)) (v : Value N)
      → ((c : ℕ) → c < length ps → set_at ps v c ≡ true)
      → every ps v ≡ true
  every_of_at [] v h = refl
  every_of_at (p ∷ ps) v h =
      ground (arith, h 0 (omega arith), every_of_at ps v (λ c l. h (suc c) (omega arith)))

pub all_of_each : (p : ℕ → Bool) (cs : List ℕ) → ((c : ℕ) → p c ≡ true) → all p cs ≡ true
all_of_each p [] h = refl
all_of_each p (c ∷ cs) h = ground (arith, h c, all_of_each p cs h)

pub each_of_all :
    (p : ℕ → Bool) (cs : List ℕ) (c : ℕ) → all p cs ≡ true → elem c cs ≡ true → p c ≡ true
each_of_all p [] c h e = cc
each_of_all p (d ∷ cs) c h e = ground (arith, each_of_all p cs c, ap p)

pub length-map {ℓ κ} :
    {A : Type ℓ} {B : Type κ} (f : A → B) (xs : List A) → length (map f xs) ≡ length xs
length-map f [] = refl
length-map f (x ∷ xs) = ap suc (length-map f xs)

module _ {N S : Type 0} (m : Membership N S) where
  Swept-set :
      (subs : List S) (c : ℕ) (sub sub' : S)
      → get_elem? subs c ≡ some sub
      → All m.Valid subs
      → m.Valid sub'
      → m.has sub' ≡ m.has sub
      → m.cost sub' ≤ m.cost sub
      → Swept m subs (set subs c sub')
  Swept-set [] c sub sub' e h v s d = cc
  Swept-set (x ∷ subs) zero sub sub' e h v s d =
      let p : x ≡ sub = ground arith in
      Swept-cons m x sub' v (s ∙ sym (ap m.has p)) (rw p d) (Swept-refl m subs h.1)
  Swept-set (x ∷ subs) (suc c) sub sub' e h v s d =
      Swept-cons m x x h.0 refl (omega arith) (Swept-set subs c sub sub' e h.1 v s d)

  found-at :
      (subs : List S) (c : ℕ) (sub : S) (v : Value N)
      → get_elem? subs c ≡ some sub
      → set_at (map m.has subs) v c ≡ m.has sub v
  found-at [] c sub v e = cc
  found-at (x ∷ subs) zero sub v e = let p : x ≡ sub = ground arith in rw p
  found-at (x ∷ subs) (suc c) sub v e = found-at subs c sub v e

  cost-at :
      (subs : List S) (c : ℕ) (sub : S)
      → get_elem? subs c ≡ some sub
      → All m.Valid subs
      → m.Valid sub × (m.cost sub ≤ total m.cost subs)
  cost-at [] c sub e h = cc
  cost-at (x ∷ subs) zero sub e h =
      let p : x ≡ sub = ground arith in (subst m.Valid p h.0, rw p (omega arith))
  cost-at (x ∷ subs) (suc c) sub e h = let (v, d) = cost-at subs c sub e h.1 in (v, omega arith)

  pub length-Swept : {subs out : List S} → Swept m subs out → length out ≡ length subs
  length-Swept {subs} {out} w =
      omega (arith, ap length w.same, length-map m.has subs, length-map m.has out)

  pub in_range :
      (subs : List S) (c : ℕ) → c < length subs → (sub : S) × (get_elem? subs c ≡ some sub)
  in_range [] c h = absurd (omega arith)
  in_range (x ∷ subs) zero h = (x, refl)
  in_range (x ∷ subs) (suc c) h = in_range subs c (omega arith)

module _ {N E S : Type 0} (m : Membership N S) where
  -- `a'` may stand for `a` between two calls of `Contains`.
  pub record Kept (a a' : And N E S) : Type 0 where
    pub subs : Swept m (sub_iterators a) (sub_iterators a')
    pub list : a'.check_list ≡ a.check_list
    pub clean : a'.err ≡ none

  pub Kept-trans : {a b c : And N E S} → Kept a b → Kept b c → Kept a c
  Kept-trans h k = record {
    subs = Swept-trans m h.subs k.subs;
    list = k.list ∙ h.list;
    clean = k.clean;
  }

  abbrev pub InList : And N E S → ℕ → Type 0
  InList a c = c < length (sub_iterators a)

  sub-at : (a : And N E S) (c : ℕ) → sub_at a c ≡ get_elem? (sub_iterators a) c
  unfolding sub_at
  sub-at a zero = refl
  sub-at a (suc c) = refl

  Kept-set :
      (a : And N E S) (c : ℕ) (sub sub' : S)
      → get_elem? (sub_iterators a) c ≡ some sub
      → All m.Valid (sub_iterators a)
      → a.err ≡ none
      → m.Valid sub'
      → m.has sub' ≡ m.has sub
      → m.cost sub' ≤ m.cost sub
      → Kept a (set_sub_at a c sub')
  unfolding set_sub_at
  Kept-set a zero sub sub' p h q v s d = record {
    subs = Swept-set m (sub_iterators a) 0 sub sub' p h v s d;
    list = refl;
    clean = q;
  }
  Kept-set a (suc c) sub sub' p h q v s d = record {
    subs = Swept-set m (sub_iterators a) (suc c) sub sub' p h v s d;
    list = refl;
    clean = q;
  }

  Kept-err : {a b : And N E S} (e : Option E) → Kept a b → e ≡ none → Kept a (record b { err = e })
  Kept-err e k q = record { subs = k.subs; list = k.list; clean = q }

  InList-Kept :
      (a a' : And N E S) (cs : List ℕ) → Kept a a' → All (InList a) cs → All (InList a') cs
  InList-Kept a a' [] k h = tt
  InList-Kept a a' (c ∷ cs) k h =
      (omega (arith, length-Swept m k.subs, h.0), InList-Kept a a' cs k h.1)

module _ {N E S : Type 0} (it : Iterator N E S) (m : Membership N S) (law : Decides it m) where
  -- What a call leaves behind that went over the list.
  pub record Listed (a : And N E S) (wanted : Bool) (r : Bool × And N E S) : Type 0 where
    pub answer : r.0 ≡ wanted
    pub kept : Kept m a r.1

  pub record IsSound (a : And N E S) (fuel : ℕ) : Type 0 where
    pub subs : All m.Valid (sub_iterators a)
    pub cheap : total m.cost (sub_iterators a) < fuel
    pub clean : a.err ≡ none

  IsSound-Kept : {a a' : And N E S} {fuel : ℕ} → IsSound a fuel → Kept m a a' → IsSound a' fuel
  IsSound-Kept h k = record {
    subs = k.subs.valid;
    cheap = omega (arith, h.cheap, k.subs.cheaper);
    clean = k.clean;
  }

  -- One call through the list.
  ask :
      (fuel : ℕ) (v : Value N) (a : And N E S) (c : ℕ) (sub : S)
      → IsSound a fuel
      → get_elem? (sub_iterators a) c ≡ some sub
      → Returns (it.contains fuel v sub) (λ r.
        (r.0 ≡ set_at (map m.has (sub_iterators a)) v c)
        × (it.err r.1 ≡ none)
        × Kept m a (set_sub_at a c r.1))
  ask fuel v a c sub h p =
      let (valid, d) = cost-at m (sub_iterators a) c sub p h.subs in
      Returns-weaken (Checked it m sub v) _ (it.contains fuel v sub)
        (law.contains_law fuel v sub valid (omega (arith, h.cheap)))
        λ r k. (
          k.answer ∙ sym (found-at m (sub_iterators a) c sub v p),
          law.quiet r.1 k.valid,
          Kept-set m a c sub r.1 p h.subs h.clean k.valid k.same k.cheaper,
        )

  Listed-after :
      {a a' : And N E S}
      → Kept m a a'
      → (w : Bool) (r : Bool × And N E S) → Listed a' w r
      → Listed a w r
  Listed-after k w r l = record { answer = l.answer; kept = Kept-trans m k l.kept }

  rewind_list-Listed :
      (fuel : ℕ) (last : Value N) (before : List ℕ) (a : And N E S)
      → IsSound a fuel
      → All (InList m a) before
      → Returns (rewind_list it fuel last before a) (Listed a false)
  unfolding rewind_list
  rewind_list-Listed fuel none before a h l = record {
    answer = refl;
    kept = record { subs = Swept-refl m (sub_iterators a) h.subs; list = refl; clean = h.clean };
  }
  rewind_list-Listed fuel (some last) [] a h l = record {
    answer = refl;
    kept = record { subs = Swept-refl m (sub_iterators a) h.subs; list = refl; clean = h.clean };
  }
  rewind_list-Listed fuel (some last) (j ∷ before) a h l =
      let (sub, p) = in_range m (sub_iterators a) j l.0 in
      rw (Returns, rewind_list, sub-at m a j ∙ p)
        (Returns-bind _ (Listed a false) (it.contains fuel (some last) sub) _
          (ask fuel (some last) a j sub h p)
          λ r k.
            let kept = Kept-err m (it.err r.1) k.2 k.1 in
            rw k.1 (
              Returns-weaken _ _ _
                (rewind_list-Listed fuel (some last) before _ (IsSound-Kept h kept)
                  (InList-Kept m a _ before kept l.1))
                (Listed-after kept false)))

  all_of-Kept :
      {a a' : And N E S} (v : Value N) (cs : List ℕ)
      → Kept m a a'
      → all (set_at (map m.has (sub_iterators a')) v) cs
        ≡ all (set_at (map m.has (sub_iterators a)) v) cs
  all_of-Kept v cs k = rw k.subs.same

  pub check_from-Listed :
      (fuel : ℕ) (val last : Value N) (before after : List ℕ) (a : And N E S)
      → IsSound a fuel
      → All (InList m a) before
      → All (InList m a) after
      → Returns
          (check_from it fuel val last before after a)
          (Listed a (all (set_at (map m.has (sub_iterators a)) val) after))
  unfolding check_from
  check_from-Listed fuel val last before [] a h lb la = record {
    answer = refl;
    kept = record { subs = Swept-refl m (sub_iterators a) h.subs; list = refl; clean = h.clean };
  }
  check_from-Listed fuel val last before (c ∷ after) a h lb la =
      let (sub, p) = in_range m (sub_iterators a) c la.0 in
      let wanted = Listed a (all (set_at (map m.has (sub_iterators a)) val) (c ∷ after)) in
      rw (Returns, check_from, sub-at m a c ∙ p)
        (Returns-bind _ wanted (it.contains fuel val sub) _ (ask fuel val a c sub h p) λ r k.
          elim (Bool-cases r.0) [
            | inl good ↦ rw good (
                Returns-weaken
                  (Listed (set_sub_at a c r.1)
                    (all (set_at (map m.has (sub_iterators (set_sub_at a c r.1))) val) after))
                  wanted _
                  (check_from-Listed fuel val last (before ++ c ∷ []) after (set_sub_at a c r.1)
                    (IsSound-Kept h k.2)
                    (All-append _ before (c ∷ []) (InList-Kept m a _ before k.2 lb)
                      (InList-Kept m a _ (c ∷ []) k.2 (la.0, tt)))
                    (InList-Kept m a _ after k.2 la.1))
                  λ q x. record {
                    answer = rw (← k.0, good, ← all_of-Kept val after k.2) x.answer;
                    kept = Kept-trans m k.2 x.kept;
                  })
            | inr bad ↦
                let kept = Kept-err m (it.err r.1) k.2 k.1 in
                rw (bad, k.1)
                  (Returns-weaken (Listed (record (set_sub_at a c r.1) { err = it.err r.1 }) false)
                    wanted _
                    (rewind_list-Listed fuel last before _ (IsSound-Kept h kept)
                      (InList-Kept m a _ before kept lb))
                    λ q x. record {
                      answer = rw (← k.0, bad) x.answer;
                      kept = Kept-trans m kept x.kept;
                    })
          ])
