-- ===== src/Iterator/Limit/Laws.antt =====
-- The Limit iterator against a prefix of the sequence below it.
use cayley.Prelude.{
  ℕ, zero, suc, ◌-◌, ◌^◌, ◌≤◌, ◌<◌, Bool, false, List, [], ◌∷◌, Option, none, ◌≡◌, refl, ap, ◌∙◌,
  ◌⊎◌, inl, inr, take, Returns, Bool-cases, arith, leb,
}
use cayley.Prelude.Int64.{ℤ, pos, negsuc, ◌+ℤ◌, pos-add}
use cayley.Graph.Iterator.{Iterator}
use cayley.Iterator.Laws.{Sequence, Enumerates, Steps}
use cayley.Iterator.Laws.Rules.{next_rule}
use cayley.Iterator.Limit.{Limit, limit_iterator, is_reached, counted, next}

-- The results that a limit leaves of those to come: all of them, if it is not positive.
abbrev pub prefix : {A : Type 0} → ℤ → ℤ → List A → List A
prefix (pos (suc m)) (pos c) xs = take (suc m - c) xs
prefix limit count xs = xs

abbrev pub end_of : {A B : Type 0} → ℕ → List A → Option B → Option B
end_of zero xs e = none
end_of (suc r) [] e = e
end_of (suc r) (x ∷ xs) e = end_of r xs e

-- The error at the end: none, if the limit is reached first.
abbrev pub ending : {A B : Type 0} → ℤ → ℤ → List A → Option B → Option B
ending (pos (suc m)) (pos c) xs e = end_of (suc m - c) xs e
ending limit count xs e = e

-- The count has not passed a positive limit, and where it has reached it there is no error.
abbrev pub IsCounted : {B : Type 0} → ℤ → ℤ → Option B → Type 0
IsCounted (pos (suc m)) (pos c) e = (c ≤ suc m) × (suc m < 2 ^ 63) × ((c < suc m) ⊎ (e ≡ none))
IsCounted (pos (suc m)) (negsuc c) e = ⊥
IsCounted limit count e = Unit {0}

module _ {N E S : Type 0} (it : Iterator N E S) (n : Sequence N E S) where
  pub record IsReady (l : Limit S) : Type 0 where
    pub primary : n.Valid l.primary_it
    pub room : IsCounted l.limit l.count (it.err l.primary_it)

  abbrev pub limit_sequence : Sequence N E (Limit S)
  limit_sequence = record {
    Valid = IsReady;
    cost = λ l. n.cost l.primary_it;
    rest = λ l. prefix l.limit l.count (n.rest l.primary_it);
    stop = λ l. ending l.limit l.count (n.rest l.primary_it) (n.stop l.primary_it);
  }

module _ {N E S : Type 0} (it : Iterator N E S) (n : Sequence N E S) (seq : Enumerates it n) where
  -- The state, field by field.
  abbrev at : ℤ → ℤ → S → Limit S
  at limit count p = record { limit = limit; count = count; primary_it = p }

  abbrev Promise : ℤ → ℤ → S → Bool × Limit S → Type 0
  Promise limit count p =
      Steps (limit_iterator it) (limit_sequence it n) (at limit count p)
        (prefix limit count (n.rest p))

  reached-pos : (m k : ℕ) (p : S) → is_reached (at (pos (suc m)) (pos k) p) ≡ leb (suc m) k
  unfolding is_reached
  reached-pos m k p = ground arith

  reached-zero : (count : ℤ) (p : S) → is_reached (at (pos 0) count p) ≡ false
  unfolding is_reached
  reached-zero count p = refl

  reached-negsuc : (k : ℕ) (count : ℤ) (p : S) → is_reached (at (negsuc k) count p) ≡ false
  unfolding is_reached
  reached-negsuc k count p = ground arith

  -- With room for one more, the call below decides.
  counted-Steps :
      (m k : ℕ) (fuel : ℕ) (p : S)
      → n.Valid p
      → k ≤ m
      → suc m < 2 ^ 63
      → n.cost p < fuel
      → Returns
          (counted it (it.next fuel p) (at (pos (suc m)) (pos k) p))
          (Promise (pos (suc m)) (pos k) p)
  unfolding counted
  counted-Steps m k fuel p v r b c =
      let one_more : suc m - k ≡ suc (m - k) = omega arith in
      let less : suc m - suc k ≡ m - k = omega arith in
      next_rule it n seq fuel p _ _ v c
        (λ p' e s.
          rw (e, one_more)
            (record {
              refused = refl;
              valid = record { primary = s.valid; room = (omega arith, b, inl (omega arith)) };
              empty = rw (s.empty, one_more);
              reason = rw (one_more, e) s.reason;
              same_stop = rw (one_more, e, s.empty) s.same_stop;
              cheaper = s.cheaper;
            }))
        (λ w ws p' e s.
          let counted_on : pos k +ℤ pos 1 ≡ pos (suc k) =
            pos-add k 1 (omega arith) ∙ ap pos (omega arith) in
          rw (e, one_more, counted_on)
            (record {
              moved = refl;
              valid = record { primary = s.valid; room = (omega arith, b, inr s.no_error) };
              value = s.value;
              remains = rw (s.remains, less);
              no_error = s.no_error;
              same_stop = rw (e, s.remains, s.same_stop, less, one_more);
              cheaper = s.cheaper;
            }))

  abbrev IsFree : ℤ → Type 0
  IsFree (pos (suc m)) = ⊥
  IsFree limit = Unit {0}

  -- With no limit the call below decides.
  free-Steps :
      (limit count : ℤ) (fuel : ℕ) (p : S)
      → IsFree limit
      → n.Valid p
      → n.cost p < fuel
      → Returns (counted it (it.next fuel p) (at limit count p)) (Promise limit count p)
  unfolding counted
  free-Steps (pos (suc m)) count fuel p f v c = absurd f
  free-Steps limit count fuel p f v c =
      next_rule it n seq fuel p _ _ v c
        (λ p' e s. rw e (record {
          refused = refl;
          valid = record { primary = s.valid; room = tt };
          empty = s.empty;
          reason = s.reason;
          same_stop = s.same_stop;
          cheaper = s.cheaper;
        }))
        (λ w ws p' e s. rw e (record {
          moved = refl;
          valid = record { primary = s.valid; room = tt };
          value = s.value;
          remains = s.remains;
          no_error = s.no_error;
          same_stop = s.same_stop;
          cheaper = s.cheaper;
        }))

  next-Steps :
      (fuel : ℕ) (limit count : ℤ) (p : S)
      → n.Valid p
      → IsCounted limit count (it.err p)
      → n.cost p < fuel
      → Returns (next it fuel (at limit count p)) (Promise limit count p)
  unfolding next
  next-Steps fuel (pos zero) count p v r c =
      rw (reached-zero count p) (free-Steps (pos 0) count fuel p tt v c)
  next-Steps fuel (negsuc k) count p v r c =
      rw (reached-negsuc k count p) (free-Steps (negsuc k) count fuel p tt v c)
  next-Steps fuel (pos (suc m)) (pos k) p v r c = elim (Bool-cases (leb (suc m) k)) [
    | inl full ↦
        let none_left : suc m - k ≡ 0 = ground arith in
        rw (reached-pos m k p, full, none_left)
          (record {
            refused = refl;
            valid = record { primary = v; room = r };
            empty = rw none_left;
            reason = ground arith;
            same_stop = refl;
            cheaper = omega arith;
          })
    | inr open' ↦ rw (reached-pos m k p, open') (counted-Steps m k fuel p v (ground arith) r.1 c)
  ]
  next-Steps fuel (pos (suc m)) (negsuc k) p v r c = elim r [ ]

  -- Over an iterator that enumerates a sequence, each call of `Next` of the Limit iterator returns
  -- with enough fuel: it moves to the next value below if fewer than `limit` were returned, or if
  -- the limit is not positive, and else returns false, with no error if the limit was reached.
  pub limit_next-Steps :
      (fuel : ℕ) (l : Limit S)
      → IsReady it n l
      → n.cost l.primary_it < fuel
      → Returns (next it fuel l) (
          Steps
            (limit_iterator it)
            (limit_sequence it n)
            l
            (prefix l.limit l.count (n.rest l.primary_it)))
  limit_next-Steps fuel l h c = next-Steps fuel l.limit l.count l.primary_it h.primary h.room c

  pub limit-Enumerates : Enumerates (limit_iterator it) (limit_sequence it n)
  limit-Enumerates = record { next_law = limit_next-Steps }
