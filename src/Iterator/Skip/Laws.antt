-- ===== src/Iterator/Skip/Laws.antt =====
-- The Skip iterator against the sequence below it without its beginning.
use cayley.Prelude.{
  ℕ, zero, suc, ◌-◌, ◌^◌, ◌≤◌, ◌<◌, Bool, false, List, [], ◌≡◌, refl, ap, ◌∙◌, inl, inr, drop,
  Returns, Bool-cases, arith,
}
use cayley.Prelude.Int64.{ℤ, pos, negsuc, ◌+ℤ◌, pos-add, ltb_ℤ}
use cayley.Graph.Value.{Value}
use cayley.Graph.Iterator.{Iterator}
use cayley.Iterator.Laws.{Sequence, Enumerates, Steps, Steps-again}
use cayley.Iterator.Laws.Rules.{next_rule}
use cayley.Iterator.Skip.{Skip, skip_iterator, skip_loop, next}

-- The results that are left behind those still to be skipped.
abbrev pub behind : {A : Type 0} → ℤ → ℤ → List A → List A
behind (pos s) (pos c) xs = drop (s - c) xs
behind skip skipped xs = xs

abbrev pub IsCounted : ℤ → ℤ → Type 0
IsCounted (pos s) (pos c) = (c ≤ s) × (s < 2 ^ 63)
IsCounted (pos s) (negsuc c) = ⊥
IsCounted (negsuc s) (pos c) = Unit {0}
IsCounted (negsuc s) (negsuc c) = ⊥

module _ {N E S : Type 0} (n : Sequence N E S) where
  pub record IsReady (k : Skip S) : Type 0 where
    pub primary : n.Valid k.primary_it
    pub room : IsCounted k.skip k.skipped

  abbrev pub skip_sequence : Sequence N E (Skip S)
  skip_sequence = record {
    Valid = IsReady;
    cost = λ k. n.cost k.primary_it;
    rest = λ k. behind k.skip k.skipped (n.rest k.primary_it);
    stop = λ k. n.stop k.primary_it;
  }

module _ {N E S : Type 0} (it : Iterator N E S) (n : Sequence N E S) (seq : Enumerates it n) where
  abbrev at : ℤ → ℤ → S → Skip S
  at skip skipped p = record { skip = skip; skipped = skipped; primary_it = p }

  abbrev Promise : ℤ → ℤ → S → Bool × Skip S → Type 0
  Promise skip skipped p =
      Steps (skip_iterator it) (skip_sequence n) (at skip skipped p)
        (behind skip skipped (n.rest p))

  drop_nil : (k : ℕ) → drop {A = Value N} k [] ≡ []
  drop_nil zero = refl
  drop_nil (suc k) = refl

  -- Past the skipped results, the call below decides.
  past-Steps :
      (skip skipped : ℤ) (rounds fuel : ℕ) (p : S)
      → n.Valid p
      → IsCounted skip skipped
      → ltb_ℤ skipped skip ≡ false
      → ((xs : List (Value N)) → behind skip skipped xs ≡ xs)
      → n.cost p < fuel
      → Returns (skip_loop (it.next fuel) (suc rounds) (at skip skipped p)) (Promise skip skipped p)
  unfolding skip_loop
  past-Steps skip skipped rounds fuel p v r t b c =
      next_rule it n seq fuel p _ _ v c
        (λ p' e s.
          rw (t, b, e)
            (record {
              refused = refl;
              valid = record { primary = s.valid; room = r };
              empty = rw (b, s.empty);
              reason = s.reason;
              same_stop = s.same_stop;
              cheaper = s.cheaper;
            }))
        (λ w ws p' e s.
          rw (t, b, e)
            (record {
              moved = refl;
              valid = record { primary = s.valid; room = r };
              value = s.value;
              remains = rw (b, s.remains);
              no_error = s.no_error;
              same_stop = s.same_stop;
              cheaper = s.cheaper;
            }))

  loop-Steps :
      (s c rounds fuel : ℕ) (p : S)
      → n.Valid p
      → c ≤ s
      → s < 2 ^ 63
      → n.cost p < rounds
      → n.cost p < fuel
      → Returns (skip_loop (it.next fuel) rounds (at (pos s) (pos c) p)) (Promise (pos s) (pos c) p)
  unfolding skip_loop
  loop-Steps s c zero fuel p v r b d e = absurd (omega arith)
  loop-Steps s c (suc rounds) fuel p v r b d e = elim (Bool-cases (ltb_ℤ (pos c) (pos s))) [
    | inr past ↦
        let none_left : s - c ≡ 0 = ground arith in
        past-Steps (pos s) (pos c) rounds fuel p v (r, b) past (λ xs. ap (λ k. drop k xs) none_left)
          e
    | inl before ↦
        let one_more : s - c ≡ suc (s - suc c) = ground arith in
        next_rule it n seq fuel p _ _ v e
          (λ p' l h.
            rw (before, l, one_more)
              (record {
                refused = refl;
                valid = record { primary = h.valid; room = (r, b) };
                empty = rw (h.empty, one_more);
                reason = h.reason;
                same_stop = h.same_stop;
                cheaper = h.cheaper;
              }))
          (λ w ws p' l h.
            let counted_on : pos c +ℤ pos 1 ≡ pos (suc c) =
              pos-add c 1 (ground arith) ∙ ap pos (omega arith) in
            rw (before, l, one_more, counted_on)
              (Steps-again (skip_iterator it) (skip_sequence n) (at (pos s) (pos c) p)
                (at (pos s) (pos (suc c)) p') _ (drop (s - suc c) ws) _ h.same_stop
                (omega (arith, h.cheaper)) (rw h.remains)
                (loop-Steps s (suc c) rounds fuel p' h.valid (ground arith) b
                  (omega (arith, h.cheaper)) (omega (arith, h.cheaper)))))
  ]

  next-Steps :
      (fuel : ℕ) (skip skipped : ℤ) (p : S)
      → n.Valid p
      → IsCounted skip skipped
      → n.cost p < fuel
      → Returns (next it fuel (at skip skipped p)) (Promise skip skipped p)
  unfolding next
  next-Steps fuel (pos s) (pos c) p v r d = loop-Steps s c fuel fuel p v r.0 r.1 d d
  next-Steps fuel (pos s) (negsuc c) p v r d = absurd r
  next-Steps zero (negsuc s) (pos c) p v r d = absurd (omega arith)
  next-Steps (suc fuel) (negsuc s) (pos c) p v r d =
      past-Steps (negsuc s) (pos c) fuel (suc fuel) p v tt (ground arith) (λ xs. refl) d
  next-Steps fuel (negsuc s) (negsuc c) p v r d = absurd r

  -- Over an iterator that enumerates a sequence, each call of `Next` of the Skip iterator returns
  -- with enough fuel: it moves to the first value below behind those that are still to be skipped,
  -- or returns false with the error of the iterator below.
  pub skip_next-Steps :
      (fuel : ℕ) (k : Skip S)
      → IsReady n k
      → n.cost k.primary_it < fuel
      → Returns (next it fuel k) (
          Steps
            (skip_iterator it)
            (skip_sequence n)
            k
            (behind k.skip k.skipped (n.rest k.primary_it)))
  skip_next-Steps fuel k h c = next-Steps fuel k.skip k.skipped k.primary_it h.primary h.room c

  pub skip-Enumerates : Enumerates (skip_iterator it) (skip_sequence n)
  skip-Enumerates = record { next_law = skip_next-Steps }
