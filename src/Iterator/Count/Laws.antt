-- ===== src/Iterator/Count/Laws.antt =====
-- The Count iterator, of graph/iterator/count.go, against the sequence of the iterator below.
use cayley.Prelude.{
  Option, none, ◌↔◌, some_inj, ℕ, zero, suc, ◌+◌, ◌^◌, ◌<◌, Bool, true, false, some, ◌≡◌, refl, ap,
  ◌∙◌, sym, subst, ◌>>=◌, length, Outcome, done, Returns, Returns-bind, Returns-weaken, arith,
  if◌then◌else◌,
}
use cayley.Prelude.Int64.{ℤ, pos, pos-add}
use cayley.Graph.Value.{Value}
use cayley.Graph.Iterator.{Iterator}
use cayley.Iterator.Laws.{Sequence, Enumerates}
use cayley.Iterator.Laws.Rules.{next_rule}
use cayley.Iterator.Count.{
  Names, Count, count_paths, count_results, counted, next, contains, is_result, is_same,
}

module _ {N E Q S : Type 0} (api : Iterator N E S) (names : Names N Q) (n : Sequence N E S)
    (seq : Enumerates api n)
    (one_path : (fuel : ℕ) (s : S) → api.next_path fuel s ≡ done (false, s)) where
  no_paths :
      (rounds fuel : ℕ) (size : ℤ) (s : S)
      → count_paths api names (suc rounds) fuel size s ≡ done (size, s)
  unfolding count_paths
  no_paths rounds fuel size s = rw (one_path fuel s) refl

  count_results-length :
      (rounds fuel k : ℕ) (s : S)
      → n.Valid s
      → n.cost s < rounds
      → n.cost s < suc fuel
      → k + length (n.rest s) < 2 ^ 63
      → Returns
          (count_results api names rounds (suc fuel) (pos k) s)
          (λ r. (r.0 ≡ pos (k + length (n.rest s))) × (api.err r.1 ≡ n.stop s))
  unfolding count_results
  count_results-length zero fuel k s v c d b = absurd (omega arith)
  count_results-length (suc rounds) fuel k s v c d b =
      next_rule api n seq (suc fuel) s
        (λ r. (r.0 ≡ pos (k + length (n.rest s))) × (api.err r.1 ≡ n.stop s)) _ v d
        (λ s' e p. (ap pos (rw e (omega arith)), p.reason))
        (λ w ws s' e p.
          let whole : length (n.rest s) ≡ suc (length (n.rest s')) = rw (e, p.remains) refl in
          rw (no_paths fuel (suc fuel) (pos k) s', pos-add k 1 (omega arith))
            (Returns-weaken
              (λ r. (r.0 ≡ pos (k + 1 + length (n.rest s'))) × (api.err r.1 ≡ n.stop s'))
              (λ r. (r.0 ≡ pos (k + length (n.rest s))) × (api.err r.1 ≡ n.stop s))
              (count_results api names rounds (suc fuel) (pos (k + 1)) s')
              (count_results-length rounds fuel (k + 1) s' p.valid (omega (arith, p.cheaper))
                (omega (arith, p.cheaper)) (omega arith))
              (λ r (a, q). (a ∙ ap pos (omega arith), q ∙ p.same_stop))))

  -- The number that the iterator comes to.
  abbrev pub number : ℤ → Bool → S → ℤ
  number size exact s = if exact then size else pos (length (n.rest s))

  abbrev pub HasCounted : Count N Q S → ℤ → Bool → Count N Q S → Type 0
  HasCounted c size exact c' =
      (c'.result ≡ some (names.int (number size exact c.it)))
      × (api.err c'.it ≡ (if exact then api.err c.it else n.stop c.it))
      × (c'.is_done ≡ true)
      × (c'.qs ≡ c.qs)

  counts :
      (fuel : ℕ) (c : Count N Q S) (size : ℤ) (exact : Bool)
      → n.Valid c.it
      → n.cost c.it < fuel
      → length (n.rest c.it) < 2 ^ 63
      → c.is_done ≡ false
      → api.size c.it ≡ done (size, exact)
      → Returns (next api names fuel c) (λ r. (r.0 ≡ true) × HasCounted c size exact r.1)
  unfolding next
  counts zero c size exact v d b f s = absurd (omega arith)
  counts (suc fuel) c size true v d b f s =
      rw (Returns, next, f, s) (refl, (refl, refl, refl, refl))
  counts (suc fuel) c size false v d b f s =
      rw (next, f, s)
        (Returns-bind (λ r. (r.0 ≡ pos (0 + length (n.rest c.it))) × (api.err r.1 ≡ n.stop c.it))
          (λ r. (r.0 ≡ true) × HasCounted c size false r.1)
          (count_results api names (suc fuel) (suc fuel) (pos 0) c.it)
          (λ r. done (counted api names c r.0 r.1))
          (count_results-length (suc fuel) fuel 0 c.it v d d (omega arith))
          (λ r (a, e).
            (refl, (ap (λ z. some (names.int z)) (a ∙ ap pos (omega arith)), e, refl, refl))))

  counted_once :
      (fuel : ℕ) (c : Count N Q S) → c.is_done ≡ true → next api names fuel c ≡ done (false, c)
  unfolding next
  counted_once fuel c h = rw h refl

  -- Over an iterator that enumerates a sequence with one path for each value, Next of a Count
  -- iterator that has not counted yet returns true with enough fuel. Its result is the size, if
  -- the iterator below calls it exact, and else the number of values still to come, which an int64
  -- must hold, with the error with which the enumeration stops. The next call returns false and
  -- changes nothing.
  pub count_next-HasCounted :
      (fuel : ℕ) (c : Count N Q S) (size : ℤ) (exact : Bool)
      → n.Valid c.it
      → n.cost c.it < fuel
      → length (n.rest c.it) < 2 ^ 63
      → c.is_done ≡ false
      → api.size c.it ≡ done (size, exact)
      → Returns (next api names fuel c) (λ r.
        (r.0 ≡ true) × HasCounted c size exact r.1 × (next api names fuel r.1 ≡ done (false, r.1)))
  count_next-HasCounted fuel c size exact v d b f s =
      Returns-weaken (λ r. (r.0 ≡ true) × HasCounted c size exact r.1)
        (λ r.
          (r.0 ≡ true)
          × HasCounted c size exact r.1
          × (next api names fuel r.1 ≡ done (false, r.1)))
        (next api names fuel c) (counts fuel c size exact v d b f s)
        λ r (a, h). (a, h, counted_once fuel r.1 h.2)

  -- What a value names: NameOf of one that is prefetched, and else NameOf of the store, if any.
  abbrev pub named : Option (Value N → Option Q) → Value N → Option Q
  named qs w = elim (names.fetched w) [
    | some name ↦ name
    | none ↦ elim qs [ some name_of ↦ name_of w | none ↦ none ]
  ]

  is_result-named :
      (qs : Option (Value N → Option Q)) (w : Value N) (a : Q)
      → (is_result api names (names.fetched w) qs w (some a) ≡ true) ↔ (named qs w ≡ some a)
  is_result-named qs w a = by_name (names.fetched w) qs
    where
      is_same_iff : (b : Option Q) → (is_same api names b (some a) ≡ true) ↔ (b ≡ some a)
      is_same_iff none = (λ h. cc, λ h. cc)
      is_same_iff (some b) =
          (λ h. ap some ((names.eq.beq_iff b a).0 h), λ h. (names.eq.beq_iff b a).1 (some_inj h))

      by_name :
          (fetched : Option (Option Q)) (qs : Option (Value N → Option Q))
          → (is_result api names fetched qs w (some a) ≡ true) ↔ (
              (elim fetched [
                | some name ↦ name
                | none ↦ elim qs [ some name_of ↦ name_of w | none ↦ none ]
              ])
              ≡ some a)
      by_name (some name) qs = is_same_iff name
      by_name none (some name_of) = is_same_iff (name_of w)
      by_name none none = (λ h. cc, λ h. cc)

  counted_contains :
      (fuel : ℕ) (w : Value N) (c : Count N Q S) (size : ℤ) (exact : Bool)
      → n.Valid c.it
      → n.cost c.it < fuel
      → length (n.rest c.it) < 2 ^ 63
      → c.is_done ≡ false
      → api.size c.it ≡ done (size, exact)
      → Returns (contains api names fuel w c) (λ r.
        (r.0
          ≡ is_result api names
              (names.fetched w)
              c.qs
              w
              (some (names.int (number size exact c.it))))
        × HasCounted c size exact r.1)
  unfolding contains
  counted_contains fuel w c size exact v d b f s =
      let Answered : Bool × Count N Q S → Type 0 = λ r.
        (r.0
          ≡ is_result api names (names.fetched w) c.qs w
              (some (names.int (number size exact c.it))))
        × HasCounted c size exact r.1 in
      let compare : Bool × Count N Q S → Outcome (Bool × Count N Q S) =
        λ r. done (is_result api names (names.fetched w) r.1.qs w r.1.result, r.1) in
      subst
        (λ stop.
          Returns ((if stop then done (false, c) else next api names fuel c) >>= compare) Answered)
        (sym f)
        (Returns-bind (λ r. (r.0 ≡ true) × HasCounted c size exact r.1) Answered
          (next api names fuel c) compare (counts fuel c size exact v d b f s)
          λ r (a, h). (
            ap (λ q. is_result api names (names.fetched w) q w r.1.result) h.3
                ∙ ap (is_result api names (names.fetched w) c.qs w) h.0,
            h,
          ))

  -- Over an iterator that enumerates a sequence with one path for each value, Contains of a Count
  -- iterator that has not counted yet returns with enough fuel. It counts as Next does: the number
  -- is the size, if the iterator below calls it exact, and else that of the values still to come,
  -- which an int64 must hold. It says yes if and only if its argument names this number: by NameOf
  -- of a value that is prefetched, and else by NameOf of the store. Without a store, other values
  -- name nothing.
  pub count_contains-named :
      (fuel : ℕ) (w : Value N) (c : Count N Q S) (size : ℤ) (exact : Bool)
      → n.Valid c.it
      → n.cost c.it < fuel
      → length (n.rest c.it) < 2 ^ 63
      → c.is_done ≡ false
      → api.size c.it ≡ done (size, exact)
      → Returns (contains api names fuel w c) (λ r.
        ((r.0 ≡ true) ↔ (named c.qs w ≡ some (names.int (number size exact c.it))))
        × HasCounted c size exact r.1)
  count_contains-named fuel w c size exact v d b f s =
      Returns-weaken
        (λ r.
          (r.0
            ≡ is_result api names (names.fetched w) c.qs w
                (some (names.int (number size exact c.it))))
          × HasCounted c size exact r.1)
        (λ r.
          ((r.0 ≡ true) ↔ (named c.qs w ≡ some (names.int (number size exact c.it))))
          × HasCounted c size exact r.1)
        (contains api names fuel w c) (counted_contains fuel w c size exact v d b f s)
        λ r (a, h).
          let same = is_result-named c.qs w (names.int (number size exact c.it)) in
          ((λ t. same.0 (sym a ∙ t), λ t. a ∙ same.1 t), h)
