-- ===== src/Iterator/Unique/Laws.antt =====
-- The Unique iterator against the first occurrences of the keys below it.
use cayley.Prelude.{
  ℕ, zero, suc, ◌<◌, false, not, ◌&&◌, List, [], ◌∷◌, map, Option, none, ◌≡◌, refl, ◌⊎◌, inl, inr,
  Returns, Bool-cases, arith, if◌then◌else◌,
}
use cayley.Graph.Value.{Value, Keyer, to_key, key_beq_iff}
use cayley.Graph.Iterator.{Iterator}
use cayley.Graph.Stats.{count_next}
use cayley.Iterator.Laws.{Sequence, Enumerates, Steps, Steps-again}
use cayley.Iterator.Laws.Rules.{next_rule}
use cayley.Iterator.Unique.{Unique, unique_iterator, is_seen, next, next_loop}

module _ {N K : Type 0} (keyer : Keyer N K) where
  -- The first value of each key that is not among `seen`.
  abbrev pub firsts : List (Option K) → List (Value N) → List (Value N)
  firsts seen [] = []
  firsts seen (v ∷ vs) =
      let rest = firsts seen vs in
      let fresh = v ∷ firsts (to_key keyer v ∷ seen) vs in
      if is_seen keyer (to_key keyer v) seen then rest else fresh

module _ {N E K S : Type 0} (keyer : Keyer N K) (n : Sequence N E S) where
  pub record IsReady (u : Unique N E K S) : Type 0 where
    pub sub : n.Valid u.sub_it
    pub writable : u.no_map ≡ false
    pub clean : (u.err ≡ none) ⊎ (n.rest u.sub_it ≡ [])

  abbrev pub unique_sequence : Sequence N E (Unique N E K S)
  unique_sequence = record {
    Valid = IsReady;
    cost = λ u. n.cost u.sub_it;
    rest = λ u. firsts keyer u.seen (n.rest u.sub_it);
    stop = λ u. n.stop u.sub_it;
  }

module _ {N E K S : Type 0} (it : Iterator N E S) (keyer : Keyer N K) (n : Sequence N E S)
    (seq : Enumerates it n) where
  next_loop-Steps :
      (rounds fuel : ℕ) (u : Unique N E K S)
      → IsReady keyer n u
      → n.cost u.sub_it < rounds
      → n.cost u.sub_it < fuel
      → Returns (next_loop it keyer rounds fuel u) (
          Steps
            (unique_iterator it keyer)
            (unique_sequence keyer n)
            u
            (firsts keyer u.seen (n.rest u.sub_it)))
  unfolding next_loop
  next_loop-Steps zero fuel u h c d = absurd (omega arith)
  next_loop-Steps (suc rounds) fuel u h c d =
      next_rule it n seq fuel u.sub_it _ _ h.sub d
        (λ sub e s. rw e (record {
          refused = refl;
          valid = record { sub = s.valid; writable = h.writable; clean = inr s.empty };
          empty = rw s.empty;
          reason = s.reason;
          same_stop = s.same_stop;
          cheaper = s.cheaper;
        }))
        (λ v vs sub e s.
          let clean : u.err ≡ none = ground (arith, h.clean) in
          elim (Bool-cases (is_seen keyer (to_key keyer v) u.seen)) [
            | inl old ↦
                rw (e, s.value, old)
                  (Steps-again (unique_iterator it keyer) (unique_sequence keyer n) u
                    (record u { sub_it = sub }) _ (firsts keyer u.seen vs) _ s.same_stop
                    (omega (arith, s.cheaper)) (rw s.remains)
                    (next_loop-Steps rounds fuel (record u { sub_it = sub })
                      (record { sub = s.valid; writable = h.writable; clean = inl clean })
                      (omega (arith, s.cheaper)) (omega (arith, s.cheaper))))
            | inr new ↦
                rw (e, s.value, new, h.writable)
                  (record {
                    moved = refl;
                    valid = record { sub = s.valid; writable = refl; clean = inl clean };
                    value = s.value;
                    remains = rw (s.value, s.remains);
                    no_error = clean;
                    same_stop = s.same_stop;
                    cheaper = s.cheaper;
                  })
          ])

  -- Over an iterator that enumerates a sequence, each call of `Next` of the Unique iterator, which
  -- is not closed, with enough fuel returns: it moves to the first value whose key it has not
  -- returned before, or returns false with the error of the iterator below.
  pub unique_next-Steps :
      (fuel : ℕ) (u : Unique N E K S)
      → IsReady keyer n u
      → n.cost u.sub_it < fuel
      → Returns (next it keyer fuel u) (
          Steps
            (unique_iterator it keyer)
            (unique_sequence keyer n)
            u
            (firsts keyer u.seen (n.rest u.sub_it)))
  unfolding next
  unique_next-Steps fuel u h c =
      let u' = record u { runstats = count_next u.runstats } in
      Steps-again (unique_iterator it keyer) (unique_sequence keyer n) u u' _ _
        (next_loop it keyer fuel fuel u') refl (omega arith) refl
        (next_loop-Steps fuel fuel u'
          (record { sub = h.sub; writable = h.writable; clean = h.clean }) c c)

  -- The same, as the law that iterators above this one rely on.
  pub unique-Enumerates : Enumerates (unique_iterator it keyer) (unique_sequence keyer n)
  unique-Enumerates = record { next_law = unique_next-Steps }

module _ {N K : Type 0} (keyer : Keyer N K) where
  abbrev pub keys : List (Value N) → List (Option K)
  keys = map (to_key keyer)

  abbrev pub Distinct : List (Option K) → Type 0
  Distinct [] = Unit {0}
  Distinct (k ∷ ks) = (is_seen keyer k ks ≡ false) × Distinct ks

  -- A key is among those returned if and only if it is below and was not seen before.
  keys-firsts :
      (seen : List (Option K)) (vs : List (Value N)) (k : Option K)
      → is_seen keyer k (keys (firsts keyer seen vs))
        ≡ (is_seen keyer k (keys vs) && not (is_seen keyer k seen))
  unfolding is_seen
  keys-firsts seen [] k = refl
  keys-firsts seen (v ∷ vs) k = ground (
    arith,
    keys-firsts seen vs k,
    keys-firsts (to_key keyer v ∷ seen) vs k,
    key_beq_iff keyer (to_key keyer v) k,
  )

  fresh :
      (seen : List (Option K)) (vs : List (Value N)) (k : Option K)
      → is_seen keyer k (keys (firsts keyer (k ∷ seen) vs)) ≡ false
  unfolding is_seen
  fresh seen vs k =
      let self = (key_beq_iff keyer k k).1 refl in ground (arith, keys-firsts (k ∷ seen) vs k, self)

  Distinct-firsts :
      (seen : List (Option K)) (vs : List (Value N)) → Distinct (keys (firsts keyer seen vs))
  Distinct-firsts seen [] = tt
  Distinct-firsts seen (v ∷ vs) = elim (Bool-cases (is_seen keyer (to_key keyer v) seen)) [
    | inl old ↦ rw old (Distinct-firsts seen vs)
    | inr new ↦ rw new (fresh seen vs (to_key keyer v), Distinct-firsts (to_key keyer v ∷ seen) vs)
  ]

module _ {N E K S : Type 0} (keyer : Keyer N K) (n : Sequence N E S) where
  -- What a Unique iterator still enumerates has distinct keys, and they are exactly the keys that
  -- are still to come below it and that it has not returned yet.
  pub unique_keys :
      (u : Unique N E K S)
      → Distinct keyer (keys keyer ((unique_sequence keyer n).rest u))
        × ((k : Option K)
            → is_seen keyer k (keys keyer ((unique_sequence keyer n).rest u))
              ≡ (is_seen keyer k (keys keyer (n.rest u.sub_it)) && not (is_seen keyer k u.seen)))
  unique_keys u =
      (Distinct-firsts keyer u.seen (n.rest u.sub_it), keys-firsts keyer u.seen (n.rest u.sub_it))
