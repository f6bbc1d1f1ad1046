-- ===== src/Graph/Iterate/Walk.antt =====
-- One run of a chain against the sequence that its iterator enumerates.
use cayley.Prelude.{
  ℕ, zero, suc, ◌-◌, ◌^◌, ◌≤◌, ◌<◌, Bool, true, false, ◌&&◌, List, [], ◌∷◌, ◌≡◌, refl, ap, ◌∙◌, ◌⊎◌,
  inl, inr, take, Outcome, done, Returns, Returns-weaken, bind_assoc, ◌>>=◌, Bool-cases, arith,
}
use cayley.Prelude.Int64.{ℤ, pos, negsuc, ◌+ℤ◌, pos-add, ltb_ℤ}
use cayley.Graph.Value.{Value}
use cayley.Graph.Iterator.{Iterator}
use cayley.Iterator.Laws.{Sequence, Enumerates, Stopped, Produced}
use cayley.Iterator.Laws.Rules.{next_rule}
use cayley.Graph.Iterate.{IterateChain, has_room, next, counted, next_path, walk_paths, walk}

-- What a limit leaves of the results to come: a negative one is none.
abbrev pub upto : {V : Type 0} → ℤ → ℤ → List V → List V
upto (negsuc m) n xs = xs
upto (pos m) (pos k) xs = take (m - k) xs
upto (pos m) (negsuc k) xs = xs

-- The counter has not passed the limit, which an int can hold.
abbrev pub IsCounted : ℤ → ℤ → Type 0
IsCounted (negsuc m) n = Unit {0}
IsCounted (pos m) (pos k) = (k ≤ m) × (m < 2 ^ 63)
IsCounted (pos m) (negsuc k) = ⊥

abbrev pub IsNegative : ℤ → Type 0
IsNegative (negsuc m) = Unit {0}
IsNegative (pos m) = ⊥

abbrev pub fold_left : {V A : Type 0} → (A → V → A) → A → List V → A
fold_left f a [] = a
fold_left f a (x ∷ xs) = fold_left f (f a x) xs

-- Room for one more: the results up to the limit go on behind the next one.
record Room (V : Type 0) (limit n : ℤ) : Type 0 where
  counted_on : IsCounted limit (n +ℤ pos 1)
  split : (v : V) (vs : List V) → upto limit n (v ∷ vs) ≡ v ∷ upto limit (n +ℤ pos 1) vs
  none_left : upto {V = V} limit n [] ≡ []

module _ {S : Type 0} where
  abbrev pub chain_at : S → Bool → ℤ → ℤ → IterateChain S
  chain_at s paths limit n = record { it = s; paths = paths; limit = limit; n = n }

  -- There is room, or the limit is reached.
  Room-cases :
      (V : Type 0) (s : S) (paths : Bool) (limit n : ℤ)
      → IsCounted limit n
      → ((has_room (chain_at s paths limit n) ≡ true) × Room V limit n)
        ⊎ ((has_room (chain_at s paths limit n) ≡ false)
            × ((xs : List V) → upto limit n xs ≡ [])
            × (IsNegative limit → ⊥))
  unfolding has_room
  Room-cases V s paths (negsuc m) n h =
      inl (ground arith, record { counted_on = tt; split = λ v vs. refl; none_left = refl })
  Room-cases V s paths (pos m) (negsuc k) h = absurd h
  Room-cases V s paths (pos m) (pos k) h = elim (Bool-cases (ltb_ℤ (pos k) (pos m))) [
    | inl more ↦
        let next_one : pos k +ℤ pos 1 ≡ pos (suc k) =
          pos-add k 1 (ground arith) ∙ ap pos (omega arith) in
        let one_more : m - k ≡ suc (m - suc k) = ground arith in
        inl (
          ground arith,
          record {
            counted_on = rw next_one (ground arith, h.1);
            split = λ v vs. rw (next_one, one_more) refl;
            none_left = rw one_more refl;
          },
        )
    | inr full ↦
        let nothing : m - k ≡ 0 = ground arith in inr (ground arith, λ xs. rw nothing refl, λ x. x)
  ]

module _ {N E S : Type 0} (api : Iterator N E S) (n : Sequence N E S) (seq : Enumerates api n) where
  -- A step of a chain that has room is a call below.
  pub chain_rule :
      {B : Type 0} (fuel : ℕ) (s : S) (paths : Bool) (limit k : ℤ) (Q : B → Type 0)
      (g : Bool × IterateChain S → Outcome B)
      → n.Valid s
      → n.cost s < fuel
      → has_room (chain_at s paths limit k) ≡ true
      → ((s' : S)
          → n.rest s ≡ []
          → Stopped api n s (false, s')
          → Returns (g (false, chain_at s' paths limit k)) Q)
      → ((v : Value N) (vs : List (Value N)) (s' : S)
          → n.rest s ≡ v ∷ vs
          → Produced api n s v vs (true, s')
          → Returns (g (true, chain_at s' paths limit (k +ℤ pos 1))) Q)
      → Returns (next api fuel (chain_at s paths limit k) >>= g) Q
  unfolding next counted
  chain_rule fuel s paths limit k Q g v c room stopped produced =
      rw (room, bind_assoc) (next_rule api n seq fuel s Q _ v c stopped produced)

module _ {N E S : Type 0} (api : Iterator N E S) where
  no_room : (fuel : ℕ) (c : IterateChain S) → has_room c ≡ false → next api fuel c ≡ done (false, c)
  unfolding next
  no_room fuel c h = rw h refl

-- A run of a chain over an iterator with one path for each result.
module _ {N E S A : Type 0} (api : Iterator N E S) (n : Sequence N E S) (seq : Enumerates api n)
    (one_path : (fuel : ℕ) (s : S) → api.next_path fuel s ≡ done (false, s))
    (visit : A → S → Outcome A) (f : A → Value N → A)
    (visits : (a : A) (s : S) → visit a s ≡ done (f a (api.result s))) where
  no_paths :
      (rounds fuel : ℕ) (a : A) (c : IterateChain S)
      → walk_paths api visit (suc rounds) fuel a c ≡ done (a, c)
  unfolding walk_paths next_path counted
  no_paths rounds fuel a c = elim (Bool-cases (c.paths && has_room c)) [
    | inl open' ↦ rw (open', one_path fuel c.it) refl
    | inr closed ↦ rw closed refl
  ]

  pub record Walked (a : A) (s : S) (limit k : ℤ) (r : A × IterateChain S) : Type 0 where
    pub answer : r.0 ≡ fold_left f a (upto limit k (n.rest s))
    pub ended : IsNegative limit → api.err r.1.it ≡ n.stop s

  pub walk-Walked :
      (rounds fuel : ℕ) (a : A) (s : S) (paths : Bool) (limit k : ℤ)
      → n.Valid s
      → IsCounted limit k
      → n.cost s < rounds
      → n.cost s < suc fuel
      → Returns (walk api visit rounds (suc fuel) a (chain_at s paths limit k)) (Walked a s limit k)
  unfolding walk
  walk-Walked zero fuel a s paths limit k v h c d = absurd (omega arith)
  walk-Walked (suc rounds) fuel a s paths limit k v h c d =
      elim (Room-cases (Value N) s paths limit k h) [
        | inr (full, nothing, unlimited) ↦
            rw (Returns, no_room api (suc fuel) (chain_at s paths limit k) full)
              (record { answer = rw nothing refl; ended = λ l. absurd (unlimited l) })
        | inl (room, left) ↦
            chain_rule api n seq (suc fuel) s paths limit k (Walked a s limit k) _ v d room
              (λ s' e p. record { answer = rw (e, left.none_left) refl; ended = λ _. p.reason })
              (λ w ws s' e p.
                rw (visits a s', no_paths fuel (suc fuel))
                  (Returns-weaken (Walked (f a (api.result s')) s' limit (k +ℤ pos 1)) _ _
                    (walk-Walked rounds fuel (f a (api.result s')) s' paths limit (k +ℤ pos 1)
                      p.valid left.counted_on (omega (arith, p.cheaper)) (omega (arith, p.cheaper)))
                    λ r q. record {
                      answer = rw (e, left.split w ws, ← p.remains, ← p.value) q.answer;
                      ended = λ l. q.ended l ∙ p.same_stop;
                    }))
      ]
