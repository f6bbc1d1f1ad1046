-- ===== src/Graph/Iterate/Laws.antt =====
-- The loops of a chain against the sequence that its iterator enumerates.
use cayley.Prelude.{
  ◌⊎◌, inl, inr, ℕ, zero, suc, ◌+◌, ◌^◌, ◌<◌, Bool, true, false, ◌||◌, List, [], ◌∷◌, ◌++◌, Option,
  none, ◌≡◌, refl, sym, ap, ◌∙◌, length, done, Returns, Returns-bind, append-nil, append_assoc,
  arith, if◌then◌else◌,
}
use cayley.Prelude.Int64.{ℤ, pos, negsuc, ◌+ℤ◌, pos-add, ltb_ℤ}
use cayley.Graph.Value.{Value}
use cayley.Graph.Iterator.{Iterator}
use cayley.Iterator.Laws.{Sequence, Enumerates}
use cayley.Graph.Iterate.{IterateChain, has_room, walk, all, count, count_loop, first}
use cayley.Graph.Iterate.Walk.{
  upto, IsCounted, IsNegative, fold_left, chain_rule, Walked, walk-Walked,
}

fold_left-append :
    {V : Type 0} (xs ys : List V) → fold_left (λ out v. out ++ v ∷ []) xs ys ≡ xs ++ ys
fold_left-append xs [] = sym (append-nil xs)
fold_left-append xs (y ∷ ys) = fold_left-append (xs ++ y ∷ []) ys ∙ append_assoc xs (y ∷ []) ys

-- Counting by one counts the length, as far as an int64 can hold it.
fold_left-count :
    {V : Type 0} (k : ℕ) (ys : List V)
    → k + length ys < 2 ^ 63
    → fold_left (λ cnt v. cnt +ℤ pos 1) (pos k) ys ≡ pos (k + length ys)
fold_left-count k [] h = ap pos (omega arith)
fold_left-count k (y ∷ ys) h =
    let one_more : pos k +ℤ pos 1 ≡ pos (suc k) =
      pos-add k 1 (omega arith) ∙ ap pos (omega arith) in
    ap (λ c. fold_left (λ cnt v. cnt +ℤ pos 1) c ys) one_more
    ∙ fold_left-count (suc k) ys (omega arith)
    ∙ ap pos (omega arith)

abbrev pub head_of : {V : Type 0} → List (Option V) → Option V
head_of [] = none
head_of (x ∷ xs) = x

abbrev pub is_empty : {V : Type 0} → List V → Bool
is_empty [] = true
is_empty (x ∷ xs) = false

-- Without a limit all the values are left.
unlimited :
    {V : Type 0} (limit n : ℤ) (xs : List V)
    → IsNegative limit
    → IsCounted limit n × (upto limit n xs ≡ xs)
unlimited (negsuc m) n xs h = (tt, refl)
unlimited (pos m) n xs h = absurd h

abbrev pub IsLimited : ℤ → Type 0
IsLimited (pos m) = Unit {0}
IsLimited (negsuc m) = ⊥

IsLimited-cases : {P : Type 0} (limit : ℤ) → (IsNegative limit → P) → IsLimited limit ⊎ P
IsLimited-cases (pos m) p = inl tt
IsLimited-cases (negsuc m) p = inr (p tt)

open_room : {S : Type 0} (c : IterateChain S) → IsNegative c.limit → has_room c ≡ true
unfolding has_room
open_room c h = unlimited_room c.limit c.n h
  where
    unlimited_room :
        (limit n : ℤ) → IsNegative limit → (ltb_ℤ limit (pos 0) || ltb_ℤ n limit) ≡ true
    unlimited_room (negsuc m) n k = ground arith
    unlimited_room (pos m) n k = absurd k

module _ {N E S : Type 0} (api : Iterator N E S) (n : Sequence N E S) (seq : Enumerates api n)
    (one_path : (fuel : ℕ) (s : S) → api.next_path fuel s ≡ done (false, s)) where
  -- Over an iterator that enumerates a sequence with one path for each value, `All` returns with
  -- enough fuel: the values still to come, up to the limit if it is not negative, and, without a
  -- limit, the error with which the enumeration stops.
  pub all-upto :
      (fuel : ℕ) (c : IterateChain S)
      → n.Valid c.it
      → IsCounted c.limit c.n
      → n.cost c.it < fuel
      → Returns
          (all api fuel c)
          (λ r. (r.0 ≡ upto c.limit c.n (n.rest c.it)) × (IsLimited c.limit ⊎ (r.1 ≡ n.stop c.it)))
  unfolding all
  all-upto zero c v h d = absurd (omega arith)
  all-upto (suc fuel) c v h d =
      let visit = λ (out : List (Value N)) (s : S). done (out ++ api.result s ∷ []) in
      let f = λ (out : List (Value N)) (w : Value N). out ++ w ∷ [] in
      Returns-bind (Walked api n seq one_path visit f (λ a s. refl) [] c.it c.limit c.n) _
        (walk api visit (suc fuel) (suc fuel) [] c) _
        (walk-Walked api n seq one_path visit f (λ a s. refl) (suc fuel) fuel [] c.it c.paths
          c.limit c.n v h d d)
        λ r w. (
          w.answer ∙ fold_left-append [] (upto c.limit c.n (n.rest c.it)),
          IsLimited-cases c.limit w.ended,
        )

  count_loop-length :
      (fuel : ℕ) (c : IterateChain S)
      → n.Valid c.it
      → IsNegative c.limit
      → n.cost c.it < fuel
      → length (n.rest c.it) < 2 ^ 63
      → Returns
          (count_loop api fuel c)
          (λ r. (r.0 ≡ pos (length (n.rest c.it))) × (r.1 ≡ n.stop c.it))
  unfolding count_loop
  count_loop-length zero c v h d l = absurd (omega arith)
  count_loop-length (suc fuel) c v h d l =
      let visit = λ (cnt : ℤ) (s : S). done (cnt +ℤ pos 1) in
      let f = λ (cnt : ℤ) (w : Value N). cnt +ℤ pos 1 in
      let (room, whole) = unlimited c.limit c.n (n.rest c.it) h in
      Returns-bind (Walked api n seq one_path visit f (λ a s. refl) (pos 0) c.it c.limit c.n) _
        (walk api visit (suc fuel) (suc fuel) (pos 0) c) _
        (walk-Walked api n seq one_path visit f (λ a s. refl) (suc fuel) fuel (pos 0) c.it c.paths
          c.limit c.n v room d d)
        λ r w. (
          w.answer
              ∙ ap (fold_left f (pos 0)) whole
              ∙ fold_left-count 0 (n.rest c.it) (omega arith)
              ∙ ap pos {y = length (n.rest c.it)} (omega arith),
          w.ended h,
        )

  -- Over an iterator that enumerates a sequence with one path for each value, without a limit and
  -- with no error so far, `Count` returns with enough fuel: the size, if the iterator calls it
  -- exact, and else the number of values still to come, which an int64 must hold, with the error
  -- with which the enumeration stops.
  pub count-length :
      (fuel : ℕ) (c : IterateChain S) (size : ℤ) (exact : Bool)
      → n.Valid c.it
      → IsNegative c.limit
      → n.cost c.it < fuel
      → length (n.rest c.it) < 2 ^ 63
      → api.err c.it ≡ none
      → api.size c.it ≡ done (size, exact)
      → Returns (count api fuel c) (λ r.
        (r.0 ≡ (if exact then size else pos (length (n.rest c.it))))
        × (r.1 ≡ (if exact then none else n.stop c.it)))
  unfolding count
  count-length fuel c size true v h d l e s = rw (Returns, count, e, s) (refl, refl)
  count-length fuel c size false v h d l e s =
      rw (Returns, count, e, s) (count_loop-length fuel c v h d l)

module _ {N E S : Type 0} (api : Iterator N E S) (n : Sequence N E S) (seq : Enumerates api n) where
  -- Over an iterator that enumerates a sequence, and without a limit, `First` returns with enough
  -- fuel: the first value still to come and no error, or nil and the error with which the
  -- enumeration stops.
  pub first-head :
      (fuel : ℕ) (c : IterateChain S)
      → n.Valid c.it
      → IsNegative c.limit
      → n.cost c.it < fuel
      → Returns (first api fuel c) (λ r.
        (r.0 ≡ head_of (n.rest c.it))
        × (r.1 ≡ (if is_empty (n.rest c.it) then n.stop c.it else none)))
  unfolding first
  first-head fuel c v h d =
      chain_rule api n seq fuel c.it c.paths c.limit c.n _ _ v d (open_room c h)
        (λ s' e p. rw e (refl, p.reason)) (λ w ws s' e p. rw e (p.value, refl))
