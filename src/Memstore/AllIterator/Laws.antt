-- ===== src/Memstore/AllIterator/Laws.antt =====
-- The iterator over all nodes or quads against the slice that it holds.
use cayley.Prelude.{
  ℕ, zero, suc, ◌+◌, ◌≤◌, Bool, true, false, not, List, [], ◌∷◌, Option, none, some, ◌≡◌, refl, ap,
  inl, inr, All, drop, length, get_elem?, is_some, Returns, Bool-cases, Option-cases, leb, arith,
  if◌then◌else◌,
}
use cayley.Prelude.Int64.{ℤ, ltb_ℤ}
use cayley.Graph.Iterator.{Iterator}
use cayley.Iterator.Laws.{Sequence, Enumerates, Steps, Steps-again, Stopped}
use cayley.Memstore.{QuadStore, Primitive, is_zero}
use cayley.Memstore.AllIterator.{
  AllIterator, StoreValue, all_iterator, is_ok, next_from, next, value_at, result,
}

drop-cons :
    {A : Type 0} (i : ℕ) (xs ys : List A) (x : A) → drop i xs ≡ x ∷ ys → drop (suc i) xs ≡ ys
drop-cons zero [] ys x h = cc
drop-cons zero (z ∷ xs) ys x h = cc
drop-cons (suc i) [] ys x h = cc
drop-cons (suc i) (z ∷ xs) ys x h = drop-cons i xs ys x h

-- The state of the loop of `Next` at the index `i`.
abbrev at_index : AllIterator → ℕ → AllIterator
at_index it i = record it { i = i; is_done = false; cur = none }

-- A node has a value, and a quad is not zero.
abbrev pub is_kind : {V : Type 0} → Bool → Primitive V → Bool
is_kind nodes p = if nodes then is_some p.value else not (is_zero p.quad)

is_ok-is_kind :
    {V : Type 0} (p : Primitive V) (it : AllIterator)
    → ltb_ℤ it.maxid p.id ≡ false
    → is_ok p it ≡ is_kind it.nodes p
unfolding is_ok
is_ok-is_kind p it h = ground (arith, h)

module _ {V T : Type 0} (qs : QuadStore V T) where
  -- A pointer into the heap.
  abbrev IsStored : ℕ → Type 0
  IsStored at = is_some (get_elem? qs.heap at) ≡ true

  -- The values that the slice stands for, up to the first primitive with an id above `maxid`.
  abbrev pub listed : ℤ → Bool → List ℕ → List (Option StoreValue)
  listed maxid nodes [] = []
  listed maxid nodes (at ∷ rest) =
      let later = listed maxid nodes rest in
      elim (get_elem? qs.heap at) [
        | none ↦ []
        | some p ↦
            if ltb_ℤ maxid p.id
            then []
            else if is_kind nodes p
            then value_at qs at ∷ later
            else later
      ]

  pub record IsReady (it : AllIterator) : Type 0 where
    pub stored : All IsStored it.all
    pub room : it.is_done ≡ false → it.i ≤ length it.all

  abbrev pub all_sequence : {E : Type 0} → Sequence StoreValue E AllIterator
  all_sequence = record {
    Valid = IsReady;
    cost = λ it. if it.is_done then 0 else length (drop it.i it.all);
    rest = λ it. if it.is_done then [] else listed it.maxid it.nodes (drop it.i it.all);
    stop = λ it. none;
  }

module _ {V T : Type 0} (E : Type 0) (qs : QuadStore V T) where
  abbrev api : Iterator StoreValue E AllIterator
  api = all_iterator qs

  stopped :
      (it : AllIterator) (i : ℕ)
      → All (IsStored qs) it.all
      → Stopped api
          (all_sequence qs)
          (at_index it i)
          (false, record it { i = suc i; is_done = true; cur = none })
  stopped it i h = record {
    refused = refl;
    valid = record { stored = h; room = λ d. absurd (ground (arith, d)) };
    empty = refl;
    reason = refl;
    same_stop = refl;
    cheaper = omega arith;
  }

  result_at :
      (it : AllIterator) (i at : ℕ)
      → result qs (record it { i = suc i; cur = some at; is_done = false }) ≡ value_at qs at
  unfolding result
  result_at it i at = refl

  next_from-Steps :
      (rest : List ℕ) (i j : ℕ) (it : AllIterator)
      → All (IsStored qs) rest
      → All (IsStored qs) it.all
      → drop i it.all ≡ rest
      → i + length rest ≡ length it.all
      → Returns
          (next_from qs rest i (at_index it j))
          (Steps api (all_sequence qs) (at_index it i) (listed qs it.maxid it.nodes rest))
  unfolding next_from
  next_from-Steps [] i j it r h d l = stopped it i h
  next_from-Steps (at ∷ rest) i j it (stored, r) h d l =
      elim (Option-cases (get_elem? qs.heap at)) [
        | inl missing ↦ absurd (ground (arith, stored, missing))
        | inr (p, found) ↦ elim (Bool-cases (ltb_ℤ it.maxid p.id)) [
          | inl beyond ↦
              let nothing : listed qs it.maxid it.nodes (at ∷ rest) ≡ [] =
                rw (listed, found, beyond) refl in
              rw (Returns, found, beyond, nothing) (stopped it i h)
          | inr within ↦
              let later = drop-cons i it.all rest at d in
              let kind = is_ok-is_kind p (at_index it j) within in
              elim (Bool-cases (is_kind it.nodes p)) [
                | inl good ↦
                    let this_one : listed qs it.maxid it.nodes (at ∷ rest)
                        ≡ value_at qs at ∷ listed qs it.maxid it.nodes rest =
                      rw (listed, found, within, good) refl in
                    rw (Returns, found, within, kind, good, this_one)
                      (record {
                        moved = refl;
                        valid = record { stored = h; room = λ _. omega (arith, l) };
                        value = result_at it i at;
                        remains = ap (listed qs it.maxid it.nodes) later;
                        no_error = refl;
                        same_stop = refl;
                        cheaper = rw (later, d) (omega arith);
                      })
                | inr bad ↦
                    let passed : listed qs it.maxid it.nodes (at ∷ rest)
                        ≡ listed qs it.maxid it.nodes rest =
                      rw (listed, found, within, bad) refl in
                    rw (Returns, found, within, kind, bad, passed)
                      (Steps-again api (all_sequence qs) (at_index it i) (at_index it (suc i))
                        (listed qs it.maxid it.nodes rest) (listed qs it.maxid it.nodes rest)
                        (next_from qs rest (suc i) (at_index it j)) refl
                        (rw (later, d) (omega arith)) refl
                        (next_from-Steps rest (suc i) j it r h later (omega (arith, l))))
              ]
        ]
      ]

  IsStored-drop : (i : ℕ) (xs : List ℕ) → All (IsStored qs) xs → All (IsStored qs) (drop i xs)
  IsStored-drop zero xs h = h
  IsStored-drop (suc i) [] h = h
  IsStored-drop (suc i) (x ∷ xs) h = IsStored-drop i xs h.1

  length-drop : (i : ℕ) (xs : List ℕ) → i ≤ length xs → i + length (drop i xs) ≡ length xs
  length-drop zero xs h = omega arith
  length-drop (suc i) [] h = absurd (omega arith)
  length-drop (suc i) (x ∷ xs) h = omega (arith, length-drop i xs (omega arith))

  next_by-Steps :
      (b : Bool) (it : AllIterator)
      → All (IsStored qs) it.all
      → (b ≡ false → it.i ≤ length it.all)
      → Returns (next qs (record it { is_done = b })) (
          Steps api
            (all_sequence qs)
            (record it { is_done = b })
            (if b then [] else listed qs it.maxid it.nodes (drop it.i it.all)))
  unfolding next
  next_by-Steps true it h k = record {
    refused = refl;
    valid = record { stored = h; room = λ d. absurd (ground (arith, d)) };
    empty = refl;
    reason = refl;
    same_stop = refl;
    cheaper = omega arith;
  }
  next_by-Steps false it h k =
      let inside : leb (suc (length it.all)) it.i ≡ false = ground (arith, k refl) in
      rw (Returns, next, inside)
        (Steps-again api (all_sequence qs) (record it { is_done = false }) (at_index it it.i) _ _
          (next_from qs (drop it.i it.all) it.i (at_index it it.i)) refl (omega arith) refl
          (next_from-Steps (drop it.i it.all) it.i it.i it (IsStored-drop it.i it.all h) h refl
            (length-drop it.i it.all (k refl))))

  -- Where the slice of an AllIterator points to primitives of the store, `Next` moves to the next
  -- one that is a node with a value, or a quad, as asked for, and returns false behind the last
  -- one, and at the first primitive whose id is above `maxid`.
  pub all_next-Steps :
      (it : AllIterator)
      → IsReady qs it
      → Returns (next qs it) (
          Steps api
            (all_sequence qs)
            it
            (if it.is_done then [] else listed qs it.maxid it.nodes (drop it.i it.all)))
  all_next-Steps it h = next_by-Steps it.is_done it h.stored h.room

  pub all-Enumerates : Enumerates api (all_sequence qs)
  all-Enumerates = record { next_law = λ fuel it h c. all_next-Steps it h }
