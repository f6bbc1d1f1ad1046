-- ===== src/Iterator/Fixed/Laws.antt =====
-- The Fixed iterator against its array: as a sequence by its index, and as a set by the keys.
use cayley.Prelude.{
  suc, ◌-◌, ◌≤◌, Bool, List, [], ◌∷◌, none, ◌≡◌, refl, sym, ap, subst, drop, drop-length,
  drop-get_elem?, length, any, Returns, arith, Bool-cases, inl, inr, nat_beq,
}
use cayley.Graph.Value.{Value, Keyer, to_key, key_beq}
use cayley.Iterator.Laws.{Sequence, Membership, Enumerates, Decides, Steps}
use cayley.Iterator.Fixed.{Fixed, fixed_iterator, next, contains, search_in}

module _ {N E : Type 0} where
  abbrev pub fixed_sequence : Sequence N E (Fixed N)
  fixed_sequence = record {
    Valid = λ f. f.last_index ≤ length f.values;
    cost = λ f. length f.values - f.last_index;
    rest = λ f. drop f.last_index f.values;
    stop = λ f. none;
  }

module _ {N K : Type 0} (keyer : Keyer N K) where
  abbrev pub same_key : Value N → Value N → Bool
  same_key v x = key_beq keyer (to_key keyer x) (to_key keyer v)

  abbrev pub fixed_membership : Membership N (Fixed N)
  fixed_membership = record {
    Valid = λ f. Unit {0};
    cost = λ f. 0;
    has = λ f v. any (same_key v) f.values;
  }

  search_in-any :
      (v : Value N) (xs : List (Value N)) (f : Fixed N)
      → ((search_in keyer v xs f).0 ≡ any (same_key v) xs)
        × ((search_in keyer v xs f).1.values ≡ f.values)
  unfolding search_in
  search_in-any v [] f = (refl, refl)
  search_in-any v (x ∷ xs) f = ground (arith, search_in-any v xs f)

  -- `Contains` of a Fixed iterator says yes exactly to the values that share their key with one
  -- of its own, and leaves these as they are.
  pub fixed_contains-any :
      (v : Value N) (f : Fixed N)
      → ((contains keyer v f).0 ≡ any (same_key v) f.values)
        × ((contains keyer v f).1.values ≡ f.values)
  unfolding contains
  fixed_contains-any v f = search_in-any v f.values f

  pub fixed-Decides : {E : Type 0} → Decides {E = E} (fixed_iterator keyer) fixed_membership
  fixed-Decides = record {
    quiet = λ f h. refl;
    contains_law = λ fuel v f h c.
        let found = fixed_contains-any v f in
        record {
          answer = found.0;
          valid = tt;
          same = λ i w. any (same_key w) (found.1 i);
          cheaper = omega arith;
        };
  }

  -- At an index within its array, `Next` of a Fixed iterator moves to the value there and leaves
  -- the later ones to come, or returns false at the end.
  pub fixed_next-Steps :
      (E : Type 0) (f : Fixed N)
      → f.last_index ≤ length f.values
      → Returns
          (next f)
          (Steps {E = E} (fixed_iterator keyer) fixed_sequence f (drop f.last_index f.values))
  unfolding next
  fixed_next-Steps E f h = elim (Bool-cases (nat_beq f.last_index (length f.values))) [
    | inl last ↦
        let at_end : f.last_index ≡ length f.values = ground arith in
        let full = subst (λ k. drop k f.values ≡ []) (sym at_end) (drop-length f.values) in
        rw (last, full)
          (record {
            refused = refl;
            valid = h;
            empty = full;
            reason = refl;
            same_stop = refl;
            cheaper = omega arith;
          })
    | inr more ↦
        let (v, found, rest) = drop-get_elem? f.values f.last_index (ground arith) in
        rw (more, found, rest)
          (record {
            moved = refl;
            valid = ground arith;
            value = refl;
            remains = ap (λ k. drop k f.values) {y = suc f.last_index} (omega arith);
            no_error = refl;
            same_stop = refl;
            cheaper = ground arith;
          })
  ]

  -- The same, as the law that iterators above this one rely on.
  pub fixed-Enumerates : {E : Type 0} → Enumerates {E = E} (fixed_iterator keyer) fixed_sequence
  fixed-Enumerates {E} = record { next_law = λ fuel f h c. fixed_next-Steps E f h }
