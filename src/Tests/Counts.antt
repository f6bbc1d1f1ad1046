-- ===== src/Tests/Counts.antt =====
-- Count iterators over iterators of numbered nodes.
use cayley.Prelude.{
  ◌↔◌, ◌+◌, ◌-◌, leb, if◌then◌else◌, ℕ, Bool, true, false, [], ◌∷◌, Option, none, some, ◌≡◌, refl,
  inl, String, Outcome, done, Returns, arith,
}
use cayley.Prelude.Int64.{ℤ, pos, eq_ℤ, to_word, of_word}
use cayley.Graph.Value.{Value}
use cayley.Graph.Tagger.{no_tags}
use cayley.Iterator.Count.{Names, Count, next, contains}
use cayley.Iterator.Count.Laws.{HasCounted, count_next-HasCounted, count_contains-named}
use cayley.Iterator.Fixed.{Fixed}
use cayley.Iterator.Fixed.Laws.{fixed_sequence, fixed-Enumerates}
use cayley.Iterator.Unique.{Unique, unique_iterator}
use cayley.Iterator.Unique.Laws.{unique_sequence, unique-Enumerates}
use cayley.Tests.Iterators.{keyer, it}
use cayley.Tests.Chains.{once}

-- From 1000 on, nodes are prefetched numbers.
abbrev fetched_of : Value ℕ → Option (Option ℤ)
fetched_of none = none
fetched_of (some n) = if leb 1000 n then some (some (of_word (n - 1000))) else none

abbrev names : Names ℕ ℤ
names = record {
  int = λ z. z;
  eq = eq_ℤ;
  pre_fetched = λ z. 1000 + to_word z;
  fetched = fetched_of;
}

-- A store in which node 2 is the number 2.
abbrev name_of : Value ℕ → Option ℤ
name_of none = none
name_of (some n) = some (pos n)

abbrev fresh : Count ℕ ℤ (Unique ℕ String ℕ (Fixed ℕ))
fresh = record { it = once; is_done = false; tags = no_tags; result = none; qs = some name_of }

count_next-HasCounted_example : Returns (next (unique_iterator it keyer) names 5 fresh) (λ r.
    (r.0 ≡ true)
    × HasCounted
        (unique_iterator it keyer)
        names
        (unique_sequence keyer fixed_sequence)
        (unique-Enumerates it keyer fixed_sequence (fixed-Enumerates keyer))
        (λ fuel s. refl)
        fresh
        (pos 2)
        false
        r.1
    × (next (unique_iterator it keyer) names 5 r.1 ≡ done (false, r.1)))
unfolding cayley.Iterator.Unique.is_seen cayley.Graph.Value.key_beq cayley.Graph.Value.to_key
    cayley.Iterator.Unique.size cayley.Iterator.Fixed.stats cayley.Prelude.Int64.div_ℤ
    cayley.Prelude.Int64.wrap64
count_next-HasCounted_example =
    count_next-HasCounted (unique_iterator it keyer) names (unique_sequence keyer fixed_sequence)
      (unique-Enumerates it keyer fixed_sequence (fixed-Enumerates keyer)) (λ fuel s. refl) 5 fresh
      (pos 2) false (record { sub = omega arith; writable = refl; clean = inl refl }) (omega arith)
      (omega arith) refl refl

count_contains-named_example :
    Returns (contains (unique_iterator it keyer) names 5 (some 2) fresh) (λ r.
      ((r.0 ≡ true) ↔ (some (pos 2) ≡ some (pos 2)))
      × HasCounted
          (unique_iterator it keyer)
          names
          (unique_sequence keyer fixed_sequence)
          (unique-Enumerates it keyer fixed_sequence (fixed-Enumerates keyer))
          (λ fuel s. refl)
          fresh
          (pos 2)
          false
          r.1)
unfolding cayley.Iterator.Unique.is_seen cayley.Graph.Value.key_beq cayley.Graph.Value.to_key
    cayley.Iterator.Unique.size cayley.Iterator.Fixed.stats cayley.Prelude.Int64.div_ℤ
    cayley.Prelude.Int64.wrap64
count_contains-named_example =
    count_contains-named (unique_iterator it keyer) names (unique_sequence keyer fixed_sequence)
      (unique-Enumerates it keyer fixed_sequence (fixed-Enumerates keyer)) (λ fuel s. refl) 5
      (some 2) fresh (pos 2) false (record { sub = omega arith; writable = refl; clean = inl refl })
      (omega arith) (omega arith) refl refl
