-- ===== src/Tests/Chains.antt =====
-- Chains over iterators of numbered nodes.
use cayley.Prelude.{
  ◌⊎◌, ℕ, Bool, true, false, List, [], ◌∷◌, Option, none, some, String, ◌≡◌, refl, inl, inr,
  Outcome, done, Returns, arith,
}
use cayley.Prelude.Int64.{ℤ, pos, negsuc}
use cayley.Graph.Tagger.{no_tags}
use cayley.Graph.Stats.{no_stats}
use cayley.Graph.Iterate.{IterateChain, all, count, first}
use cayley.Graph.Iterate.Laws.{IsLimited, all-upto, count-length, first-head}
use cayley.Iterator.Fixed.{Fixed}
use cayley.Iterator.Fixed.Laws.{fixed_sequence, fixed-Enumerates}
use cayley.Iterator.Unique.{Unique, unique_iterator}
use cayley.Iterator.Unique.Laws.{unique_sequence, unique-Enumerates}
use cayley.Tests.Iterators.{keyer, numbers, fixed, it}

abbrev pair : IterateChain (Fixed ℕ)
pair = record { it = fixed (1 ∷ 2 ∷ 3 ∷ []); paths = true; limit = pos 2; n = pos 0 }

all-upto_example :
    Returns (all it 4 pair) (λ r. (r.0 ≡ numbers (1 ∷ 2 ∷ [])) × (IsLimited (pos 2) ⊎ (r.1 ≡ none)))
all-upto_example =
    all-upto it fixed_sequence (fixed-Enumerates keyer) (λ fuel s. refl) 4 pair (omega arith)
      (omega arith, omega arith) (omega arith)

abbrev pub once : Unique ℕ String ℕ (Fixed ℕ)
once = record {
  tags = no_tags;
  sub_it = fixed (4 ∷ 4 ∷ 5 ∷ 4 ∷ []);
  result = none;
  runstats = no_stats;
  err = none;
  seen = [];
  no_map = false;
}

abbrev whole : IterateChain (Unique ℕ String ℕ (Fixed ℕ))
whole = record { it = once; paths = true; limit = negsuc 0; n = pos 0 }

count-length_example :
    Returns (count (unique_iterator it keyer) 5 whole) (λ r. (r.0 ≡ pos 2) × (r.1 ≡ none))
unfolding cayley.Iterator.Unique.is_seen cayley.Graph.Value.key_beq cayley.Graph.Value.to_key
    cayley.Iterator.Unique.size cayley.Iterator.Fixed.stats cayley.Prelude.Int64.div_ℤ
    cayley.Prelude.Int64.wrap64
count-length_example =
    count-length (unique_iterator it keyer) (unique_sequence keyer fixed_sequence)
      (unique-Enumerates it keyer fixed_sequence (fixed-Enumerates keyer)) (λ fuel s. refl) 5 whole
      (pos 2) false (record { sub = omega arith; writable = refl; clean = inl refl }) tt
      (omega arith) (omega arith) refl refl

first-head_example :
    Returns (first it 4 (record pair { limit = negsuc 0 })) (λ r. (r.0 ≡ some 1) × (r.1 ≡ none))
first-head_example =
    first-head it fixed_sequence (fixed-Enumerates keyer) 4 (record pair { limit = negsuc 0 })
      (omega arith) tt (omega arith)
