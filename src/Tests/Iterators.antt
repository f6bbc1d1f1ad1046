-- ===== src/Tests/Iterators.antt =====
-- Iterators over numbered nodes.
use cayley.Prelude.{
  ℕ, zero, suc, ◌<◌, elem, true, false, List, [], ◌∷◌, none, some, String, ◌≡◌, refl, inl, inr,
  Outcome, done, panic, ◌>>=◌, Returns, nat_eq, arith,
}
use cayley.Prelude.Int64.{pos}
use cayley.Graph.Value.{Value, Keyer}
use cayley.Graph.Tagger.{no_tags}
use cayley.Graph.Stats.{no_stats}
use cayley.Graph.Iterator.{Iterator}
use cayley.Iterator.Laws.{Steps, Checked}
use cayley.Iterator.Fixed.{Fixed, fixed_iterator}
use cayley.Iterator.Fixed.Laws.{
  fixed_sequence, fixed_membership, fixed-Enumerates, fixed-Decides, fixed_next-Steps,
}
use cayley.Iterator.And.{And, and_iterator}
use cayley.Iterator.And.Next.{and_sequence, and_next-Steps}
use cayley.Iterator.And.Contains.{and_membership, and_contains-Checked}
use cayley.Iterator.Or.{Or, or_iterator}
use cayley.Iterator.Or.Sequence.{or_sequence}
use cayley.Iterator.Or.Next.{or_next-Steps}
use cayley.Iterator.Or.Contains.{or_membership, or_contains-Checked}
use cayley.Iterator.Not.{Not, not_iterator}
use cayley.Iterator.Not.Laws.{not_sequence, not_membership, not_next-Steps, not_contains-Checked}
use cayley.Iterator.Limit.{Limit, limit_iterator}
use cayley.Iterator.Limit.Laws.{limit_sequence, limit_next-Steps}
use cayley.Iterator.Skip.{Skip, skip_iterator}
use cayley.Iterator.Skip.Laws.{skip_sequence, skip_next-Steps}
use cayley.Iterator.Optional.{Optional}
use cayley.Iterator.Optional.Laws.{Tried, optional_contains-Tried}
use cayley.Iterator.Unique.{Unique, unique_iterator}
use cayley.Iterator.Unique.Laws.{unique_sequence, unique_next-Steps}

abbrev pub keyer : Keyer ℕ ℕ
keyer = record { key = λ n. n; eq = nat_eq }

abbrev pub numbers : List ℕ → List (Value ℕ)
numbers [] = []
numbers (n ∷ ns) = some n ∷ numbers ns

abbrev pub fixed : List ℕ → Fixed ℕ
fixed ns = record { tags = no_tags; values = numbers ns; last_index = 0; result = none }

abbrev pub it : Iterator ℕ String (Fixed ℕ)
it = fixed_iterator keyer

fixed_next-Steps_example :
    Returns
      (cayley.Iterator.Fixed.next (fixed (1 ∷ 2 ∷ [])))
      (Steps {E = String} it fixed_sequence (fixed (1 ∷ 2 ∷ [])) (numbers (1 ∷ 2 ∷ [])))
fixed_next-Steps_example = fixed_next-Steps keyer String (fixed (1 ∷ 2 ∷ [])) (omega arith)

abbrev both : And ℕ String (Fixed ℕ)
both = record {
  tags = no_tags;
  internal_iterators = fixed (2 ∷ 3 ∷ []) ∷ [];
  it_count = 2;
  primary_it = fixed (1 ∷ 2 ∷ 3 ∷ []);
  check_list = none;
  result = none;
  runstats = no_stats;
  err = none;
}

and_next-Steps_example : Returns (cayley.Iterator.And.next it 4 both) (
    Steps
      (and_iterator it)
      (and_sequence fixed_sequence (fixed_membership keyer))
      both
      (numbers (2 ∷ 3 ∷ [])))
unfolding cayley.Graph.Value.key_beq cayley.Graph.Value.to_key
and_next-Steps_example =
    and_next-Steps it fixed_sequence (fixed_membership keyer) (fixed-Enumerates keyer)
      (fixed-Decides keyer) 4 both
      (record { primary = omega arith; internals = (tt, tt); clean = inl refl }) (omega arith)

abbrev listed : And ℕ String (Fixed ℕ)
listed = record both { check_list = some (1 ∷ 0 ∷ 1 ∷ []) }

and_contains-Checked_example :
    Returns
      (cayley.Iterator.And.contains it 1 (some 3) listed)
      (Checked (and_iterator it) (and_membership (fixed_membership keyer)) listed (some 3))
and_contains-Checked_example =
    and_contains-Checked it (fixed_membership keyer) (fixed-Decides keyer) 1 (some 3) listed
      (record {
        subs = (tt, (tt, tt));
        list = record { inside = (omega arith, (omega arith, (omega arith, tt))); full = covers };
        clean = refl;
      })
      (omega arith)
  where
    covers : (c : ℕ) → c < 2 → elem c (1 ∷ 0 ∷ 1 ∷ []) ≡ true
    covers zero h = refl
    covers (suc zero) h = refl
    covers (suc (suc c)) h = absurd (omega arith)

abbrev either : Or ℕ String (Fixed ℕ)
either = record {
  tags = no_tags;
  is_short_circuiting = false;
  internal_iterators = fixed [] ∷ fixed (5 ∷ []) ∷ fixed (6 ∷ 5 ∷ []) ∷ [];
  current_iterator = none;
  result = none;
  err = none;
}

or_next-Steps_example :
    Returns
      (cayley.Iterator.Or.next it 4 either)
      (Steps (or_iterator it) (or_sequence fixed_sequence) either (numbers (5 ∷ 6 ∷ 5 ∷ [])))
or_next-Steps_example =
    or_next-Steps it fixed_sequence (fixed-Enumerates keyer) 4 either
      (record {
        plain = refl;
        subs = (omega arith, (omega arith, (omega arith, tt)));
        range = omega arith;
        clean = inl refl;
      })
      (omega arith)

or_contains-Checked_example :
    Returns
      (cayley.Iterator.Or.contains it 1 (some 6) either)
      (Checked (or_iterator it) (or_membership (fixed_membership keyer)) either (some 6))
or_contains-Checked_example =
    or_contains-Checked it (fixed_membership keyer) (fixed-Decides keyer) 1 (some 6) either
      (record { subs = (tt, (tt, (tt, tt))); clean = refl }) (omega arith)

abbrev others : Not ℕ String (Fixed ℕ)
others = record {
  tags = no_tags;
  primary_it = fixed (2 ∷ []);
  all_it = fixed (1 ∷ 2 ∷ 3 ∷ []);
  result = none;
  runstats = no_stats;
  err = none;
}

not_next-Steps_example : Returns (cayley.Iterator.Not.next it 4 others) (
    Steps
      (not_iterator it)
      (not_sequence fixed_sequence (fixed_membership keyer))
      others
      (numbers (1 ∷ 3 ∷ [])))
unfolding cayley.Graph.Value.key_beq cayley.Graph.Value.to_key
not_next-Steps_example =
    not_next-Steps it fixed_sequence (fixed_membership keyer) (fixed-Enumerates keyer)
      (fixed-Decides keyer) 4 others
      (record { all_valid = omega arith; primary = tt; clean = inl refl }) (omega arith)

not_contains-Checked_example :
    Returns
      (cayley.Iterator.Not.contains it 1 (some 7) others)
      (Checked (not_iterator it) (not_membership (fixed_membership keyer)) others (some 7))
not_contains-Checked_example =
    not_contains-Checked it (fixed_membership keyer) (fixed-Decides keyer) 1 (some 7) others
      (record { primary = tt; clean = refl }) (omega arith)

abbrev first_two : Limit (Fixed ℕ)
first_two = record { limit = pos 2; count = pos 0; primary_it = fixed (7 ∷ 8 ∷ 9 ∷ []) }

limit_next-Steps_example :
    Returns (cayley.Iterator.Limit.next it 4 first_two) (
      Steps (limit_iterator it) (limit_sequence it fixed_sequence) first_two (numbers (7 ∷ 8 ∷ [])))
limit_next-Steps_example =
    limit_next-Steps it fixed_sequence (fixed-Enumerates keyer) 4 first_two
      (record { primary = omega arith; room = (omega arith, omega arith, inr refl) }) (omega arith)

abbrev but_two : Skip (Fixed ℕ)
but_two = record { skip = pos 2; skipped = pos 0; primary_it = fixed (7 ∷ 8 ∷ 9 ∷ []) }

skip_next-Steps_example :
    Returns
      (cayley.Iterator.Skip.next it 4 but_two)
      (Steps (skip_iterator it) (skip_sequence fixed_sequence) but_two (numbers (9 ∷ [])))
skip_next-Steps_example =
    skip_next-Steps it fixed_sequence (fixed-Enumerates keyer) 4 but_two
      (record { primary = omega arith; room = (omega arith, omega arith) }) (omega arith)

abbrev once : Unique ℕ String ℕ (Fixed ℕ)
once = record {
  tags = no_tags;
  sub_it = fixed (4 ∷ 4 ∷ 5 ∷ 4 ∷ []);
  result = none;
  runstats = no_stats;
  err = none;
  seen = [];
  no_map = false;
}

unique_next-Steps_example : Returns (cayley.Iterator.Unique.next it keyer 5 once) (
    Steps
      (unique_iterator it keyer)
      (unique_sequence keyer fixed_sequence)
      once
      (numbers (4 ∷ 5 ∷ [])))
unfolding cayley.Iterator.Unique.is_seen cayley.Graph.Value.key_beq cayley.Graph.Value.to_key
unique_next-Steps_example =
    unique_next-Steps it keyer fixed_sequence (fixed-Enumerates keyer) 5 once
      (record { sub = omega arith; writable = refl; clean = inl refl }) (omega arith)

abbrev perhaps : Optional ℕ String (Fixed ℕ)
perhaps = record {
  tags = no_tags;
  sub_it = fixed (1 ∷ []);
  last_check = false;
  result = none;
  err = none;
}

optional_contains-Tried_example :
    Returns
      (cayley.Iterator.Optional.contains it 1 (some 2) perhaps)
      (Tried it (fixed_membership keyer) (fixed-Decides keyer) perhaps (some 2))
optional_contains-Tried_example =
    optional_contains-Tried it (fixed_membership keyer) (fixed-Decides keyer) 1 (some 2) perhaps
      (record { sub = tt; clean = refl }) (omega arith)

-- Two exact sizes make an exact size of the intersection, which is empty here.
abbrev apart : And ℕ String (Fixed ℕ)
apart = record both { internal_iterators = fixed (2 ∷ []) ∷ []; primary_it = fixed (1 ∷ []) }

apart-size : cayley.Iterator.And.size it apart ≡ done (pos 1, true)
unfolding cayley.Iterator.And.size cayley.Iterator.Fixed.size cayley.Prelude.Int64.wrap64
apart-size = refl

apart-none : (cayley.Iterator.And.next it 2 apart >>= λ (ok, a). done ok) ≡ done false
unfolding cayley.Iterator.And.next cayley.Iterator.And.rewind cayley.Iterator.Fixed.next
    cayley.Iterator.Fixed.contains cayley.Graph.Value.key_beq cayley.Graph.Value.to_key
apart-none = refl

-- An Or iterator without sub-iterators panics.
or_of_none : cayley.Iterator.Or.next it 1 (record either { internal_iterators = [] }) ≡ panic
unfolding cayley.Iterator.Or.next
or_of_none = refl
