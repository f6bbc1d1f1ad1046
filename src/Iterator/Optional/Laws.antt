-- ===== src/Iterator/Optional/Laws.antt =====
-- The Optional iterator against the set below it.
use cayley.Prelude.{ℕ, ◌<◌, Bool, true, none, ◌≡◌, refl, done, Returns, Returns-bind, if◌then◌else◌}
use cayley.Graph.Value.{Value}
use cayley.Graph.Tagger.{Tags}
use cayley.Graph.Iterator.{Iterator}
use cayley.Iterator.Laws.{Membership, Decides, Checked}
use cayley.Iterator.Optional.{Optional, optional_iterator, contains, tag_results}

module _ {N E S : Type 0} (m : Membership N S) where
  pub record IsOpen (o : Optional N E S) : Type 0 where
    pub sub : m.Valid o.sub_it
    pub clean : o.err ≡ none

  abbrev pub optional_membership : Membership N (Optional N E S)
  optional_membership = record { Valid = IsOpen; cost = λ o. m.cost o.sub_it; has = λ o v. true }

module _ {N E S : Type 0} (it : Iterator N E S) (m : Membership N S) (law : Decides it m) where
  -- `Contains`, and what the tags of the result then are.
  pub record Tried (o : Optional N E S) (v : Value N) (r : Bool × Optional N E S) : Type 0 where
    pub checked : Checked (optional_iterator it) (optional_membership m) o v r
    pub result : r.1.result ≡ v
    pub tagged :
        (dst : Tags N)
        → tag_results it r.1 dst
          ≡ (if m.has o.sub_it v then it.tag_results r.1.sub_it dst else done dst)

  -- Where the iterator below decides a set, `Contains` of the Optional iterator returns with enough
  -- fuel, and says yes to every value, which becomes its result. `TagResults` then writes the tags
  -- of the iterator below if that contains the value, and nothing if it does not.
  pub optional_contains-Tried :
      (fuel : ℕ) (v : Value N) (o : Optional N E S)
      → IsOpen m o
      → m.cost o.sub_it < fuel
      → Returns (contains it fuel v o) (Tried o v)
  unfolding contains tag_results
  optional_contains-Tried fuel v o h c =
      Returns-bind (Checked it m o.sub_it v) (Tried o v) (it.contains fuel v o.sub_it) _
        (law.contains_law fuel v o.sub_it h.sub c)
        λ r k. record {
          checked = record {
            answer = refl;
            valid = record { sub = k.valid; clean = law.quiet r.1 k.valid };
            same = refl;
            cheaper = k.cheaper;
          };
          result = refl;
          tagged = λ dst. rw k.answer refl;
        }
