-- ===== src/Iterator/Or/Round.antt =====
-- One round of the loop of `Next` of an Or iterator, and what it leaves to come.
use cayley.Prelude.{
  ℕ, suc, ◌+◌, ◌≤◌, ◌<◌, true, false, List, [], ◌++◌, none, some, ◌≡◌, refl, ap, inl, inr, All,
  total, drop, set, length, get_elem?, arith, length-set, drop-set_self, drop-set-suc, drop_found,
  drop-eq-nil, lt-length_of_found, All-set, total-set,
}
use cayley.Graph.Value.{Value}
use cayley.Graph.Iterator.{Iterator}
use cayley.Iterator.Laws.{Sequence, Stopped, Produced}
use cayley.Iterator.Or.{Or, or_iterator}
use cayley.Iterator.Or.Sequence.{unless, first_of, chain, chain_stop, IsReady, or_sequence}

-- The state with which the loop goes on behind the index `cur`.
abbrev pub moved : {N E S : Type 0} → Or N E S → ℕ → S → Or N E S
moved o cur sub' = record o {
  internal_iterators = set o.internal_iterators cur sub';
  current_iterator = some (suc cur);
  err = none;
}

-- One round of the loop, at the index `cur` of the sub-iterator `sub`.
module _ {N E S : Type 0} (it : Iterator N E S) (n : Sequence N E S) (o : Or N E S) (cur : ℕ)
    (sub sub' : S) (found : get_elem? o.internal_iterators cur ≡ some sub)
    (plain : o.is_short_circuiting ≡ false) (valid : All n.Valid o.internal_iterators)
    (sub'_valid : n.Valid sub') where
  abbrev pub later : List S
  later = drop (suc cur) o.internal_iterators

  abbrev written : List S
  written = set o.internal_iterators cur sub'

  abbrev here : Or N E S
  here = record o { current_iterator = some cur }

  pub chain_here :
      chain n (drop cur o.internal_iterators) ≡ n.rest sub ++ unless (n.stop sub) (chain n later)
  chain_here = ap (chain n) (drop_found o.internal_iterators cur sub found)

  pub stop_here :
      chain_stop n (drop cur o.internal_iterators) ≡ first_of (n.stop sub) (chain_stop n later)
  stop_here = ap (chain_stop n) (drop_found o.internal_iterators cur sub found)

  chain-written : chain n (drop cur written) ≡ n.rest sub' ++ unless (n.stop sub') (chain n later)
  chain-written = ap (chain n) (drop-set_self o.internal_iterators cur sub sub' found)

  stop_written : chain_stop n (drop cur written) ≡ first_of (n.stop sub') (chain_stop n later)
  stop_written = ap (chain_stop n) (drop-set_self o.internal_iterators cur sub sub' found)

  pub cost_written :
      total n.cost written + n.cost sub ≡ total n.cost o.internal_iterators + n.cost sub'
  cost_written = total-set n.cost o.internal_iterators cur sub sub' found

  in_range : cur < length o.internal_iterators
  in_range = lt-length_of_found o.internal_iterators cur sub found

  range_written : cur < length written
  range_written = omega (arith, length-set o.internal_iterators cur sub', in_range)

  pub or-Produced :
      (v : Value N) (vs : List (Value N))
      → o.err ≡ none
      → Produced it n sub v vs (true, sub')
      → Produced
          (or_iterator it)
          (or_sequence n)
          here
          v
          (vs ++ unless (n.stop sub) (chain n later))
          (
            true,
            record o {
              internal_iterators = written;
              current_iterator = some cur;
              result = it.result sub';
            },
          )
  or-Produced v vs clean s = record {
    moved = refl;
    valid = record {
      plain = plain;
      subs = All-set n.Valid o.internal_iterators cur sub' sub'_valid valid;
      range = omega (arith, range_written);
      clean = inl clean;
    };
    value = s.value;
    remains = rw (chain-written, s.remains, s.same_stop);
    no_error = clean;
    same_stop = rw (stop_written, stop_here, s.same_stop);
    cheaper = omega (arith, cost_written, s.cheaper);
  }

  -- The sub-iterator stopped with an error.
  pub or-Failed :
      (e : E)
      → n.stop sub ≡ some e
      → Stopped it n sub (false, sub')
      → Stopped (or_iterator it) (or_sequence n) here (
        false,
        record o { internal_iterators = written; current_iterator = some cur; err = some e },
      )
  or-Failed e failed s =
      let empty : chain n (drop cur written) ≡ [] =
        rw (chain-written, s.empty, s.same_stop, failed) in
      let stops : some e ≡ chain_stop n (drop cur written) =
        rw (stop_written, s.same_stop, failed) in
      record {
        refused = refl;
        valid = record {
          plain = plain;
          subs = All-set n.Valid o.internal_iterators cur sub' sub'_valid valid;
          range = omega (arith, range_written);
          clean = inr (empty, stops);
        };
        empty = empty;
        reason = rw (stop_here, failed);
        same_stop = rw (stop_written, stop_here, s.same_stop);
        cheaper = omega (arith, cost_written, s.cheaper);
      }

  pub moved-IsReady : IsReady n (moved o cur sub')
  moved-IsReady = record {
    plain = plain;
    subs = All-set n.Valid o.internal_iterators cur sub' sub'_valid valid;
    range = range_written;
    clean = inl refl;
  }

  pub later-written : drop (suc cur) written ≡ later
  later-written = drop-set-suc o.internal_iterators cur sub'

  -- It stopped, and it was the last one.
  pub or-Stopped :
      n.stop sub ≡ none
      → length o.internal_iterators ≤ suc cur
      → Stopped it n sub (false, sub')
      → Stopped (or_iterator it) (or_sequence n) here (false, moved o cur sub')
  or-Stopped ended last s =
      let nothing = drop-eq-nil o.internal_iterators (suc cur) last in
      record {
        refused = refl;
        valid = moved-IsReady;
        empty = rw (later-written, nothing);
        reason = rw (stop_here, ended, nothing);
        same_stop = rw (later-written, stop_here, ended);
        cheaper = omega (arith, cost_written, s.cheaper);
      }
