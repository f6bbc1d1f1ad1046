-- ===== src/Tests/Stores.antt =====
-- An in-memory store over texts.
use cayley.Prelude.{
  ℕ, Bool, true, false, not, List, [], ◌∷◌, Option, none, some, String, ◌≡◌, refl, Outcome, done,
  ◌>>=◌, Eq, ◌==◌, Halts, length, ◌≤◌, Returns, ◌>>=◌, if◌then◌else◌, string_eq, arith,
}
use cayley.Prelude.Int64.{ℤ, pos, eq_ℤ}
use cayley.Prelude.Assoc.{write, erase}
use cayley.Graph.Tagger.{no_tags}
use cayley.Graph.Transaction.{Delta, add_it}
use cayley.Iterator.Laws.{Steps}
use cayley.Quad.{Quad}
use cayley.Memstore.{KeyTree, Naming, QuadStore, new_quad_store, Primitive, no_quad}
use cayley.Memstore.Resolve.{find_quad, resolve_val, value_of}
use cayley.Memstore.Resolve.Laws.{find_quad-same}
use cayley.Memstore.Change.Halting.{delete-Halts}
use cayley.Memstore.Change.{delete, apply_deltas, quad_not_exist, IgnoreOpts}
use cayley.Memstore.Change.Check.{apply_deltas-first_refused, effects, concluded}
use cayley.Memstore.Change.Add.{IsAdded, add_quad-IsAdded}
use cayley.Memstore.AllIterator.{AllIterator, StoreValue, bnode, all_iterator}
use cayley.Memstore.AllIterator.Laws.{all_sequence, all_next-Steps}

abbrev Tree : Type 0
Tree = List (ℤ × ℕ)

abbrev trees : KeyTree Tree
trees = record { tree_new = []; tree_set = write; tree_delete = erase; tree_len = λ t. pos 0 }

abbrev naming : Naming String
naming = record { name = λ v. v; internal_id = λ v. none; internal_node = λ id. "" }

abbrev follows : Quad String
follows = record {
  subject = some "alice";
  predicate = some "follows";
  object = some "bob";
  label = none;
}

abbrev empty : QuadStore String Tree
empty = new_quad_store

find_quad-same_example :
    Returns (find_quad naming follows empty) (λ r. (r.3 ≡ empty) × (r.2 ≡ not (r.0 == pos 0)))
find_quad-same_example = find_quad-same naming follows empty

add_quad-IsAdded_example :
    Returns
      (cayley.Memstore.Change.add_quad trees naming follows empty)
      (IsAdded trees naming follows)
unfolding cayley.Prelude.Assoc.lookup
add_quad-IsAdded_example =
    add_quad-IsAdded trees naming follows empty (record { plain = λ d w h. refl })
      (record { nonzero = λ s id h. cc; present = λ s id h. cc })
      (record { count = 0; is_last = refl; below = omega arith })

abbrev strict : IgnoreOpts
strict = record { ignore_dup = false; ignore_missing = false }

abbrev addition : Delta (Quad String)
addition = record { quad = follows; action = add_it }

apply_deltas-first_refused_example :
    apply_deltas trees naming 1 (addition ∷ []) strict empty
    ≡ (effects trees naming 1 (addition ∷ []) empty >>= concluded trees naming none)
unfolding find_quad cayley.Quad.get cayley.Prelude.Assoc.lookup
apply_deltas-first_refused_example =
    apply_deltas-first_refused trees naming 1 (addition ∷ []) strict empty

abbrev named : ℤ → String → Primitive String
named id v = record { id = id; quad = no_quad; value = some v; refs = pos 1 }

abbrev two_nodes : QuadStore String Tree
two_nodes = record empty {
  heap = named (pos 1) "alice" ∷ named (pos 2) "bob" ∷ [];
  all = 0 ∷ 1 ∷ [];
}

abbrev nodes : AllIterator
nodes = record {
  tags = no_tags;
  all = 0 ∷ 1 ∷ [];
  maxid = pos 1;
  nodes = true;
  i = 0;
  cur = none;
  is_done = false;
}

all_next-Steps_example : Returns (cayley.Memstore.AllIterator.next two_nodes nodes) (
    Steps {E = String}
      (all_iterator two_nodes)
      (all_sequence two_nodes)
      nodes
      (some (bnode (pos 1)) ∷ []))
unfolding cayley.Memstore.AllIterator.value_at
all_next-Steps_example =
    all_next-Steps String two_nodes nodes
      (record { stored = (refl, (refl, tt)); room = λ h. omega arith })

-- An internal blank node with an id that the counter has not reached yet, and then a value: both
-- get the id 1.
abbrev with_internal : Naming String
with_internal = record naming { internal_id = λ v. if v == "memnode1" then some (pos 1) else none }

abbrev two_ids : Outcome (ℤ × ℤ)
two_ids = resolve_val with_internal (some "memnode1") true empty >>= λ (id, ok, qs).
    resolve_val with_internal (some "alice") true qs >>= λ (id', ok', qs'). done (id, id')

same_id : two_ids ≡ done (pos 1, pos 1)
unfolding resolve_val cayley.Memstore.add_primitive cayley.Memstore.prim_at
    cayley.Prelude.Assoc.lookup cayley.Prelude.Assoc.write cayley.Prelude.Int64.◌+ℤ◌
    cayley.Prelude.Int64.wrap64
same_id = refl

-- A quad that is added twice and then deleted leaves its nodes behind.
abbrev add_follows : QuadStore String Tree → Outcome (ℤ × Bool × QuadStore String Tree)
add_follows = cayley.Memstore.Change.add_quad trees naming follows

abbrev add_twice : Outcome (Bool × Bool × Option ℤ)
add_twice = add_follows empty >>= λ (id, new, qs). add_follows qs >>= λ (id', new', qs').
    cayley.Memstore.Change.delete trees naming 5 id' qs' >>= λ (gone, qs'').
    done (new', gone, value_of naming (some "alice") qs'')

nodes_left : add_twice ≡ done (false, true, some (pos 1))
unfolding value_of cayley.Memstore.Change.add_quad cayley.Memstore.Change.delete
    cayley.Memstore.Resolve.resolve_quad cayley.Memstore.append_primitive cayley.Memstore.add_refs
    cayley.Memstore.set_dir cayley.Memstore.dir cayley.Memstore.change_tree cayley.Quad.get
    cayley.Memstore.prim_at cayley.Prelude.Assoc.lookup cayley.Prelude.Assoc.write
    cayley.Prelude.Assoc.erase cayley.Prelude.Int64.◌+ℤ◌ cayley.Prelude.Int64.wrap64
nodes_left = refl

-- A quad, under the id 3, of two nodes that nothing else refers to.
abbrev one_quad : QuadStore String Tree
one_quad = record empty {
  last = pos 3;
  heap =
      named (pos 1) "alice"
      ∷ named (pos 2) "follows"
      ∷ record {
        id = pos 3;
        quad = record { s = pos 1; p = pos 2; o = pos 1; l = pos 0 };
        value = none;
        refs = pos 0;
      }
      ∷ [];
  prim = (pos 1, 0) ∷ (pos 2, 1) ∷ (pos 3, 2) ∷ [];
  all = 0 ∷ 1 ∷ 2 ∷ [];
}

delete-Halts_example :
    Halts (delete trees naming 4 (pos 3) one_quad) (λ r. length r.1.prim ≤ length one_quad.prim)
delete-Halts_example = delete-Halts trees naming 4 (pos 3) one_quad (omega arith)
