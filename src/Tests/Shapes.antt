-- ===== src/Tests/Shapes.antt =====
-- The theorems about shapes at concrete inputs, and runs of Optimize.
use cayley.Prelude.{
  ℕ, true, Option, none, some, [], ◌∷◌, String, nat_eq, ◌==◌, ◌||◌, if◌then◌else◌, ◌≡◌, refl, done,
  panic, Returns, arith, ◌≤◌, ◌<◌,
}
use cayley.Prelude.Int64.{pos, negsuc, ◌+ℤ◌, ◌-ℤ◌, wrap64}
use cayley.Prelude.Assoc.{lookup, write}
use cayley.Quad.{Direction, subject, predicate, object, direction_beq}
use cayley.Shape.{
  is_null, Shape, nil, null, all_nodes, except, quads, nodes_from, quads_action, fixed, lookup_of,
  intersect, union, save, end, part, stop, link,
}
use cayley.Shape.Meaning.{View, has, find, builds, seen, plain, firm, weight}
use cayley.Shape.Optimize.{strip_parts}
use cayley.Shape.Optimize.Single.{
  apply_page, optimize_leaf, optimize_except, optimize_filtered, optimize_fixed, optimize_save,
  optimize_lookup, resolve, resolve_values,
}
use cayley.Shape.Optimize.Quads.{optimize_nodes_from, optimize_quads, sweep, gather}
use cayley.Shape.Optimize.Intersect.{
  optimize_intersect, sort_part, sort_parts, intersect_parts, intersect_body, intersect_sorted,
  save_tags, place_fixed, push_fixed,
}
use cayley.Shape.Optimize.Union.{optimize_union, union_parts, drop_nulls}
use cayley.Shape.Rewrite.{optimize, optimize_query, ShapeStore, resolve_lookups}
use cayley.Shape.Laws.Rewrite.{optimize-has, optimize_query-has}
use cayley.Shape.Laws.Page.{paged, paged_or_none, apply_page-paged}

abbrev Tree : Type 0
Tree = Shape ℕ String Unit

-- Two quads, 10 and 11: node 1 follows node 2, and node 3 follows node 2, by the predicate 7.
abbrev ends_of : ℕ → Direction → Option ℕ
ends_of q subject = if q == 10 then some 1 else if q == 11 then some 3 else none
ends_of q predicate = if q == 10 || q == 11 then some 7 else none
ends_of q object = if q == 10 || q == 11 then some 2 else none
ends_of q d = none

abbrev view : View ℕ String Unit
view = record {
  nodes = 1 ∷ 2 ∷ 3 ∷ 7 ∷ [];
  all_quads = 10 ∷ 11 ∷ [];
  end_of = ends_of;
  passes = λ f v. true;
  value_of = λ w. none;
}

-- Who follows anyone by 7, tagged by whom, and is 3.
abbrev followers : Tree
followers = intersect (
    part all_nodes (
      part (fixed (3 ∷ [])) (
        part
          (nodes_from subject (
            quads
              (link object (save ("who" ∷ []) all_nodes) (link predicate (fixed (7 ∷ [])) stop))))
          end)))

plain_followers : plain view followers ≡ true
unfolding plain firm direction_beq has seen
plain_followers = refl

light_followers : weight followers < 20
unfolding weight
light_followers = omega arith

optimize-has_example : Returns (optimize 0 20 none followers) (λ p.
    (find view followers 3 ≡ done (has view followers 3))
    × (find view p.0 3 ≡ done (has view followers 3))
    × (plain view p.0 ≡ true)
    × (weight p.0 ≤ weight followers))
optimize-has_example = optimize-has view 0 20 followers 3 refl plain_followers light_followers

optimize_query-has_example : Returns (optimize_query 0 20 followers none) (λ p.
    (find view followers 1 ≡ done (has view followers 1))
    × (find view p.0 1 ≡ done (has view followers 1)))
optimize_query-has_example =
    optimize_query-has view 0 20 followers 1 plain_followers light_followers

apply_page-paged_example :
    paged_or_none {A = ℕ}
      (apply_page (record { skip = pos 1; limit = pos 4 }) (record { skip = pos 2; limit = pos 9 }))
      (5 ∷ 6 ∷ 7 ∷ 8 ∷ 9 ∷ [])
    ≡ paged
        (record { skip = pos 2; limit = pos 9 })
        (paged (record { skip = pos 1; limit = pos 4 }) (5 ∷ 6 ∷ 7 ∷ 8 ∷ 9 ∷ []))
apply_page-paged_example =
    apply_page-paged 1 2 (pos 4) (pos 9) (5 ∷ 6 ∷ 7 ∷ 8 ∷ 9 ∷ []) (omega arith) refl

abbrev alone : Tree
alone = intersect (part (save ("t" ∷ []) all_nodes) end)

abbrev nulls : Tree
nulls = union (part null (part null (part (fixed (1 ∷ [])) (part (fixed (2 ∷ [])) end))))

abbrev subjects : Tree
subjects = nodes_from subject (quads (link subject all_nodes stop))

abbrev from_one : Tree
from_one = except null (fixed (1 ∷ []))

abbrev not_unknown : Tree
not_unknown = except (lookup_of ("x" ∷ [])) all_nodes

abbrev knows_none : ShapeStore ℕ String Unit
knows_none = record { value_of = λ w. none; optimizer = none }

-- The followers, as one QuadsAction.
optimize-followers :
    optimize 0 20 none followers
    ≡ done (
      quads_action (pos 0) subject ((object, "who" ∷ []) ∷ []) ((predicate, 7) ∷ (subject, 3) ∷ []),
      true,
    )
unfolding optimize is_null optimize_leaf optimize_except optimize_filtered optimize_fixed
    optimize_save optimize_nodes_from optimize_quads optimize_intersect optimize_union sweep gather
    strip_parts sort_part sort_parts intersect_parts intersect_body intersect_sorted save_tags
    place_fixed push_fixed union_parts drop_nulls direction_beq lookup write
optimize-followers = refl

-- An Except that excludes nothing forgets where it excludes from. A Save of all nodes, alone in an
-- Intersect, becomes an empty set. Of two nulls in a row a Union keeps one, which is nil by then.
-- The nodes that are the subject of a quad become all nodes.
optimize-edges :
    (optimize 0 20 none from_one ≡ done (all_nodes, true))
    × (optimize 0 20 none alone ≡ done (nil, true))
    × (optimize 0 20 none nulls
        ≡ done (union (part nil (part (fixed (1 ∷ [])) (part (fixed (2 ∷ [])) end))), true))
    × (optimize 0 20 none subjects ≡ done (all_nodes, true))
unfolding optimize is_null optimize_leaf optimize_except optimize_filtered optimize_fixed
    optimize_save optimize_nodes_from optimize_quads optimize_intersect optimize_union sweep gather
    strip_parts sort_part sort_parts intersect_parts intersect_body intersect_sorted save_tags
    place_fixed push_fixed union_parts drop_nulls direction_beq lookup write
optimize-edges = (refl, refl, refl, refl)

-- The Union with a nil part, on which BuildIterator panics.
abbrev nil_left : Tree
nil_left = union (part nil (part (fixed (1 ∷ [])) (part (fixed (2 ∷ [])) end)))

find-nulls : (find view nulls 1 ≡ done true) × (find view nil_left 1 ≡ panic)
unfolding find has builds
find-nulls = (refl, refl)

-- A Lookup of an unknown value becomes nil, and then Except calls a method of it.
optimize_query-except_unknown : optimize_query 0 20 not_unknown (some knows_none) ≡ panic
unfolding optimize_query optimize optimize_leaf optimize_except optimize_lookup resolve
    resolve_values resolve_lookups
optimize_query-except_unknown = refl

-- A Skip that is negative, and so means nothing, takes from the other one, and adds to its Limit.
apply_page-negative :
    apply_page (record { skip = pos 2; limit = pos 5 }) (record { skip = negsuc 0; limit = pos 0 })
    ≡ some (record { skip = pos 1; limit = pos 6 })
unfolding apply_page ◌+ℤ◌ ◌-ℤ◌ wrap64
apply_page-negative = refl
