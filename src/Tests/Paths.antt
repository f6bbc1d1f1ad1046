-- ===== src/Tests/Paths.antt =====
-- The shapes of the steps of a path, in a store with one quad.
use cayley.Prelude.{
  ℕ, false, ◌&&◌, Option, none, some, [], ◌∷◌, String, nat_eq, ◌==◌, ◌≡◌, refl, done, Returns, any,
  all,
}
use cayley.Quad.{Direction, subject, predicate, object, label}
use cayley.Shape.{Shape, all_nodes, quads, nodes_from, fixed, stop, link}
use cayley.Shape.Meaning.{View, has, at_end}
use cayley.Shape.Path.{build_out, has_labels, has_via, add_filters}
use cayley.Shape.Optimize.Intersect.{intersect_shapes}
use cayley.Shape.Laws.Path.{leads, build_out-has}
use cayley.Shape.Laws.Path.Restrict.{has_labels-has, add_filters-has}

abbrev Tree : Type 0
Tree = Shape ℕ String ℕ

-- The quad 10: node 1 follows node 2 by the predicate 7.
abbrev ends_of : ℕ → Direction → Option ℕ
ends_of q subject = some 1
ends_of q predicate = some 7
ends_of q object = some 2
ends_of q d = none

abbrev view : View ℕ String ℕ
view = record {
  nodes = 1 ∷ 2 ∷ 7 ∷ [];
  all_quads = 10 ∷ [];
  end_of = ends_of;
  passes = λ f v. f == v;
  value_of = λ w. none;
}

abbrev one_of : ℕ → Tree
one_of n = fixed (n ∷ [])

build_out-has_example :
    has view (build_out (one_of 1) (one_of 7) all_nodes ("p" ∷ []) false) 2
    ≡ any
        (λ q.
          leads view subject (one_of 1) (one_of 7) all_nodes q
          && at_end (ends_of q object) (λ w. w == 2))
        (10 ∷ [])
build_out-has_example =
    build_out-has view (one_of 1) (one_of 7) all_nodes ("p" ∷ []) false 2 (refl, tt)

has_labels-has_example : Returns (has_labels (one_of 1) (one_of 7) (one_of 2) all_nodes false) (λ s.
    has view s 1 ≡ (
      has view (one_of 1) 1
      && any
          (λ q.
            leads view object (one_of 2) (one_of 7) all_nodes q
            && at_end (ends_of q subject) (λ w. w == 1))
          (10 ∷ [])))
has_labels-has_example =
    has_labels-has view (one_of 1) (one_of 7) (one_of 2) all_nodes false 1 (refl, tt) refl refl

add_filters-has_example :
    has view (add_filters (one_of 1) (1 ∷ [])) 1
    ≡ (has view (one_of 1) 1 && all {A = ℕ} (λ f. f == 1) (1 ∷ []))
add_filters-has_example = add_filters-has view (one_of 1) (1 ∷ []) 1 refl

-- Has asks for its nodes at the label of a quad.
has_via-label :
    has_via (one_of 1) (one_of 7) (one_of 2) false
    ≡ done (
        intersect_shapes
          (one_of 1)
          (nodes_from subject (quads (link predicate (one_of 7) (link label (one_of 2) stop)))))
unfolding has_via has_labels
has_via-label = refl
