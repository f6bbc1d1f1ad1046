-- ===== src/Shape/Path.antt =====
-- graph/shape/path.go: the shapes that the steps of a path build.
use cayley.Prelude.{
  Bool, true, false, List, [], ◌∷◌, ◌++◌, String, if◌then◌else◌, Outcome, done, panic, is_empty,
}
use cayley.Quad.{Direction, subject, predicate, object, label}
use cayley.Shape.{
  Shape, ◌⧺◌, QuadFilters, append, nil, all_nodes, filtered, quads, nodes_from, union, unique, save,
  optional, end, part, stop, link,
}
use cayley.Shape.Optimize.Intersect.{intersect_shapes}

-- The ends of a quad where a step starts and where it leads, by the flag `in` or `rev`.
abbrev pub start_of : Bool → Direction
start_of inward = if inward then object else subject

abbrev pub goal_of : Bool → Direction
goal_of inward = if inward then subject else object

module _ {V W F : Type 0} where
  -- `UnionShapes`
  unfoldable pub union_shapes : Shape V W F → Shape V W F → Shape V W F
  union_shapes (union cs) (union ds) = union (cs ⧺ ds)
  union_shapes (union cs) s2 = union (cs ⧺ part s2 end)
  union_shapes s1 s2 = union (part s1 (part s2 end))

  -- A filter is added, unless its values are AllNodes.
  abbrev pub constrain : Direction → Shape V W F → QuadFilters V W F → QuadFilters V W F
  constrain d all_nodes fs = fs
  constrain d s fs = append fs (link d s stop)

  -- Labels may also be nil.
  abbrev pub constrain_label : Shape V W F → QuadFilters V W F → QuadFilters V W F
  constrain_label nil fs = fs
  constrain_label s fs = constrain label s fs

  -- `buildOut`
  unfoldable pub build_out :
      Shape V W F → Shape V W F → Shape V W F → List String → Bool → Shape V W F
  build_out from via labels tags inward =
      let via' = if is_empty tags then via else save tags via in
      nodes_from (goal_of inward) (
        quads (
          constrain_label labels
            (constrain predicate via' (constrain (start_of inward) from stop))))

  -- `Out` and `In`
  unfoldable pub out : Shape V W F → Shape V W F → Shape V W F → List String → Shape V W F
  out from via labels tags = build_out from via labels tags false

  unfoldable pub into : Shape V W F → Shape V W F → Shape V W F → List String → Shape V W F
  into from via labels tags = build_out from via labels tags true

  -- `Predicates`
  unfoldable pub predicates : Shape V W F → Bool → Shape V W F
  predicates from inward = unique (nodes_from predicate (quads (link (start_of inward) from stop)))

  -- `SavePredicates`
  unfoldable pub save_predicates : Shape V W F → Bool → String → Shape V W F
  save_predicates from inward tag =
      intersect_shapes from
        (nodes_from (start_of inward) (quads (link predicate (save (tag ∷ []) all_nodes) stop)))

  -- `Labels`
  unfoldable pub labels_of : Shape V W F → Shape V W F
  labels_of from = unique (
      nodes_from label
        (union (part (quads (link subject from stop)) (part (quads (link object from stop)) end))))

  -- `SaveViaLabels`
  unfoldable pub save_via_labels :
      Shape V W F → Shape V W F → Shape V W F → String → Bool → Bool → Shape V W F
  save_via_labels from via labels tag rev opt =
      let fs =
        constrain_label labels
          (link (goal_of rev) (save (tag ∷ []) all_nodes) (link predicate via stop)) in
      let found = nodes_from (start_of rev) (quads fs) in
      intersect_shapes from (if opt then optional found else found)

  -- `SaveVia`
  unfoldable pub save_via : Shape V W F → Shape V W F → String → Bool → Bool → Shape V W F
  save_via from via tag rev opt = save_via_labels from via all_nodes tag rev opt

  abbrev pub has_some : Direction → Shape V W F → QuadFilters V W F → Outcome (Shape V W F)
  has_some d from stop = panic
  has_some d from (link c s fs) = done (intersect_shapes from (nodes_from d (quads (link c s fs))))

  -- `HasLabels`
  unfoldable pub has_labels :
      Shape V W F → Shape V W F → Shape V W F → Shape V W F → Bool → Outcome (Shape V W F)
  has_labels from via nodes labels rev =
      has_some (start_of rev) from
        (constrain_label labels (constrain predicate via (constrain (goal_of rev) nodes stop)))

  -- `Has`
  unfoldable pub has_via : Shape V W F → Shape V W F → Shape V W F → Bool → Outcome (Shape V W F)
  has_via from via nodes rev = has_labels from via all_nodes nodes rev

  -- `AddFilters`
  unfoldable pub add_filters : Shape V W F → List F → Shape V W F
  add_filters nodes [] = nodes
  add_filters nil (f ∷ fs) = filtered (f ∷ fs) all_nodes
  add_filters (filtered gs from) (f ∷ fs) = filtered (gs ++ f ∷ fs) from
  add_filters nodes (f ∷ fs) = filtered (f ∷ fs) nodes
