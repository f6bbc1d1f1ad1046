-- ===== src/Shape/Optimize/Intersect.antt =====
-- graph/shape/shape.go: the Optimize method of Intersect, and IntersectShapes of path.go.
use cayley.Prelude.{
  ℕ, zero, suc, Bool, true, false, ◌||◌, Option, none, some, is_some, List, [], ◌∷◌, ◌++◌, Eq, ◌==◌,
  String, string_eq, if◌then◌else◌, Outcome, done, ◌>>=◌, is_empty, out_of_fuel,
}
use cayley.Prelude.Int64.{ℤ, pos}
use cayley.Prelude.Assoc.{lookup, write}
use cayley.Quad.{Direction, direction_eq}
use cayley.Shape.{
  Shape, Shapes, ◌⧺◌, QuadFilters, append, is_null, nil, all_nodes, quads, nodes_from, quads_action,
  fixed, intersect, save, optional, end, part, stop, link,
}
use cayley.Shape.Optimize.{Replaced, Optimizer, Optimize, or_default, strip_parts}
use cayley.Shape.Optimize.Single.{optimize_fixed_tags, optimize_save}
use cayley.Shape.Optimize.Quads.{optimize_quads}

-- The variables of the second pass: the parts that stay, `onlyAll`, `fixed`, `tags`, `quads` and
-- `opt`.
pub record Pass (V W F : Type 0) : Type 0 where
  pub kept : Shapes V W F
  pub only_all : Bool
  pub fixeds : List (List V)
  pub tags : List String
  pub filters : Option (QuadFilters V W F)
  pub changed : Bool

module _ {V W F : Type 0} where
  -- `IntersectShapes`
  unfoldable pub intersect_shapes : Shape V W F → Shape V W F → Shape V W F
  intersect_shapes all_nodes s2 = s2
  intersect_shapes (intersect cs) (intersect ds) = intersect (cs ⧺ ds)
  intersect_shapes (intersect cs) s2 = intersect (cs ⧺ part s2 end)
  intersect_shapes s1 s2 = intersect (part s1 (part s2 end))

  abbrev pub keep : Shape V W F → Pass V W F → Pass V W F
  keep c p = record p { kept = p.kept ⧺ part c end; only_all = false }

  abbrev pub merge_filters : Option (QuadFilters V W F) → QuadFilters V W F → QuadFilters V W F
  merge_filters none fs = fs
  merge_filters (some gs) fs = append gs fs

  -- One round of the second pass: the parts still to come, and the variables.
  unfoldable pub sort_part : Shape V W F → Shapes V W F → Pass V W F → Shapes V W F × Pass V W F
  sort_part all_nodes cs p = (cs, record p { changed = true })
  sort_part (optional from) cs p =
      if is_null from then (cs, record p { changed = true }) else (cs, keep (optional from) p)
  sort_part (quads fs) cs p = (
    cs,
    record p {
      filters = some (merge_filters p.filters fs);
      changed = p.changed || is_some p.filters;
      only_all = false;
    },
  )
  sort_part (fixed vs) cs p =
      (cs, record p { fixeds = p.fixeds ++ vs ∷ []; changed = true; only_all = false })
  sort_part (intersect ds) cs p = (cs ⧺ ds, record p { changed = true; only_all = false })
  sort_part (save tags from) cs p =
      (part from cs, record p { tags = p.tags ++ tags; changed = true; only_all = false })
  sort_part c cs p = (cs, keep c p)

  -- The second pass, on fuel.
  unfoldable pub sort_parts : ℕ → Shapes V W F → Pass V W F → Outcome (Pass V W F)
  sort_parts n end p = done p
  sort_parts zero (part c cs) p = out_of_fuel
  sort_parts (suc n) (part c cs) p = let (cs', p') = sort_part c cs p in sort_parts n cs' p'

module _ {V W F : Type 0} where
  -- A part before those of the rest of the loop, unless one of them was null.
  abbrev pub scanned : Shape V W F → Option (Shapes V W F × Bool) → Option (Shapes V W F × Bool)
  scanned d none = none
  scanned d (some (cs, opt)) = some (part d cs, opt)

module _ {V W F : Type 0} (rec : Optimize V W F) where
  -- The loop over the parts: `none` is a return of nil.
  unfoldable pub intersect_parts : Shapes V W F → Bool → Outcome (Option (Shapes V W F × Bool))
  intersect_parts end opt = done (some (end, opt))
  intersect_parts (part c cs) opt =
      if is_null c
      then done none
      else rec c >>= λ (v, ok).
          let d = if ok then v else c in
          if is_null d
          then done none
          else intersect_parts cs (opt || ok) >>= λ found. done (scanned d found)

module _ {V W F : Type 0} where
  -- The first filter on a direction gets the fixed values too, or a new one comes first.
  abbrev pub has_filter : Direction → QuadFilters V W F → Bool
  has_filter d stop = false
  has_filter d (link d' s fs) = d' == d || has_filter d fs

  unfoldable pub push_filter : Direction → Shape V W F → QuadFilters V W F → QuadFilters V W F
  push_filter d fix stop = stop
  push_filter d fix (link d' s fs) =
      if d' == d then link d' (intersect_shapes fix s) fs else link d' s (push_filter d fix fs)

module _ {V W F : Type 0} ⦃e : Eq V⦄ where
  -- A single value, pushed into a QuadsAction.
  abbrev pub push_action :
      V → ℤ → Direction → List (Direction × List String) → List (Direction × V) → Shape V W F
  push_action v size d sv filt = elim (lookup d filt) [
    | none ↦ quads_action (pos 0) d sv (write d v filt)
    | some w ↦ if w == v then quads_action size d sv filt else nil
  ]

  -- Fixed values, pushed down a single other part, where that is possible.
  unfoldable pub push_fixed : List V → Shapes V W F → Option (Shape V W F)
  push_fixed (v ∷ []) (part (quads_action size d sv filt) end) = some (push_action v size d sv filt)
  push_fixed vs (part (nodes_from d (quads fs)) end) =
      if has_filter d fs
      then some (nodes_from d (quads (push_filter d (fixed vs) fs)))
      else some (nodes_from d (quads (link d (fixed vs) fs)))
  push_fixed vs cs = none

  abbrev pub fixed_parts : List (List V) → Shapes V W F
  fixed_parts [] = end
  fixed_parts (vs ∷ vss) = part (fixed vs) (fixed_parts vss)

  abbrev pub parts_result : Shapes V W F → Bool → Replaced V W F
  parts_result end opt = (nil, true)
  parts_result (part c end) opt = (c, true)
  parts_result (part c (part d cs)) opt = (intersect (part c (part d cs)), opt)

  -- The end of the method, from where the fixed values are placed.
  unfoldable pub place_fixed : List (List V) → Shapes V W F → Bool → Replaced V W F
  place_fixed (vs ∷ []) cs opt = elim (push_fixed vs cs) [
    | none ↦ parts_result (part (fixed vs) cs) opt
    | some s ↦ (s, true)
  ]
  place_fixed vss cs opt = parts_result (fixed_parts vss ⧺ cs) opt

  abbrev pub filters_result : Pass V W F → Replaced V W F → Replaced V W F
  filters_result p (nq, qopt) =
      if is_null nq
      then (nil, true)
      else place_fixed p.fixeds (p.kept ⧺ part nq end) (p.changed || qopt)

module _ {V W F : Type 0} where
  abbrev pub start : Bool → Pass V W F
  start opt = record {
    kept = end;
    only_all = true;
    fixeds = [];
    tags = [];
    filters = none;
    changed = opt;
  }

module _ {V W F : Type 0} ⦃e : Eq V⦄ (rec : Optimize V W F) where
  abbrev pub quads_placed : Option (QuadFilters V W F) → Pass V W F → Outcome (Replaced V W F)
  quads_placed none p = done (place_fixed p.fixeds p.kept p.changed)
  quads_placed (some fs) p = optimize_quads rec none fs >>= λ q. done (filters_result p q)

  -- The part of the method behind the second pass, without what is deferred.
  unfoldable pub intersect_body : Pass V W F → Outcome (Replaced V W F)
  intersect_body p = quads_placed p.filters p

  -- The deferred function, which puts the tags outside.
  unfoldable pub save_tags : List String → Replaced V W F → Outcome (Replaced V W F)
  save_tags tags (s, opt) =
      if is_empty tags
      then done (s, opt)
      else if is_null s
      then done (s, opt)
      else optimize_save rec none tags s >>= λ (s', topt). done (s', opt || topt)

  unfoldable pub intersect_sorted : Pass V W F → Outcome (Replaced V W F)
  intersect_sorted p =
      if p.only_all then done (all_nodes, true) else intersect_body p >>= save_tags p.tags

  abbrev pub intersect_stripped :
      ℕ → Bool → Shapes V W F × Option (List (String × V)) → Outcome (Replaced V W F)
  intersect_stripped n opt (cs, some tags) =
      optimize_fixed_tags rec none tags (intersect cs) >>= λ (ns, _). done (ns, true)
  intersect_stripped n opt (cs, none) = sort_parts n cs (start opt) >>= intersect_sorted

  abbrev pub parts_optimized :
      ℕ → Optimizer V W F → Option (Shapes V W F × Bool) → Outcome (Replaced V W F)
  parts_optimized n r none = done (nil, true)
  parts_optimized n r (some (cs, opt)) =
      or_default r (intersect cs, opt) (intersect_stripped n opt (strip_parts cs none))

  unfoldable pub optimize_intersect : ℕ → Optimizer V W F → Shapes V W F → Outcome (Replaced V W F)
  optimize_intersect n r end = done (nil, true)
  optimize_intersect n r (part c cs) = intersect_parts rec (part c cs) false >>= parts_optimized n r
