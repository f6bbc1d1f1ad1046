-- ===== src/Shape/Optimize/Quads.antt =====
-- graph/shape/shape.go: the Optimize methods of Quads and NodesFrom.
use cayley.Prelude.{
  ℕ, suc, Bool, true, false, ◌||◌, Option, none, some, List, [], ◌∷◌, ◌++◌, ◌==◌, String, string_eq,
  if◌then◌else◌, Outcome, done, ◌>>=◌, nat_beq,
}
use cayley.Prelude.Int64.{pos}
use cayley.Prelude.Assoc.{lookup, write}
use cayley.Quad.{Direction, direction_eq}
use cayley.Shape.{
  Shape, QuadFilters, append, is_null, is_nil, nil, all_nodes, quads, nodes_from, quads_action,
  fixed, fixed_tags, save, stop, link,
}
use cayley.Shape.Optimize.{Replaced, Optimizer, Optimize, or_default, write_all, tags_of}

-- The filters of a Quads as its loop leaves them.
pub record Swept (V W F : Type 0) : Type 0 where
  pub firsts : QuadFilters V W F
  pub others : QuadFilters V W F
  pub changed : Bool

module _ {V W F : Type 0} where
  abbrev pub size : QuadFilters V W F → ℕ
  size stop = 0
  size (link d s fs) = suc (size fs)

  abbrev pub rotate : QuadFilters V W F → QuadFilters V W F
  rotate stop = stop
  rotate (link d s fs) = append fs (link d s stop)

  -- A filter goes behind the others, or, where its values are fixed, behind those that moved to the
  -- front: `s[sw], s[i] = s[i], s[sw]` makes the first of the others the last.
  abbrev pub sweep_filter : Direction → Shape V W F → Bool → Swept V W F → Swept V W F
  sweep_filter d (fixed vs) ok sw = record {
    firsts = append sw.firsts (link d (fixed vs) stop);
    others = rotate sw.others;
    changed = true;
  }
  sweep_filter d s ok sw = record {
    firsts = sw.firsts;
    others = append sw.others (link d s stop);
    changed = sw.changed || ok;
  }

  abbrev pub quads_result : Optimizer V W F → Option (Swept V W F) → Outcome (Replaced V W F)
  quads_result r none = done (nil, true)
  quads_result r (some sw) =
      or_default r (quads (append sw.firsts sw.others), sw.changed)
        (done (quads (append sw.firsts sw.others), sw.changed))

  -- `len(q) == 1 && q[0].Dir == s.Dir`, and the values of that filter.
  abbrev pub only_filter : Direction → QuadFilters V W F → Option (Shape V W F)
  only_filter d (link d' s stop) = if d' == d then some s else none
  only_filter d fs = none

  -- FixedTags are taken off the filters, and their tags collected.
  abbrev pub strip_filters :
      QuadFilters V W F
      → Option (List (String × V))
      → QuadFilters V W F × Option (List (String × V))
  strip_filters stop tags = (stop, tags)
  strip_filters (link d (fixed_tags kvs on) fs) tags =
      let (fs', tags') = strip_filters fs (some (write_all kvs (tags_of tags))) in
      (link d on fs', tags')
  strip_filters (link d s fs) tags =
      let (fs', tags') = strip_filters fs tags in (link d s fs', tags')

-- What the filters of a NodesFrom amount to: `filt`, `save` and `n`.
pub record Gathered (V : Type 0) : Type 0 where
  pub filt : List (Direction × V)
  pub saves : List (Direction × List String)
  pub n : ℕ

abbrev pub tags_at : Direction → List (Direction × List String) → List String
tags_at d m = elim (lookup d m) [ none ↦ [] | some tags ↦ tags ]

module _ {V : Type 0} where
  -- A filter by one value, `none` where its direction has one.
  abbrev pub add_filter : Direction → V → Gathered V → Option (Gathered V)
  add_filter d v g = elim (lookup d g.filt) [
    | none ↦ some (record g { filt = write d v g.filt; n = suc g.n })
    | some w ↦ none
  ]

  abbrev pub add_save : Direction → List String → Gathered V → Option (Gathered V)
  add_save d tags g =
      some (record g { saves = write d (tags_at d g.saves ++ tags) g.saves; n = suc g.n })

module _ {V W F : Type 0} where
  abbrev pub gather_filter : Direction → Shape V W F → Gathered V → Option (Gathered V)
  gather_filter d (fixed (v ∷ [])) g = add_filter d v g
  gather_filter d (save tags all_nodes) g = add_save d tags g
  gather_filter d s g = some g

  unfoldable pub gather : QuadFilters V W F → Gathered V → Option (Gathered V)
  gather stop g = some g
  gather (link d s fs) g = elim (gather_filter d s g) [ none ↦ none | some g' ↦ gather fs g' ]

  abbrev pub merged_result :
      Direction → QuadFilters V W F → Bool → Option (Gathered V) → Replaced V W F
  merged_result d fs opt none = (nodes_from d (quads fs), opt)
  merged_result d fs opt (some g) =
      if nat_beq g.n (size fs)
      then (quads_action (pos 0) d g.saves g.filt, true)
      else (nodes_from d (quads fs), opt)

module _ {V W F : Type 0} (rec : Optimize V W F) where
  -- The loop over the filters of a Quads: `none` is a return of nil.
  unfoldable pub sweep : QuadFilters V W F → Swept V W F → Outcome (Option (Swept V W F))
  sweep stop sw = done (some sw)
  sweep (link d s fs) sw =
      if is_nil s
      then done none
      else rec s >>= λ (v, ok).
          if is_nil v then done none else sweep fs (sweep_filter d (if ok then v else s) ok sw)

  unfoldable pub optimize_quads : Optimizer V W F → QuadFilters V W F → Outcome (Replaced V W F)
  optimize_quads r fs =
      sweep fs (record { firsts = stop; others = stop; changed = false }) >>= quads_result r

  abbrev pub stripped_result :
      Direction
      → QuadFilters V W F
      → Bool
      → QuadFilters V W F × Option (List (String × V))
      → Outcome (Replaced V W F)
  stripped_result d fs opt (fs', some tags) =
      rec (nodes_from d (quads fs')) >>= λ (ns, _). done (fixed_tags tags ns, true)
  stripped_result d fs opt (fs', none) =
      done (merged_result d fs opt (gather fs (record { filt = []; saves = []; n = 0 })))

  -- The generic optimizations of a NodesFrom whose quads are a Quads.
  abbrev pub nodes_result : Direction → Shape V W F → Bool → Outcome (Replaced V W F)
  nodes_result d (quads fs) opt = elim (only_filter d fs) [
    | some values ↦ done (values, true)
    | none ↦ stripped_result d fs opt (strip_filters fs none)
  ]
  nodes_result d s opt = done (nodes_from d s, opt)

  unfoldable pub optimize_nodes_from :
      Optimizer V W F → Direction → Shape V W F → Outcome (Replaced V W F)
  optimize_nodes_from r d s =
      if is_null s
      then done (nil, true)
      else rec s >>= λ (s', opt). or_default r (nodes_from d s', opt) (nodes_result d s' opt)
