-- ===== src/Shape/Optimize/Single.antt =====
-- graph/shape/shape.go: the Optimize methods of the shapes with at most two shapes below them.
use cayley.Prelude.{
  Bool, true, false, ◌&&◌, ◌||◌, Option, none, some, List, [], ◌∷◌, is_empty, String, string_eq,
  if◌then◌else◌, Outcome, done, ◌>>=◌,
}
use cayley.Prelude.Int64.{ℤ, pos, ◌+ℤ◌, ◌-ℤ◌, ltb_ℤ, leb_ℤ}
use cayley.Shape.{
  Shape, is_null, is_nil, nil, null, all_nodes, except, filtered, count, fixed, fixed_tags,
  lookup_of, materialize, page, unique, save, optional,
}
use cayley.Shape.Optimize.{Replaced, Optimizer, Optimize, or_default, write_all}

-- The fields of a Page: `Skip` and `Limit`, where a limit of zero means unlimited.
pub record Paging : Type 0 where
  pub skip : ℤ
  pub limit : ℤ

-- `ApplyPage`, of `p` to the results of `s`.
unfoldable pub apply_page : Paging → Paging → Option Paging
apply_page s p =
    let skip = s.skip +ℤ p.skip in
    let left = s.limit -ℤ p.skip in
    if ltb_ℤ (pos 0) s.limit
    then if leb_ℤ left (pos 0)
      then none
      else if ltb_ℤ (pos 0) p.limit && ltb_ℤ p.limit left
      then some (record { skip = skip; limit = p.limit })
      else some (record { skip = skip; limit = left })
    else some (record { skip = skip; limit = p.limit })

module _ {V W F : Type 0} where
  -- What is left of an Except, from its optimized parts.
  abbrev pub except_result : Shape V W F → Shape V W F → Bool → Replaced V W F
  except_result nil from opt = (all_nodes, true)
  except_result null from opt = (all_nodes, true)
  except_result all_nodes from opt = (nil, true)
  except_result exclude from opt = (except exclude from, opt)

  abbrev pub filtered_result : List F → Shape V W F → Bool → Replaced V W F
  filtered_result fs nil opt = (nil, true)
  filtered_result fs null opt = (nil, true)
  filtered_result [] from opt = (from, true)
  filtered_result (f ∷ fs) from opt = (filtered (f ∷ fs) from, opt)

  -- A Page over its optimized source, which may be a Page.
  abbrev pub page_merged : Paging → Shape V W F → Bool → Option (Paging × Replaced V W F)
  page_merged s (page skip limit from) opt =
      elim (apply_page (record { skip = skip; limit = limit }) s) [
        | none ↦ none
        | some s' ↦ some (s', (from, true))
      ]
  page_merged s from opt = some (s, (from, opt))

  -- FixedTags over its optimized source, which may be FixedTags.
  abbrev pub tags_merged :
      List (String × V) → Shape V W F → Bool → List (String × V) × Replaced V W F
  tags_merged tags (fixed_tags tags2 on) opt = (write_all tags2 (write_all tags []), (on, true))
  tags_merged tags on opt = (tags, (on, opt))

  abbrev pub tags_result :
      Optimizer V W F → List (String × V) → Replaced V W F → Outcome (Replaced V W F)
  tags_result r tags (on, opt) =
      or_default r (fixed_tags tags on, opt) (done (fixed_tags tags on, opt))

  abbrev pub page_result :
      Optimizer V W F → Option (Paging × Replaced V W F) → Outcome (Replaced V W F)
  page_result r none = done (nil, true)
  page_result r (some (s, (from, opt))) =
      or_default r (page s.skip s.limit from, opt) (done (page s.skip s.limit from, opt))

module _ {V W F : Type 0} (rec : Optimize V W F) (r : Optimizer V W F) where
  unfoldable pub optimize_except : Shape V W F → Shape V W F → Outcome (Replaced V W F)
  optimize_except exclude from = rec exclude >>= λ (exclude', opt).
      (if is_nil from then done (from, false) else rec from) >>= λ (from', opta).
      or_default r (except exclude' from', opt || opta)
        (done (except_result exclude' from' (opt || opta)))

  unfoldable pub optimize_filtered : List F → Shape V W F → Outcome (Replaced V W F)
  optimize_filtered filters from =
      if is_null from
      then done (nil, true)
      else rec from >>= λ (from', opt).
          or_default r (filtered filters from', opt) (done (filtered_result filters from' opt))

  unfoldable pub optimize_materialize : ℤ → Shape V W F → Outcome (Replaced V W F)
  optimize_materialize size values =
      if is_null values
      then done (nil, true)
      else rec values >>= λ (values', opt).
          or_default r (materialize size values', opt) (done (materialize size values', opt))

  unfoldable pub optimize_page : ℤ → ℤ → Shape V W F → Outcome (Replaced V W F)
  optimize_page skip limit from =
      if is_null from
      then done (nil, true)
      else rec from >>= λ (from', opt).
          if leb_ℤ skip (pos 0) && leb_ℤ limit (pos 0)
          then done (from', true)
          else page_result r (page_merged (record { skip = skip; limit = limit }) from' opt)

  unfoldable pub optimize_unique : Shape V W F → Outcome (Replaced V W F)
  optimize_unique from =
      if is_null from
      then done (nil, true)
      else rec from >>= λ (from', opt).
          if is_null from'
          then done (nil, true)
          else or_default r (unique from', opt) (done (unique from', opt))

  unfoldable pub optimize_save : List String → Shape V W F → Outcome (Replaced V W F)
  optimize_save tags from =
      if is_null from
      then done (nil, true)
      else rec from >>= λ (from', opt).
          if is_empty tags
          then done (from', true)
          else or_default r (save tags from', opt) (done (save tags from', opt))

  unfoldable pub optimize_optional : Shape V W F → Outcome (Replaced V W F)
  optimize_optional from =
      if is_null from
      then done (optional from, false)
      else rec from >>= λ (from', opt).
          if is_null from'
          then done (optional from', opt)
          else or_default r (optional from', opt) (done (optional from', opt))

  unfoldable pub optimize_fixed_tags : List (String × V) → Shape V W F → Outcome (Replaced V W F)
  optimize_fixed_tags tags on =
      if is_null on
      then done (nil, true)
      else rec on >>= λ (on', opt).
          if is_empty tags
          then done (on', true)
          else let (tags', merged) = tags_merged tags on' opt in tags_result r tags' merged

-- `zero_count` is the value of `graph.PreFetched(quad.Int(0))`.
module _ {V W F : Type 0} (zero_count : V) (rec : Optimize V W F) (r : Optimizer V W F) where
  unfoldable pub optimize_count : Shape V W F → Outcome (Replaced V W F)
  optimize_count values =
      if is_null values
      then done (fixed (zero_count ∷ []), true)
      else rec values >>= λ (values', opt).
          if is_null values'
          then done (fixed (zero_count ∷ []), true)
          else or_default r (count values', opt) (done (count values', opt))

module _ {V W F : Type 0} (r : Optimizer V W F) where
  unfoldable pub optimize_fixed : List V → Outcome (Replaced V W F)
  optimize_fixed [] = done (nil, true)
  optimize_fixed (v ∷ vs) = or_default r (fixed (v ∷ vs), false) (done (fixed (v ∷ vs), false))

  -- The methods of Null, AllNodes and QuadsAction, which only an optimizer replaces by more than
  -- `rest`. The nil optimizer is no QuadIndexer, and another one returns before the test for it.
  unfoldable pub optimize_leaf : Shape V W F → Replaced V W F → Outcome (Replaced V W F)
  optimize_leaf s rest = or_default r (s, false) (done rest)

-- The values of a Lookup that the store knows.
module _ {V W : Type 0} where
  unfoldable pub resolve_values : (W → Option V) → List W → List V
  resolve_values value_of [] = []
  resolve_values value_of (w ∷ ws) = elim (value_of w) [
    | none ↦ resolve_values value_of ws
    | some v ↦ v ∷ resolve_values value_of ws
  ]

module _ {V W F : Type 0} where
  abbrev pub fixed_or_nil : List V → Shape V W F
  fixed_or_nil [] = nil
  fixed_or_nil (v ∷ vs) = fixed (v ∷ vs)

  -- `resolve`
  unfoldable pub resolve : (W → Option V) → List W → Shape V W F
  resolve value_of ws = fixed_or_nil (resolve_values value_of ws)

  abbrev pub lookup_result : Option (W → Option V) → List W → Replaced V W F → Replaced V W F
  lookup_result value_of ws (ns, true) = (ns, true)
  lookup_result none ws (ns, false) = (ns, false)
  lookup_result (some value_of) ws (ns, false) = (resolve value_of ws, true)

  unfoldable pub optimize_lookup : Optimizer V W F → List W → Outcome (Replaced V W F)
  optimize_lookup none ws = done (lookup_of ws, false)
  optimize_lookup (some f) ws = done (lookup_result f.value_of ws (f.optimize_shape (lookup_of ws)))
