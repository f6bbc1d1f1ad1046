-- ===== src/Shape/Rewrite.antt =====
-- graph/shape/shape.go: the method Optimize of every shape, and the function Optimize.
use cayley.Prelude.{
  ℕ, zero, suc, Bool, true, false, ◌||◌, Option, none, some, Eq, if◌then◌else◌, Outcome, done,
  panic, out_of_fuel, ◌>>=◌,
}
use cayley.Shape.{
  Shape, is_nil, nil, null, all_nodes, except, filtered, count, quads, nodes_from, quads_action,
  fixed, fixed_tags, lookup_of, materialize, intersect, union, page, unique, save, optional,
}
use cayley.Shape.Optimize.{Replaced, Optimizer}
use cayley.Shape.Optimize.Single.{
  optimize_leaf, optimize_except, optimize_filtered, optimize_count, optimize_fixed,
  optimize_fixed_tags, optimize_lookup, optimize_materialize, optimize_page, optimize_unique,
  optimize_save, optimize_optional, resolve,
}
use cayley.Shape.Optimize.Quads.{optimize_quads, optimize_nodes_from}
use cayley.Shape.Optimize.Intersect.{optimize_intersect}
use cayley.Shape.Optimize.Union.{optimize_union}

module _ {V W F : Type 0} ⦃e : Eq V⦄ (zero_count : V) where
  -- `s.Optimize(r)`, on fuel for the shapes below and those that are optimized again.
  unfoldable pub optimize : ℕ → Optimizer V W F → Shape V W F → Outcome (Replaced V W F)
  optimize zero r s = out_of_fuel
  optimize (suc n) r nil = panic
  optimize (suc n) r null = optimize_leaf r null (nil, true)
  optimize (suc n) r all_nodes = optimize_leaf r all_nodes (all_nodes, false)
  optimize (suc n) r (except exclude from) = optimize_except (optimize n r) r exclude from
  optimize (suc n) r (filtered fs from) = optimize_filtered (optimize n r) r fs from
  optimize (suc n) r (count values) = optimize_count zero_count (optimize n r) r values
  optimize (suc n) r (quads fs) = optimize_quads (optimize n r) r fs
  optimize (suc n) r (nodes_from d s) = optimize_nodes_from (optimize n r) r d s
  optimize (suc n) r (quads_action size d sv filt) =
      optimize_leaf r (quads_action size d sv filt) (quads_action size d sv filt, false)
  optimize (suc n) r (fixed vs) = optimize_fixed r vs
  optimize (suc n) r (fixed_tags tags on) = optimize_fixed_tags (optimize n r) r tags on
  optimize (suc n) r (lookup_of ws) = optimize_lookup r ws
  optimize (suc n) r (materialize size values) = optimize_materialize (optimize n r) r size values
  optimize (suc n) r (intersect cs) = optimize_intersect (optimize n r) n r cs
  optimize (suc n) r (union cs) = optimize_union (optimize n r) r cs
  optimize (suc n) r (page skip limit from) = optimize_page (optimize n r) r skip limit from
  optimize (suc n) r (unique from) = optimize_unique (optimize n r) r from
  optimize (suc n) r (save tags from) = optimize_save (optimize n r) r tags from
  optimize (suc n) r (optional from) = optimize_optional (optimize n r) r from

-- The store behind a handle: `ValueOf`, and its own optimizer, if it is one.
pub record ShapeStore (V W F : Type 0) : Type 0 where
  pub value_of : W → Option V
  pub optimizer : Optimizer V W F

module _ {V W F : Type 0} where
  -- `resolveValues`
  unfoldable pub resolve_lookups : (W → Option V) → Shape V W F → Replaced V W F
  resolve_lookups value_of (lookup_of ws) = (resolve value_of ws, true)
  resolve_lookups value_of s = (s, false)

  abbrev pub resolver : (W → Option V) → Optimizer V W F
  resolver value_of = some (record { optimize_shape = resolve_lookups value_of; value_of = none })

  -- `if s == nil { return Null{}, true }`, between the passes.
  abbrev pub unless_nil :
      Replaced V W F → (Shape V W F → Bool → Outcome (Replaced V W F)) → Outcome (Replaced V W F)
  unless_nil (s, opt) rest = if is_nil s then done (null, true) else rest s opt

module _ {V W F : Type 0} ⦃e : Eq V⦄ (zero_count : V) (fuel : ℕ) where
  -- One pass, if there is an optimizer for it.
  abbrev pub pass : Optimizer V W F → Shape V W F → Bool → Outcome (Replaced V W F)
  pass r s opt = optimize zero_count fuel r s >>= λ (s', opt'). done (s', opt || opt')

  abbrev pub store_pass : Option (ShapeStore V W F) → Shape V W F → Bool → Outcome (Replaced V W F)
  store_pass none s opt = done (s, opt)
  store_pass (some qs) s opt = elim qs.optimizer [
    | none ↦ done (s, opt)
    | some so ↦ pass (some so) s opt
  ]

  abbrev pub resolve_pass : Option (ShapeStore V W F) → Shape V W F → Outcome (Replaced V W F)
  resolve_pass none s = done (s, false)
  resolve_pass (some qs) s = pass (resolver qs.value_of) s false

  -- The function `Optimize`: lookups, the generic optimizations, and those of the store.
  unfoldable pub optimize_query : Shape V W F → Option (ShapeStore V W F) → Outcome (Replaced V W F)
  optimize_query s qs =
      if is_nil s
      then done (nil, false)
      else resolve_pass qs s >>= λ resolved. unless_nil resolved λ s1 opt1.
        pass none s1 opt1 >>= λ generic.
        unless_nil generic λ s2 opt2.
          store_pass qs s2 opt2 >>= λ stored. unless_nil stored λ s3 opt3. done (s3, opt3)
