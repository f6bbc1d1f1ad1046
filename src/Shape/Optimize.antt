-- ===== src/Shape/Optimize.antt =====
-- graph/shape/shape.go: what the Optimize methods are made of. A method takes the Optimize of the
-- shapes below as an argument, and an optimizer that may be nil.
use cayley.Prelude.{
  ℕ, zero, suc, ◌+◌, Bool, true, false, ◌||◌, Option, none, some, is_some, List, [], ◌∷◌, ◌++◌, Eq,
  ◌==◌, String, string_eq, if◌then◌else◌, Outcome, done, panic, out_of_fuel, ◌>>=◌, nat_beq, length,
}
use cayley.Prelude.Int64.{ℤ, pos}
use cayley.Prelude.Assoc.{lookup, write}
use cayley.Quad.{Direction, direction_eq}
use cayley.Shape.{Shape, Shapes, end, part, fixed_tags}
pub mod Single
pub mod Quads
pub mod Intersect
pub mod Union

-- A shape, and whether it was replaced.
abbrev pub Replaced : Type 0 → Type 0 → Type 0 → Type 0
Replaced V W F = Shape V W F × Bool

-- An `Optimizer` that is not nil, and its method `ValueOf`, where it is a `valueResolver`.
pub record ShapeOptimizer (V W F : Type 0) : Type 0 where
  pub optimize_shape : Shape V W F → Replaced V W F
  pub value_of : Option (W → Option V)

abbrev pub Optimizer : Type 0 → Type 0 → Type 0 → Type 0
Optimizer V W F = Option (ShapeOptimizer V W F)

-- The Optimize of shapes.
abbrev pub Optimize : Type 0 → Type 0 → Type 0 → Type 0
Optimize V W F = Shape V W F → Outcome (Replaced V W F)

-- `for k, v := range ft.Tags { tags[k] = v }`
unfoldable pub write_all : {K A : Type 0} ⦃e : Eq K⦄ → List (K × A) → List (K × A) → List (K × A)
write_all [] m = m
write_all ((k, v) ∷ kvs) m = write_all kvs (write k v m)

-- The tags collected so far, in a map that exists once there are some.
abbrev pub tags_of : {V : Type 0} → Option (List (String × V)) → List (String × V)
tags_of none = []
tags_of (some tags) = tags

module _ {V W F : Type 0} where
  -- `ns, nopt := r.OptimizeShape(s); return ns, opt || nopt`, where the optimizer is not nil.
  abbrev pub or_default :
      Optimizer V W F → Replaced V W F → Outcome (Replaced V W F) → Outcome (Replaced V W F)
  or_default none (s, opt) rest = rest
  or_default (some f) (s, opt) rest = let (ns, nopt) = f.optimize_shape s in done (ns, opt || nopt)

  -- `clearFixedTags`
  unfoldable pub strip_parts :
      Shapes V W F → Option (List (String × V)) → Shapes V W F × Option (List (String × V))
  strip_parts end tags = (end, tags)
  strip_parts (part (fixed_tags kvs on) cs) tags =
      let (cs', tags') = strip_parts cs (some (write_all kvs (tags_of tags))) in
      (part on cs', tags')
  strip_parts (part c cs) tags = let (cs', tags') = strip_parts cs tags in (part c cs', tags')
