-- ===== src/Shape/Optimize/Union.antt =====
-- graph/shape/shape.go: the Optimize method of Union.
use cayley.Prelude.{
  Bool, true, false, ◌||◌, Option, none, some, List, String, string_eq, if◌then◌else◌, Outcome,
  done, ◌>>=◌,
}
use cayley.Quad.{direction_eq}
use cayley.Shape.{Shapes, is_null, is_nil, nil, union, end, part}
use cayley.Shape.Optimize.{Replaced, Optimizer, Optimize, or_default, strip_parts}
use cayley.Shape.Optimize.Single.{optimize_fixed_tags}

module _ {V W F : Type 0} (rec : Optimize V W F) where
  -- The loop over the parts: a nil one is left as it is, and another may become nil.
  unfoldable pub union_parts : Shapes V W F → Bool → Outcome (Shapes V W F × Bool)
  union_parts end opt = done (end, opt)
  union_parts (part c cs) opt =
      if is_nil c
      then (union_parts cs opt >>= λ (cs', opt'). done (part c cs', opt'))
      else rec c >>= λ (v, ok).
          union_parts cs (opt || ok) >>= λ (cs', opt'). done (part (if ok then v else c) cs', opt')

module _ {V W F : Type 0} where
  -- The second pass: `s = append(s[:i], s[i+1:]...)`, and then `i++`, so that the part behind one
  -- that is dropped stays.
  unfoldable pub drop_nulls : Shapes V W F → Shapes V W F
  drop_nulls end = end
  drop_nulls (part c end) = if is_null c then end else part c end
  drop_nulls (part c (part d cs)) =
      if is_null c then part d (drop_nulls cs) else part c (drop_nulls (part d cs))

  abbrev pub any_null : Shapes V W F → Bool
  any_null end = false
  any_null (part c cs) = is_null c || any_null cs

  abbrev pub union_result : Shapes V W F → Bool → Replaced V W F
  union_result end opt = (nil, true)
  union_result (part c end) opt = (c, true)
  union_result (part c (part d cs)) opt = (union (part c (part d cs)), opt)

module _ {V W F : Type 0} (rec : Optimize V W F) (r : Optimizer V W F) where
  abbrev pub union_stripped :
      Bool → Shapes V W F → Shapes V W F × Option (List (String × V)) → Outcome (Replaced V W F)
  union_stripped opt cs (cs', some tags) =
      optimize_fixed_tags rec r tags (union cs') >>= λ (ns, _). done (ns, true)
  union_stripped opt cs (cs', none) = done (union_result (drop_nulls cs) (opt || any_null cs))

  unfoldable pub optimize_union : Shapes V W F → Outcome (Replaced V W F)
  optimize_union cs = union_parts rec cs false >>= λ (cs', opt).
      or_default r (union cs', opt) (union_stripped opt cs' (strip_parts cs' none))
