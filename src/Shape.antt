-- ===== src/Shape.antt =====
-- graph/shape/shape.go: the shapes of a query, as trees. `V` is the store's values, which are not
-- nil here, `W` the quad values that a Lookup names, and `F` the filters of a Filter. A Go map is
-- an association list, an empty slice is not nil, and a shape may be the nil interface.
use cayley.Prelude.{Bool, true, false, Option, none, some, List, [], ◌∷◌, String}
use cayley.Prelude.Int64.{ℤ}
use cayley.Quad.{Direction}
pub mod Optimize
pub mod Path
pub mod Rewrite
pub mod Meaning
pub mod Laws

mutual
  pub data Shape (V W F : Type 0) : Type 0 where
    nil : Shape V W F
    null : Shape V W F
    all_nodes : Shape V W F
    -- `Exclude`, then `From`, which may be nil for all nodes.
    except : Shape V W F → Shape V W F → Shape V W F
    filtered : List F → Shape V W F → Shape V W F
    count : Shape V W F → Shape V W F
    quads : QuadFilters V W F → Shape V W F
    nodes_from : Direction → Shape V W F → Shape V W F
    -- `Size`, `Result`, `Save` and `Filter`.
    quads_action :
        ℤ → Direction → List (Direction × List String) → List (Direction × V) → Shape V W F
    fixed : List V → Shape V W F
    fixed_tags : List (String × V) → Shape V W F → Shape V W F
    lookup_of : List W → Shape V W F
    materialize : ℤ → Shape V W F → Shape V W F
    intersect : Shapes V W F → Shape V W F
    union : Shapes V W F → Shape V W F
    -- `Skip`, `Limit` and `From`.
    page : ℤ → ℤ → Shape V W F → Shape V W F
    unique : Shape V W F → Shape V W F
    save : List String → Shape V W F → Shape V W F
    optional : Shape V W F → Shape V W F

  -- The slice of an Intersect or a Union.
  pub data Shapes (V W F : Type 0) : Type 0 where
    end : Shapes V W F
    part : Shape V W F → Shapes V W F → Shapes V W F

  -- `Quads`, a slice of `QuadFilter`: a direction and its `Values`.
  pub data QuadFilters (V W F : Type 0) : Type 0 where
    stop : QuadFilters V W F
    link : Direction → Shape V W F → QuadFilters V W F → QuadFilters V W F

module _ {V W F : Type 0} where
  infixr 65 ◌⧺◌
  -- `append` on the two kinds of slices.
  abbrev pub ◌⧺◌ : Shapes V W F → Shapes V W F → Shapes V W F
  end ⧺ ys = ys
  part x xs ⧺ ys = part x (xs ⧺ ys)

  abbrev pub append : QuadFilters V W F → QuadFilters V W F → QuadFilters V W F
  append stop fs = fs
  append (link d s fs) gs = link d s (append fs gs)

  -- A test for the nil interface.
  abbrev pub is_nil : Shape V W F → Bool
  is_nil nil = true
  is_nil s = false

  -- `IsNull`
  unfoldable pub is_null : Shape V W F → Bool
  is_null nil = true
  is_null null = true
  is_null s = false

  -- `One`
  unfoldable pub one : Shape V W F → Option V
  one (fixed (v ∷ [])) = some v
  one s = none
