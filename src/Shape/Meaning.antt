-- ===== src/Shape/Meaning.antt =====
-- What a shape of graph/shape/shape.go stands for in a store: the set of values that its iterator
-- finds, apart from order, repetition and tags.
use cayley.Prelude.{
  ℕ, suc, ◌+◌, ◌<◌, ◌≤◌, Bool, true, false, not, ◌&&◌, ◌||◌, Option, none, some, is_some, List, [],
  ◌∷◌, Eq, ◌==◌, elem, all, any, ◌≡◌, Returns, String, Outcome, done, panic, if◌then◌else◌,
}
use cayley.Quad.{is_set, Direction, direction_eq}
use cayley.Shape.{
  Shape, Shapes, QuadFilters, is_nil, is_null, one, nil, null, all_nodes, except, filtered, count,
  quads, nodes_from, quads_action, fixed, fixed_tags, lookup_of, materialize, intersect, union,
  page, unique, save, optional, end, part, stop, link,
}
use cayley.Shape.Optimize.{Optimize}
use cayley.Shape.Optimize.Single.{resolve_values}

-- The directions of the tags of a QuadsAction.
abbrev pub all_set : List (Direction × List String) → Bool
all_set [] = true
all_set ((d, tags) ∷ sv) = is_set d && all_set sv

-- A store as shapes see it: its nodes and quads, the ends of the quads, the values that a filter
-- passes, and the nodes of quad values.
pub record View (V W F : Type 0) : Type 0 where
  pub nodes : List V
  pub all_quads : List V
  pub end_of : V → Direction → Option V
  pub passes : F → V → Bool
  pub value_of : W → Option V

-- A test of a value that may be missing.
abbrev pub at_end : {V : Type 0} → Option V → (V → Bool) → Bool
at_end none p = false
at_end (some v) p = p v

module _ {V W F : Type 0} ⦃e : Eq V⦄ (m : View V W F) where
  -- What QuadsAction asks of a quad.
  unfoldable pub meets : List (Direction × V) → V → Bool
  meets [] q = true
  meets ((d, w) ∷ filt) q = at_end (m.end_of q d) (λ v. w == v) && meets filt q

  unfoldable pub tagged : List (Direction × List String) → V → Bool
  tagged [] q = true
  tagged ((d, tags) ∷ sv) q = is_some (m.end_of q d) && tagged sv q

  -- `has s v`: the value is one of the shape's. A shape of nodes is asked about the nodes of the
  -- store, and a shape of quads about its quads. Count and Page, which stand for no set, have none.
  -- This is what the iterator finds if it can be built, and `find` panics if it cannot. With a nil
  -- part of an Intersect or a Union, which has no values here, there is no iterator.
  unfoldable mutual
    pub has : Shape V W F → V → Bool
    has nil v = false
    has null v = false
    has all_nodes v = true
    has (except exclude from) v = not (has exclude v) && (is_nil from || has from v)
    has (filtered fs from) v = has from v && all (λ f. m.passes f v) fs
    has (count values) v = false
    has (quads fs) v = has_ends fs v
    has (nodes_from d s) v = any (λ q. has s q && at_end (m.end_of q d) (λ w. w == v)) m.all_quads
    has (quads_action size d sv filt) v =
        any (λ q. (meets filt q && tagged sv q) && at_end (m.end_of q d) (λ w. w == v)) m.all_quads
    has (fixed vs) v = elem v vs
    has (fixed_tags tags on) v = has on v
    has (lookup_of ws) v = elem v (resolve_values m.value_of ws)
    has (materialize size values) v = has values v
    has (intersect end) v = false
    has (intersect (part c cs)) v = has c v && has_all cs v
    has (union cs) v = has_any cs v
    has (page skip limit from) v = false
    has (unique from) v = has from v
    has (save tags from) v = has from v
    has (optional from) v = true

    pub has_all : Shapes V W F → V → Bool
    has_all end v = true
    has_all (part c cs) v = has c v && has_all cs v

    pub has_any : Shapes V W F → V → Bool
    has_any end v = false
    has_any (part c cs) v = has c v || has_any cs v

    pub has_ends : QuadFilters V W F → V → Bool
    has_ends stop q = true
    has_ends (link d s fs) q = at_end (m.end_of q d) (λ v. has s v) && has_ends fs q

module _ {V W F : Type 0} where
  -- BuildIterator does not panic: no part of an Intersect or a Union is nil, and directions are set
  -- where they are needed. The other methods, and the function BuildIterator itself, test for nil.
  unfoldable mutual
    pub builds : Shape V W F → Bool
    builds nil = true
    builds null = true
    builds all_nodes = true
    builds (except exclude from) = builds exclude && builds from
    builds (filtered fs from) = builds from
    builds (count values) = builds values
    builds (quads fs) = builds_ends fs
    builds (nodes_from d s) = (is_null s || is_set d) && builds s
    builds (quads_action size d sv filt) = is_set d && all_set sv
    builds (fixed vs) = true
    builds (fixed_tags tags on) = builds on
    builds (lookup_of ws) = true
    builds (materialize size values) = builds values
    builds (intersect cs) = builds_parts cs
    builds (union cs) = builds_parts cs
    builds (page skip limit from) = builds from
    builds (unique from) = builds from
    builds (save tags from) = builds from
    builds (optional from) = builds from

    pub builds_parts : Shapes V W F → Bool
    builds_parts end = true
    builds_parts (part c cs) = (not (is_nil c) && builds c) && builds_parts cs

    pub builds_ends : QuadFilters V W F → Bool
    builds_ends stop = true
    builds_ends (link d s fs) =
        (((is_nil s || is_some (one s)) || is_set d) && builds s) && builds_ends fs

module _ {V W F : Type 0} ⦃e : Eq V⦄ (m : View V W F) where
  -- Building the iterator, and asking it for a value.
  unfoldable pub find : Shape V W F → V → Outcome Bool
  find s v = if builds s then done (has m s v) else panic

-- A node or a quad of the store passes a test.
module _ {V W F : Type 0} (m : View V W F) where
  unfoldable pub seen : (V → Bool) → Bool
  seen p = any p m.nodes || any p m.all_quads

module _ {V W F : Type 0} where
  -- A shape that no optimization turns into one of all nodes.
  unfoldable mutual
    pub firm : Shape V W F → Bool
    firm nil = true
    firm null = true
    firm all_nodes = false
    firm (except exclude from) = false
    firm (filtered fs from) = firm from
    firm (count values) = true
    firm (quads fs) = true
    firm (nodes_from d s) = true
    firm (quads_action size d sv filt) = true
    firm (fixed vs) = true
    firm (fixed_tags tags on) = firm on
    firm (lookup_of ws) = true
    firm (materialize size values) = true
    firm (intersect cs) = some_firm cs
    firm (union cs) = all_firm cs
    firm (page skip limit from) = true
    firm (unique from) = true
    firm (save tags from) = firm from
    firm (optional from) = false

    pub some_firm : Shapes V W F → Bool
    some_firm end = false
    some_firm (part c cs) = firm c || some_firm cs

    pub all_firm : Shapes V W F → Bool
    all_firm end = true
    all_firm (part c cs) = firm c && all_firm cs

  -- A filter on another direction than `d`.
  abbrev pub leads_away : Direction → QuadFilters V W F → Bool
  leads_away d stop = false
  leads_away d (link d' s fs) = not (d' == d) || leads_away d fs

  -- A source that an Except takes for all nodes.
  abbrev pub unbounded : Shape V W F → Bool
  unbounded nil = true
  unbounded all_nodes = true
  unbounded s = false

  -- The shapes of quads that NodesFrom takes here: nil, or a Quads with such a filter.
  abbrev pub away : Direction → Shape V W F → Bool
  away d nil = true
  away d null = true
  away d (quads fs) = leads_away d fs
  away d s = false

  -- The number of shapes in a tree.
  unfoldable mutual
    pub weight : Shape V W F → ℕ
    weight nil = 1
    weight null = 1
    weight all_nodes = 1
    weight (except exclude from) = suc (weight exclude + weight from)
    weight (filtered fs from) = suc (weight from)
    weight (count values) = suc (weight values)
    weight (quads fs) = suc (weight_filters fs)
    weight (nodes_from d s) = suc (weight s)
    weight (quads_action size d sv filt) = 1
    weight (fixed vs) = 1
    weight (fixed_tags tags on) = suc (weight on)
    weight (lookup_of ws) = 1
    weight (materialize size values) = suc (weight values)
    weight (intersect cs) = suc (weight_parts cs)
    weight (union cs) = suc (weight_parts cs)
    weight (page skip limit from) = suc (weight from)
    weight (unique from) = suc (weight from)
    weight (save tags from) = suc (weight from)
    weight (optional from) = suc (weight from)

    pub weight_parts : Shapes V W F → ℕ
    weight_parts end = 0
    weight_parts (part c cs) = weight c + weight_parts cs

    pub weight_filters : QuadFilters V W F → ℕ
    weight_filters stop = 0
    weight_filters (link d s fs) = weight s + weight_filters fs

module _ {V W F : Type 0} ⦃e : Eq V⦄ (m : View V W F) where
  -- A node or a quad of the store is one of the values.
  abbrev pub inhabited : Shape V W F → Bool
  inhabited s = seen m (has m s)

  -- The shapes whose optimization keeps their values: there is no Count and no Page, an Except
  -- excludes from all nodes, directions are set, NodesFrom takes a Quads with a filter on another direction, and an
  -- Intersect has a part that is firm. Each Intersect, each part of an Intersect or a Union, and the
  -- values of each filter, which may become such a part, are inhabited, so that no part is nil, on
  -- which BuildIterator panics.
  unfoldable mutual
    pub plain : Shape V W F → Bool
    plain nil = true
    plain null = true
    plain all_nodes = true
    plain (except exclude from) = (not (is_nil exclude) && unbounded from) && plain exclude
    plain (filtered fs from) = plain from
    plain (count values) = false
    plain (quads fs) = plain_filters fs
    plain (nodes_from d s) = (is_set d && away d s) && plain s
    plain (quads_action size d sv filt) = is_set d && all_set sv
    plain (fixed vs) = true
    plain (fixed_tags tags on) = plain on
    plain (lookup_of ws) = true
    plain (materialize size values) = plain values
    plain (intersect cs) = inhabited (intersect cs) && (some_firm cs && plain_parts cs)
    plain (union cs) = plain_parts cs
    plain (page skip limit from) = false
    plain (unique from) = plain from
    plain (save tags from) = plain from
    plain (optional from) = plain from

    pub plain_parts : Shapes V W F → Bool
    plain_parts end = true
    plain_parts (part c cs) = (inhabited c && plain c) && plain_parts cs

    pub plain_filters : QuadFilters V W F → Bool
    plain_filters stop = true
    plain_filters (link d s fs) = (is_set d && (inhabited s && plain s)) && plain_filters fs

  abbrev pub plain_part : Shape V W F → Bool
  plain_part s = inhabited s && plain s

  abbrev pub plain_filter : Direction → Shape V W F → Bool
  plain_filter d s = is_set d && plain_part s

  -- A replacement that keeps the values of a shape, and does not grow.
  pub record IsFaithful (s : Shape V W F) (s' : Shape V W F) : Type 0 where
    pub same : (v : V) → has m s' v ≡ has m s v
    pub still_plain : plain s' ≡ true
    pub still_unbounded : unbounded s ≡ true → unbounded s' ≡ true
    pub still_away : (d : Direction) → away d s ≡ true → away d s' ≡ true
    pub still_firm : firm s ≡ true → firm s' ≡ true
    pub no_heavier : weight s' ≤ weight s

  -- An Optimize without an optimizer that keeps what plain shapes lighter than `n` stand for.
  abbrev pub Keeps : Optimize V W F → ℕ → Type 0
  Keeps rec n =
      (s : Shape V W F)
      → is_nil s ≡ false
      → plain s ≡ true
      → weight s < n
      → Returns (rec s) (λ p. IsFaithful s p.0)
