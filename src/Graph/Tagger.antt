-- ===== src/Graph/Tagger.antt =====
-- graph/iterator.go, type Tagger. A Go map is an association list in which a write replaces.
pub mod Laws
use cayley.Prelude.{
  List, [], ◌∷◌, ◌++◌, Option, none, some, String, ◌≡◌, refl, arith, ◌==◌, if◌then◌else◌, string_eq,
}
use text.Mathlib.TextEquality.{eq_iff}
use cayley.Graph.Value.{Value}

module _ {A : Type 0} where
  -- `dst[tag] = v`
  unfoldable pub put : String → A → List (String × A) → List (String × A)
  put k v [] = (k, v) ∷ []
  put k v ((j, w) ∷ m) = if j == k then (k, v) ∷ m else (j, w) ∷ put k v m

  unfoldable pub find : String → List (String × A) → Option A
  find k [] = none
  find k ((j, v) ∷ m) = if j == k then some v else find k m

  pub find-put :
      (k j : String) (v : A) (m : List (String × A))
      → find j (put k v m) ≡ (if k == j then some v else find j m)
  unfolding find put
  find-put k j v [] = refl
  find-put k j v ((i, w) ∷ m) = ground (arith, eq_iff k j, eq_iff i k, eq_iff i j, find-put k j v m)

  -- The writes of one map over another, in order.
  unfoldable pub put_all : List (String × A) → List (String × A) → List (String × A)
  put_all [] dst = dst
  put_all ((k, v) ∷ m) dst = put_all m (put k v dst)

abbrev pub Tags : Type 0 → Type 0
Tags N = List (String × Value N)

pub record Tagger (N : Type 0) : Type 0 where
  pub tags : List String
  pub fixed_tags : Tags N

module _ {N : Type 0} where
  abbrev pub no_tags : Tagger N
  no_tags = record { tags = []; fixed_tags = [] }

  -- `Add`
  unfoldable pub add : List String → Tagger N → Tagger N
  add tag t = record t { tags = t.tags ++ tag }

  -- `AddFixed`
  unfoldable pub add_fixed : String → Value N → Tagger N → Tagger N
  add_fixed tag value t = record t { fixed_tags = put tag value t.fixed_tags }

  unfoldable pub tag_all : List String → Value N → Tags N → Tags N
  tag_all [] v dst = dst
  tag_all (tag ∷ tags) v dst = tag_all tags v (put tag v dst)

  -- `TagResult`: the tags take the value, and then the fixed tags their own.
  unfoldable pub tag_result : Tagger N → Tags N → Value N → Tags N
  unfolding tag_all put_all
  tag_result t dst v = put_all t.fixed_tags (tag_all t.tags v dst)

  -- `CopyFromTagger`
  unfoldable pub copy_from : Tagger N → Tagger N → Tagger N
  unfolding put_all
  copy_from st t = record {
    tags = t.tags ++ st.tags;
    fixed_tags = put_all st.fixed_tags t.fixed_tags;
  }
