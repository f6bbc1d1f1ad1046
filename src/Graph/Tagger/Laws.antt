-- ===== src/Graph/Tagger/Laws.antt =====
-- What `TagResult` leaves in the map of tags.
use cayley.Prelude.{
  false, List, [], ◌∷◌, Option, none, some, String, string_eq, ◌==◌, ◌≡◌, refl, ap, subst, ◌∙◌, inl,
  inr, Bool-cases, elem, arith, if◌then◌else◌,
}
use cayley.Graph.Value.{Value}
use cayley.Graph.Tagger.{put, find, find-put, put_all, Tags, Tagger, add_fixed, tag_all, tag_result}

-- No key stands twice.
abbrev pub IsMap : {A : Type 0} → List (String × A) → Type 0
IsMap [] = Unit {0}
IsMap ((k, v) ∷ m) = (find k m ≡ none) × IsMap m

abbrev pub or_else : {A : Type 0} → Option A → Option A → Option A
or_else none o = o
or_else (some a) o = some a

module _ {A : Type 0} where
  IsMap-put : (k : String) (v : A) (m : List (String × A)) → IsMap m → IsMap (put k v m)
  unfolding put find
  IsMap-put k v [] h = (refl, tt)
  IsMap-put k v ((j, w) ∷ m) h = elim (Bool-cases (j == k)) [
    | inl same ↦
        let equal = (string_eq.beq_iff j k).0 same in
        rw same (subst (λ i. find i m ≡ none) equal h.0, h.1)
    | inr other ↦
        let unlike : (k == j) ≡ false =
          ground (arith, string_eq.beq_iff k j, string_eq.beq_iff j k, other) in
        rw other (rw (find-put k j v m, unlike) h.0, IsMap-put k v m h.1)
  ]

  find-put_all :
      (j : String) (m dst : List (String × A))
      → IsMap m
      → find j (put_all m dst) ≡ or_else (find j m) (find j dst)
  unfolding find put_all
  find-put_all j [] dst h = refl
  find-put_all j ((k, v) ∷ m) dst h = elim (Bool-cases (k == j)) [
    | inl same ↦
        let equal = (string_eq.beq_iff k j).0 same in
        let absent : find j m ≡ none = subst (λ i. find i m ≡ none) equal h.0 in
        find-put_all j m (put k v dst) h.1 ∙ rw (find, absent, find-put k j v dst, same) refl
    | inr other ↦ find-put_all j m (put k v dst) h.1 ∙ rw (find, find-put k j v dst, other) refl
  ]

module _ {N : Type 0} where
  find-tag_all :
      (j : String) (tags : List String) (v : Value N) (dst : Tags N)
      → find j (tag_all tags v dst) ≡ (if elem j tags then some v else find j dst)
  unfolding tag_all
  find-tag_all j [] v dst = refl
  find-tag_all j (tag ∷ tags) v dst =
      ground (arith, find-tag_all j tags v (put tag v dst), find-put tag j v dst)

  -- Where no fixed tag stands twice, `TagResult` gives each fixed tag its own value, each other tag
  -- of the tagger the result, and leaves the rest of the map as it was.
  pub find-tag_result :
      (t : Tagger N) (dst : Tags N) (v : Value N) (j : String)
      → IsMap t.fixed_tags
      → find j (tag_result t dst v)
        ≡ or_else (find j t.fixed_tags) (if elem j t.tags then some v else find j dst)
  unfolding tag_result
  find-tag_result t dst v j h =
      find-put_all j t.fixed_tags (tag_all t.tags v dst) h
      ∙ ap (or_else (find j t.fixed_tags)) (find-tag_all j t.tags v dst)

  -- `AddFixed` keeps the fixed tags a map in which no tag stands twice.
  pub add_fixed-IsMap :
      (tag : String) (value : Value N) (t : Tagger N)
      → IsMap t.fixed_tags
      → IsMap (add_fixed tag value t).fixed_tags
  unfolding add_fixed
  add_fixed-IsMap tag value t h = IsMap-put tag value t.fixed_tags h
