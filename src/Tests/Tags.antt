-- ===== src/Tests/Tags.antt =====
-- Tags of numbered nodes.
use cayley.Prelude.{ℕ, [], ◌∷◌, some, ◌≡◌, refl}
use cayley.Graph.Tagger.{Tagger, find, tag_result}
use cayley.Graph.Tagger.Laws.{find-tag_result}

abbrev tagger : Tagger ℕ
tagger = record { tags = "id" ∷ "source" ∷ []; fixed_tags = ("source", some 7) ∷ [] }

find-tag_result_example : find "source" (tag_result tagger [] (some 1)) ≡ some (some 7)
unfolding find
find-tag_result_example = find-tag_result tagger [] (some 1) "source" (refl, tt)
