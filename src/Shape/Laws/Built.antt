-- ===== src/Shape/Laws/Built.antt =====
-- graph/shape/shape.go: the iterator of a plain shape can be built.
use cayley.Prelude.{
  Bool, is_some, true, false, not, ◌&&◌, ◌||◌, Eq, refl, ◌≡◌, ◌∙◌, ap, sym, arith, any, done,
}
use cayley.Quad.{is_set}
use cayley.Shape.{
  Shape, Shapes, QuadFilters, is_nil, is_null, one, nil, null, all_nodes, except, filtered, count,
  quads, nodes_from, quads_action, fixed, fixed_tags, lookup_of, materialize, intersect, union,
  page, unique, save, optional, end, part, stop, link,
}
use cayley.Shape.Meaning.{
  View, has, plain, plain_part, plain_filter, plain_parts, plain_filters, inhabited, seen, builds,
  builds_parts, builds_ends, find, away, unbounded, some_firm,
}
use cayley.Shape.Laws.Faithful.{and_left, and_right, and_both, filter_plain}
use cayley.Shape.Laws.Nodes.{any-false}

or_right : (a b : Bool) → b ≡ true → (a || b) ≡ true
or_right a b h = ground arith

module _ {V W F : Type 0} ⦃e : Eq V⦄ (m : View V W F) where
  nothing_seen : seen m (λ v. false) ≡ false
  unfolding seen
  nothing_seen =
      ap (λ b. b || any (λ v. false) m.all_quads) (any-false (λ v. false) m.nodes λ x. refl)
      ∙ any-false (λ v. false) m.all_quads (λ x. refl)

  -- A shape with a value is not nil.
  inhabited-not_nil : (s : Shape V W F) → inhabited m s ≡ true → not (is_nil s) ≡ true
  unfolding has
  inhabited-not_nil nil h = sym nothing_seen ∙ h
  inhabited-not_nil s h = refl

  mutual
    unfolding plain builds

    pub plain-builds : (s : Shape V W F) → plain m s ≡ true → builds s ≡ true
    plain-builds nil h = refl
    plain-builds null h = refl
    plain-builds all_nodes h = refl
    plain-builds (except exclude from) h =
        and_both (builds exclude) (builds from)
          (plain-builds exclude
            (and_right (not (is_nil exclude) && unbounded from) (plain m exclude) h))
          (unbounded-builds from (
            and_right (not (is_nil exclude)) (unbounded from)
              (and_left (not (is_nil exclude) && unbounded from) (plain m exclude) h)))
    plain-builds (filtered fs from) h = plain-builds from h
    plain-builds (count values) h = absurd (ground arith)
    plain-builds (quads fs) h = plain_filters-builds fs h
    plain-builds (nodes_from d s) h =
        and_both (is_null s || is_set d) (builds s)
          (or_right (is_null s) (is_set d)
            (and_left (is_set d) (away d s) (and_left (is_set d && away d s) (plain m s) h)))
          (plain-builds s (and_right (is_set d && away d s) (plain m s) h))
    plain-builds (quads_action size d sv filt) h = h
    plain-builds (fixed vs) h = refl
    plain-builds (fixed_tags tags on) h = plain-builds on h
    plain-builds (lookup_of ws) h = refl
    plain-builds (materialize size values) h = plain-builds values h
    plain-builds (intersect cs) h = plain_parts-builds cs (
        and_right (some_firm cs) (plain_parts m cs)
          (and_right (inhabited m (intersect cs)) (some_firm cs && plain_parts m cs) h))
    plain-builds (union cs) h = plain_parts-builds cs h
    plain-builds (page skip limit from) h = absurd (ground arith)
    plain-builds (unique from) h = plain-builds from h
    plain-builds (save tags from) h = plain-builds from h
    plain-builds (optional from) h = plain-builds from h

    unbounded-builds : (s : Shape V W F) → unbounded s ≡ true → builds s ≡ true
    unbounded-builds nil h = refl
    unbounded-builds all_nodes h = refl
    unbounded-builds s h = ground arith

    plain_parts-builds : (cs : Shapes V W F) → plain_parts m cs ≡ true → builds_parts cs ≡ true
    plain_parts-builds end h = refl
    plain_parts-builds (part c cs) h =
        let k = and_left (plain_part m c) (plain_parts m cs) h in
        and_both (not (is_nil c) && builds c) (builds_parts cs)
          (and_both (not (is_nil c)) (builds c)
            (inhabited-not_nil c (and_left (inhabited m c) (plain m c) k))
            (plain-builds c (and_right (inhabited m c) (plain m c) k)))
          (plain_parts-builds cs (and_right (plain_part m c) (plain_parts m cs) h))

    plain_filters-builds :
        (fs : QuadFilters V W F) → plain_filters m fs ≡ true → builds_ends fs ≡ true
    plain_filters-builds stop h = refl
    plain_filters-builds (link d s fs) h =
        let k = and_left (plain_filter m d s) (plain_filters m fs) h in
        and_both (((is_nil s || is_some (one s)) || is_set d) && builds s) (builds_ends fs)
          (and_both ((is_nil s || is_some (one s)) || is_set d) (builds s)
            (or_right (is_nil s || is_some (one s)) (is_set d)
              (and_left (is_set d) (plain_part m s) k))
            (plain-builds s (filter_plain m d s k)))
          (plain_filters-builds fs (and_right (plain_filter m d s) (plain_filters m fs) h))

  pub find-plain : (s : Shape V W F) (v : V) → plain m s ≡ true → find m s v ≡ done (has m s v)
  unfolding find
  find-plain s v h = rw (plain-builds s h) refl
