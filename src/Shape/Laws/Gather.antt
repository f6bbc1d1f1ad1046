-- ===== src/Shape/Laws/Gather.antt =====
-- graph/shape/shape.go: the filters of a NodesFrom, without FixedTags and as a QuadsAction.
use cayley.Prelude.{
  ℕ, suc, ◌+◌, ◌≤◌, Bool, true, false, not, ◌&&◌, ◌||◌, Option, none, some, is_some, List, [], ◌∷◌,
  ◌++◌, Eq, ◌==◌, String, string_eq, refl, ◌≡◌, ◌∙◌, ap, sym, arith, Bool-cases, Option-cases,
  some_inj, subst, inl, inr,
}
use cayley.Prelude.Assoc.{lookup, write}
use cayley.Quad.{is_set, Direction, direction_eq}
use cayley.Shape.{Shape, QuadFilters, all_nodes, fixed, fixed_tags, save, stop, link}
use cayley.Shape.Optimize.{write_all, tags_of}
use cayley.Shape.Meaning.{
  View, has, has_ends, plain, plain_filter, plain_part, all_set, plain_filters, weight,
  weight_filters, leads_away, meets, tagged, at_end,
}
use cayley.Shape.Optimize.Quads.{
  strip_filters, size, Gathered, add_filter, gather_filter, gather, tags_at,
}
use cayley.Shape.Laws.Faithful.{and_left, and_right, and_both, plain_filter-same, filter_plain}
use cayley.Shape.Laws.Filters.{at_end-ext, and_last, and_assoc, and_twice, or_false}

module _ {V W F : Type 0} ⦃e : Eq V⦄ (m : View V W F) where
  -- The filters without their FixedTags.
  pub record IsStripped (fs : QuadFilters V W F) (tags : Option (List (String × V)))
      (r : QuadFilters V W F × Option (List (String × V))) : Type 0 where
    pub same : (q : V) → has_ends m r.0 q ≡ has_ends m fs q
    pub still_plain : plain_filters m fs ≡ true → plain_filters m r.0 ≡ true
    pub away : (d : Direction) → leads_away d r.0 ≡ leads_away d fs
    pub no_heavier : weight_filters r.0 ≤ weight_filters fs
    pub lighter :
        is_some tags ≡ false → is_some r.1 ≡ true → suc (weight_filters r.0) ≤ weight_filters fs

  pub strip_filters-IsStripped :
      (fs : QuadFilters V W F) (tags : Option (List (String × V)))
      → IsStripped fs tags (strip_filters fs tags)
  unfolding has plain weight
  strip_filters-IsStripped stop tags = record {
    same = λ q. refl;
    still_plain = λ h. h;
    away = λ d. refl;
    no_heavier = omega arith;
    lighter = λ h k. absurd (ground arith);
  }
  strip_filters-IsStripped (link d (fixed_tags kvs on) fs) tags =
      let h = strip_filters-IsStripped fs (some (write_all kvs (tags_of tags))) in
      record {
        same = λ q. ap (λ b. at_end (m.end_of q d) (λ v. has m on v) && b) (h.same q);
        still_plain = λ p.
            and_both (plain_filter m d on)
              (plain_filters m (strip_filters fs (some (write_all kvs (tags_of tags)))).0)
              (plain_filter-same m d (fixed_tags kvs on) on (λ v. refl)
                (filter_plain m d (fixed_tags kvs on)
                  (and_left (plain_filter m d (fixed_tags kvs on)) (plain_filters m fs) p))
                (and_left (plain_filter m d (fixed_tags kvs on)) (plain_filters m fs) p))
              (h.still_plain
                (and_right (plain_filter m d (fixed_tags kvs on)) (plain_filters m fs) p));
        away = λ c. ap (λ b. not (d == c) || b) (h.away c);
        no_heavier = omega (arith, h.no_heavier);
        lighter = λ _ _. omega (arith, h.no_heavier);
      }
  strip_filters-IsStripped (link d s fs) tags =
      let h = strip_filters-IsStripped fs tags in
      record {
        same = λ q. ap (λ b. at_end (m.end_of q d) (λ v. has m s v) && b) (h.same q);
        still_plain = λ p.
            and_both (plain_filter m d s) (plain_filters m (strip_filters fs tags).0)
              (and_left (plain_filter m d s) (plain_filters m fs) p)
              (h.still_plain (and_right (plain_filter m d s) (plain_filters m fs) p));
        away = λ c. ap (λ b. not (d == c) || b) (h.away c);
        no_heavier = omega (arith, h.no_heavier);
        lighter = λ a b. omega (arith, h.lighter a b);
      }

  -- What a QuadsAction asks of a quad.
  abbrev pub asks : Gathered V → V → Bool
  asks g q = meets m g.filt q && tagged m g.saves q

  pub meets-write :
      (d : Direction) (v : V) (filt : List (Direction × V)) (q : V)
      → lookup d filt ≡ none
      → meets m (write d v filt) q ≡ (at_end (m.end_of q d) (λ w. v == w) && meets m filt q)
  unfolding meets lookup write
  meets-write d v [] q h = refl
  meets-write d v ((c, w) ∷ filt) q h = elim (Bool-cases (c == d)) [
    | inl here ↦ absurd (ground (arith, h, here))
    | inr there ↦ rw there (
        ap (λ b. at_end (m.end_of q c) (λ u. w == u) && b) (meets-write d v filt q (rw there at h))
        ∙ and_last (at_end (m.end_of q c) (λ u. w == u)) (at_end (m.end_of q d) (λ u. v == u))
            (meets m filt q))
  ]

  tagged-write :
      (d : Direction) (tags : List String) (sv : List (Direction × List String)) (q : V)
      → tagged m (write d tags sv) q ≡ (is_some (m.end_of q d) && tagged m sv q)
  unfolding tagged write
  tagged-write d tags [] q = refl
  tagged-write d tags ((c, ts) ∷ sv) q = elim (Bool-cases (c == d)) [
    | inl here ↦ rw here (
        and_twice (is_some (m.end_of q d)) (tagged m sv q)
        ∙ ap (λ x. is_some (m.end_of q d) && (is_some (m.end_of q x) && tagged m sv q))
            (sym ((direction_eq.beq_iff c d).0 here)))
    | inr there ↦ rw there (
        ap (λ b. is_some (m.end_of q c) && b) (tagged-write d tags sv q)
        ∙ and_last (is_some (m.end_of q c)) (is_some (m.end_of q d)) (tagged m sv q))
  ]

  -- A filter is left out, or counted, and then asked of the quads.
  pub record IsGathered (x : V → Bool) (k : ℕ) (g g' : Gathered V) : Type 0 where
    pub counted : g'.n ≤ k + g.n
    pub recognized : g'.n ≡ k + g.n → (q : V) → asks g' q ≡ (x q && asks g q)

  is_some-at_end : (o : Option V) → at_end o (λ v. true) ≡ is_some o
  is_some-at_end none = refl
  is_some-at_end (some v) = refl

  unrecognized_lem : (x : V → Bool) (g : Gathered V) → IsGathered x 1 g g
  unrecognized_lem x g = record {
    counted = omega arith;
    recognized = λ h. absurd (omega (arith, h));
  }

  add_filter_lem :
      (d : Direction) (v : V) (g : Gathered V)
      → lookup d g.filt ≡ none
      → IsGathered
          (λ q. at_end (m.end_of q d) (λ u. v == u || false))
          1
          g
          (record g { filt = write d v g.filt; n = suc g.n })
  add_filter_lem d v g h = record {
    counted = omega arith;
    recognized = λ _ q.
        ap (λ b. b && tagged m g.saves q) (meets-write d v g.filt q h)
        ∙ and_assoc (at_end (m.end_of q d) (λ u. v == u)) (meets m g.filt q) (tagged m g.saves q)
        ∙ ap (λ b. b && asks g q)
            (at_end-ext (m.end_of q d) (λ u. v == u) (λ u. v == u || false)
              λ u. sym (or_false (v == u)));
  }

  add_save_lem :
      (d : Direction) (tags : List String) (g : Gathered V)
      → IsGathered
          (λ q. at_end (m.end_of q d) (λ u. true))
          1
          g
          (record g { saves = write d tags g.saves; n = suc g.n })
  add_save_lem d tags g = record {
    counted = omega arith;
    recognized = λ _ q.
        ap (λ b. meets m g.filt q && b) (tagged-write d tags g.saves q)
        ∙ and_last (meets m g.filt q) (is_some (m.end_of q d)) (tagged m g.saves q)
        ∙ ap (λ b. b && asks g q) (sym (is_some-at_end (m.end_of q d)));
  }

  gather_filter_lem :
      (d : Direction) (s : Shape V W F) (g g' : Gathered V)
      → gather_filter d s g ≡ some g'
      → IsGathered (λ q. at_end (m.end_of q d) (λ v. has m s v)) 1 g g'
  unfolding has
  gather_filter_lem d (fixed (v ∷ [])) g g' h = elim (Option-cases (lookup d g.filt)) [
    | inl new ↦
        subst (IsGathered (λ q. at_end (m.end_of q d) (λ u. v == u || false)) 1 g)
          (some_inj (rw (gather_filter, add_filter, new) at h)) (add_filter_lem d v g new)
    | inr (w, found) ↦ absurd (ground (arith, rw (gather_filter, add_filter, found) at h))
  ]
  gather_filter_lem d (save tags all_nodes) g g' h =
      subst (IsGathered (λ q. at_end (m.end_of q d) (λ u. true)) 1 g) (some_inj h)
        (add_save_lem d (tags_at d g.saves ++ tags) g)
  gather_filter_lem d s g g' h =
      subst (IsGathered (λ q. at_end (m.end_of q d) (λ v. has m s v)) 1 g) (some_inj h)
        (unrecognized_lem (λ q. at_end (m.end_of q d) (λ v. has m s v)) g)

  gather_more :
      (x y : V → Bool) (k : ℕ) (g g1 g' : Gathered V)
      → IsGathered x 1 g g1
      → IsGathered y k g1 g'
      → IsGathered (λ q. x q && y q) (suc k) g g'
  gather_more x y k g g1 g' a b = record {
    counted = omega (arith, a.counted, b.counted);
    recognized = λ h q.
        let ha : g1.n ≡ 1 + g.n = omega (arith, h, a.counted, b.counted) in
        let hb : g'.n ≡ k + g1.n = omega (arith, h, ha) in
        b.recognized hb q
        ∙ ap (λ c. y q && c) (a.recognized ha q)
        ∙ and_last (y q) (x q) (asks g q)
        ∙ sym (and_assoc (x q) (y q) (asks g q));
  }

  pub gather-IsGathered :
      (fs : QuadFilters V W F) (g g' : Gathered V)
      → gather fs g ≡ some g'
      → IsGathered (λ q. has_ends m fs q) (size fs) g g'
  unfolding gather has
  gather-IsGathered stop g g' h =
      subst (IsGathered (λ q. true) 0 g) (some_inj h)
        (record { counted = omega arith; recognized = λ _ q. refl })
  gather-IsGathered (link d s fs) g g' h = elim (Option-cases (gather_filter d s g)) [
    | inl none_left ↦ absurd (ground (arith, rw (gather, none_left) at h))
    | inr (g1, found) ↦
        gather_more (λ q. at_end (m.end_of q d) (λ v. has m s v)) (λ q. has_ends m fs q) (size fs) g
          g1 g' (gather_filter_lem d s g g1 found)
          (gather-IsGathered fs g1 g' (rw (gather, found) at h))
  ]

-- The directions of the tags are those of the filters.
module _ {V W F : Type 0} ⦃e : Eq V⦄ (m : View V W F) where
  all_set-write :
      (d : Direction) (tags : List String) (sv : List (Direction × List String))
      → is_set d ≡ true
      → all_set sv ≡ true
      → all_set (write d tags sv) ≡ true
  unfolding write
  all_set-write d tags [] h k = and_both (is_set d) true h refl
  all_set-write d tags ((c, ts) ∷ sv) h k = elim (Bool-cases (c == d)) [
    | inl here ↦ rw here (and_both (is_set d) (all_set sv) h (and_right (is_set c) (all_set sv) k))
    | inr there ↦ rw there (
        and_both (is_set c) (all_set (write d tags sv)) (and_left (is_set c) (all_set sv) k)
          (all_set-write d tags sv h (and_right (is_set c) (all_set sv) k)))
  ]

  gather_filter-all_set :
      (d : Direction) (s : Shape V W F) (g g' : Gathered V)
      → is_set d ≡ true
      → all_set g.saves ≡ true
      → gather_filter d s g ≡ some g'
      → all_set g'.saves ≡ true
  gather_filter-all_set d (fixed (v ∷ [])) g g' i k h = elim (Option-cases (lookup d g.filt)) [
    | inl new ↦
        subst (λ x. all_set x.saves ≡ true) (some_inj (rw (gather_filter, add_filter, new) at h)) k
    | inr (w, found) ↦ absurd (ground (arith, rw (gather_filter, add_filter, found) at h))
  ]
  gather_filter-all_set d (save tags all_nodes) g g' i k h =
      subst (λ x. all_set x.saves ≡ true) (some_inj h)
        (all_set-write d (tags_at d g.saves ++ tags) g.saves i k)
  gather_filter-all_set d s g g' i k h = subst (λ x. all_set x.saves ≡ true) (some_inj h) k

  pub gather-all_set :
      (fs : QuadFilters V W F) (g g' : Gathered V)
      → plain_filters m fs ≡ true
      → all_set g.saves ≡ true
      → gather fs g ≡ some g'
      → all_set g'.saves ≡ true
  unfolding gather plain
  gather-all_set stop g g' p k h = subst (λ x. all_set x.saves ≡ true) (some_inj h) k
  gather-all_set (link d s fs) g g' p k h = elim (Option-cases (gather_filter d s g)) [
    | inl none_left ↦ absurd (ground (arith, rw (gather, none_left) at h))
    | inr (g1, found) ↦
        gather-all_set fs g1 g' (and_right (plain_filter m d s) (plain_filters m fs) p)
          (gather_filter-all_set d s g g1
            (and_left (is_set d) (plain_part m s)
              (and_left (plain_filter m d s) (plain_filters m fs) p))
            k found)
          (rw (gather, found) at h)
  ]
