-- ===== src/Shape/Laws/Nodes.antt =====
-- graph/shape/shape.go: Optimize of NodesFrom, without an optimizer.
use cayley.Prelude.{
  ℕ, suc, ◌≤◌, Bool, true, false, ◌&&◌, ◌||◌, Option, none, some, List, [], ◌∷◌, Eq, ◌==◌, String,
  string_eq, done, nat_beq, Returns, Returns-bind, Returns-weaken, refl, ◌≡◌, ◌∙◌, ap, arith,
  Bool-cases, nat_beq_iff, inl, inr, any,
}
use cayley.Prelude.Int64.{pos}
use cayley.Quad.{is_set, Direction, direction_eq}
use cayley.Shape.{Shape, QuadFilters, quads, nodes_from, quads_action, fixed_tags, stop, link}
use cayley.Shape.Optimize.{Optimize}
use cayley.Shape.Meaning.{
  View, IsFaithful, Keeps, away, has, has_ends, plain, plain_filters, firm, weight, unbounded,
  all_set, leads_away, meets, tagged, at_end,
}
use cayley.Shape.Optimize.Quads.{
  strip_filters, size, Gathered, gather, only_filter, merged_result, stripped_result, nodes_result,
  optimize_nodes_from,
}
use cayley.Shape.Laws.Single.{Returns-unless_null}
use cayley.Shape.Laws.Faithful.{
  and_left, and_right, and_both, and_true, IsFaithful-refl, IsFaithful-trans,
}
use cayley.Shape.Laws.Gather.{
  IsStripped, strip_filters-IsStripped, gather-all_set, gather-IsGathered, asks,
}

pub any-ext :
    {A : Type 0} (p q : A → Bool) (xs : List A) → ((x : A) → p x ≡ q x) → any p xs ≡ any q xs
any-ext p q [] h = refl
any-ext p q (x ∷ xs) h = ap (λ b. b || any p xs) (h x) ∙ ap (λ b. q x || b) (any-ext p q xs h)

pub any-false :
    {A : Type 0} (p : A → Bool) (xs : List A) → ((x : A) → p x ≡ false) → any p xs ≡ false
any-false p [] h = refl
any-false p (x ∷ xs) h = ap (λ b. b || any p xs) (h x) ∙ any-false p xs h

module _ {V W F : Type 0} where
  only_filter-away :
      (d : Direction) (fs : QuadFilters V W F) → leads_away d fs ≡ true → only_filter d fs ≡ none
  only_filter-away d stop h = refl
  only_filter-away d (link c s stop) h = elim (Bool-cases (c == d)) [
    | inl here ↦ absurd (ground (arith, here, h))
    | inr there ↦ rw (only_filter, there) refl
  ]
  only_filter-away d (link c s (link b t fs)) h = refl

module _ {V W F : Type 0} ⦃e : Eq V⦄ (m : View V W F) where
  -- Quads of the same kind for the same quads.
  nodes-faithful :
      (d : Direction) (s t : Shape V W F)
      → is_set d ≡ true
      → away d s ≡ true
      → IsFaithful m s t
      → IsFaithful m (nodes_from d s) (nodes_from d t)
  unfolding has plain firm weight
  nodes-faithful d s t i a f = record {
    same = λ v.
        any-ext (λ q. has m t q && at_end (m.end_of q d) (λ w. w == v))
          (λ q. has m s q && at_end (m.end_of q d) (λ w. w == v)) m.all_quads
          λ q. ap (λ b. b && at_end (m.end_of q d) (λ w. w == v)) (f.same q);
    still_plain =
        and_both (is_set d && away d t) (plain m t)
          (and_both (is_set d) (away d t) i (f.still_away d a)) f.still_plain;
    still_unbounded = λ u. ground arith;
    still_away = λ c u. ground arith;
    still_firm = λ g. refl;
    no_heavier = omega (arith, f.no_heavier);
  }

  action-faithful :
      (d : Direction) (fs : QuadFilters V W F) (g : Gathered V)
      → is_set d ≡ true
      → all_set g.saves ≡ true
      → ((q : V) → asks m g q ≡ has_ends m fs q)
      → IsFaithful m (nodes_from d (quads fs)) (quads_action (pos 0) d g.saves g.filt)
  unfolding has plain firm weight
  action-faithful d fs g i k h = record {
    same = λ v.
        any-ext (λ q. asks m g q && at_end (m.end_of q d) (λ w. w == v))
          (λ q. has_ends m fs q && at_end (m.end_of q d) (λ w. w == v)) m.all_quads
          λ q. ap (λ b. b && at_end (m.end_of q d) (λ w. w == v)) (h q);
    still_plain = and_both (is_set d) (all_set g.saves) i k;
    still_unbounded = λ u. ground arith;
    still_away = λ c u. ground arith;
    still_firm = λ g. refl;
    no_heavier = omega arith;
  }

  merged_lem :
      (d : Direction) (fs : QuadFilters V W F) (opt : Bool) (found : Option (Gathered V))
      → plain m (nodes_from d (quads fs)) ≡ true
      → gather fs (record { filt = []; saves = []; n = 0 }) ≡ found
      → IsFaithful m (nodes_from d (quads fs)) (merged_result d fs opt found).0
  unfolding meets tagged plain
  merged_lem d fs opt none p h = IsFaithful-refl m (nodes_from d (quads fs)) p
  merged_lem d fs opt (some g) p h =
      let g0 : Gathered V = record { filt = []; saves = []; n = 0 } in
      let counted = gather-IsGathered m fs g0 g h in
      elim (Bool-cases (nat_beq g.n (size fs))) [
        | inl all_read ↦ rw all_read (
            action-faithful d fs g
              (and_left (is_set d) (leads_away d fs)
                (and_left (is_set d && leads_away d fs) (plain_filters m fs) p))
              (gather-all_set m fs g0 g
                (and_right (is_set d && leads_away d fs) (plain_filters m fs) p) refl h)
              λ q.
                counted.recognized (omega (arith, (nat_beq_iff g.n (size fs)).0 all_read)) q
                ∙ and_true (has_ends m fs q))
        | inr some_left ↦ rw some_left (IsFaithful-refl m (nodes_from d (quads fs)) p)
      ]

  tagged-faithful :
      (s t : Shape V W F) (tags : List (String × V))
      → IsFaithful m s t
      → unbounded s ≡ false
      → ((d : Direction) → away d s ≡ false)
      → suc (weight t) ≤ weight s
      → IsFaithful m s (fixed_tags tags t)
  unfolding has plain firm weight
  tagged-faithful s t tags f u a w = record {
    same = f.same;
    still_plain = f.still_plain;
    still_unbounded = λ h. ground arith;
    still_away = λ d h. ground (arith, a d);
    still_firm = f.still_firm;
    no_heavier = w;
  }

  quads-stripped :
      (fs : QuadFilters V W F) (tags : Option (List (String × V)))
      (r : QuadFilters V W F × Option (List (String × V)))
      → plain_filters m fs ≡ true
      → IsStripped m fs tags r
      → IsFaithful m (quads fs) (quads r.0)
  unfolding has plain firm weight
  quads-stripped fs tags r p h = record {
    same = h.same;
    still_plain = h.still_plain p;
    still_unbounded = λ u. ground arith;
    still_away = λ d a. h.away d ∙ a;
    still_firm = λ f. refl;
    no_heavier = omega (arith, h.no_heavier);
  }

  stripped_lem :
      (rec : Optimize V W F) (n : ℕ) (d : Direction) (fs : QuadFilters V W F) (opt : Bool)
      (r : QuadFilters V W F × Option (List (String × V)))
      → Keeps m rec n
      → is_set d ≡ true
      → leads_away d fs ≡ true
      → plain_filters m fs ≡ true
      → weight (nodes_from d (quads fs)) ≤ n
      → IsStripped m fs none r
      → Returns (stripped_result rec d fs opt r) (λ p. IsFaithful m (nodes_from d (quads fs)) p.0)
  unfolding weight plain gather
  stripped_lem rec n d fs opt (gs, none) k i a p w h =
      merged_lem d fs opt (gather fs (record { filt = []; saves = []; n = 0 }))
        (and_both (is_set d && leads_away d fs) (plain_filters m fs)
          (and_both (is_set d) (leads_away d fs) i a) p)
        refl
  stripped_lem rec n d fs opt (gs, some tags) k i a p w h =
      let f =
        nodes-faithful d (quads fs) (quads gs) i a (quads-stripped fs none (gs, some tags) p h) in
      let light = h.lighter refl refl in
      Returns-bind (λ q. IsFaithful m (nodes_from d (quads gs)) q.0)
        (λ q. IsFaithful m (nodes_from d (quads fs)) q.0) (rec (nodes_from d (quads gs)))
        (λ q. done (fixed_tags tags q.0, true))
        (k (nodes_from d (quads gs)) refl f.still_plain (omega (arith, light)))
        λ q g.
          tagged-faithful (nodes_from d (quads fs)) q.0 tags
            (IsFaithful-trans m (nodes_from d (quads fs)) (nodes_from d (quads gs)) q.0 f g) refl
            (λ c. refl) (omega (arith, g.no_heavier, light))

  nodes_result_lem :
      (rec : Optimize V W F) (n : ℕ) (d : Direction) (s : Shape V W F) (opt : Bool)
      → Keeps m rec n
      → is_set d ≡ true
      → away d s ≡ true
      → plain m s ≡ true
      → weight (nodes_from d s) ≤ n
      → Returns (nodes_result rec d s opt) (λ p. IsFaithful m (nodes_from d s) p.0)
  unfolding plain
  nodes_result_lem rec n d (quads fs) opt k i a p w =
      rw (nodes_result, only_filter-away d fs a)
        (stripped_lem rec n d fs opt (strip_filters fs none) k i a p w
          (strip_filters-IsStripped m fs none))
  nodes_result_lem rec n d s opt k i a p w =
      IsFaithful-refl m (nodes_from d s)
        (and_both (is_set d && away d s) (plain m s) (and_both (is_set d) (away d s) i a) p)

  pub nodes_lem :
      (rec : Optimize V W F) (n : ℕ) (d : Direction) (s : Shape V W F)
      → Keeps m rec n
      → plain m (nodes_from d s) ≡ true
      → weight (nodes_from d s) ≤ n
      → Returns (optimize_nodes_from rec none d s) (λ p. IsFaithful m (nodes_from d s) p.0)
  unfolding optimize_nodes_from has plain weight
  nodes_lem rec n d s k h w =
      let ia = and_left (is_set d && away d s) (plain m s) h in
      let i = and_left (is_set d) (away d s) ia in
      let a = and_right (is_set d) (away d s) ia in
      let p = and_right (is_set d && away d s) (plain m s) h in
      Returns-unless_null m rec n k (nodes_from d s) s (λ q. nodes_result rec d q.0 q.1) p
        (omega arith)
        (λ g v.
          any-false (λ q. has m s q && at_end (m.end_of q d) (λ w. w == v)) m.all_quads
            λ q. ap (λ b. b && at_end (m.end_of q d) (λ w. w == v)) (g q))
        λ q f.
          Returns-weaken (λ t. IsFaithful m (nodes_from d q.0) t.0)
            (λ t. IsFaithful m (nodes_from d s) t.0) (nodes_result rec d q.0 q.1)
            (nodes_result_lem rec n d q.0 q.1 k i (f.still_away d a) f.still_plain
              (omega (arith, f.no_heavier)))
            λ t g.
              IsFaithful-trans m (nodes_from d s) (nodes_from d q.0) t.0
                (nodes-faithful d s q.0 i a f) g
