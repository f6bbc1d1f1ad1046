-- ===== src/Shape/Laws/Union.antt =====
-- graph/shape/shape.go: Optimize of Union, without an optimizer.
use cayley.Prelude.{
  ℕ, suc, ◌<◌, ◌≤◌, Bool, true, false, ◌&&◌, ◌||◌, Option, none, some, List, Eq, String, string_eq,
  if◌then◌else◌, done, ◌>>=◌, Returns, Returns-bind, Returns-weaken, refl, ◌≡◌, ◌∙◌, ap, sym, arith,
  Bool-cases, inl, inr,
}
use cayley.Quad.{direction_eq}
use cayley.Shape.{Shape, Shapes, is_null, is_nil, fixed_tags, union, end, part}
use cayley.Shape.Optimize.{Optimize, strip_parts}
use cayley.Shape.Meaning.{
  View, IsFaithful, Keeps, has, has_any, plain, plain_part, plain_parts, firm, all_firm, weight,
  weight_parts,
}
use cayley.Shape.Optimize.Single.{optimize_fixed_tags}
use cayley.Shape.Optimize.Union.{
  union_parts, drop_nulls, any_null, union_result, union_stripped, optimize_union,
}
use cayley.Shape.Laws.Single.{fixed_tags_lem}
use cayley.Shape.Laws.Faithful.{
  and_left, and_right, and_both, part_plain, IsFaithful-refl, IsFaithful-trans, IsFaithful-nil,
  has-is_null,
}
use cayley.Shape.Laws.Filters.{or_false}
use cayley.Shape.Laws.Parts.{
  AreFaithful, AreFaithful-end, AreFaithful-cons, chosen, AreStripped, strip_parts-AreStripped,
}

module _ {V W F : Type 0} ⦃e : Eq V⦄ (m : View V W F) where
  union_parts_lem :
      (rec : Optimize V W F) (n : ℕ) (cs : Shapes V W F) (opt : Bool)
      → Keeps m rec n
      → plain_parts m cs ≡ true
      → weight_parts cs < n
      → Returns (union_parts rec cs opt) (λ p. AreFaithful m cs p.0)
  unfolding union_parts plain weight
  union_parts_lem rec n end opt k p w = AreFaithful-end m
  union_parts_lem rec n (part c cs) opt k p w =
      let pp = and_left (plain_part m c) (plain_parts m cs) p in
      let pc = part_plain m c pp in
      let ps = and_right (plain_part m c) (plain_parts m cs) p in
      elim (Bool-cases (is_nil c)) [
        | inl yes_nil ↦ rw yes_nil (
            Returns-bind (λ q. AreFaithful m cs q.0) (λ q. AreFaithful m (part c cs) q.0)
              (union_parts rec cs opt) (λ q. done (part c q.0, q.1))
              (union_parts_lem rec n cs opt k ps (omega arith))
              λ q h. AreFaithful-cons m c c cs q.0 (IsFaithful-refl m c pc) pp h)
        | inr not_nil ↦ rw not_nil (
            Returns-bind (λ q. IsFaithful m c q.0) (λ q. AreFaithful m (part c cs) q.0) (rec c)
              (λ x. union_parts rec cs (opt || x.1) >>= λ q.
                done (part (if x.1 then x.0 else c) q.0, q.1))
              (k c not_nil pc (omega arith))
              λ x f.
                Returns-bind (λ q. AreFaithful m cs q.0) (λ q. AreFaithful m (part c cs) q.0)
                  (union_parts rec cs (opt || x.1))
                  (λ q. done (part (if x.1 then x.0 else c) q.0, q.1))
                  (union_parts_lem rec n cs (opt || x.1) k ps (omega arith))
                  λ q h.
                    AreFaithful-cons m c (if x.1 then x.0 else c) cs q.0 (chosen m c x.0 x.1 f pc)
                      pp h)
      ]

  -- Parts of the same union.
  record IsSameUnion (cs ds : Shapes V W F) : Type 0 where
    pub same : (v : V) → has_any m ds v ≡ has_any m cs v
    pub still_plain : plain_parts m ds ≡ true
    pub still_firm : all_firm cs ≡ true → all_firm ds ≡ true
    pub no_heavier : weight_parts ds ≤ weight_parts cs

  same_part :
      (c : Shape V W F) (cs ds : Shapes V W F)
      → plain_part m c ≡ true
      → IsSameUnion cs ds
      → IsSameUnion (part c cs) (part c ds)
  unfolding has plain firm weight
  same_part c cs ds p h = record {
    same = λ v. ap (λ b. has m c v || b) (h.same v);
    still_plain = and_both (plain_part m c) (plain_parts m ds) p h.still_plain;
    still_firm = λ g.
        and_both (firm c) (all_firm ds) (and_left (firm c) (all_firm cs) g)
          (h.still_firm (and_right (firm c) (all_firm cs) g));
    no_heavier = omega (arith, h.no_heavier);
  }

  dropped_part :
      (c : Shape V W F) (cs ds : Shapes V W F)
      → is_null c ≡ true
      → IsSameUnion cs ds
      → IsSameUnion (part c cs) ds
  unfolding has plain firm weight
  dropped_part c cs ds z h = record {
    same = λ v. h.same v ∙ ap (λ b. b || has_any m cs v) (sym (has-is_null m c v z));
    still_plain = h.still_plain;
    still_firm = λ g. h.still_firm (and_right (firm c) (all_firm cs) g);
    no_heavier = omega (arith, h.no_heavier);
  }

  same_end : IsSameUnion end end
  unfolding plain
  same_end = record {
    same = λ v. refl;
    still_plain = refl;
    still_firm = λ f. f;
    no_heavier = omega arith;
  }

  drop_nulls_lem : (cs : Shapes V W F) → plain_parts m cs ≡ true → IsSameUnion cs (drop_nulls cs)
  unfolding drop_nulls plain
  drop_nulls_lem end p = same_end
  drop_nulls_lem (part c end) p = elim (Bool-cases (is_null c)) [
    | inl dropped ↦ rw dropped (dropped_part c end end dropped same_end)
    | inr kept ↦ rw kept (same_part c end end (and_left (plain_part m c) true p) same_end)
  ]
  drop_nulls_lem (part c (part d cs)) p =
      let pd = and_right (plain_part m c) (plain_part m d && plain_parts m cs) p in
      elim (Bool-cases (is_null c)) [
        | inl dropped ↦ rw dropped (
            dropped_part c (part d cs) (part d (drop_nulls cs)) dropped (
              same_part d cs (drop_nulls cs) (and_left (plain_part m d) (plain_parts m cs) pd)
                (drop_nulls_lem cs (and_right (plain_part m d) (plain_parts m cs) pd))))
        | inr kept ↦ rw kept (
            same_part c (part d cs) (drop_nulls (part d cs))
              (and_left (plain_part m c) (plain_part m d && plain_parts m cs) p)
              (drop_nulls_lem (part d cs) pd))
      ]

  union_result_lem :
      (cs ds : Shapes V W F) (opt : Bool)
      → IsSameUnion cs ds
      → IsFaithful m (union cs) (union_result ds opt).0
  unfolding has plain firm weight
  union_result_lem cs end opt h = IsFaithful-nil m (union cs) λ v. sym (h.same v)
  union_result_lem cs (part c end) opt h = record {
    same = λ v. sym (or_false (has m c v)) ∙ h.same v;
    still_plain = part_plain m c (and_left (plain_part m c) true h.still_plain);
    still_unbounded = λ u. ground arith;
    still_away = λ d u. ground arith;
    still_firm = λ g. and_left (firm c) true (h.still_firm g);
    no_heavier = omega (arith, h.no_heavier);
  }
  union_result_lem cs (part c (part d ds)) opt h = record {
    same = h.same;
    still_plain = h.still_plain;
    still_unbounded = λ u. ground arith;
    still_away = λ d u. ground arith;
    still_firm = h.still_firm;
    no_heavier = omega (arith, h.no_heavier);
  }

  same_union-faithful :
      (cs ds : Shapes V W F) → AreFaithful m cs ds → IsFaithful m (union cs) (union ds)
  unfolding has plain firm weight
  same_union-faithful cs ds h = record {
    same = h.same_any;
    still_plain = h.still_plain;
    still_unbounded = λ u. ground arith;
    still_away = λ d u. ground arith;
    still_firm = h.still_firm;
    no_heavier = omega (arith, h.no_heavier);
  }

  tagged_union-faithful :
      (tags : List (String × V)) (cs ds : Shapes V W F)
      → AreFaithful m cs ds
      → suc (weight_parts ds) ≤ weight_parts cs
      → IsFaithful m (union cs) (fixed_tags tags (union ds))
  unfolding has plain firm weight
  tagged_union-faithful tags cs ds h w = record {
    same = h.same_any;
    still_plain = h.still_plain;
    still_unbounded = λ u. ground arith;
    still_away = λ d u. ground arith;
    still_firm = h.still_firm;
    no_heavier = omega (arith, w);
  }

  union_stripped_lem :
      (rec : Optimize V W F) (n : ℕ) (cs : Shapes V W F) (opt : Bool)
      (r : Shapes V W F × Option (List (String × V)))
      → Keeps m rec n
      → plain_parts m cs ≡ true
      → weight_parts cs < n
      → AreStripped m cs none r
      → Returns (union_stripped rec none opt cs r) (λ p. IsFaithful m (union cs) p.0)
  unfolding drop_nulls optimize_fixed_tags plain weight
  union_stripped_lem rec n cs opt (ds, none) k p w h =
      union_result_lem cs (drop_nulls cs) (opt || any_null cs) (drop_nulls_lem cs p)
  union_stripped_lem rec n cs opt (ds, some tags) k p w h =
      let light = h.lighter refl refl in
      Returns-bind (λ q. IsFaithful m (fixed_tags tags (union ds)) q.0)
        (λ q. IsFaithful m (union cs) q.0) (optimize_fixed_tags rec none tags (union ds))
        (λ q. done (q.0, true))
        (fixed_tags_lem m rec n k tags (union ds) h.faithful.still_plain (omega (arith, light)))
        λ q f.
          IsFaithful-trans m (union cs) (fixed_tags tags (union ds)) q.0
            (tagged_union-faithful tags cs ds h.faithful light) f

  pub union_lem :
      (rec : Optimize V W F) (n : ℕ) (cs : Shapes V W F)
      → Keeps m rec n
      → plain_parts m cs ≡ true
      → weight_parts cs < n
      → Returns (optimize_union rec none cs) (λ p. IsFaithful m (union cs) p.0)
  unfolding optimize_union
  union_lem rec n cs k p w =
      Returns-bind (λ q. AreFaithful m cs q.0) (λ q. IsFaithful m (union cs) q.0)
        (union_parts rec cs false) (λ q. union_stripped rec none q.1 q.0 (strip_parts q.0 none))
        (union_parts_lem rec n cs false k p w)
        λ q h.
          Returns-weaken (λ t. IsFaithful m (union q.0) t.0) (λ t. IsFaithful m (union cs) t.0)
            (union_stripped rec none q.1 q.0 (strip_parts q.0 none))
            (union_stripped_lem rec n q.0 q.1 (strip_parts q.0 none) k h.still_plain
              (omega (arith, h.no_heavier)) (strip_parts-AreStripped m q.0 none h.still_plain))
            λ t g. IsFaithful-trans m (union cs) (union q.0) t.0 (same_union-faithful cs q.0 h) g
