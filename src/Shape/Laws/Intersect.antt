-- ===== src/Shape/Laws/Intersect.antt =====
-- graph/shape/shape.go: Optimize of Intersect, without an optimizer.
use cayley.Prelude.{
  ℕ, suc, ◌<◌, ◌≤◌, Bool, true, false, ◌||◌, Option, none, some, List, Eq, String, string_eq, done,
  Returns, Returns-bind, Returns-weaken, refl, ◌≡◌, ◌∙◌, ap, sym, arith, fun_ext, ◌&&◌,
}
use cayley.Quad.{direction_eq}
use cayley.Shape.{Shape, Shapes, fixed_tags, intersect, end, part}
use cayley.Shape.Optimize.{Optimize, strip_parts}
use cayley.Shape.Meaning.{
  View, inhabited, seen, IsFaithful, Keeps, has, has_all, plain, plain_parts, firm, some_firm,
  weight, weight_parts,
}
use cayley.Shape.Optimize.Single.{optimize_fixed_tags}
use cayley.Shape.Optimize.Intersect.{
  sort_parts, start, intersect_sorted, intersect_parts, intersect_stripped, parts_optimized,
  optimize_intersect,
}
use cayley.Shape.Laws.Single.{fixed_tags_lem}
use cayley.Shape.Laws.Faithful.{and_left, and_right, and_both, IsFaithful-trans, IsFaithful-nil}
use cayley.Shape.Laws.Parts.{AreFaithful, AreStripped, strip_parts-AreStripped, has-intersect}
use cayley.Shape.Laws.Sorting.{IsSorting, sort_parts-IsSorting}
use cayley.Shape.Laws.Action.{Stands}
use cayley.Shape.Laws.Scanned.{contradicted, and_false, IsScanned, intersect_parts_lem}
use cayley.Shape.Laws.Body.{sorted_lem}

module _ {V W F : Type 0} ⦃e : Eq V⦄ (m : View V W F) (rec : Optimize V W F) (n : ℕ)
    (keeps : Keeps m rec n) where
  -- What stands for the values of all parts is a replacement of the Intersect.
  Stands-faithful :
      (cs : Shapes V W F) (s : Shape V W F)
      → some_firm cs ≡ true
      → Stands m (has_all m cs) (suc (weight_parts cs)) s
      → IsFaithful m (intersect cs) s
  unfolding plain firm weight
  Stands-faithful cs s f h = record {
    same = λ v. h.same v ∙ sym (has-intersect m cs v f);
    still_plain = h.is_plain;
    still_unbounded = λ u. ground arith;
    still_away = λ d u. ground arith;
    still_firm = λ g. h.is_firm;
    no_heavier = h.light;
  }

  tags_same :
      (tags : List (String × V)) (s : Shape V W F) (v : V) → has m (fixed_tags tags s) v ≡ has m s v
  unfolding has
  tags_same tags s v = refl

  -- The parts, replaced by others, make a plain Intersect.
  plain_intersect :
      (cs ds : Shapes V W F)
      → some_firm cs ≡ true
      → seen m (has_all m cs) ≡ true
      → AreFaithful m cs ds
      → plain m (intersect ds) ≡ true
  unfolding plain
  plain_intersect cs ds f z h =
      and_both (inhabited m (intersect ds)) (some_firm ds && plain_parts m ds)
        (ap (seen m) (fun_ext λ v. has-intersect m ds v (h.still_some f) ∙ h.same_all v) ∙ z)
        (and_both (some_firm ds) (plain_parts m ds) (h.still_some f) h.still_plain)

  tagged_intersect :
      (tags : List (String × V)) (cs ds : Shapes V W F)
      → some_firm cs ≡ true
      → seen m (has_all m cs) ≡ true
      → AreFaithful m cs ds
      → suc (weight_parts ds) ≤ weight_parts cs
      → IsFaithful m (intersect cs) (fixed_tags tags (intersect ds))
  unfolding plain firm weight
  tagged_intersect tags cs ds f z h w = record {
    same = λ v.
        tags_same tags (intersect ds) v
        ∙ has-intersect m ds v (h.still_some f)
        ∙ h.same_all v
        ∙ sym (has-intersect m cs v f);
    still_plain = plain_intersect cs ds f z h;
    still_unbounded = λ u. ground arith;
    still_away = λ d u. ground arith;
    still_firm = λ g. h.still_some f;
    no_heavier = omega (arith, w);
  }

  replaced_parts :
      (cs ds : Shapes V W F)
      → some_firm cs ≡ true
      → seen m (has_all m cs) ≡ true
      → AreFaithful m cs ds
      → IsFaithful m (intersect cs) (intersect ds)
  unfolding plain firm weight
  replaced_parts cs ds f z h = record {
    same = λ v. has-intersect m ds v (h.still_some f) ∙ h.same_all v ∙ sym (has-intersect m cs v f);
    still_plain = plain_intersect cs ds f z h;
    still_unbounded = λ u. ground arith;
    still_away = λ d u. ground arith;
    still_firm = λ g. h.still_some f;
    no_heavier = omega (arith, h.no_heavier);
  }

  start_lem :
      (cs : Shapes V W F) (opt : Bool)
      → plain_parts m cs ≡ true
      → some_firm cs ≡ true
      → IsSorting m cs cs (start opt)
  unfolding has plain firm weight
  start_lem cs opt p f = record {
    same = λ v. refl;
    plain_kept = refl;
    are_seen = refl;
    plain_quads = refl;
    plain_rest = p;
    is_firm = ap (λ b. b || false) f;
    no_heavier = omega arith;
    all_so_far = λ u. refl;
  }

  wider :
      (cs ds : Shapes V W F) (s : Shape V W F)
      → AreFaithful m cs ds
      → Stands m (has_all m ds) (suc (weight_parts ds)) s
      → Stands m (has_all m cs) (suc (weight_parts cs)) s
  wider cs ds s a h = record {
    same = λ v. h.same v ∙ a.same_all v;
    is_plain = h.is_plain;
    is_firm = h.is_firm;
    light = omega (arith, h.light, a.no_heavier);
  }

  stripped_lem :
      (cs : Shapes V W F) (opt : Bool) (r : Shapes V W F × Option (List (String × V)))
      → some_firm cs ≡ true
      → seen m (has_all m cs) ≡ true
      → plain_parts m cs ≡ true
      → weight_parts cs < n
      → AreStripped m cs none r
      → Returns (intersect_stripped rec n opt r) (λ p. IsFaithful m (intersect cs) p.0)
  unfolding optimize_fixed_tags sort_parts intersect_sorted plain firm weight has
  stripped_lem cs opt (ds, none) f z p w h =
      let a = h.faithful in
      let g = a.still_some f in
      Returns-bind (λ q. IsSorting m ds end q) (λ q. IsFaithful m (intersect cs) q.0)
        (sort_parts n ds (start opt)) (intersect_sorted rec)
        (sort_parts-IsSorting m n ds ds (start opt) (start_lem ds opt a.still_plain g)
          (omega (arith, a.no_heavier)))
        λ q k.
          Returns-weaken (λ t. Stands m (has_all m ds) (suc (weight_parts ds)) t.0)
            (λ t. IsFaithful m (intersect cs) t.0) (intersect_sorted rec q)
            (sorted_lem m rec n keeps ds q k (ap (seen m) (fun_ext a.same_all) ∙ z)
              (omega (arith, a.no_heavier)))
            λ t l. Stands-faithful cs t.0 f (wider cs ds t.0 a l)
  stripped_lem cs opt (ds, some tags) f z p w h =
      let light = h.lighter refl refl in
      Returns-bind (λ q. IsFaithful m (fixed_tags tags (intersect ds)) q.0)
        (λ q. IsFaithful m (intersect cs) q.0) (optimize_fixed_tags rec none tags (intersect ds))
        (λ q. done (q.0, true))
        (fixed_tags_lem m rec n keeps tags (intersect ds) (plain_intersect cs ds f z h.faithful)
          (omega (arith, light)))
        λ q k.
          IsFaithful-trans m (intersect cs) (fixed_tags tags (intersect ds)) q.0
            (tagged_intersect tags cs ds f z h.faithful light) k

  optimized_lem :
      (cs : Shapes V W F) (found : Option (Shapes V W F × Bool))
      → some_firm cs ≡ true
      → seen m (has_all m cs) ≡ true
      → weight_parts cs < n
      → IsScanned m rec n keeps cs found
      → Returns (parts_optimized rec n none found) (λ p. IsFaithful m (intersect cs) p.0)
  optimized_lem cs none f z w h = IsFaithful-nil m (intersect cs) λ v. has-intersect m cs v f ∙ h v
  optimized_lem cs (some (ds, opt)) f z w h =
      Returns-weaken (λ p. IsFaithful m (intersect ds) p.0) (λ p. IsFaithful m (intersect cs) p.0)
        (intersect_stripped rec n opt (strip_parts ds none))
        (stripped_lem ds opt (strip_parts ds none) (h.still_some f)
          (ap (seen m) (fun_ext h.same_all) ∙ z) h.still_plain (omega (arith, h.no_heavier))
          (strip_parts-AreStripped m ds none h.still_plain))
        λ p g. IsFaithful-trans m (intersect cs) (intersect ds) p.0 (replaced_parts cs ds f z h) g

  pub intersect_lem :
      (cs : Shapes V W F)
      → plain m (intersect cs) ≡ true
      → weight (intersect cs) ≤ n
      → Returns (optimize_intersect rec n none cs) (λ p. IsFaithful m (intersect cs) p.0)
  unfolding optimize_intersect plain firm weight has
  intersect_lem end p w = absurd (
      contradicted (inhabited m (intersect end) && false) p
        (and_false (inhabited m (intersect end))))
  intersect_lem (part c cs) p w =
      let q =
        and_right (inhabited m (intersect (part c cs)))
          (some_firm (part c cs) && plain_parts m (part c cs)) p in
      let f = and_left (some_firm (part c cs)) (plain_parts m (part c cs)) q in
      let z : seen m (has_all m (part c cs)) ≡ true =
        and_left (inhabited m (intersect (part c cs)))
          (some_firm (part c cs) && plain_parts m (part c cs)) p in
      Returns-bind (IsScanned m rec n keeps (part c cs))
        (λ q. IsFaithful m (intersect (part c cs)) q.0) (intersect_parts rec (part c cs) false)
        (parts_optimized rec n none)
        (intersect_parts_lem m rec n keeps (part c cs) false
          (and_right (some_firm (part c cs)) (plain_parts m (part c cs)) q) (omega arith))
        λ found h. optimized_lem (part c cs) found f z (omega arith) h
