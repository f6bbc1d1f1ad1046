-- ===== src/Shape/Laws/Faithful.antt =====
-- graph/shape/shape.go: replacements that keep the values of a shape, and those by a constructor.
use cayley.Prelude.{
  ◌≤◌, Bool, true, false, ◌&&◌, ◌||◌, List, [], ◌∷◌, Eq, string_eq, refl, ◌≡◌, ◌∙◌, ap, sym, arith,
  all, fun_ext,
}
use cayley.Quad.{is_set, Direction, direction_eq}
use cayley.Shape.{Shape, is_null, is_nil, nil, null, all_nodes, except, filtered}
use cayley.Shape.Meaning.{
  View, IsFaithful, has, inhabited, seen, plain_part, plain_filter, plain, firm, weight, unbounded,
}
use cayley.Shape.Optimize.Single.{except_result, filtered_result}

pub and_left : (a b : Bool) → (a && b) ≡ true → a ≡ true
and_left a b h = ground arith

pub and_right : (a b : Bool) → (a && b) ≡ true → b ≡ true
and_right a b h = ground arith

pub and_both : (a b : Bool) → a ≡ true → b ≡ true → (a && b) ≡ true
and_both a b h k = ground arith

pub and_true : (b : Bool) → (b && true) ≡ b
and_true b = ground arith

module _ {V W F : Type 0} where
  pub weight_pos : (s : Shape V W F) → 1 ≤ weight s
  unfolding weight
  weight_pos nil = omega arith
  weight_pos s = omega arith

module _ {V W F : Type 0} ⦃e : Eq V⦄ (m : View V W F) where
  pub IsFaithful-refl : (s : Shape V W F) → plain m s ≡ true → IsFaithful m s s
  IsFaithful-refl s h = record {
    same = λ v. refl;
    still_plain = h;
    still_unbounded = λ u. u;
    still_away = λ d u. u;
    still_firm = λ f. f;
    no_heavier = omega arith;
  }

  pub IsFaithful-trans :
      (a b c : Shape V W F) → IsFaithful m a b → IsFaithful m b c → IsFaithful m a c
  IsFaithful-trans a b c h k = record {
    same = λ v. k.same v ∙ h.same v;
    still_plain = k.still_plain;
    still_unbounded = λ u. k.still_unbounded (h.still_unbounded u);
    still_away = λ d u. k.still_away d (h.still_away d u);
    still_firm = λ f. k.still_firm (h.still_firm f);
    no_heavier = omega (arith, h.no_heavier, k.no_heavier);
  }

  -- A shape of no values may be replaced by nil.
  pub IsFaithful-nil : (s : Shape V W F) → ((v : V) → has m s v ≡ false) → IsFaithful m s nil
  unfolding has plain firm weight
  IsFaithful-nil s h = record {
    same = λ v. sym (h v);
    still_plain = refl;
    still_unbounded = λ u. refl;
    still_away = λ d u. refl;
    still_firm = λ f. refl;
    no_heavier = weight_pos s;
  }

  pub inhabited-same :
      (s t : Shape V W F) → ((v : V) → has m t v ≡ has m s v) → inhabited m t ≡ inhabited m s
  inhabited-same s t h = ap (seen m) (fun_ext h)

  -- An inhabited part, with the values of another.
  pub plain_part-same :
      (s t : Shape V W F)
      → ((v : V) → has m t v ≡ has m s v)
      → plain m t ≡ true
      → plain_part m s ≡ true
      → plain_part m t ≡ true
  plain_part-same s t h p k =
      and_both (inhabited m t) (plain m t)
        (inhabited-same s t h ∙ and_left (inhabited m s) (plain m s) k) p

  pub plain_filter-same :
      (d : Direction) (s t : Shape V W F)
      → ((v : V) → has m t v ≡ has m s v)
      → plain m t ≡ true
      → plain_filter m d s ≡ true
      → plain_filter m d t ≡ true
  plain_filter-same d s t h p k =
      and_both (is_set d) (plain_part m t) (and_left (is_set d) (plain_part m s) k)
        (plain_part-same s t h p (and_right (is_set d) (plain_part m s) k))

  pub filter_plain :
      (d : Direction) (s : Shape V W F) → plain_filter m d s ≡ true → plain m s ≡ true
  filter_plain d s h =
      and_right (inhabited m s) (plain m s) (and_right (is_set d) (plain_part m s) h)

  pub part_plain : (s : Shape V W F) → plain_part m s ≡ true → plain m s ≡ true
  part_plain s h = and_right (inhabited m s) (plain m s) h

  pub has-is_null : (s : Shape V W F) (v : V) → is_null s ≡ true → has m s v ≡ false
  unfolding has is_null
  has-is_null nil v h = refl
  has-is_null null v h = refl
  has-is_null s v h = ground arith

  pub unbounded_has :
      (s : Shape V W F) (v : V) → unbounded s ≡ true → (is_nil s || has m s v) ≡ true
  unfolding has
  unbounded_has nil v h = refl
  unbounded_has all_nodes v h = refl
  unbounded_has s v h = ground arith

  pub except_result_lem :
      (exclude from exclude' from' : Shape V W F) (opt : Bool)
      → unbounded from ≡ true
      → unbounded from' ≡ true
      → weight from' ≤ weight from
      → IsFaithful m exclude exclude'
      → IsFaithful m (except exclude from) (except_result exclude' from' opt).0
  unfolding has plain firm weight
  except_result_lem exclude from nil from' opt u u' w h = record {
    same = λ v. ground (arith, h.same v, unbounded_has from v u);
    still_plain = refl;
    still_unbounded = λ u. refl;
    still_away = λ d u. ground arith;
    still_firm = λ f. ground arith;
    no_heavier = omega (arith, weight_pos exclude);
  }
  except_result_lem exclude from null from' opt u u' w h = record {
    same = λ v. ground (arith, h.same v, unbounded_has from v u);
    still_plain = refl;
    still_unbounded = λ u. refl;
    still_away = λ d u. ground arith;
    still_firm = λ f. ground arith;
    no_heavier = omega (arith, weight_pos exclude);
  }
  except_result_lem exclude from all_nodes from' opt u u' w h =
      IsFaithful-nil (except exclude from) λ v. ground (arith, h.same v)
  except_result_lem exclude from s from' opt u u' w h = record {
    same = λ v. ground (arith, h.same v, unbounded_has from v u, unbounded_has from' v u');
    still_plain = ground (arith, h.still_plain);
    still_unbounded = λ u. ground arith;
    still_away = λ d u. ground arith;
    still_firm = λ f. ground arith;
    no_heavier = omega (arith, h.no_heavier);
  }

  pub filtered_result_lem :
      (fs : List F) (from from' : Shape V W F) (opt : Bool)
      → IsFaithful m from from'
      → IsFaithful m (filtered fs from) (filtered_result fs from' opt).0
  unfolding has plain firm weight
  filtered_result_lem fs from nil opt h =
      IsFaithful-nil (filtered fs from) λ v. ground (arith, h.same v)
  filtered_result_lem fs from null opt h =
      IsFaithful-nil (filtered fs from) λ v. ground (arith, h.same v)
  filtered_result_lem [] from s opt h = record {
    same = λ v. h.same v ∙ sym (and_true (has m from v));
    still_plain = h.still_plain;
    still_unbounded = λ u. ground arith;
    still_away = λ d u. ground arith;
    still_firm = h.still_firm;
    no_heavier = omega (arith, h.no_heavier);
  }
  filtered_result_lem (f ∷ fs) from s opt h = record {
    same = λ v. ap (λ b. b && all (λ g. m.passes g v) (f ∷ fs)) (h.same v);
    still_plain = h.still_plain;
    still_unbounded = λ u. ground arith;
    still_away = λ d u. ground arith;
    still_firm = h.still_firm;
    no_heavier = omega (arith, h.no_heavier);
  }

  pub not_nil : (s : Shape V W F) → is_null s ≡ false → is_nil s ≡ false
  unfolding is_null
  not_nil nil h = ground arith
  not_nil s h = refl
