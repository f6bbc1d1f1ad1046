-- ===== src/Shape/Laws/Single.antt =====
-- graph/shape/shape.go: Optimize, without an optimizer, of the shapes with at most two below them.
use cayley.Prelude.{
  ℕ, ◌<◌, ◌≤◌, Bool, true, false, ◌||◌, none, List, [], ◌∷◌, Eq, String, string_eq, if◌then◌else◌,
  Outcome, done, ◌>>=◌, Returns, Returns-bind, refl, ◌≡◌, ◌∙◌, sym, arith, Bool-cases, inl, inr,
}
use cayley.Prelude.Int64.{ℤ}
use cayley.Quad.{Direction, direction_eq}
use cayley.Shape.{
  Shape, is_null, is_nil, nil, all_nodes, except, filtered, fixed_tags, materialize, unique, save,
  optional,
}
use cayley.Shape.Optimize.{Replaced, Optimize}
use cayley.Shape.Meaning.{View, IsFaithful, away, Keeps, has, plain, firm, weight, unbounded}
use cayley.Shape.Optimize.Single.{
  optimize_except, optimize_filtered, optimize_fixed_tags, optimize_materialize, optimize_unique,
  optimize_save, optimize_optional, except_result, filtered_result, tags_merged, tags_result,
}
use cayley.Shape.Laws.Faithful.{
  IsFaithful-refl, IsFaithful-nil, has-is_null, except_result_lem, filtered_result_lem, not_nil,
}

module _ {V W F : Type 0} ⦃e : Eq V⦄ (m : View V W F) (rec : Optimize V W F) (n : ℕ)
    (keeps : Keeps m rec n) where
  -- A call of the Optimize of a shape below.
  pub Returns-rec :
      (s t : Shape V W F) (f : Replaced V W F → Outcome (Replaced V W F))
      → is_nil t ≡ false
      → plain m t ≡ true
      → weight t < n
      → ((p : Replaced V W F) → IsFaithful m t p.0 → Returns (f p) (λ q. IsFaithful m s q.0))
      → Returns (rec t >>= f) (λ q. IsFaithful m s q.0)
  Returns-rec s t f h p w k =
      Returns-bind (λ q. IsFaithful m t q.0) (λ q. IsFaithful m s q.0) (rec t) f (keeps t h p w) k

  -- A method that first returns nil where its source is null.
  pub Returns-unless_null :
      (s t : Shape V W F) (f : Replaced V W F → Outcome (Replaced V W F))
      → plain m t ≡ true
      → weight t < n
      → (((v : V) → has m t v ≡ false) → (v : V) → has m s v ≡ false)
      → ((p : Replaced V W F) → IsFaithful m t p.0 → Returns (f p) (λ q. IsFaithful m s q.0))
      → Returns (if is_null t then done (nil, true) else rec t >>= f) (λ q. IsFaithful m s q.0)
  Returns-unless_null s t f p w none_left k = elim (Bool-cases (is_null t)) [
    | inl yes_null ↦ rw yes_null (IsFaithful-nil m s (none_left λ v. has-is_null m t v yes_null))
    | inr not_null ↦ rw not_null (Returns-rec s t f (not_nil m t not_null) p w k)
  ]

  pub except_lem :
      (exclude from : Shape V W F)
      → plain m (except exclude from) ≡ true
      → weight (except exclude from) ≤ n
      → Returns
          (optimize_except rec none exclude from)
          (λ p. IsFaithful m (except exclude from) p.0)
  unfolding optimize_except plain weight
  except_lem exclude nil h w =
      Returns-rec (except exclude nil) exclude (λ x. done (except_result x.0 nil (x.1 || false)))
        (ground arith) (ground arith) (omega arith)
        λ p f. except_result_lem m exclude nil p.0 nil (p.1 || false) refl refl (omega arith) f
  except_lem exclude all_nodes h w =
      Returns-rec (except exclude all_nodes) exclude
        (λ x. rec all_nodes >>= λ y. done (except_result x.0 y.0 (x.1 || y.1))) (ground arith)
        (ground arith) (omega arith)
        λ p f.
          Returns-rec (except exclude all_nodes) all_nodes
            (λ y. done (except_result p.0 y.0 (p.1 || y.1))) refl refl (omega arith)
            λ q g.
              except_result_lem m exclude all_nodes p.0 q.0 (p.1 || q.1) refl
                (g.still_unbounded refl) g.no_heavier f
  except_lem exclude s h w = ground arith

  pub filtered_lem :
      (fs : List F) (from : Shape V W F)
      → plain m from ≡ true
      → weight (filtered fs from) ≤ n
      → Returns (optimize_filtered rec none fs from) (λ p. IsFaithful m (filtered fs from) p.0)
  unfolding optimize_filtered weight has
  filtered_lem fs from h w =
      Returns-unless_null (filtered fs from) from (λ p. done (filtered_result fs p.0 p.1)) h
        (omega arith) (λ g v. ground (arith, g v)) λ p f. filtered_result_lem m fs from p.0 p.1 f

  pub materialize_lem :
      (size : ℤ) (from : Shape V W F)
      → plain m from ≡ true
      → weight (materialize size from) ≤ n
      → Returns
          (optimize_materialize rec none size from)
          (λ p. IsFaithful m (materialize size from) p.0)
  unfolding optimize_materialize weight has plain firm
  materialize_lem size from h w =
      Returns-unless_null (materialize size from) from (λ p. done (materialize size p.0, p.1)) h
        (omega arith) (λ g. g)
        λ p f. record {
          same = f.same;
          still_plain = f.still_plain;
          still_unbounded = λ u. ground arith;
          still_away = λ d u. ground arith;
          still_firm = λ g. refl;
          no_heavier = omega (arith, f.no_heavier);
        }

  pub unique_lem :
      (from : Shape V W F)
      → plain m from ≡ true
      → weight (unique from) ≤ n
      → Returns (optimize_unique rec none from) (λ p. IsFaithful m (unique from) p.0)
  unfolding optimize_unique weight has plain firm
  unique_lem from h w =
      Returns-unless_null (unique from) from
        (λ p. if is_null p.0 then done (nil, true) else done (unique p.0, p.1)) h (omega arith)
        (λ g. g)
        λ p f. elim (Bool-cases (is_null p.0)) [
          | inl yes_null ↦
              rw yes_null
                (IsFaithful-nil m (unique from) λ v. sym (f.same v) ∙ has-is_null m p.0 v yes_null)
          | inr not_null ↦ rw not_null (record {
            same = f.same;
            still_plain = f.still_plain;
            still_unbounded = λ u. ground arith;
            still_away = λ d u. ground arith;
            still_firm = λ g. refl;
            no_heavier = omega (arith, f.no_heavier);
          })
        ]

  -- The source of a Save or of FixedTags, for the whole.
  IsFaithful-source :
      (s from t : Shape V W F)
      → ((v : V) → has m from v ≡ has m s v)
      → unbounded s ≡ false
      → ((d : Direction) → away d s ≡ false)
      → (firm s ≡ true → firm from ≡ true)
      → weight from ≤ weight s
      → IsFaithful m from t
      → IsFaithful m s t
  IsFaithful-source s from t same u a firm w f = record {
    same = λ v. f.same v ∙ same v;
    still_plain = f.still_plain;
    still_unbounded = λ g. ground arith;
    still_away = λ d g. ground (arith, a d);
    still_firm = λ g. f.still_firm (firm g);
    no_heavier = omega (arith, f.no_heavier);
  }

  pub save_lem :
      (tags : List String) (from : Shape V W F)
      → plain m from ≡ true
      → weight (save tags from) ≤ n
      → Returns (optimize_save rec none tags from) (λ p. IsFaithful m (save tags from) p.0)
  unfolding optimize_save weight has plain firm
  save_lem [] from h w =
      Returns-unless_null (save [] from) from (λ p. done (p.0, true)) h (omega arith) (λ g. g)
        λ p f.
          IsFaithful-source (save [] from) from p.0 (λ v. refl) refl (λ d. refl) (λ g. g)
            (omega arith) f
  save_lem (t ∷ ts) from h w =
      Returns-unless_null (save (t ∷ ts) from) from (λ p. done (save (t ∷ ts) p.0, p.1)) h
        (omega arith) (λ g. g)
        λ p f. record {
          same = f.same;
          still_plain = f.still_plain;
          still_unbounded = λ u. ground arith;
          still_away = λ d u. ground arith;
          still_firm = f.still_firm;
          no_heavier = omega (arith, f.no_heavier);
        }

  pub optional_lem :
      (from : Shape V W F)
      → plain m from ≡ true
      → weight (optional from) ≤ n
      → Returns (optimize_optional rec none from) (λ p. IsFaithful m (optional from) p.0)
  unfolding optimize_optional weight has plain firm
  optional_lem from h w = elim (Bool-cases (is_null from)) [
    | inl yes_null ↦ rw yes_null (IsFaithful-refl m (optional from) h)
    | inr not_null ↦ rw not_null (
        Returns-rec (optional from) from
          (λ p. if is_null p.0 then done (optional p.0, p.1) else done (optional p.0, p.1))
          (not_nil m from not_null) h (omega arith)
          λ p f.
            let rest : IsFaithful m (optional from) (optional p.0) = record {
              same = λ v. refl;
              still_plain = f.still_plain;
              still_unbounded = λ u. ground arith;
              still_away = λ d u. ground arith;
              still_firm = λ g. ground arith;
              no_heavier = omega (arith, f.no_heavier);
            } in
            elim (Bool-cases (is_null p.0)) [
              | inl yes_null ↦ rw yes_null rest
              | inr kept ↦ rw kept rest
            ])
  ]

  tags_result_lem :
      (tags : List (String × V)) (on on' : Shape V W F) (opt : Bool)
      → IsFaithful m on on'
      → Returns
          (tags_result none (tags_merged tags on' opt).0 (tags_merged tags on' opt).1)
          (λ p. IsFaithful m (fixed_tags tags on) p.0)
  unfolding has plain firm weight
  tags_result_lem tags on (fixed_tags tags2 on') opt f = record {
    same = f.same;
    still_plain = f.still_plain;
    still_unbounded = λ u. ground arith;
    still_away = λ d u. ground arith;
    still_firm = f.still_firm;
    no_heavier = omega (arith, f.no_heavier);
  }
  tags_result_lem tags on s opt f = record {
    same = f.same;
    still_plain = f.still_plain;
    still_unbounded = λ u. ground arith;
    still_away = λ d u. ground arith;
    still_firm = f.still_firm;
    no_heavier = omega (arith, f.no_heavier);
  }

  pub fixed_tags_lem :
      (tags : List (String × V)) (on : Shape V W F)
      → plain m on ≡ true
      → weight (fixed_tags tags on) ≤ n
      → Returns (optimize_fixed_tags rec none tags on) (λ p. IsFaithful m (fixed_tags tags on) p.0)
  unfolding optimize_fixed_tags weight has plain firm
  fixed_tags_lem [] on h w =
      Returns-unless_null (fixed_tags [] on) on (λ p. done (p.0, true)) h (omega arith) (λ g. g)
        λ p f.
          IsFaithful-source (fixed_tags [] on) on p.0 (λ v. refl) refl (λ d. refl) (λ g. g)
            (omega arith) f
  fixed_tags_lem (t ∷ ts) on h w =
      Returns-unless_null (fixed_tags (t ∷ ts) on) on
        (λ p. tags_result none (tags_merged (t ∷ ts) p.0 p.1).0 (tags_merged (t ∷ ts) p.0 p.1).1) h
        (omega arith) (λ g. g) λ p f. tags_result_lem (t ∷ ts) on p.0 p.1 f
