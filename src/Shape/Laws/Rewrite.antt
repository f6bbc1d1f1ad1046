-- ===== src/Shape/Laws/Rewrite.antt =====
-- graph/shape/shape.go: Optimize without an optimizer, of every shape, and of a query.
use cayley.Prelude.{
  ℕ, zero, suc, ◌<◌, ◌≤◌, true, false, none, List, [], ◌∷◌, Eq, string_eq, if◌then◌else◌, done,
  ◌>>=◌, Returns, Returns-bind, Returns-weaken, refl, ◌≡◌, ◌∙◌, ap, sym, arith, Bool-cases, inl,
  inr,
}
use cayley.Quad.{direction_eq}
use cayley.Shape.{
  Shape, is_nil, nil, null, all_nodes, except, filtered, count, quads, nodes_from, quads_action,
  fixed, fixed_tags, lookup_of, materialize, intersect, union, page, unique, save, optional,
}
use cayley.Shape.Optimize.{Replaced}
use cayley.Shape.Meaning.{View, IsFaithful, Keeps, has, find, plain, firm, weight}
use cayley.Shape.Rewrite.{optimize, optimize_query}
use cayley.Shape.Optimize.Single.{optimize_leaf, optimize_fixed, optimize_lookup}
use cayley.Shape.Laws.Single.{
  except_lem, filtered_lem, materialize_lem, unique_lem, save_lem, optional_lem, fixed_tags_lem,
}
use cayley.Shape.Laws.Faithful.{IsFaithful-refl, IsFaithful-nil}
use cayley.Shape.Laws.Quads.{quads_lem, has-is_nil}
use cayley.Shape.Laws.Nodes.{nodes_lem}
use cayley.Shape.Laws.Built.{find-plain}
use cayley.Shape.Laws.Union.{union_lem}
use cayley.Shape.Laws.Intersect.{intersect_lem}

module _ {V W F : Type 0} ⦃e : Eq V⦄ (m : View V W F) (zero_count : V) where
  fixed_lem :
      (vs : List V)
      → Returns (optimize_fixed {W = W} {F = F} none vs) (λ p. IsFaithful m (fixed vs) p.0)
  unfolding optimize_fixed has plain
  fixed_lem [] = IsFaithful-nil m (fixed []) λ v. refl
  fixed_lem (v ∷ vs) = IsFaithful-refl m (fixed (v ∷ vs)) refl

  -- Fuel above the number of the shapes is enough.
  pub optimize-Keeps : (n : ℕ) → Keeps m (optimize zero_count n none) n
  unfolding optimize optimize_leaf optimize_lookup plain firm weight has
  optimize-Keeps zero s h p w = absurd (omega arith)
  optimize-Keeps (suc n) nil h p w = absurd (ground arith)
  optimize-Keeps (suc n) null h p w = IsFaithful-nil m null λ v. refl
  optimize-Keeps (suc n) all_nodes h p w = IsFaithful-refl m all_nodes refl
  optimize-Keeps (suc n) (except exclude from) h p w =
      except_lem m (optimize zero_count n none) n (optimize-Keeps n) exclude from p (omega arith)
  optimize-Keeps (suc n) (filtered fs from) h p w =
      filtered_lem m (optimize zero_count n none) n (optimize-Keeps n) fs from p (omega arith)
  optimize-Keeps (suc n) (count values) h p w = absurd (ground arith)
  optimize-Keeps (suc n) (quads fs) h p w =
      quads_lem m (optimize zero_count n none) n fs (optimize-Keeps n) p (omega arith)
  optimize-Keeps (suc n) (nodes_from d s) h p w =
      nodes_lem m (optimize zero_count n none) n d s (optimize-Keeps n) p (omega arith)
  optimize-Keeps (suc n) (quads_action size d sv filt) h p w =
      IsFaithful-refl m (quads_action size d sv filt) p
  optimize-Keeps (suc n) (fixed vs) h p w = fixed_lem vs
  optimize-Keeps (suc n) (fixed_tags tags on) h p w =
      fixed_tags_lem m (optimize zero_count n none) n (optimize-Keeps n) tags on p (omega arith)
  optimize-Keeps (suc n) (lookup_of ws) h p w = IsFaithful-refl m (lookup_of ws) refl
  optimize-Keeps (suc n) (materialize size values) h p w =
      materialize_lem m (optimize zero_count n none) n (optimize-Keeps n) size values p
        (omega arith)
  optimize-Keeps (suc n) (intersect cs) h p w =
      intersect_lem m (optimize zero_count n none) n (optimize-Keeps n) cs p (omega arith)
  optimize-Keeps (suc n) (union cs) h p w =
      union_lem m (optimize zero_count n none) n cs (optimize-Keeps n) p (omega arith)
  optimize-Keeps (suc n) (page skip limit from) h p w = absurd (ground arith)
  optimize-Keeps (suc n) (unique from) h p w =
      unique_lem m (optimize zero_count n none) n (optimize-Keeps n) from p (omega arith)
  optimize-Keeps (suc n) (save tags from) h p w =
      save_lem m (optimize zero_count n none) n (optimize-Keeps n) tags from p (omega arith)
  optimize-Keeps (suc n) (optional from) h p w =
      optional_lem m (optimize zero_count n none) n (optimize-Keeps n) from p (omega arith)

  -- Without an optimizer, Optimize of a plain shape that is not nil, with more fuel than the tree
  -- has shapes, returns a plain shape that is no larger. The iterators of both can be built, and
  -- find the same values.
  pub optimize-has :
      (fuel : ℕ) (s : Shape V W F) (v : V)
      → is_nil s ≡ false
      → plain m s ≡ true
      → weight s < fuel
      → Returns (optimize zero_count fuel none s) (λ p.
        (find m s v ≡ done (has m s v))
        × (find m p.0 v ≡ done (has m s v))
        × (plain m p.0 ≡ true)
        × (weight p.0 ≤ weight s))
  optimize-has fuel s v h p w =
      Returns-weaken (λ q. IsFaithful m s q.0)
        (λ q.
          (find m s v ≡ done (has m s v))
          × (find m q.0 v ≡ done (has m s v))
          × (plain m q.0 ≡ true)
          × (weight q.0 ≤ weight s))
        (optimize zero_count fuel none s) (optimize-Keeps fuel s h p w)
        λ q f. (
          find-plain m s v p,
          find-plain m q.0 v f.still_plain ∙ ap done (f.same v),
          f.still_plain,
          f.no_heavier,
        )

  -- What is kept of a shape, by a replacement.
  abbrev IsKept : Shape V W F → Shape V W F → Type 0
  IsKept s t = ((v : V) → has m t v ≡ has m s v) × (plain m t ≡ true)

  null-IsKept : (s : Shape V W F) → ((v : V) → has m s v ≡ false) → IsKept s null
  unfolding has plain
  null-IsKept s h = (λ v. sym (h v), refl)

  unless_nil_lem :
      (s : Shape V W F) (q : Replaced V W F)
      → IsKept s q.0
      → Returns {A = Replaced V W F}
          (if is_nil q.0
            then done (null, true)
            else if is_nil q.0
            then done (null, true)
            else done (q.0, q.1))
          (λ r. IsKept s r.0)
  unless_nil_lem s q f = elim (Bool-cases (is_nil q.0)) [
    | inl gone ↦ rw gone (null-IsKept s λ v. sym (f.0 v) ∙ has-is_nil m q.0 v gone)
    | inr there ↦ rw there f
  ]

  optimize_query_lem :
      (fuel : ℕ) (s : Shape V W F)
      → plain m s ≡ true
      → weight s < fuel
      → Returns (optimize_query zero_count fuel s none) (λ p. IsKept s p.0)
  unfolding optimize_query has plain
  optimize_query_lem fuel s p w = elim (Bool-cases (is_nil s)) [
    | inl no_shape ↦ rw no_shape (null-IsKept s λ v. has-is_nil m s v no_shape)
    | inr shape ↦ rw shape (
        Returns-bind (λ q. IsKept s q.0) (λ q. IsKept s q.0)
          (optimize zero_count fuel none s >>= λ x. done (x.0, x.1))
          (λ q.
            if is_nil q.0
            then done (null, true)
            else if is_nil q.0
            then done (null, true)
            else done (q.0, q.1))
          (Returns-bind (λ q. IsFaithful m s q.0) (λ q. IsKept s q.0)
            (optimize zero_count fuel none s) (λ x. done (x.0, x.1))
            (optimize-Keeps fuel s shape p w) λ q f. (f.same, f.still_plain))
          λ q f. unless_nil_lem s q f)
  ]

  -- The function Optimize, without a store, of a plain shape, with more fuel than the tree has
  -- shapes, returns a shape whose iterator can be built, and finds the same values as that of the
  -- shape.
  pub optimize_query-has :
      (fuel : ℕ) (s : Shape V W F) (v : V)
      → plain m s ≡ true
      → weight s < fuel
      → Returns
          (optimize_query zero_count fuel s none)
          (λ p. (find m s v ≡ done (has m s v)) × (find m p.0 v ≡ done (has m s v)))
  optimize_query-has fuel s v p w =
      Returns-weaken (λ q. IsKept s q.0)
        (λ q. (find m s v ≡ done (has m s v)) × (find m q.0 v ≡ done (has m s v)))
        (optimize_query zero_count fuel s none) (optimize_query_lem fuel s p w)
        λ q f. (find-plain m s v p, find-plain m q.0 v f.1 ∙ ap done (f.0 v))
