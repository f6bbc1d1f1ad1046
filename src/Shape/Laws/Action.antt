-- ===== src/Shape/Laws/Action.antt =====
-- graph/shape/shape.go: fixed values that are pushed into a QuadsAction.
use cayley.Prelude.{
  ℕ, suc, ◌≤◌, Bool, true, false, ◌&&◌, ◌||◌, some, List, [], ◌∷◌, Eq, ◌==◌, String, string_eq,
  refl, ◌≡◌, ◌∙◌, ap, sym, arith, Bool-cases, Option-cases, some_inj, subst, inl, inr, any,
}
use cayley.Prelude.Int64.{ℤ}
use cayley.Prelude.Assoc.{lookup, write}
use cayley.Quad.{Direction, direction_eq}
use cayley.Shape.{intersect, Shape, Shapes, nil, quads_action, end, part}
use cayley.Shape.Meaning.{
  View, has, has_all, plain, plain_part, inhabited, seen, plain_parts, firm, some_firm, weight,
  weight_parts, meets, tagged, at_end,
}
use cayley.Shape.Optimize.Intersect.{push_action, parts_result}
use cayley.Shape.Laws.Faithful.{part_plain, and_left, and_both, and_true}
use cayley.Shape.Laws.Filters.{and_assoc, and_last, and_twice, or_false}
use cayley.Shape.Laws.Gather.{meets-write}
use cayley.Shape.Laws.Nodes.{any-ext}
use cayley.Shape.Laws.Pinned.{two_more, any-pinned, pinned, disjoint}

module _ {V W F : Type 0} ⦃e : Eq V⦄ (m : View V W F) where
  -- A shape that stands for the values that pass `x`, and is not too heavy.
  pub record Stands (x : V → Bool) (n : ℕ) (s : Shape V W F) : Type 0 where
    pub same : (v : V) → has m s v ≡ x v
    pub is_plain : plain m s ≡ true
    pub is_firm : firm s ≡ true
    pub light : weight s ≤ n

  pub Stands-nil : (x : V → Bool) (n : ℕ) → ((v : V) → x v ≡ false) → 1 ≤ n → Stands x n nil
  unfolding has plain firm weight
  Stands-nil x n h w = record { same = λ v. sym (h v); is_plain = refl; is_firm = refl; light = w }

  pub Stands-lighter :
      {n k : ℕ} (x : V → Bool) (s : Shape V W F) → Stands x n s → n ≤ k → Stands x k s
  Stands-lighter x s h w = record {
    same = h.same;
    is_plain = h.is_plain;
    is_firm = h.is_firm;
    light = omega (arith, h.light, w);
  }

  pub parts_result_lem :
      (cs : Shapes V W F) (opt : Bool)
      → some_firm cs ≡ true
      → plain_parts m cs ≡ true
      → seen m (has_all m cs) ≡ true
      → Stands (has_all m cs) (suc (weight_parts cs)) (parts_result cs opt).0
  unfolding has plain firm weight
  parts_result_lem end opt f p i = absurd (ground arith)
  parts_result_lem (part c end) opt f p i = record {
    same = λ v. sym (and_true (has m c v));
    is_plain = part_plain m c (and_left (plain_part m c) true p);
    is_firm = sym (or_false (firm c)) ∙ f;
    light = omega arith;
  }
  parts_result_lem (part c (part d cs)) opt f p i = record {
    same = λ v. refl;
    is_plain =
        and_both (inhabited m (intersect (part c (part d cs))))
          (some_firm (part c (part d cs)) && plain_parts m (part c (part d cs))) i
          (and_both (some_firm (part c (part d cs))) (plain_parts m (part c (part d cs))) f p);
    is_firm = f;
    light = omega arith;
  }

  -- The values that a QuadsAction finds, with a test of the end that is its result.
  pub found_at :
      (d : Direction) (x : V → Bool) (b : V → Bool) (u : V)
      → any
          (λ q. (at_end (m.end_of q d) x && b q) && at_end (m.end_of q d) (λ w. w == u))
          m.all_quads
        ≡ (x u && any (λ q. b q && at_end (m.end_of q d) (λ w. w == u)) m.all_quads)
  found_at d x b u =
      any-ext (λ q. (at_end (m.end_of q d) x && b q) && at_end (m.end_of q d) (λ w. w == u))
        (λ q. x u && (b q && at_end (m.end_of q d) (λ w. w == u))) m.all_quads
        (λ q. pinned x (m.end_of q d) (b q) u)
      ∙ any-pinned (x u) (λ q. b q && at_end (m.end_of q d) (λ w. w == u)) m.all_quads

  pub meets-lookup :
      (d : Direction) (w : V) (filt : List (Direction × V)) (q : V)
      → lookup d filt ≡ some w
      → meets m filt q ≡ (at_end (m.end_of q d) (λ v. w == v) && meets m filt q)
  unfolding meets lookup
  meets-lookup d w [] q h = absurd (ground arith)
  meets-lookup d w ((c, v) ∷ filt) q h = elim (Bool-cases (c == d)) [
    | inl here ↦
        let a : V → V → Bool = λ z y. z == y in
        let same_end =
          ap (λ c'. at_end (m.end_of q c') (a v)) ((direction_eq.beq_iff c d).0 here)
          ∙ ap (λ v'. at_end (m.end_of q d) (a v')) (some_inj (rw here at h)) in
        and_twice (at_end (m.end_of q c) (a v)) (meets m filt q)
        ∙ ap (λ b. b && (at_end (m.end_of q c) (a v) && meets m filt q)) same_end
    | inr there ↦
        ap (λ b. at_end (m.end_of q c) (λ u. v == u) && b) (meets-lookup d w filt q (rw there at h))
        ∙ and_last (at_end (m.end_of q c) (λ u. v == u)) (at_end (m.end_of q d) (λ u. w == u))
            (meets m filt q)
  ]

  -- A QuadsAction whose filter, also, fixes the end that is its result.
  pub action_pinned :
      (d : Direction) (v : V) (sv : List (Direction × List String))
      (filt' filt : List (Direction × V)) (u : V)
      → ((q : V) → meets m filt' q ≡ (at_end (m.end_of q d) (λ w. v == w) && meets m filt q))
      → any
          (λ q. (meets m filt' q && tagged m sv q) && at_end (m.end_of q d) (λ w. w == u))
          m.all_quads
        ≡ ((v == u)
            && any
                (λ q. (meets m filt q && tagged m sv q) && at_end (m.end_of q d) (λ w. w == u))
                m.all_quads)
  action_pinned d v sv filt' filt u h =
      any-ext (λ q. (meets m filt' q && tagged m sv q) && at_end (m.end_of q d) (λ w. w == u))
        (λ q.
          (at_end (m.end_of q d) (λ w. v == w) && (meets m filt q && tagged m sv q))
          && at_end (m.end_of q d) (λ w. w == u))
        m.all_quads
        (λ q.
          ap (λ b. b && at_end (m.end_of q d) (λ w. w == u))
            (ap (λ b. b && tagged m sv q) (h q)
              ∙ and_assoc (at_end (m.end_of q d) (λ w. v == w)) (meets m filt q) (tagged m sv q)))
      ∙ found_at d (λ w. v == w) (λ q. meets m filt q && tagged m sv q) u

  pub push_action_lem :
      (v : V) (size : ℤ) (d : Direction) (sv : List (Direction × List String))
      (filt : List (Direction × V))
      → plain m (quads_action size d sv filt) ≡ true
      → Stands
          (λ u. (v == u || false) && (has m (quads_action size d sv filt) u && true))
          3
          (push_action v size d sv filt)
  unfolding has plain firm weight
  push_action_lem v size d sv filt p = elim (Option-cases (lookup d filt)) [
    | inl new ↦
        rw (push_action, new)
          (record {
            same = λ u.
                action_pinned d v sv (write d v filt) filt u (λ q. meets-write m d v filt q new)
                ∙ two_more (v == u) (has m (quads_action size d sv filt) u);
            is_plain = p;
            is_firm = refl;
            light = omega arith;
          })
    | inr (w, found) ↦ elim (Bool-cases (w == v)) [
      | inl same ↦
          rw (push_action, found, same)
            (record {
              same = λ u.
                  action_pinned d v sv filt filt u (λ q.
                    subst
                      (λ z.
                        meets m filt q ≡ (at_end (m.end_of q d) (λ y. z == y) && meets m filt q))
                      ((e.beq_iff w v).0 same) (meets-lookup d w filt q found))
                  ∙ two_more (v == u) (has m (quads_action size d sv filt) u);
              is_plain = p;
              is_firm = refl;
              light = omega arith;
            })
      | inr other ↦
          rw (push_action, found, other)
            (Stands-nil (λ u. (v == u || false) && (has m (quads_action size d sv filt) u && true))
              3
              (λ u.
                disjoint v w u (has m (quads_action size d sv filt) u) other
                  (action_pinned d w sv filt filt u λ q. meets-lookup d w filt q found))
              (omega arith))
    ]
  ]
