-- ===== src/Graph/Transaction/Refines.antt =====
-- A transaction as a change of a set of quads.
use cayley.Prelude.{
  Bool, true, false, [], ◌∷◌, Eq, ◌==◌, ◌≡◌, ◌⊎◌, inl, inr, Bool-cases, arith, if◌then◌else◌,
}
use cayley.Graph.Transaction.{
  Delta, Transaction, new_transaction, delta_beq, has_delta, add_delta, delete_delta, ad, rd,
  add_quad, remove_quad,
}
use cayley.Graph.Transaction.Laws.{
  has_delta-append, has_delta-cut, has_delta-forget, IsWellFormed, IsWellFormed-new,
  add_quad-IsWellFormed, remove_quad-IsWellFormed,
}

module _ {Q : Type 0} ⦃e : Eq Q⦄ where
  -- A set of quads after the deltas of a transaction.
  abbrev pub after : Transaction Q → (Q → Bool) → Q → Bool
  after t s q =
      if has_delta (ad q) t.ordered then true else if has_delta (rd q) t.ordered then false else s q

  -- The transaction adds only quads that the set lacks, and deletes only quads that it has.
  pub record IsStrict (t : Transaction Q) (s : Q → Bool) : Type 0 where
    pub formed : IsWellFormed t
    pub adds : (q : Q) → has_delta (ad q) t.deltas ≡ true → s q ≡ false
    pub deletes : (q : Q) → has_delta (rd q) t.deltas ≡ true → s q ≡ true

  pub IsStrict-new : (s : Q → Bool) → IsStrict new_transaction s
  unfolding has_delta
  IsStrict-new s = record {
    formed = IsWellFormed-new;
    adds = λ q h. absurd (ground (arith, h));
    deletes = λ q h. absurd (ground (arith, h));
  }

  same_ad : (q q' : Q) → delta_beq (ad q) (ad q') ≡ (q == q')
  unfolding delta_beq
  same_ad q q' = ground arith

  same_rd : (q q' : Q) → delta_beq (rd q) (rd q') ≡ (q == q')
  unfolding delta_beq
  same_rd q q' = ground arith

  ad_not_rd : (q q' : Q) → delta_beq (ad q) (rd q') ≡ false
  unfolding delta_beq
  ad_not_rd q q' = ground arith

  rd_not_ad : (q q' : Q) → delta_beq (rd q) (ad q') ≡ false
  unfolding delta_beq
  rd_not_ad q q' = ground arith

  equal_of : (q q' : Q) → (q == q') ≡ true → q ≡ q'
  equal_of q q' h = (e.beq_iff q q').0 h

  -- The four ways in which a quad changes a transaction.
  cut_rd :
      (q : Q) (t : Transaction Q) (s : Q → Bool) (q' : Q)
      → IsStrict t s
      → has_delta (ad q) t.deltas ≡ false
      → has_delta (rd q) t.deltas ≡ true
      → after (delete_delta (rd q) t) s q' ≡ (if q == q' then true else after t s q')
  unfolding delete_delta
  cut_rd q t s q' h new deleted =
      rw
        (
          has_delta-cut (rd q) (ad q') t.ordered h.formed.distinct,
          has_delta-cut (rd q) (rd q') t.ordered h.formed.distinct,
          rd_not_ad q q',
          same_rd q q',
        )
        (ground (arith, equal_of q q', h.deletes q deleted))

  concat_ad :
      (q : Q) (t : Transaction Q) (s : Q → Bool) (q' : Q)
      → IsStrict t s
      → has_delta (rd q) t.deltas ≡ false
      → after (add_delta (ad q) t) s q' ≡ (if q == q' then true else after t s q')
  unfolding add_delta has_delta
  concat_ad q t s q' h none' =
      rw
        (
          has_delta-append (ad q') t.ordered (ad q ∷ []),
          has_delta-append (rd q') t.ordered (ad q ∷ []),
          same_ad q q',
          ad_not_rd q q',
        )
        (ground arith)

  cut_ad :
      (q : Q) (t : Transaction Q) (s : Q → Bool) (q' : Q)
      → IsStrict t s
      → has_delta (ad q) t.deltas ≡ true
      → after (delete_delta (ad q) t) s q' ≡ (if q == q' then false else after t s q')
  unfolding delete_delta
  cut_ad q t s q' h added =
      rw
        (
          has_delta-cut (ad q) (ad q') t.ordered h.formed.distinct,
          has_delta-cut (ad q) (rd q') t.ordered h.formed.distinct,
          ad_not_rd q q',
          same_ad q q',
        )
        (ground (arith, equal_of q q', h.adds q added))

  concat_rd :
      (q : Q) (t : Transaction Q) (s : Q → Bool) (q' : Q)
      → IsStrict t s
      → has_delta (ad q) t.deltas ≡ false
      → after (add_delta (rd q) t) s q' ≡ (if q == q' then false else after t s q')
  unfolding add_delta has_delta
  concat_rd q t s q' h none' =
      rw
        (
          has_delta-append (ad q') t.ordered (rd q ∷ []),
          has_delta-append (rd q') t.ordered (rd q ∷ []),
          same_rd q q',
          rd_not_ad q q',
          h.formed.synced (ad q'),
          h.formed.synced (rd q'),
        )
        (ground (arith, equal_of q q', none'))

  IsStrict-delete_delta :
      (d : Delta Q) (t : Transaction Q) (s : Q → Bool)
      → IsStrict t s
      → IsWellFormed (delete_delta d t)
      → IsStrict (delete_delta d t) s
  unfolding delete_delta
  IsStrict-delete_delta d t s h w = record {
    formed = w;
    adds = λ q k. h.adds q (ground (arith, has_delta-forget d (ad q) t.deltas, k));
    deletes = λ q k. h.deletes q (ground (arith, has_delta-forget d (rd q) t.deltas, k));
  }

  IsStrict-add_ad :
      (q : Q) (t : Transaction Q) (s : Q → Bool)
      → IsStrict t s
      → IsWellFormed (add_delta (ad q) t)
      → s q ≡ false
      → IsStrict (add_delta (ad q) t) s
  unfolding add_delta has_delta
  IsStrict-add_ad q t s h w k = record {
    formed = w;
    adds = λ q' l. ground (arith, h.adds q', same_ad q q', equal_of q q', k, l);
    deletes = λ q' l. ground (arith, h.deletes q', ad_not_rd q q', l);
  }

  IsStrict-add_rd :
      (q : Q) (t : Transaction Q) (s : Q → Bool)
      → IsStrict t s
      → IsWellFormed (add_delta (rd q) t)
      → s q ≡ true
      → IsStrict (add_delta (rd q) t) s
  unfolding add_delta has_delta
  IsStrict-add_rd q t s h w k = record {
    formed = w;
    adds = λ q' l. ground (arith, h.adds q', rd_not_ad q q', l);
    deletes = λ q' l. ground (arith, h.deletes q', same_rd q q', equal_of q q', k, l);
  }

  -- Over a transaction that adds only quads which the set lacks and deletes only quads which it
  -- has, `AddQuad` adds the quad to the set after the transaction and changes it nowhere else. If
  -- that set lacked the quad, the transaction stays one of this kind.
  pub add_quad-after :
      (q : Q) (t : Transaction Q) (s : Q → Bool)
      → IsStrict t s
      → ((q' : Q) → after (add_quad q t) s q' ≡ (if q == q' then true else after t s q'))
        × ((after t s q ≡ true) ⊎ IsStrict (add_quad q t) s)
  unfolding add_quad
  add_quad-after q t s h =
      let w = add_quad-IsWellFormed q t h.formed in
      elim (Bool-cases (has_delta (ad q) t.deltas)) [
        | inl added ↦
            rw added (λ q'. ground (arith, equal_of q q', h.formed.synced (ad q'), added), inr h)
        | inr new ↦ elim (Bool-cases (has_delta (rd q) t.deltas)) [
          | inl deleted ↦
              rw (new, deleted)
                (
                  λ q'. cut_rd q t s q' h new deleted,
                  inr (IsStrict-delete_delta (rd q) t s h (rw (new, deleted) at w)),
                )
          | inr none' ↦ elim (Bool-cases (s q)) [
            | inl held ↦
                rw (new, none')
                  (
                    λ q'. concat_ad q t s q' h none',
                    inl (rw (h.formed.synced (ad q), new, h.formed.synced (rd q), none') held),
                  )
            | inr lacked ↦
                rw (new, none')
                  (
                    λ q'. concat_ad q t s q' h none',
                    inr (IsStrict-add_ad q t s h (rw (new, none') at w) lacked),
                  )
          ]
        ]
      ]

  -- Over a transaction that adds only quads which the set lacks and deletes only quads which it
  -- has, `RemoveQuad` deletes the quad from the set after the transaction and changes it nowhere
  -- else. If that set had the quad, the transaction stays one of this kind.
  pub remove_quad-after :
      (q : Q) (t : Transaction Q) (s : Q → Bool)
      → IsStrict t s
      → ((q' : Q) → after (remove_quad q t) s q' ≡ (if q == q' then false else after t s q'))
        × ((after t s q ≡ false) ⊎ IsStrict (remove_quad q t) s)
  unfolding remove_quad
  remove_quad-after q t s h =
      let w = remove_quad-IsWellFormed q t h.formed in
      elim (Bool-cases (has_delta (ad q) t.deltas)) [
        | inl added ↦ rw added (
          λ q'. cut_ad q t s q' h added,
          inr (IsStrict-delete_delta (ad q) t s h (rw added at w)),
        )
        | inr none' ↦ elim (Bool-cases (has_delta (rd q) t.deltas)) [
          | inl deleted ↦
              rw (none', deleted)
                (
                  λ q'. ground (
                    arith,
                    equal_of q q',
                    h.formed.synced (rd q'),
                    h.formed.synced (ad q'),
                    none',
                    deleted,
                  ),
                  inr h,
                )
          | inr new ↦ elim (Bool-cases (s q)) [
            | inr lacked ↦
                rw (none', new)
                  (
                    λ q'. concat_rd q t s q' h none',
                    inl (rw (h.formed.synced (ad q), none', h.formed.synced (rd q), new) lacked),
                  )
            | inl held ↦
                rw (none', new)
                  (
                    λ q'. concat_rd q t s q' h none',
                    inr (IsStrict-add_rd q t s h (rw (none', new) at w) held),
                  )
          ]
        ]
      ]
