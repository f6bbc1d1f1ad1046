-- ===== src/Graph/Transaction/Laws.antt =====
-- A transaction keeps its list and its map in step, as its operations leave it.
use cayley.Prelude.{
  true, false, not, ◌&&◌, ◌||◌, List, [], ◌∷◌, ◌++◌, Eq, ◌≡◌, ◌↔◌, refl, sym, ap, ◌∙◌, inl, inr,
  Bool-cases, arith,
}
use cayley.Graph.Transaction.{
  Procedure, procedure_beq, Delta, Transaction, new_transaction, delta_beq, has_delta, forget, cut,
  add_delta, delete_delta, ad, rd, add_quad, remove_quad,
}

procedure_beq_iff : (a b : Procedure) → (procedure_beq a b ≡ true) ↔ (a ≡ b)
procedure_beq_iff a b = ground arith

module _ {Q : Type 0} ⦃e : Eq Q⦄ where
  pub delta_iff : (a b : Delta Q) → (delta_beq a b ≡ true) ↔ (a ≡ b)
  unfolding delta_beq
  delta_iff a b = (
    λ h.
        let q : a.quad ≡ b.quad = (e.beq_iff a.quad b.quad).0 (ground arith) in
        let p : a.action ≡ b.action = (procedure_beq_iff a.action b.action).0 (ground arith) in
        λ i. record { quad = q i; action = p i },
    λ h.
        let q = (e.beq_iff a.quad b.quad).1 (ap (λ d. d.quad) h) in
        let p = (procedure_beq_iff a.action b.action).1 (ap (λ d. d.action) h) in
        ground (arith, q, p),
  )

  pub has_delta-append :
      (d : Delta Q) (xs ys : List (Delta Q))
      → has_delta d (xs ++ ys) ≡ (has_delta d xs || has_delta d ys)
  unfolding has_delta
  has_delta-append d [] ys = refl
  has_delta-append d (x ∷ xs) ys = ground (arith, has_delta-append d xs ys)

  pub has_delta-forget :
      (d d' : Delta Q) (ds : List (Delta Q))
      → has_delta d' (forget d ds) ≡ (not (delta_beq d d') && has_delta d' ds)
  unfolding has_delta forget
  has_delta-forget d d' [] = ground arith
  has_delta-forget d d' (x ∷ ds) =
      ground (arith, has_delta-forget d d' ds, delta_iff x d, delta_iff x d', delta_iff d d')

  -- No delta stands twice.
  abbrev pub Distinct : List (Delta Q) → Type 0
  Distinct [] = Unit {0}
  Distinct (x ∷ ds) = (has_delta x ds ≡ false) × Distinct ds

  pub has_delta-cut :
      (d d' : Delta Q) (ds : List (Delta Q))
      → Distinct ds
      → has_delta d' (cut d ds) ≡ (not (delta_beq d d') && has_delta d' ds)
  unfolding has_delta cut
  has_delta-cut d d' [] h = ground arith
  has_delta-cut d d' (x ∷ ds) h =
      ground (arith, has_delta-cut d d' ds h.1, h.0, delta_iff x d, delta_iff x d', delta_iff d d')

  Distinct-cut : (d : Delta Q) (ds : List (Delta Q)) → Distinct ds → Distinct (cut d ds)
  unfolding cut
  Distinct-cut d [] h = tt
  Distinct-cut d (x ∷ ds) h = elim (Bool-cases (delta_beq x d)) [
    | inl here ↦ rw here h.1
    | inr there ↦ rw there (ground (arith, has_delta-cut d x ds h.1, h.0), Distinct-cut d ds h.1)
  ]

  Distinct-concat :
      (d : Delta Q) (ds : List (Delta Q))
      → has_delta d ds ≡ false
      → Distinct ds
      → Distinct (ds ++ d ∷ [])
  unfolding has_delta
  Distinct-concat d [] h k = (refl, tt)
  Distinct-concat d (x ∷ ds) h k = (
    ground (arith, has_delta-append x ds (d ∷ []), k.0, delta_iff x d, delta_iff d x),
    Distinct-concat d ds (ground arith) k.1,
  )

  -- The list and the map hold the same deltas, none stands twice in the list, and no quad is both
  -- added and deleted.
  pub record IsWellFormed (t : Transaction Q) : Type 0 where
    pub distinct : Distinct t.ordered
    pub synced : (d : Delta Q) → has_delta d t.ordered ≡ has_delta d t.deltas
    pub single : (q : Q) → (has_delta (ad q) t.deltas && has_delta (rd q) t.deltas) ≡ false

  pub IsWellFormed-new : IsWellFormed new_transaction
  unfolding has_delta
  IsWellFormed-new = record { distinct = tt; synced = λ d. refl; single = λ q. refl }

  IsWellFormed-add_delta :
      (d : Delta Q) (t : Transaction Q)
      → IsWellFormed t
      → has_delta d t.deltas ≡ false
      → ((q : Q) → (has_delta (ad q) (d ∷ t.deltas) && has_delta (rd q) (d ∷ t.deltas)) ≡ false)
      → IsWellFormed (add_delta d t)
  unfolding has_delta add_delta
  IsWellFormed-add_delta d t h new single = record {
    distinct = Distinct-concat d t.ordered (h.synced d ∙ new) h.distinct;
    synced = λ x. ground (arith, has_delta-append x t.ordered (d ∷ []), h.synced x);
    single = single;
  }

  IsWellFormed-delete_delta :
      (d : Delta Q) (t : Transaction Q) → IsWellFormed t → IsWellFormed (delete_delta d t)
  unfolding delete_delta
  IsWellFormed-delete_delta d t h = record {
    distinct = Distinct-cut d t.ordered h.distinct;
    synced = λ x.
        has_delta-cut d x t.ordered h.distinct
        ∙ ap (λ b. not (delta_beq d x) && b) (h.synced x)
        ∙ sym (has_delta-forget d x t.deltas);
    single = λ q.
        ground (
          arith,
          has_delta-forget d (ad q) t.deltas,
          has_delta-forget d (rd q) t.deltas,
          h.single q,
        );
  }

  add_single :
      (q : Q) (t : Transaction Q)
      → IsWellFormed t
      → has_delta (rd q) t.deltas ≡ false
      → (q' : Q)
      → (has_delta (ad q') (ad q ∷ t.deltas) && has_delta (rd q') (ad q ∷ t.deltas)) ≡ false
  unfolding has_delta delta_beq
  add_single q t h no' q' = ground (arith, h.single q', e.beq_iff q q', no')

  remove_single :
      (q : Q) (t : Transaction Q)
      → IsWellFormed t
      → has_delta (ad q) t.deltas ≡ false
      → (q' : Q)
      → (has_delta (ad q') (rd q ∷ t.deltas) && has_delta (rd q') (rd q ∷ t.deltas)) ≡ false
  unfolding has_delta delta_beq
  remove_single q t h no' q' = ground (arith, h.single q', e.beq_iff q q', no')

  -- `AddQuad` keeps a transaction well formed.
  pub add_quad-IsWellFormed :
      (q : Q) (t : Transaction Q) → IsWellFormed t → IsWellFormed (add_quad q t)
  unfolding add_quad
  add_quad-IsWellFormed q t h = elim (Bool-cases (has_delta (ad q) t.deltas)) [
    | inl added ↦ rw added h
    | inr new ↦ elim (Bool-cases (has_delta (rd q) t.deltas)) [
      | inl deleted ↦ rw (new, deleted) (IsWellFormed-delete_delta (rd q) t h)
      | inr none' ↦ rw (new, none') (IsWellFormed-add_delta (ad q) t h new (add_single q t h none'))
    ]
  ]

  -- `RemoveQuad` keeps a transaction well formed.
  pub remove_quad-IsWellFormed :
      (q : Q) (t : Transaction Q) → IsWellFormed t → IsWellFormed (remove_quad q t)
  unfolding remove_quad
  remove_quad-IsWellFormed q t h = elim (Bool-cases (has_delta (ad q) t.deltas)) [
    | inl added ↦ rw added (IsWellFormed-delete_delta (ad q) t h)
    | inr none' ↦ elim (Bool-cases (has_delta (rd q) t.deltas)) [
      | inl deleted ↦ rw (none', deleted) h
      | inr new ↦
          rw (none', new) (IsWellFormed-add_delta (rd q) t h new (remove_single q t h none'))
    ]
  ]
