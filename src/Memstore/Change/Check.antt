-- ===== src/Memstore/Change/Check.antt =====
-- The precheck of `ApplyDeltas`, over the whole list of deltas before any of them is applied.
use cayley.Prelude.{
  ℕ, Bool, false, not, ◌&&◌, ◌||◌, List, [], ◌∷◌, Option, none, some, ◌≡◌, refl, sym, ap, inl, inr,
  true, Outcome, bind_assoc, bind-ext, ◌>>=◌, ◌∙◌, done, panic, out_of_fuel, Returns-value,
  Bool-cases, Option-cases, if◌then◌else◌, arith,
}
use cayley.Quad.{Quad}
use cayley.Graph.Transaction.{Delta, Procedure, add_it, delete_it, invalid}
use cayley.Prelude.Int64.{ℤ, pos, ◌+ℤ◌}
use cayley.Memstore.{InternalQuad, KeyTree, Naming, QuadStore}
use cayley.Memstore.Resolve.{find_quad}
use cayley.Memstore.Resolve.Laws.{find_quad-same}
use cayley.Memstore.Change.{
  IgnoreOpts, Reason, quad_exists, quad_not_exist, invalid_action, DeltaError, precheck_one,
  precheck, apply_one, apply_all, apply_deltas, add_quad, delete,
}

not_and : (a b : Bool) → (not a || not b) ≡ not (a && b)
not_and a b = ground arith

-- Why a delta is refused, by its action.
abbrev pub refusal : IgnoreOpts → Procedure → Bool → Option Reason
refusal opts add_it held = if opts.ignore_dup then none else if held then some quad_exists else none
refusal opts delete_it held =
    if opts.ignore_missing then none else if held then none else some quad_not_exist
refusal opts (invalid n) held = some invalid_action

module _ {V T : Type 0} (naming : Naming V) where
  -- Whether `findQuad` finds a quad.
  abbrev pub holds : Quad V → QuadStore V T → Bool
  holds q qs = elim (find_quad naming q qs) [ done r ↦ r.2 | panic ↦ false | out_of_fuel ↦ false ]

  -- The first delta that is refused, against the store before the deltas.
  abbrev pub first_refused :
      IgnoreOpts → List (Delta (Quad V)) → QuadStore V T → Option (DeltaError V)
  first_refused opts [] qs = none
  first_refused opts (d ∷ ds) qs = elim (refusal opts d.action (holds d.quad qs)) [
    | some e ↦ some (record { delta = d; err = e })
    | none ↦ first_refused opts ds qs
  ]

  find_quad-holds :
      (q : Quad V) (qs : QuadStore V T)
      → (r : ℤ × InternalQuad × Bool × QuadStore V T) × (find_quad naming q qs ≡ done r)
        × (r.2 ≡ holds q qs)
        × (r.3 ≡ qs)
  find_quad-holds q qs =
      let (r, found, facts) =
        Returns-value _ (find_quad naming q qs) (find_quad-same naming q qs) in
      (
        r,
        found,
        ap (λ m. elim m [ done r ↦ r.2 | panic ↦ false | out_of_fuel ↦ false ]) (sym found),
        facts.0,
      )

abbrev pub is_invalid : Procedure → Bool
is_invalid add_it = false
is_invalid delete_it = false
is_invalid (invalid n) = true

module _ {V T : Type 0} (trees : KeyTree T) (naming : Naming V) where
  precheck_by :
      (opts : IgnoreOpts) (q : Quad V) (action : Procedure) (qs : QuadStore V T)
      → precheck_one trees naming opts (record { quad = q; action = action }) qs
        ≡ done (refusal opts action (holds naming q qs), qs)
  unfolding precheck_one
  precheck_by opts q add_it qs = elim (Bool-cases opts.ignore_dup) [
    | inl ignored ↦ rw ignored refl
    | inr checked ↦
        let (r, found, held, same) = find_quad-holds naming q qs in
        rw (checked, found, held, same) refl
  ]
  precheck_by opts q delete_it qs = elim (Bool-cases opts.ignore_missing) [
    | inl ignored ↦ rw ignored refl
    | inr checked ↦
        let (r, found, held, same) = find_quad-holds naming q qs in
        rw (checked, found, held, same) refl
  ]
  precheck_by opts q (invalid n) qs = refl

  precheck-first_refused :
      (opts : IgnoreOpts) (ds : List (Delta (Quad V))) (qs : QuadStore V T)
      → precheck trees naming opts ds qs ≡ done (first_refused naming opts ds qs, qs)
  unfolding precheck
  precheck-first_refused opts [] qs = refl
  precheck-first_refused opts (d ∷ ds) qs =
      elim (Option-cases (refusal opts d.action (holds naming d.quad qs))) [
        | inl fine ↦
            rw (precheck, first_refused, precheck_by opts d.quad d.action qs, fine)
              (precheck-first_refused opts ds qs)
        | inr (e, refused) ↦
            rw (precheck, first_refused, precheck_by opts d.quad d.action qs, refused) refl
      ]

  -- What a delta does to the store: AddQuad, or Delete of the quad that findQuad finds.
  abbrev pub effect : ℕ → Procedure → Quad V → QuadStore V T → Outcome (QuadStore V T)
  effect fuel add_it q qs = add_quad trees naming q qs >>= λ (id, new, qs'). done qs'
  effect fuel delete_it q qs = find_quad naming q qs >>= λ (id, p, ok, qs').
      if ok then (delete trees naming fuel id qs' >>= λ (gone, qs''). done qs'') else done qs'
  effect fuel (invalid n) q qs = done qs

  -- The deltas before the first one with an invalid action, and that one.
  abbrev pub before_invalid : List (Delta (Quad V)) → List (Delta (Quad V))
  before_invalid [] = []
  before_invalid (d ∷ ds) = if is_invalid d.action then [] else d ∷ before_invalid ds

  abbrev pub first_invalid : List (Delta (Quad V)) → Option (Delta (Quad V))
  first_invalid [] = none
  first_invalid (d ∷ ds) = if is_invalid d.action then some d else first_invalid ds

  -- The effects of deltas, one after the other.
  abbrev pub effects : ℕ → List (Delta (Quad V)) → QuadStore V T → Outcome (QuadStore V T)
  effects fuel [] qs = done qs
  effects fuel (d ∷ ds) qs = effect fuel d.action d.quad qs >>= effects fuel ds

  -- The end of a run: the error of an invalid action, or else the next horizon.
  abbrev pub concluded :
      Option (Delta (Quad V)) → QuadStore V T → Outcome (Option (DeltaError V) × QuadStore V T)
  concluded (some d) qs = done (some (record { delta = d; err = invalid_action }), qs)
  concluded none qs = done (none, record qs { horizon = qs.horizon +ℤ pos 1 })

  abbrev removed :
      Bool
      → Outcome (Bool × QuadStore V T)
      → QuadStore V T
      → Outcome (Option Reason × QuadStore V T)
  removed ok m qs = elim ok [ true ↦ m >>= λ x. done (none, x.1) | false ↦ done (none, qs) ]

  delete_if :
      (ok : Bool) (m : Outcome (Bool × QuadStore V T)) (qs : QuadStore V T)
      → removed ok m qs
        ≡ ((if ok then (m >>= λ x. done x.1) else done qs) >>= λ qs'. done (none, qs'))
  delete_if true m qs = sym (bind_assoc m (λ x. done x.1) (λ qs'. done (none, qs')))
  delete_if false m qs = refl

  apply_one-effect :
      (fuel : ℕ) (action : Procedure) (q : Quad V) (qs : QuadStore V T)
      → is_invalid action ≡ false
      → apply_one trees naming fuel (record { quad = q; action = action }) qs
        ≡ (effect fuel action q qs >>= λ qs'. done (none, qs'))
  unfolding apply_one
  apply_one-effect fuel add_it q qs h =
      sym (bind_assoc (add_quad trees naming q qs) (λ x. done x.2) (λ qs'. done (none, qs')))
  apply_one-effect fuel delete_it q qs h =
      bind-ext (find_quad naming q qs) _ _
        (λ x. delete_if x.2 (delete trees naming fuel x.0 x.3) x.3)
      ∙ sym (
          bind_assoc (find_quad naming q qs)
            (λ x. if x.2 then (delete trees naming fuel x.0 x.3 >>= λ y. done y.1) else done x.3)
            (λ qs'. done (none, qs')))
  apply_one-effect fuel (invalid n) q qs h = absurd (ground arith)

  -- A step of the loop, where the steps behind it are known.
  apply_all-step :
      (fuel : ℕ) (action : Procedure) (q : Quad V) (ds : List (Delta (Quad V))) (qs : QuadStore V T)
      → ((qs' : QuadStore V T)
          → apply_all trees naming fuel ds qs'
            ≡ (effects fuel (before_invalid ds) qs' >>= concluded (first_invalid ds)))
      → apply_all trees naming fuel (record { quad = q; action = action } ∷ ds) qs ≡ (
          effects fuel (before_invalid (record { quad = q; action = action } ∷ ds)) qs
          >>= concluded (first_invalid (record { quad = q; action = action } ∷ ds)))
  unfolding apply_all apply_one
  apply_all-step fuel (invalid n) q ds qs ih = refl
  apply_all-step fuel action q ds qs ih =
      let loop : Option Reason × QuadStore V T → Outcome (Option (DeltaError V) × QuadStore V T) =
        λ (r, qs'). elim r [
          | some e ↦
              done (some (record { delta = record { quad = q; action = action }; err = e }), qs')
          | none ↦ apply_all trees naming fuel ds qs'
        ] in
      let valid : is_invalid action ≡ false = refl in
      ap (λ m. m >>= loop) (apply_one-effect fuel action q qs valid)
      ∙ bind_assoc (effect fuel action q qs) (λ qs'. done (none, qs')) loop
      ∙ bind-ext (effect fuel action q qs) _ _ ih
      ∙ sym (
          bind_assoc (effect fuel action q qs) (effects fuel (before_invalid ds))
            (concluded (first_invalid ds)))

  apply_all-effects :
      (fuel : ℕ) (ds : List (Delta (Quad V))) (qs : QuadStore V T)
      → apply_all trees naming fuel ds qs
        ≡ (effects fuel (before_invalid ds) qs >>= concluded (first_invalid ds))
  unfolding apply_all
  apply_all-effects fuel [] qs = refl
  apply_all-effects fuel (d ∷ ds) qs =
      apply_all-step fuel d.action d.quad ds qs (apply_all-effects fuel ds)

  apply_deltas_lem :
      (fuel : ℕ) (deltas : List (Delta (Quad V))) (opts : IgnoreOpts) (qs : QuadStore V T)
      → apply_deltas trees naming fuel deltas opts qs
        ≡ elim (if opts.ignore_dup && opts.ignore_missing
            then none
            else first_refused naming opts deltas qs) [
              | some e ↦ done (some e, qs)
              | none ↦ apply_all trees naming fuel deltas qs
            ]
  unfolding apply_deltas
  apply_deltas_lem fuel deltas opts qs =
      elim (Bool-cases (opts.ignore_dup && opts.ignore_missing)) [
        | inl ignored ↦ rw (apply_deltas, not_and opts.ignore_dup opts.ignore_missing, ignored) refl
        | inr checked ↦
            rw
              (
                apply_deltas,
                not_and opts.ignore_dup opts.ignore_missing,
                checked,
                precheck-first_refused opts deltas qs,
              )
              refl
      ]

  -- `ApplyDeltas` checks all the deltas against the store as it is, unless both kinds of faults are
  -- ignored. If one is refused, the answer is the error of the first such delta, and nothing is
  -- applied: the store stays as it was. Otherwise the deltas before the first one with an invalid
  -- action take effect, one after the other: AddQuad for an addition, and Delete of the quad that
  -- findQuad finds for a deletion. The answer is the error of the invalid action, and if there is
  -- none, no error, and the horizon goes up by one.
  pub apply_deltas-first_refused :
      (fuel : ℕ) (deltas : List (Delta (Quad V))) (opts : IgnoreOpts) (qs : QuadStore V T)
      → apply_deltas trees naming fuel deltas opts qs
        ≡ elim (if opts.ignore_dup && opts.ignore_missing
            then none
            else first_refused naming opts deltas qs) [
              | some e ↦ done (some e, qs)
              | none ↦ effects fuel (before_invalid deltas) qs >>= concluded (first_invalid deltas)
            ]
  apply_deltas-first_refused fuel deltas opts qs =
      apply_deltas_lem fuel deltas opts qs
      ∙ ap (unless_refused qs) (apply_all-effects fuel deltas qs)
    where
      unless_refused :
          QuadStore V T
          → Outcome (Option (DeltaError V) × QuadStore V T)
          → Outcome (Option (DeltaError V) × QuadStore V T)
      unless_refused qs m =
          elim (if opts.ignore_dup && opts.ignore_missing
            then none
            else first_refused naming opts deltas qs) [ some e ↦ done (some e, qs) | none ↦ m ]
