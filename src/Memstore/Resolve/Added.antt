-- ===== src/Memstore/Resolve/Added.antt =====
-- Resolving a value with adding it, in a store whose names stand for primitives.
use cayley.Prelude.{
  ℕ, zero, suc, ◌+◌, ◌^◌, ◌<◌, true, false, List, [], ◌∷◌, ◌++◌, none, some, String, ◌≡◌, refl, ap,
  ◌∙◌, subst, inl, inr, done, Bool-cases, Option-cases, string_eq, is_some, ◌==◌, get_elem?, set,
  length, some_inj, ◌⊎◌, arith,
}
use cayley.Prelude.Int64.{ℤ, pos, eq_ℤ, ◌+ℤ◌, pos-add, beq_ℤ_iff}
use cayley.Prelude.Assoc.{lookup, write, lookup-write}
use cayley.Memstore.{
  Naming, no_quad, Primitive, QuadStore, prim_at, add_refs, append_primitive, add_primitive,
}
use cayley.Memstore.Resolve.{resolve_named, resolve_value, resolve_val, take_ref}

-- Reading a list that was written or grown.
found_set :
    {A : Type 0} (xs : List A) (i j : ℕ) (v : A)
    → is_some (get_elem? (set xs i v) j) ≡ is_some (get_elem? xs j)
found_set [] i j v = refl
found_set (x ∷ xs) zero zero v = refl
found_set (x ∷ xs) zero (suc j) v = refl
found_set (x ∷ xs) (suc i) zero v = refl
found_set (x ∷ xs) (suc i) (suc j) v = found_set xs i j v

found_append :
    {A : Type 0} (xs : List A) (j : ℕ) (v : A)
    → is_some (get_elem? xs j) ≡ true
    → is_some (get_elem? (xs ++ v ∷ []) j) ≡ true
found_append [] j v h = absurd (ground (arith, h))
found_append (x ∷ xs) zero v h = refl
found_append (x ∷ xs) (suc j) v h = found_append xs j v h

found_last :
    {A : Type 0} (xs : List A) (v : A) → is_some (get_elem? (xs ++ v ∷ []) (length xs)) ≡ true
found_last [] v = refl
found_last (x ∷ xs) v = found_last xs v

-- An entry of a map that was written is the new one or an old one.
pub write-cases :
    {A : Type 0} (k s : String) (id j : A) (m : List (String × A))
    → lookup s (write k id m) ≡ some j
    → (id ≡ j) ⊎ (lookup s m ≡ some j)
write-cases k s id j m h = elim (Bool-cases (k == s)) [
  | inl here ↦ inl (some_inj (rw (lookup-write k s id m, here) at h))
  | inr there ↦ inr (rw (lookup-write k s id m, there) at h)
]

module _ {V T : Type 0} where
  abbrev pub IsPresent : ℤ → QuadStore V T → Type 0
  IsPresent id qs = is_some (prim_at id qs) ≡ true

  -- A name stands for a primitive, whose id is not 0.
  pub record IsSound (qs : QuadStore V T) : Type 0 where
    pub nonzero : (s : String) (id : ℤ) → lookup s qs.vals ≡ some id → (id == pos 0) ≡ false
    pub present : (s : String) (id : ℤ) → lookup s qs.vals ≡ some id → IsPresent id qs

  -- The counter can go up by `k` more.
  pub record HasRoom (k : ℕ) (qs : QuadStore V T) : Type 0 where
    pub count : ℕ
    pub is_last : qs.last ≡ pos count
    pub below : count + k < 2 ^ 63

  -- The second store knows the names of the first.
  pub record Extends (qs qs' : QuadStore V T) : Type 0 where
    pub names : (s : String) (id : ℤ) → lookup s qs.vals ≡ some id → lookup s qs'.vals ≡ some id

  IsPresent-add_refs :
      (by id : ℤ) (p : ℕ × Primitive V) (qs : QuadStore V T)
      → IsPresent id qs
      → IsPresent id (add_refs by p qs)
  unfolding prim_at add_refs
  IsPresent-add_refs by id p qs h = elim (Option-cases (lookup id qs.prim)) [
    | inl missing ↦ absurd (ground (arith, h, missing))
    | inr (at, found) ↦
        ground (arith, h, found, found_set qs.heap p.0 at (record p.1 { refs = p.1.refs +ℤ by }))
  ]

  pub IsPresent-append :
      (id : ℤ) (p : Primitive V) (qs : QuadStore V T)
      → IsPresent id qs
      → IsPresent id (append_primitive p qs)
  unfolding prim_at append_primitive
  IsPresent-append id p qs h = elim (Option-cases (lookup id qs.prim)) [
    | inl missing ↦ absurd (ground (arith, h, missing))
    | inr (at, found) ↦ ground (
      arith,
      h,
      found,
      lookup-write p.id id (length qs.heap) qs.prim,
      found_append qs.heap at p,
      found_last qs.heap p,
    )
  ]

  pub IsPresent-new :
      (p : Primitive V) (qs : QuadStore V T) → IsPresent p.id (append_primitive p qs)
  unfolding prim_at append_primitive
  IsPresent-new p qs =
      let same = (beq_ℤ_iff p.id p.id).1 refl in
      ground (arith, same, lookup-write p.id p.id (length qs.heap) qs.prim, found_last qs.heap p)

  pub IsPresent-other :
      (id last : ℤ) (vals : List (String × ℤ)) (qs : QuadStore V T)
      → IsPresent id qs
      → IsPresent id (record qs { last = last; vals = vals })
  unfolding prim_at
  IsPresent-other id last vals qs h = h

-- What `resolveVal` leaves when it adds the value `v`.
pub record Added {V T : Type 0} (naming : Naming V) (v : V) (k : ℕ) (qs : QuadStore V T) (id : ℤ)
    (qs' : QuadStore V T) : Type 0 where
  pub nonzero : (id == pos 0) ≡ false
  pub known : lookup (naming.name v) qs'.vals ≡ some id
  pub extends : Extends qs qs'
  pub sound : IsSound qs'
  pub room : HasRoom k qs'

module _ {V T : Type 0} (naming : Naming V) where
  Added-known :
      (v : V) (k : ℕ) (id : ℤ) (p : ℕ × Primitive V) (qs : QuadStore V T)
      → IsSound qs
      → HasRoom (suc k) qs
      → lookup (naming.name v) qs.vals ≡ some id
      → Added naming v k qs id (add_refs (pos 1) p qs)
  unfolding add_refs
  Added-known v k id p qs h r found = record {
    nonzero = h.nonzero (naming.name v) id found;
    known = found;
    extends = record { names = λ s j e. e };
    sound = record {
      nonzero = h.nonzero;
      present = λ s j e. IsPresent-add_refs (pos 1) j p qs (h.present s j e);
    };
    room = record { count = r.count; is_last = r.is_last; below = omega (arith, r.below) };
  }

  -- The store with a new primitive and a name for it.
  abbrev with_name : V → ℤ → Primitive V → QuadStore V T → QuadStore V T
  with_name v id p qs =
      let qs' = append_primitive p (record qs { last = id }) in
      record qs' { vals = write (naming.name v) id qs'.vals }

  Added-new :
      (v : V) (k : ℕ) (p : Primitive V) (qs : QuadStore V T)
      → IsSound qs
      → (r : HasRoom (suc k) qs) → p.id ≡ pos (suc r.count)
      → lookup (naming.name v) qs.vals ≡ none
      → Added naming v k qs p.id (with_name v p.id p qs)
  unfolding append_primitive
  Added-new v k p qs h r new missing =
      let read = λ (s : String). lookup-write (naming.name v) s p.id qs.vals in
      let own = (string_eq.beq_iff (naming.name v) (naming.name v)).1 refl in
      let eq = λ (s : String). string_eq.beq_iff (naming.name v) s in
      let positive : (p.id == pos 0) ≡ false = rw new (ground arith) in
      record {
        nonzero = positive;
        known = ground (arith, read (naming.name v), own);
        extends = record { names = λ s j e. ground (arith, read s, eq s, e, missing) };
        sound = record {
          nonzero = λ s j e. elim (write-cases (naming.name v) s p.id j qs.vals e) [
            | inl same ↦ rw (← same) positive
            | inr old ↦ h.nonzero s j old
          ];
          present = λ s j e. elim (write-cases (naming.name v) s p.id j qs.vals e) [
            | inl same ↦
                subst (λ i. IsPresent i (with_name v p.id p qs)) same
                  (IsPresent-other p.id p.id (write (naming.name v) p.id qs.vals)
                    (append_primitive p qs) (IsPresent-new p qs))
            | inr old ↦
                IsPresent-other j p.id (write (naming.name v) p.id qs.vals) (append_primitive p qs)
                  (IsPresent-append j p qs (h.present s j old))
          ];
        };
        room = record { count = suc r.count; is_last = new; below = omega (arith, r.below) };
      }

  resolve_named-Added :
      (v : V) (k : ℕ) (qs : QuadStore V T)
      → IsSound qs
      → HasRoom (suc k) qs
      → (id : ℤ) × (qs' : QuadStore V T) × (resolve_named naming v true
            (lookup (naming.name v) qs.vals)
            qs
          ≡ done (id, true, qs'))
        × Added naming v k qs id qs'
  unfolding resolve_named take_ref add_primitive
  resolve_named-Added v k qs h r = elim (Option-cases (lookup (naming.name v) qs.vals)) [
    | inr (id, found) ↦ elim (Option-cases (prim_at id qs)) [
      | inl lost ↦ absurd (ground (arith, h.present (naming.name v) id found, lost))
      | inr (p, at) ↦ (
        id,
        add_refs (pos 1) p qs,
        rw (resolve_named, take_ref, found, at) refl,
        Added-known v k id p qs h r found,
      )
    ]
    | inl missing ↦
        let id = qs.last +ℤ pos 1 in
        let p : Primitive V = record { id = id; quad = no_quad; value = some v; refs = pos 1 } in
        let next_id : id ≡ pos (suc r.count) =
          ap (λ l. l +ℤ pos 1) r.is_last
          ∙ pos-add r.count 1 (omega (arith, r.below))
          ∙ ap pos {y = suc r.count} (omega arith) in
        (id, with_name v id p qs, rw missing refl, Added-new v k p qs h r next_id missing)
  ]

  -- A value that is no internal blank node is resolved by its name.
  pub resolve_val-Added :
      (v : V) (k : ℕ) (qs : QuadStore V T)
      → naming.internal_id v ≡ none
      → IsSound qs
      → HasRoom (suc k) qs
      → (id : ℤ) × (qs' : QuadStore V T) × (resolve_val naming (some v) true qs
          ≡ done (id, true, qs'))
        × Added naming v k qs id qs'
  unfolding resolve_val resolve_value
  resolve_val-Added v k qs plain h r =
      let (id, qs', resolved, added) = resolve_named-Added v k qs h r in
      (id, qs', rw plain resolved, added)

  -- A name that the store knows is found without adding.
  pub resolve_val-known :
      (v : V) (id : ℤ) (qs : QuadStore V T)
      → naming.internal_id v ≡ none
      → lookup (naming.name v) qs.vals ≡ some id
      → resolve_val naming (some v) false qs ≡ done (id, true, qs)
  unfolding resolve_val resolve_value resolve_named
  resolve_val-known v id qs plain found = rw (plain, found) refl
