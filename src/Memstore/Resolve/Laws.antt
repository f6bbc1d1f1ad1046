-- ===== src/Memstore/Resolve/Laws.antt =====
-- Resolving a quad without adding its values: what it finds, and that it changes nothing.
use cayley.Prelude.{
  Bool, true, false, not, List, [], ◌∷◌, Option, none, some, ◌≡◌, refl, inl, inr, All, done,
  Returns, Returns-bind, Bool-cases, Option-cases, string_eq, is_some, ◌==◌,
}
use cayley.Prelude.Int64.{ℤ, pos, eq_ℤ}
use cayley.Prelude.Assoc.{lookup}
use cayley.Quad.{Direction, subject, predicate, object, label, any, illegal, directions, Quad, get}
use cayley.Memstore.{InternalQuad, no_quad, set_dir, Naming, QuadStore, prim_at}
use cayley.Memstore.Resolve.{
  resolve_internal, resolve_named, resolve_value, resolve_val, resolve_dirs, resolve_quad,
  find_quad,
}

-- One of the four directions of a quad.
abbrev pub IsLegal : Direction → Type 0
IsLegal any = ⊥
IsLegal (illegal b) = ⊥
IsLegal d = Unit {0}

pub get-legal :
    {V : Type 0} (q : Quad V) (d : Direction) → IsLegal d → (v : Option V) × (get q d ≡ done v)
unfolding get
get-legal q subject h = (q.subject, refl)
get-legal q predicate h = (q.predicate, refl)
get-legal q object h = (q.object, refl)
get-legal q label h = (q.label, refl)
get-legal q any h = absurd h
get-legal q (illegal b) h = absurd h

pub set_dir-legal :
    (p : InternalQuad) (d : Direction) (id : ℤ)
    → IsLegal d
    → (p' : InternalQuad) × (set_dir p d id ≡ done p')
unfolding set_dir
set_dir-legal p subject id h = (record p { s = id }, refl)
set_dir-legal p predicate id h = (record p { p = id }, refl)
set_dir-legal p object id h = (record p { o = id }, refl)
set_dir-legal p label id h = (record p { l = id }, refl)
set_dir-legal p any id h = absurd h
set_dir-legal p (illegal b) id h = absurd h

module _ {V T : Type 0} (naming : Naming V) where
  resolve_named-same :
      (v : V) (known : Option ℤ) (qs : QuadStore V T)
      → (id : ℤ) × (b : Bool) × (resolve_named naming v false known qs ≡ done (id, b, qs))
  unfolding resolve_named
  resolve_named-same v none qs = (pos 0, false, refl)
  resolve_named-same v (some id) qs = (id, true, refl)

  resolve_value-same :
      (v : V) (internal : Option ℤ) (qs : QuadStore V T)
      → (id : ℤ) × (b : Bool) × (resolve_value naming v false internal qs ≡ done (id, b, qs))
  unfolding resolve_value resolve_internal
  resolve_value-same v (some id) qs = (id, is_some (prim_at id qs), refl)
  resolve_value-same v none qs = resolve_named-same v (lookup (naming.name v) qs.vals) qs

  resolve_val-same :
      (v : V) (qs : QuadStore V T)
      → (id : ℤ) × (b : Bool) × (resolve_val naming (some v) false qs ≡ done (id, b, qs))
  unfolding resolve_val
  resolve_val-same v qs = resolve_value-same v (naming.internal_id v) qs

  resolve_dirs-same :
      (q : Quad V) (ds : List Direction) (p : InternalQuad) (qs : QuadStore V T)
      → All IsLegal ds
      → Returns (resolve_dirs naming q false ds p qs) (λ r. r.2 ≡ qs)
  unfolding resolve_dirs
  resolve_dirs-same q [] p qs h = refl
  resolve_dirs-same q (d ∷ ds) p qs (l, h) =
      let (v, got) = get-legal q d l in
      elim (Option-cases v) [
        | inl nil ↦ rw (Returns, got, nil) (resolve_dirs-same q ds p qs h)
        | inr (w, is) ↦
            let (id, b, found) = resolve_val-same w qs in
            elim (Bool-cases (id == pos 0)) [
              | inl missing ↦ rw (Returns, got, is, found, missing) refl
              | inr known ↦
                  let (p', put) = set_dir-legal p d id l in
                  rw (Returns, got, is, found, known, put) (resolve_dirs-same q ds p' qs h)
            ]
      ]

  resolve_quad-same :
      (q : Quad V) (qs : QuadStore V T) → Returns (resolve_quad naming q false qs) (λ r. r.2 ≡ qs)
  unfolding resolve_quad
  resolve_quad-same q qs = resolve_dirs-same q directions no_quad qs (tt, (tt, (tt, (tt, tt))))

  -- `findQuad` returns for every quad and changes nothing; it finds a quad if and only if the id
  -- that it returns is not 0.
  pub find_quad-same :
      (q : Quad V) (qs : QuadStore V T)
      → Returns (find_quad naming q qs) (λ r. (r.3 ≡ qs) × (r.2 ≡ not (r.0 == pos 0)))
  unfolding find_quad
  find_quad-same q qs =
      Returns-bind (λ r. r.2 ≡ qs) _ (resolve_quad naming q false qs) _ (resolve_quad-same q qs)
        λ r same. elim (Bool-cases r.1) [
          | inl known ↦ rw known (same, refl)
          | inr unknown ↦ rw unknown (same, refl)
        ]
