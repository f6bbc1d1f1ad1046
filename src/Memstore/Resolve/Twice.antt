-- ===== src/Memstore/Resolve/Twice.antt =====
-- A quad that was resolved with adding its values is resolved in the same way later on.
use cayley.Prelude.{
  ℕ, ◌+◌, ◌≤◌, Bool, true, false, List, [], ◌∷◌, none, some, ◌≡◌, refl, ap, ◌∙◌, ◌==◌, ◌>>=◌, inl,
  inr, All, done, Option-cases, string_eq, length, arith,
}
use cayley.Prelude.Int64.{ℤ, pos, eq_ℤ}
use cayley.Quad.{Direction, Quad, get}
use cayley.Memstore.{InternalQuad, set_dir, Naming, QuadStore}
use cayley.Memstore.Resolve.{resolve_val, resolve_dirs}
use cayley.Memstore.Resolve.Laws.{IsLegal, get-legal, set_dir-legal}
use cayley.Memstore.Resolve.Added.{IsSound, HasRoom, Extends, resolve_val-Added, resolve_val-known}

module _ {V : Type 0} (naming : Naming V) where
  -- No value of the quad is an internal blank node of the store.
  pub record IsPlain (q : Quad V) : Type 0 where
    pub plain : (d : Direction) (w : V) → get q d ≡ done (some w) → naming.internal_id w ≡ none

module _ {V T : Type 0} where
  pub HasRoom-weaken : {i j : ℕ} (qs : QuadStore V T) → i ≤ j → HasRoom j qs → HasRoom i qs
  HasRoom-weaken qs l r = record {
    count = r.count;
    is_last = r.is_last;
    below = omega (arith, l, r.below);
  }

-- The directions `ds` were resolved to `p'`, and will be wherever the names are known.
pub record Resolved {V T : Type 0} (naming : Naming V) (q : Quad V) (ds : List Direction)
    (p : InternalQuad) (k : ℕ) (qs : QuadStore V T) (p' : InternalQuad) (qs' : QuadStore V T)
    : Type 0 where
  pub extends : Extends qs qs'
  pub sound : IsSound qs'
  pub room : HasRoom k qs'
  pub again :
      (later : QuadStore V T)
      → Extends qs' later
      → resolve_dirs naming q false ds p later ≡ done (p', true, later)

module _ {V T : Type 0} (naming : Naming V) where
  -- One round of the loop of `resolveQuad`.
  resolve_dirs_nil :
      (q : Quad V) (add : Bool) (d : Direction) (ds : List Direction) (p : InternalQuad)
      (qs : QuadStore V T)
      → get q d ≡ done none
      → resolve_dirs naming q add (d ∷ ds) p qs ≡ resolve_dirs naming q add ds p qs
  unfolding resolve_dirs
  resolve_dirs_nil q add d ds p qs got = rw got refl

  resolve_dirs_value :
      (q : Quad V) (add b : Bool) (d : Direction) (ds : List Direction) (p p1 : InternalQuad)
      (qs qs1 : QuadStore V T) (w : V) (id : ℤ)
      → get q d ≡ done (some w)
      → resolve_val naming (some w) add qs ≡ done (id, b, qs1)
      → (id == pos 0) ≡ false
      → set_dir p d id ≡ done p1
      → resolve_dirs naming q add (d ∷ ds) p qs ≡ resolve_dirs naming q add ds p1 qs1
  unfolding resolve_dirs
  resolve_dirs_value q add b d ds p p1 qs qs1 w id got found nonzero put =
      rw (resolve_dirs, got, found, ◌>>=◌, nonzero, put) refl

  pub resolve_dirs-Resolved :
      (q : Quad V) (ds : List Direction) (p : InternalQuad) (k : ℕ) (qs : QuadStore V T)
      → All IsLegal ds
      → IsPlain naming q
      → IsSound qs
      → HasRoom (length ds + k) qs
      → (p' : InternalQuad) × (qs' : QuadStore V T) × (resolve_dirs naming q true ds p qs
          ≡ done (p', true, qs'))
        × Resolved naming q ds p k qs p' qs'
  unfolding resolve_dirs
  resolve_dirs-Resolved q [] p k qs l h s r = (
    p,
    qs,
    refl,
    record {
      extends = record { names = λ s id e. e };
      sound = s;
      room = HasRoom-weaken qs (omega arith) r;
      again = λ later e. refl;
    },
  )
  resolve_dirs-Resolved q (d ∷ ds) p k qs (l, ls) h s r =
      let (v, got) = get-legal q d l in
      elim (Option-cases v) [
        | inl nil ↦
            let (p', qs', resolved, rest) =
              resolve_dirs-Resolved q ds p k qs ls h s (HasRoom-weaken qs (omega arith) r) in
            (
              p',
              qs',
              resolve_dirs_nil q true d ds p qs (got ∙ ap done nil) ∙ resolved,
              record {
                extends = rest.extends;
                sound = rest.sound;
                room = rest.room;
                again = λ later e.
                    resolve_dirs_nil q false d ds p later (got ∙ ap done nil) ∙ rest.again later e;
              },
            )
        | inr (w, is) ↦
            let plain = h.plain d w (rw got (ap done is)) in
            let (id, qs1, added, new) =
              resolve_val-Added naming w (length ds + k) qs plain s
                (HasRoom-weaken qs (omega arith) r) in
            let (p1, put) = set_dir-legal p d id l in
            let (p', qs', resolved, rest) =
              resolve_dirs-Resolved q ds p1 k qs1 ls h new.sound new.room in
            (
              p',
              qs',
              resolve_dirs_value q true true d ds p p1 qs qs1 w id (got ∙ ap done is) added
                    new.nonzero put
                  ∙ resolved,
              record {
                extends = record {
                  names = λ s id e. rest.extends.names s id (new.extends.names s id e);
                };
                sound = rest.sound;
                room = rest.room;
                again = λ later e.
                    let known = resolve_val-known naming w id later plain (
                      e.names (naming.name w) id
                        (rest.extends.names (naming.name w) id new.known)) in
                    resolve_dirs_value q false true d ds p p1 later later w id (got ∙ ap done is)
                      known new.nonzero put
                    ∙ rest.again later e;
              },
            )
      ]
