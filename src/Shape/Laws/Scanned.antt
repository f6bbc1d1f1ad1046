-- ===== src/Shape/Laws/Scanned.antt =====
-- graph/shape/shape.go: the loop of Optimize of Intersect over its parts.
use cayley.Prelude.{
  ℕ, ◌<◌, Bool, true, false, ◌&&◌, ◌||◌, Option, none, some, Eq, string_eq, if◌then◌else◌, done,
  ◌>>=◌, Returns, Returns-bind, ◌≡◌, ◌∙◌, ap, sym, arith, Bool-cases, inl, inr,
}
use cayley.Quad.{direction_eq}
use cayley.Shape.{Shape, Shapes, is_null, end, part}
use cayley.Shape.Optimize.{Optimize}
use cayley.Shape.Meaning.{
  View, IsFaithful, Keeps, has, has_all, plain, plain_part, plain_parts, weight, weight_parts,
}
use cayley.Shape.Optimize.Intersect.{intersect_parts, scanned}
use cayley.Shape.Laws.Faithful.{and_left, and_right, part_plain, has-is_null, not_nil}
use cayley.Shape.Laws.Parts.{AreFaithful, AreFaithful-end, AreFaithful-cons, chosen}

pub contradicted : (b : Bool) → b ≡ true → b ≡ false → ⊥
contradicted b h k = ground arith

pub fixed_first : (x k : Bool) → (x && k) ≡ ((k && (x && true)) && true)
fixed_first x k = ground arith

pub none_left : (k x : Bool) → false ≡ ((k && (x && false)) && true)
none_left k x = ground arith

pub firm_quads : (k q x : Bool) → q ≡ true → ((k || (q || false)) || x) ≡ true
firm_quads k q x h = ground arith

pub quads_last : (x k q : Bool) → (x && (k && (q && true))) ≡ ((k && (x && q)) && true)
quads_last x k q = ground arith

pub and_false : (a : Bool) → (a && false) ≡ false
and_false a = ground arith

module _ {V W F : Type 0} ⦃e : Eq V⦄ (m : View V W F) (rec : Optimize V W F) (n : ℕ)
    (keeps : Keeps m rec n) where
  -- What the loop over the parts leaves: nil, where one of them has no values.
  abbrev pub IsScanned : Shapes V W F → Option (Shapes V W F × Bool) → Type 0
  IsScanned cs none = (v : V) → has_all m cs v ≡ false
  IsScanned cs (some (ds, opt)) = AreFaithful m cs ds

  pub none_all :
      (c : Shape V W F) (cs : Shapes V W F)
      → ((v : V) → has m c v ≡ false)
      → (v : V) → has_all m (part c cs) v ≡ false
  unfolding has
  none_all c cs h v = ap (λ b. b && has_all m cs v) (h v)

  pub none_later :
      (c : Shape V W F) (cs : Shapes V W F)
      → ((v : V) → has_all m cs v ≡ false)
      → (v : V) → has_all m (part c cs) v ≡ false
  unfolding has
  none_later c cs h v = ap (λ b. has m c v && b) (h v) ∙ and_false (has m c v)

  pub scanned_lem :
      (c d : Shape V W F) (cs : Shapes V W F) (found : Option (Shapes V W F × Bool))
      → IsFaithful m c d
      → plain_part m c ≡ true
      → IsScanned cs found
      → IsScanned (part c cs) (scanned d found)
  scanned_lem c d cs none f p h = none_later c cs h
  scanned_lem c d cs (some (ds, opt)) f p h = AreFaithful-cons m c d cs ds f p h

  pub rest_lem :
      (c d : Shape V W F) (cs : Shapes V W F) (opt : Bool)
      → IsFaithful m c d
      → plain_part m c ≡ true
      → Returns (intersect_parts rec cs opt) (IsScanned cs)
      → Returns
          (if is_null d
            then done none
            else intersect_parts rec cs opt >>= λ found. done (scanned d found))
          (IsScanned (part c cs))
  rest_lem c d cs opt f p h = elim (Bool-cases (is_null d)) [
    | inl gone ↦ rw gone (none_all c cs λ v. sym (f.same v) ∙ has-is_null m d v gone)
    | inr there ↦ rw there (
        Returns-bind (IsScanned cs) (IsScanned (part c cs)) (intersect_parts rec cs opt)
          (λ found. done (scanned d found)) h λ found g. scanned_lem c d cs found f p g)
  ]

  pub intersect_parts_lem :
      (cs : Shapes V W F) (opt : Bool)
      → plain_parts m cs ≡ true
      → weight_parts cs < n
      → Returns (intersect_parts rec cs opt) (IsScanned cs)
  unfolding intersect_parts plain weight
  intersect_parts_lem end opt p w = AreFaithful-end m
  intersect_parts_lem (part c cs) opt p w =
      let pp = and_left (plain_part m c) (plain_parts m cs) p in
      let pc = part_plain m c pp in
      elim (Bool-cases (is_null c)) [
        | inl gone ↦ rw gone (none_all c cs λ v. has-is_null m c v gone)
        | inr there ↦ rw there (
            Returns-bind (λ x. IsFaithful m c x.0) (IsScanned (part c cs)) (rec c)
              (λ x.
                if is_null (if x.1 then x.0 else c)
                then done none
                else intersect_parts rec cs (opt || x.1) >>= λ found.
                    done (scanned (if x.1 then x.0 else c) found))
              (keeps c (not_nil m c there) pc (omega arith))
              λ x f.
                rest_lem c (if x.1 then x.0 else c) cs (opt || x.1) (chosen m c x.0 x.1 f pc) pp (
                  intersect_parts_lem cs (opt || x.1)
                    (and_right (plain_part m c) (plain_parts m cs) p) (omega arith)))
      ]
