-- ===== src/Shape/Laws/Parts.antt =====
-- graph/shape/shape.go: replacements of the parts of an Intersect or a Union, one by one.
use cayley.Prelude.{
  suc, ◌+◌, ◌≤◌, Bool, true, false, ◌&&◌, ◌||◌, Option, some, is_some, List, Eq, String, string_eq,
  if◌then◌else◌, refl, ◌≡◌, ◌∙◌, ap, sym, arith,
}
use cayley.Quad.{direction_eq}
use cayley.Shape.{Shape, Shapes, ◌⧺◌, fixed_tags, intersect, end, part}
use cayley.Shape.Optimize.{write_all, tags_of, strip_parts}
use cayley.Shape.Meaning.{
  View, IsFaithful, has, has_all, has_any, plain, plain_part, plain_parts, firm, some_firm,
  all_firm, weight, weight_parts,
}
use cayley.Shape.Laws.Filters.{and_assoc, or_assoc}
use cayley.Shape.Laws.Faithful.{
  and_left, and_right, and_both, plain_part-same, part_plain, IsFaithful-refl,
}

pub or_both :
    (a b a' b' : Bool)
    → (a ≡ true → a' ≡ true)
    → (b ≡ true → b' ≡ true)
    → (a || b) ≡ true
    → (a' || b') ≡ true
or_both true b a' b' f g h = rw (f refl) refl
or_both false b true b' f g h = refl
or_both false b false b' f g h = g h

module _ {V W F : Type 0} ⦃e : Eq V⦄ (m : View V W F) where
  pub record AreFaithful (cs ds : Shapes V W F) : Type 0 where
    pub same_any : (v : V) → has_any m ds v ≡ has_any m cs v
    pub same_all : (v : V) → has_all m ds v ≡ has_all m cs v
    pub still_plain : plain_parts m ds ≡ true
    pub still_firm : all_firm cs ≡ true → all_firm ds ≡ true
    pub still_some : some_firm cs ≡ true → some_firm ds ≡ true
    pub no_heavier : weight_parts ds ≤ weight_parts cs

  pub AreFaithful-end : AreFaithful end end
  unfolding has plain firm weight
  AreFaithful-end = record {
    same_any = λ v. refl;
    same_all = λ v. refl;
    still_plain = refl;
    still_firm = λ f. refl;
    still_some = λ f. f;
    no_heavier = omega arith;
  }

  -- A part without its FixedTags, or any replacement that keeps these four.
  pub AreFaithful-part :
      (c d : Shape V W F) (cs ds : Shapes V W F)
      → ((v : V) → has m d v ≡ has m c v)
      → plain_part m d ≡ true
      → (firm c ≡ true → firm d ≡ true)
      → weight d ≤ weight c
      → AreFaithful cs ds
      → AreFaithful (part c cs) (part d ds)
  unfolding has plain firm weight
  AreFaithful-part c d cs ds s p f w h = record {
    same_any = λ v. ap (λ b. b || has_any m ds v) (s v) ∙ ap (λ b. has m c v || b) (h.same_any v);
    same_all = λ v. ap (λ b. b && has_all m ds v) (s v) ∙ ap (λ b. has m c v && b) (h.same_all v);
    still_plain = and_both (plain_part m d) (plain_parts m ds) p h.still_plain;
    still_firm = λ g.
        and_both (firm d) (all_firm ds) (f (and_left (firm c) (all_firm cs) g))
          (h.still_firm (and_right (firm c) (all_firm cs) g));
    still_some = or_both (firm c) (some_firm cs) (firm d) (some_firm ds) f h.still_some;
    no_heavier = omega (arith, w, h.no_heavier);
  }

  pub AreFaithful-cons :
      (c d : Shape V W F) (cs ds : Shapes V W F)
      → IsFaithful m c d
      → plain_part m c ≡ true
      → AreFaithful cs ds
      → AreFaithful (part c cs) (part d ds)
  AreFaithful-cons c d cs ds f p h =
      AreFaithful-part c d cs ds f.same (plain_part-same m c d f.same f.still_plain p) f.still_firm
        f.no_heavier h

  pub chosen :
      (c v : Shape V W F) (ok : Bool)
      → IsFaithful m c v
      → plain m c ≡ true
      → IsFaithful m c (if ok then v else c)
  chosen c v true f p = f
  chosen c v false f p = IsFaithful-refl m c p

  -- `clearFixedTags` keeps the values, and takes the weight of FixedTags away.
  pub record AreStripped (cs : Shapes V W F) (tags : Option (List (String × V)))
      (r : Shapes V W F × Option (List (String × V))) : Type 0 where
    pub faithful : AreFaithful cs r.0
    pub lighter :
        is_some tags ≡ false → is_some r.1 ≡ true → suc (weight_parts r.0) ≤ weight_parts cs

  pub strip_parts-AreStripped :
      (cs : Shapes V W F) (tags : Option (List (String × V)))
      → plain_parts m cs ≡ true
      → AreStripped cs tags (strip_parts cs tags)
  unfolding strip_parts has plain firm weight
  strip_parts-AreStripped end tags p = record {
    faithful = AreFaithful-end;
    lighter = λ h k. absurd (ground arith);
  }
  strip_parts-AreStripped (part (fixed_tags kvs on) cs) tags p =
      let tags' = some (write_all kvs (tags_of tags)) in
      let h =
        strip_parts-AreStripped cs tags'
          (and_right (plain_part m (fixed_tags kvs on)) (plain_parts m cs) p) in
      record {
        faithful =
            AreFaithful-part (fixed_tags kvs on) on cs (strip_parts cs tags').0 (λ v. refl)
              (plain_part-same m (fixed_tags kvs on) on (λ v. refl)
                (part_plain m (fixed_tags kvs on)
                  (and_left (plain_part m (fixed_tags kvs on)) (plain_parts m cs) p))
                (and_left (plain_part m (fixed_tags kvs on)) (plain_parts m cs) p))
              (λ f. f) (omega arith) h.faithful;
        lighter = λ _ _. omega (arith, h.faithful.no_heavier);
      }
  strip_parts-AreStripped (part c cs) tags p =
      let h = strip_parts-AreStripped cs tags (and_right (plain_part m c) (plain_parts m cs) p) in
      record {
        faithful =
            AreFaithful-part c c cs (strip_parts cs tags).0 (λ v. refl)
              (and_left (plain_part m c) (plain_parts m cs) p) (λ f. f) (omega arith) h.faithful;
        lighter = λ a b. omega (arith, h.lighter a b);
      }

module _ {V W F : Type 0} ⦃e : Eq V⦄ (m : View V W F) where
  pub plain_parts-append :
      (cs ds : Shapes V W F) → plain_parts m (cs ⧺ ds) ≡ (plain_parts m cs && plain_parts m ds)
  unfolding plain
  plain_parts-append end ds = refl
  plain_parts-append (part c cs) ds =
      ap (λ b. plain_part m c && b) (plain_parts-append cs ds)
      ∙ sym (and_assoc (plain_part m c) (plain_parts m cs) (plain_parts m ds))

module _ {V W F : Type 0} where
  pub some_firm-append :
      (cs ds : Shapes V W F) → some_firm (cs ⧺ ds) ≡ (some_firm cs || some_firm ds)
  unfolding firm
  some_firm-append end ds = refl
  some_firm-append (part c cs) ds =
      ap (λ b. firm c || b) (some_firm-append cs ds)
      ∙ sym (or_assoc (firm c) (some_firm cs) (some_firm ds))

  pub weight_parts-append :
      (cs ds : Shapes V W F) → weight_parts (cs ⧺ ds) ≡ weight_parts cs + weight_parts ds
  unfolding weight
  weight_parts-append end ds = omega arith
  weight_parts-append (part c cs) ds = omega (arith, weight_parts-append cs ds)

module _ {V W F : Type 0} ⦃e : Eq V⦄ (m : View V W F) where
  pub has_all-append :
      (cs ds : Shapes V W F) (v : V) → has_all m (cs ⧺ ds) v ≡ (has_all m cs v && has_all m ds v)
  unfolding has
  has_all-append end ds v = refl
  has_all-append (part c cs) ds v =
      ap (λ b. has m c v && b) (has_all-append cs ds v)
      ∙ sym (and_assoc (has m c v) (has_all m cs v) (has_all m ds v))

  -- An Intersect with a firm part is no empty one.
  pub has-intersect :
      (cs : Shapes V W F) (v : V) → some_firm cs ≡ true → has m (intersect cs) v ≡ has_all m cs v
  unfolding has firm
  has-intersect end v h = ground arith
  has-intersect (part c cs) v h = refl
