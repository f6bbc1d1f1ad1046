-- ===== src/Shape/Laws/Page.antt =====
-- graph/shape/shape.go: ApplyPage, against the results that a Page lets through.
use cayley.Prelude.{
  ℕ, zero, suc, ◌+◌, ◌-◌, ◌^◌, ◌<◌, ◌≤◌, Bool, true, false, Option, none, some, List, [], ◌∷◌, take,
  drop, leb, min, ◌&&◌, if◌then◌else◌, ◌≡◌, refl, ◌∙◌, ap, sym, arith, Bool-cases, inl, inr,
}
use cayley.Prelude.Int64.{ℤ, pos, negsuc, ltb_ℤ, leb_ℤ, ◌-ℤ◌, pos-add, pos-sub, wrap64}
use cayley.Shape.Optimize.Single.{Paging, apply_page}

left_none : (l b : ℕ) → l ≤ b → b < 2 ^ 63 → leb_ℤ (pos l -ℤ pos b) (pos 0) ≡ true
unfolding ◌-ℤ◌ wrap64
left_none l b h k = ground arith

min_left : (k n : ℕ) → ltb_ℤ (pos (suc k)) (pos (suc n)) ≡ true → min (suc k) (suc n) ≡ suc k
min_left k n h = ground arith

min_right : (k n : ℕ) → ltb_ℤ (pos (suc k)) (pos (suc n)) ≡ false → min (suc k) (suc n) ≡ suc n
min_right k n h = ground arith

module _ {A : Type 0} where
  -- The iterators of a Page's `BuildIterator`: a Skip and a Limit, each where its field is positive.
  abbrev pub skipped : ℤ → List A → List A
  skipped (pos n) xs = drop n xs
  skipped (negsuc n) xs = xs

  abbrev pub limited : ℤ → List A → List A
  limited (pos zero) xs = xs
  limited (pos (suc n)) xs = take (suc n) xs
  limited (negsuc n) xs = xs

  abbrev pub paged : Paging → List A → List A
  paged s xs = limited s.limit (skipped s.skip xs)

  -- What is left of the results under a Page that may be nil.
  abbrev pub paged_or_none : Option Paging → List A → List A
  paged_or_none none xs = []
  paged_or_none (some s) xs = paged s xs

  drop_of : (n k : ℕ) (xs : List A) → n ≡ k → drop n xs ≡ drop k xs
  drop_of n k xs h = ap (λ i. drop i xs) h

  take_of : (n k : ℕ) (xs : List A) → n ≡ k → take n xs ≡ take k xs
  take_of n k xs h = ap (λ i. take i xs) h

  drop_nil : (n : ℕ) → drop {A = A} n [] ≡ []
  drop_nil zero = refl
  drop_nil (suc n) = refl

  take_nil : (n : ℕ) → take {A = A} n [] ≡ []
  take_nil zero = refl
  take_nil (suc n) = refl

  drop-drop : (a b : ℕ) (xs : List A) → drop b (drop a xs) ≡ drop (a + b) xs
  drop-drop zero b xs = drop_of b (zero + b) xs (omega arith)
  drop-drop (suc a) b [] = drop_nil b ∙ sym (drop_nil (suc a + b))
  drop-drop (suc a) b (x ∷ xs) =
      drop-drop a b xs ∙ drop_of (suc (a + b)) (suc a + b) (x ∷ xs) (omega arith)

  drop-take : (b l : ℕ) (xs : List A) → drop b (take l xs) ≡ take (l - b) (drop b xs)
  drop-take zero l xs = take_of l (l - zero) xs (omega arith)
  drop-take (suc b) zero xs = sym (take_of (zero - suc b) zero (drop (suc b) xs) (omega arith))
  drop-take (suc b) (suc l) [] = sym (take_nil (suc l - suc b))
  drop-take (suc b) (suc l) (x ∷ xs) =
      drop-take b l xs ∙ take_of (l - b) (suc l - suc b) (drop b xs) (omega arith)

  take-take : (k l : ℕ) (xs : List A) → take k (take l xs) ≡ take (min k l) xs
  take-take zero l xs = take_of zero (min zero l) xs (omega arith)
  take-take (suc k) zero xs = take_of zero (min (suc k) zero) xs (omega arith)
  take-take (suc k) (suc l) [] = sym (take_nil (min (suc k) (suc l)))
  take-take (suc k) (suc l) (x ∷ xs) =
      ap (λ ys. x ∷ ys) (take-take k l xs)
      ∙ take_of (suc (min k l)) (min (suc k) (suc l)) (x ∷ xs) (omega arith)

  -- A limit over what is left of a Page with a limit.
  limited-paged :
      (a b l : ℕ) (q : ℤ) (xs : List A)
      → limited q (drop b (take l (drop a xs))) ≡ limited q (take (l - b) (drop (a + b) xs))
  limited-paged a b l q xs =
      ap (limited q) (drop-take b l (drop a xs) ∙ ap (take (l - b)) (drop-drop a b xs))

  limited_cut :
      (left : ℕ) (q : ℤ) (ys : List A)
      → 0 < left
      → (if ltb_ℤ (pos 0) q && ltb_ℤ q (pos left) then limited q ys else limited (pos left) ys)
        ≡ limited q (take left ys)
  limited_cut zero q ys h = absurd (omega arith)
  limited_cut (suc n) (pos zero) ys h = refl
  limited_cut (suc n) (negsuc k) ys h =
      let test : ltb_ℤ (pos 0) (negsuc k) ≡ false = ground arith in rw test refl
  limited_cut (suc n) (pos (suc k)) ys h =
      let test : ltb_ℤ (pos 0) (pos (suc k)) ≡ true = ground arith in
      elim (Bool-cases (ltb_ℤ (pos (suc k)) (pos (suc n)))) [
        | inl less ↦
            rw (test, less)
              (sym (
                take-take (suc k) (suc n) ys
                ∙ take_of (min (suc k) (suc n)) (suc k) ys (min_left k n less)))
        | inr more ↦
            rw (test, more)
              (sym (
                take-take (suc k) (suc n) ys
                ∙ take_of (min (suc k) (suc n)) (suc n) ys (min_right k n more)))
      ]

  limited_nil : (q : ℤ) → limited q [] ≡ []
  limited_nil (pos zero) = refl
  limited_nil (pos (suc n)) = refl
  limited_nil (negsuc n) = refl

  paged_if :
      (c : Bool) (s t : Paging) (xs : List A)
      → paged_or_none (if c then some s else some t) xs ≡ (if c then paged s xs else paged t xs)
  paged_if true s t xs = refl
  paged_if false s t xs = refl

  -- The Page for both, where the first has no limit or one that is not used up.
  page_left :
      (a b left : ℕ) (q : ℤ) (xs : List A)
      → 0 < left
      → paged_or_none
          (if ltb_ℤ (pos 0) q && ltb_ℤ q (pos left)
            then some (record { skip = pos (a + b); limit = q })
            else some (record { skip = pos (a + b); limit = pos left }))
          xs
        ≡ limited q (take left (drop (a + b) xs))
  page_left a b left q xs h =
      paged_if (ltb_ℤ (pos 0) q && ltb_ℤ q (pos left)) (record { skip = pos (a + b); limit = q })
        (record { skip = pos (a + b); limit = pos left }) xs
      ∙ limited_cut left q (drop (a + b) xs) h

  -- ApplyPage, of a Page to the results of another, with Skips that are not negative and whose sum
  -- is an int64, lets the same results through as the one Page after the other: none of them, where
  -- it returns nil.
  pub apply_page-paged :
      (a b : ℕ) (l q : ℤ) (xs : List A)
      → a + b < 2 ^ 63
      → ltb_ℤ l (pos (2 ^ 63)) ≡ true
      → paged_or_none
          (apply_page (record { skip = pos a; limit = l }) (record { skip = pos b; limit = q }))
          xs
        ≡ paged (record { skip = pos b; limit = q }) (paged (record { skip = pos a; limit = l }) xs)
  unfolding apply_page
  apply_page-paged a b (pos zero) q xs h k =
      rw (pos-add a b h) (ap (limited q) (sym (drop-drop a b xs)))
  apply_page-paged a b (pos (suc l)) q xs h k =
      let test : ltb_ℤ (pos 0) (pos (suc l)) ≡ true = ground arith in
      let room : suc l < 2 ^ 63 = ground (arith, k) in
      elim (Bool-cases (leb (suc l) b)) [
        | inl used ↦
            let gone : leb_ℤ (pos (suc l) -ℤ pos b) (pos 0) ≡ true =
              left_none (suc l) b (ground (arith, used)) (omega (arith, h)) in
            rw (test, gone)
              (sym (
                limited-paged a b (suc l) q xs
                ∙ ap (limited q) (take_of (suc l - b) 0 (drop (a + b) xs) (ground (arith, used)))
                ∙ limited_nil q))
        | inr left ↦
            let more : b < suc l = ground (arith, left) in
            let rest : pos (suc l) -ℤ pos b ≡ pos (suc l - b) =
              pos-sub (suc l) b room (omega (arith, more)) in
            let some_left : leb_ℤ (pos (suc l - b)) (pos 0) ≡ false = ground (arith, more) in
            rw (test, rest, some_left, pos-add a b h)
              (page_left a b (suc l - b) q xs (omega (arith, more))
                ∙ sym (limited-paged a b (suc l) q xs))
      ]
  apply_page-paged a b (negsuc l) q xs h k =
      let test : ltb_ℤ (pos 0) (negsuc l) ≡ false = ground arith in
      rw (test, pos-add a b h) (ap (limited q) (sym (drop-drop a b xs)))
