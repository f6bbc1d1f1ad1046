-- ===== src/Shape/Laws/Passes.antt =====
-- graph/shape/shape.go: the variables of the second pass of Optimize of Intersect.
use cayley.Prelude.{
  ℕ, suc, ◌+◌, ◌≤◌, Bool, true, false, not, ◌&&◌, ◌||◌, Option, none, some, is_some, List, [], ◌∷◌,
  ◌++◌, Eq, String, string_eq, is_empty, length, all-append, refl, ◌≡◌, arith, all,
}
use cayley.Quad.{direction_eq}
use cayley.Shape.{QuadFilters, fixed}
use cayley.Shape.Meaning.{View, inhabited, plain_filters, some_firm, weight_parts, weight_filters}
use cayley.Shape.Optimize.Intersect.{Pass, merge_filters}
use cayley.Shape.Laws.Filters.{plain-append, weight-append}

-- Conjunctions of what stays (`k`), fixed values (`x`), quads (`q`) and what is to come (`t`).
pub kept_and :
    (k c x q t : Bool) → (((k && (c && true)) && (x && q)) && t) ≡ ((k && (x && q)) && (c && t))
kept_and k c x q t = ground arith

pub fixed_and :
    (k c x q t : Bool) → ((k && ((x && (c && true)) && q)) && t) ≡ ((k && (x && q)) && (c && t))
fixed_and k c x q t = ground arith

pub quads_and : (k c x q t : Bool) → ((k && (x && (q && c))) && t) ≡ ((k && (x && q)) && (c && t))
quads_and k c x q t = ground arith

pub later_and : (p c t : Bool) → (p && (t && c)) ≡ (p && (c && t))
later_and p c t = ground arith

pub firm_keep :
    (c t k x q : Bool)
    → ((c || t) || ((k || x) || q)) ≡ true
    → (t || (((k || (c || false)) || x) || q)) ≡ true
firm_keep c t k x q h = ground arith

pub firm_gone : (t p : Bool) → ((false || t) || p) ≡ true → (t || p) ≡ true
firm_gone t p h = h

pub firm_later : (c t p : Bool) → ((c || t) || p) ≡ true → ((t || c) || p) ≡ true
firm_later c t p h = ground arith

pub firm_last : (t k x : Bool) → (t || ((k || x) || true)) ≡ true
firm_last t k x = ground arith

pub firm_middle : (t k q : Bool) → (t || ((k || true) || q)) ≡ true
firm_middle t k q = ground arith

pub not_firm_keep : (k x q : Bool) → false ≡ true → ((k || x) || q) ≡ false
not_firm_keep k x q h = ground arith

-- A Save has the tags of one more shape.
abbrev pub tag_weight : List String → ℕ
tag_weight [] = 0
tag_weight (t ∷ ts) = 1

pub tag_weight-append : (ts us : List String) → tag_weight (ts ++ us) ≤ tag_weight ts + 1
tag_weight-append [] [] = omega arith
tag_weight-append [] (u ∷ us) = omega arith
tag_weight-append (t ∷ ts) us = omega arith

pub all_last :
    {A : Type 0} (f : A → Bool) (xs : List A) (x : A)
    → all f (xs ++ x ∷ []) ≡ (all f xs && (f x && true))
all_last f xs x = all-append f xs (x ∷ [])

pub append-is_empty : {A : Type 0} (xs : List A) (x : A) → is_empty (xs ++ x ∷ []) ≡ false
append-is_empty [] x = refl
append-is_empty (y ∷ xs) x = refl

module _ {V W F : Type 0} ⦃e : Eq V⦄ (m : View V W F) where
  -- What a Fixed in the pass stands for is in the store.
  abbrev pub plain_fixeds : List (List V) → Bool
  plain_fixeds vss = all (λ vs. inhabited m (fixed vs)) vss

  abbrev pub plain_found : Option (QuadFilters V W F) → Bool
  plain_found none = true
  plain_found (some fs) = plain_filters m fs

  pub plain_found-merge :
      (found : Option (QuadFilters V W F)) (fs : QuadFilters V W F)
      → plain_filters m (merge_filters found fs) ≡ (plain_found found && plain_filters m fs)
  plain_found-merge none fs = refl
  plain_found-merge (some gs) fs = plain-append m gs fs

module _ {V W F : Type 0} where
  abbrev pub weight_found : Option (QuadFilters V W F) → ℕ
  weight_found none = 0
  weight_found (some fs) = suc (weight_filters fs)

  -- What the pass has, so that not everything is gone.
  abbrev pub firm_pass : Pass V W F → Bool
  firm_pass p = (some_firm p.kept || not (is_empty p.fixeds)) || is_some p.filters

  abbrev pub weight_pass : Pass V W F → ℕ
  weight_pass p =
      (weight_parts p.kept + length p.fixeds) + (weight_found p.filters + tag_weight p.tags)

  pub weight_found-merge :
      (found : Option (QuadFilters V W F)) (fs : QuadFilters V W F)
      → suc (weight_filters (merge_filters found fs)) ≤ weight_found found + suc (weight_filters fs)
  weight_found-merge none fs = omega arith
  weight_found-merge (some gs) fs = omega (arith, weight-append gs fs)
