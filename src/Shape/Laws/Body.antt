-- ===== src/Shape/Laws/Body.antt =====
-- graph/shape/shape.go: Optimize of Intersect behind its second pass.
use cayley.Prelude.{
  ℕ, suc, ◌+◌, ◌<◌, ◌≤◌, Bool, true, false, not, ◌&&◌, ◌||◌, Option, none, some, is_some, List, [],
  ◌∷◌, Eq, String, string_eq, if◌then◌else◌, Outcome, done, ◌>>=◌, is_empty, length, Returns,
  Returns-bind, refl, ◌≡◌, ◌∙◌, ap, sym, arith, Bool-cases, subst, inl, inr, all, elem, fun_ext,
}
use cayley.Quad.{direction_eq}
use cayley.Shape.{Shape, Shapes, ◌⧺◌, QuadFilters, is_null, nil, all_nodes, quads, save, end, part}
use cayley.Shape.Optimize.{Replaced, Optimize}
use cayley.Shape.Meaning.{
  View, IsFaithful, Keeps, has, has_all, has_ends, plain, plain_part, inhabited, seen, plain_parts,
  firm, some_firm, weight, weight_parts, weight_filters,
}
use cayley.Shape.Optimize.Single.{optimize_save}
use cayley.Shape.Optimize.Quads.{optimize_quads}
use cayley.Shape.Optimize.Intersect.{
  Pass, place_fixed, filters_result, quads_placed, intersect_body, save_tags, intersect_sorted,
}
use cayley.Shape.Laws.Single.{save_lem}
use cayley.Shape.Laws.Faithful.{and_both, has-is_null}
use cayley.Shape.Laws.Quads.{quads_lem}
use cayley.Shape.Laws.Filters.{or_false}
use cayley.Shape.Laws.Parts.{
  plain_parts-append, some_firm-append, weight_parts-append, has_all-append,
}
use cayley.Shape.Laws.Sorting.{IsSorting, has_found}
use cayley.Shape.Laws.Passes.{tag_weight, weight_found, plain_found, plain_fixeds, firm_pass}
use cayley.Shape.Laws.Push.{seen-weaken, left_over, place_fixed_lem}
use cayley.Shape.Laws.Action.{Stands, Stands-nil}
use cayley.Shape.Laws.Scanned.{contradicted, fixed_first, none_left, firm_quads, quads_last}

quads_of : (k x q w : Bool) → ((k && (x && q)) && true) ≡ w → w ≡ true → q ≡ true
quads_of k x q w h z = ground arith

module _ {V W F : Type 0} ⦃e : Eq V⦄ (m : View V W F) (rec : Optimize V W F) (n : ℕ)
    (keeps : Keeps m rec n) where
  -- A result of the body, which leaves room for a Save with the tags.
  abbrev pub IsBody : Shapes V W F → Pass V W F → Replaced V W F → Type 0
  IsBody whole p q =
      Stands m (has_all m whole) (suc (weight_parts whole)) q.0
      × (weight q.0 + tag_weight p.tags ≤ suc (weight_parts whole))

  pub IsBody-Stands :
      (whole : Shapes V W F) (p : Pass V W F) (x : V → Bool) (k : ℕ) (s : Shape V W F) (opt : Bool)
      → Stands m x k s
      → ((v : V) → x v ≡ has_all m whole v)
      → k + tag_weight p.tags ≤ suc (weight_parts whole)
      → IsBody whole p (s, opt)
  IsBody-Stands whole p x k s opt h g w = (
    record {
      same = λ v. h.same v ∙ g v;
      is_plain = h.is_plain;
      is_firm = h.is_firm;
      light = omega (arith, h.light, w);
    },
    omega (arith, h.light, w),
  )

  pub filters_result_lem :
      (whole : Shapes V W F) (p : Pass V W F) (fs : QuadFilters V W F) (q : Replaced V W F)
      → ((v : V)
          → ((has_all m p.kept v && (all (λ vs. elem v vs) p.fixeds && has_ends m fs v)) && true)
            ≡ has_all m whole v)
      → plain_parts m p.kept ≡ true
      → plain_fixeds m p.fixeds ≡ true
      → seen m (has_all m whole) ≡ true
      → IsFaithful m (quads fs) q.0
      → (weight_parts p.kept + length p.fixeds) + (suc (weight_filters fs) + tag_weight p.tags)
        ≤ weight_parts whole
      → IsBody whole p (filters_result p q)
  unfolding place_fixed has plain firm weight
  filters_result_lem whole p fs q h pk i z g w = elim (Bool-cases (is_null q.0)) [
    | inl gone ↦ rw gone (
        IsBody-Stands whole p (λ v. false) 1 nil true
          (Stands-nil m (λ v. false) 1 (λ v. refl) (omega arith))
          (λ v.
            none_left (has_all m p.kept v) (all (λ vs. elem v vs) p.fixeds)
            ∙ ap (λ b. (has_all m p.kept v && (all (λ vs. elem v vs) p.fixeds && b)) && true)
                (sym (has-is_null m q.0 v gone) ∙ g.same v)
            ∙ h v)
          (omega (arith, w)))
    | inr there ↦
        let cs = p.kept ⧺ part q.0 end in
        let r = place_fixed p.fixeds cs (p.changed || q.1) in
        let seen_quads : inhabited m q.0 ≡ true =
          seen-weaken m (has_all m whole) (has m q.0)
            (λ v a.
              g.same v
              ∙ quads_of (has_all m p.kept v) (all (λ vs. elem v vs) p.fixeds) (has_ends m fs v)
                  (has_all m whole v) (h v) a)
            z in
        let whole_left : (v : V) → left_over m p.fixeds cs v ≡ has_all m whole v = λ v.
          ap (λ b. all (λ vs. elem v vs) p.fixeds && b) (has_all-append m p.kept (part q.0 end) v)
          ∙ ap (λ b. all (λ vs. elem v vs) p.fixeds && (has_all m p.kept v && (b && true)))
              (g.same v)
          ∙ quads_last (all (λ vs. elem v vs) p.fixeds) (has_all m p.kept v) (has_ends m fs v)
          ∙ h v in
        rw there (
          IsBody-Stands whole p (left_over m p.fixeds cs) (suc (length p.fixeds + weight_parts cs))
            r.0 r.1
            (place_fixed_lem m p.fixeds cs (p.changed || q.1)
              (plain_parts-append m p.kept (part q.0 end)
                ∙ and_both (plain_parts m p.kept) (plain_part m q.0 && true) pk (
                    and_both (plain_part m q.0) true
                      (and_both (inhabited m q.0) (plain m q.0) seen_quads g.still_plain) refl))
              (ap (λ b. b || not (is_empty p.fixeds)) (some_firm-append p.kept (part q.0 end))
                ∙ firm_quads (some_firm p.kept) (firm q.0) (not (is_empty p.fixeds))
                    (g.still_firm refl))
              i (ap (seen m) (fun_ext whole_left) ∙ z))
            whole_left (omega (arith, w, g.no_heavier, weight_parts-append p.kept (part q.0 end))))
  ]

  pub quads_placed_lem :
      (whole : Shapes V W F) (p : Pass V W F) (found : Option (QuadFilters V W F))
      → ((v : V)
          → ((has_all m p.kept v && (all (λ vs. elem v vs) p.fixeds && has_found m found v))
              && true)
            ≡ has_all m whole v)
      → plain_parts m p.kept ≡ true
      → plain_found m found ≡ true
      → plain_fixeds m p.fixeds ≡ true
      → seen m (has_all m whole) ≡ true
      → ((some_firm p.kept || not (is_empty p.fixeds)) || is_some found) ≡ true
      → (weight_parts p.kept + length p.fixeds) + (weight_found found + tag_weight p.tags)
        ≤ weight_parts whole
      → weight_parts whole < n
      → Returns (quads_placed rec found p) (IsBody whole p)
  unfolding place_fixed optimize_quads
  quads_placed_lem whole p none h pk pq i z f w k =
      IsBody-Stands whole p (left_over m p.fixeds p.kept)
        (suc (length p.fixeds + weight_parts p.kept)) (place_fixed p.fixeds p.kept p.changed).0
        (place_fixed p.fixeds p.kept p.changed).1
        (place_fixed_lem m p.fixeds p.kept p.changed pk
          (sym (or_false (some_firm p.kept || not (is_empty p.fixeds))) ∙ f) i
          (ap (seen m)
              (fun_ext λ v. fixed_first (all (λ vs. elem v vs) p.fixeds) (has_all m p.kept v) ∙ h v)
            ∙ z))
        (λ v. fixed_first (all (λ vs. elem v vs) p.fixeds) (has_all m p.kept v) ∙ h v)
        (omega (arith, w))
  quads_placed_lem whole p (some fs) h pk pq i z f w k =
      Returns-bind (λ q. IsFaithful m (quads fs) q.0) (IsBody whole p) (optimize_quads rec none fs)
        (λ q. done (filters_result p q)) (quads_lem m rec n fs keeps pq (omega (arith, w)))
        λ q g. filters_result_lem whole p fs q h pk i z g w

  pub saved_lem :
      (whole : Shapes V W F) (tags : List String) (s : Shape V W F) (opt : Bool)
      → weight_parts whole < n
      → Stands m (has_all m whole) (suc (weight_parts whole)) s
      → weight s + tag_weight tags ≤ suc (weight_parts whole)
      → Returns
          (save_tags rec tags (s, opt))
          (λ r. Stands m (has_all m whole) (suc (weight_parts whole)) r.0)
  unfolding save_tags optimize_save has plain firm weight
  saved_lem whole [] s opt w h k = h
  saved_lem whole (t ∷ ts) s opt w h k = elim (Bool-cases (is_null s)) [
    | inl gone ↦ rw gone h
    | inr there ↦
        let outside : Replaced V W F → Outcome (Replaced V W F) = λ q. done (q.0, opt || q.1) in
        subst
          (λ b.
            Returns (if b then done (s, opt) else optimize_save rec none (t ∷ ts) s >>= outside)
              (λ r. Stands m (has_all m whole) (suc (weight_parts whole)) r.0))
          (sym there)
          (Returns-bind (λ q. IsFaithful m (save (t ∷ ts) s) q.0)
            (λ q. Stands m (has_all m whole) (suc (weight_parts whole)) q.0)
            (optimize_save rec none (t ∷ ts) s) outside
            (save_lem m rec n keeps (t ∷ ts) s h.is_plain (omega (arith, k)))
            λ q f. record {
              same = λ v. f.same v ∙ h.same v;
              is_plain = f.still_plain;
              is_firm = f.still_firm h.is_firm;
              light = omega (arith, f.no_heavier, k);
            })
  ]

  pub save_tags_lem :
      (whole : Shapes V W F) (p : Pass V W F) (q : Replaced V W F)
      → weight_parts whole < n
      → IsBody whole p q
      → Returns
          (save_tags rec p.tags q)
          (λ r. Stands m (has_all m whole) (suc (weight_parts whole)) r.0)
  unfolding save_tags optimize_save
  save_tags_lem whole p (s, opt) w h = saved_lem whole p.tags s opt w h.0 h.1

  pub sorted_lem :
      (whole : Shapes V W F) (p : Pass V W F)
      → IsSorting m whole end p
      → seen m (has_all m whole) ≡ true
      → weight_parts whole < n
      → Returns
          (intersect_sorted rec p)
          (λ r. Stands m (has_all m whole) (suc (weight_parts whole)) r.0)
  unfolding intersect_sorted intersect_body has firm weight
  sorted_lem whole p h z w = elim (Bool-cases p.only_all) [
    | inl only_all ↦ absurd (contradicted (firm_pass p) h.is_firm (h.all_so_far only_all))
    | inr more ↦
        subst
          (λ b.
            Returns
              (if b then done (all_nodes, true) else intersect_body rec p >>= save_tags rec p.tags)
              (λ r. Stands m (has_all m whole) (suc (weight_parts whole)) r.0))
          (sym more)
          (Returns-bind (IsBody whole p)
            (λ r. Stands m (has_all m whole) (suc (weight_parts whole)) r.0) (intersect_body rec p)
            (save_tags rec p.tags)
            (quads_placed_lem whole p p.filters h.same h.plain_kept h.plain_quads h.are_seen z
              h.is_firm (omega (arith, h.no_heavier)) w)
            λ q g. save_tags_lem whole p q w g)
  ]
