-- ===== src/Shape/Laws/Sorting.antt =====
-- graph/shape/shape.go: the second pass of Optimize of Intersect.
use cayley.Prelude.{
  ℕ, zero, suc, ◌+◌, ◌≤◌, Bool, true, false, not, ◌&&◌, ◌||◌, Option, none, some, is_some, List, [],
  ◌∷◌, Eq, String, string_eq, is_empty, length-append, Returns, refl, ◌≡◌, ◌∙◌, ap, sym, arith,
  Bool-cases, inl, inr, all, elem,
}
use cayley.Quad.{direction_eq}
use cayley.Shape.{
  Shape, Shapes, QuadFilters, is_null, all_nodes, quads, fixed, intersect, save, optional, end,
  part,
}
use cayley.Shape.Meaning.{
  View, plain_part, inhabited, has, has_all, has_ends, plain, plain_parts, plain_filters, firm,
  some_firm, weight, weight_parts,
}
use cayley.Shape.Optimize.Intersect.{Pass, keep, merge_filters, sort_part, sort_parts}
use cayley.Shape.Laws.Faithful.{part_plain, and_left, and_right, and_both, weight_pos}
use cayley.Shape.Laws.Quads.{has-append}
use cayley.Shape.Laws.Parts.{
  plain_parts-append, some_firm-append, weight_parts-append, has_all-append, has-intersect,
}
use cayley.Shape.Laws.Passes.{
  plain_fixeds, kept_and, fixed_and, quads_and, later_and, firm_keep, firm_later, firm_last,
  firm_middle, tag_weight-append, all_last, append-is_empty, plain_found, firm_pass, weight_pass,
  plain_found-merge, weight_found-merge,
}

module _ {V W F : Type 0} ⦃e : Eq V⦄ (m : View V W F) where
  abbrev pub has_found : Option (QuadFilters V W F) → V → Bool
  has_found none v = true
  has_found (some fs) v = has_ends m fs v

  abbrev pub has_pass : Pass V W F → V → Bool
  has_pass p v = has_all m p.kept v && (all (λ vs. elem v vs) p.fixeds && has_found p.filters v)

  -- The pass, with the parts still to come, for the whole.
  pub record IsSorting (whole cs : Shapes V W F) (p : Pass V W F) : Type 0 where
    pub same : (v : V) → (has_pass p v && has_all m cs v) ≡ has_all m whole v
    pub plain_kept : plain_parts m p.kept ≡ true
    pub are_seen : plain_fixeds m p.fixeds ≡ true
    pub plain_quads : plain_found m p.filters ≡ true
    pub plain_rest : plain_parts m cs ≡ true
    pub is_firm : (some_firm cs || firm_pass p) ≡ true
    pub no_heavier : weight_parts cs + weight_pass p ≤ weight_parts whole
    pub all_so_far : p.only_all ≡ true → firm_pass p ≡ false

  has_found-merge :
      (found : Option (QuadFilters V W F)) (fs : QuadFilters V W F) (v : V)
      → has_ends m (merge_filters found fs) v ≡ (has_found found v && has_ends m fs v)
  has_found-merge none fs v = refl
  has_found-merge (some gs) fs v = has-append m gs fs v

  keep_lem :
      (whole : Shapes V W F) (c : Shape V W F) (cs : Shapes V W F) (p : Pass V W F)
      → IsSorting whole (part c cs) p
      → IsSorting whole cs (keep c p)
  unfolding has plain firm weight
  keep_lem whole c cs p h = record {
    same = λ v.
        ap (λ b. (b && (all (λ vs. elem v vs) p.fixeds && has_found p.filters v)) && has_all m cs v)
          (has_all-append m p.kept (part c end) v)
        ∙ kept_and (has_all m p.kept v) (has m c v) (all (λ vs. elem v vs) p.fixeds)
            (has_found p.filters v) (has_all m cs v)
        ∙ h.same v;
    plain_kept =
        plain_parts-append m p.kept (part c end)
        ∙ and_both (plain_parts m p.kept) (plain_part m c && true) h.plain_kept (
            and_both (plain_part m c) true
              (and_left (plain_part m c) (plain_parts m cs) h.plain_rest) refl);
    are_seen = h.are_seen;
    plain_quads = h.plain_quads;
    plain_rest = and_right (plain_part m c) (plain_parts m cs) h.plain_rest;
    is_firm =
        ap (λ b. some_firm cs || ((b || not (is_empty p.fixeds)) || is_some p.filters))
          (some_firm-append p.kept (part c end))
        ∙ firm_keep (firm c) (some_firm cs) (some_firm p.kept) (not (is_empty p.fixeds))
            (is_some p.filters) h.is_firm;
    no_heavier = omega (arith, h.no_heavier, weight_parts-append p.kept (part c end));
    all_so_far = λ u. ground arith;
  }

  -- One round of the pass, and one shape less to come.
  record IsStep (whole : Shapes V W F) (n : ℕ) (r : Shapes V W F × Pass V W F) : Type 0 where
    pub sorting : IsSorting whole r.0 r.1
    pub fewer : suc (weight_parts r.0) ≤ n

  keep-IsStep :
      (whole : Shapes V W F) (c : Shape V W F) (cs : Shapes V W F) (p : Pass V W F)
      → IsSorting whole (part c cs) p
      → IsStep whole (weight_parts (part c cs)) (cs, keep c p)
  unfolding weight
  keep-IsStep whole c cs p h = record {
    sorting = keep_lem whole c cs p h;
    fewer = omega (arith, weight_pos c);
  }

  -- A part that holds for every value is left out.
  gone-IsStep :
      (whole : Shapes V W F) (c : Shape V W F) (cs : Shapes V W F) (p : Pass V W F)
      → ((v : V) → has m c v ≡ true)
      → firm c ≡ false
      → IsSorting whole (part c cs) p
      → IsStep whole (weight_parts (part c cs)) (cs, record p { changed = true })
  unfolding has plain firm weight
  gone-IsStep whole c cs p g f h = record {
    sorting = record {
      same = λ v. ap (λ b. has_pass p v && (b && has_all m cs v)) (sym (g v)) ∙ h.same v;
      plain_kept = h.plain_kept;
      are_seen = h.are_seen;
      plain_quads = h.plain_quads;
      plain_rest = and_right (plain_part m c) (plain_parts m cs) h.plain_rest;
      is_firm = ap (λ b. (b || some_firm cs) || firm_pass p) (sym f) ∙ h.is_firm;
      no_heavier = omega (arith, h.no_heavier);
      all_so_far = h.all_so_far;
    };
    fewer = omega (arith, weight_pos c);
  }

  quads-IsStep :
      (whole : Shapes V W F) (fs : QuadFilters V W F) (cs : Shapes V W F) (p : Pass V W F)
      → IsSorting whole (part (quads fs) cs) p
      → IsStep whole (weight_parts (part (quads fs) cs)) (sort_part (quads fs) cs p)
  unfolding sort_part has plain firm weight
  quads-IsStep whole fs cs p h = record {
    sorting = record {
      same = λ v.
          ap (λ b. (has_all m p.kept v && (all (λ us. elem v us) p.fixeds && b)) && has_all m cs v)
            (has_found-merge p.filters fs v)
          ∙ quads_and (has_all m p.kept v) (has_ends m fs v) (all (λ us. elem v us) p.fixeds)
              (has_found p.filters v) (has_all m cs v)
          ∙ h.same v;
      plain_kept = h.plain_kept;
      are_seen = h.are_seen;
      plain_quads =
          plain_found-merge m p.filters fs
          ∙ and_both (plain_found m p.filters) (plain_filters m fs) h.plain_quads (
              part_plain m (quads fs)
                (and_left (plain_part m (quads fs)) (plain_parts m cs) h.plain_rest));
      plain_rest = and_right (plain_part m (quads fs)) (plain_parts m cs) h.plain_rest;
      is_firm = firm_last (some_firm cs) (some_firm p.kept) (not (is_empty p.fixeds));
      no_heavier = omega (arith, h.no_heavier, weight_found-merge p.filters fs);
      all_so_far = λ u. ground arith;
    };
    fewer = omega arith;
  }

  fixed-IsStep :
      (whole : Shapes V W F) (vs : List V) (cs : Shapes V W F) (p : Pass V W F)
      → IsSorting whole (part (fixed vs) cs) p
      → IsStep whole (weight_parts (part (fixed vs) cs)) (sort_part (fixed vs) cs p)
  unfolding sort_part has plain firm weight
  fixed-IsStep whole vs cs p h = record {
    sorting = record {
      same = λ v.
          ap (λ b. (has_all m p.kept v && (b && has_found p.filters v)) && has_all m cs v)
            (all_last (λ us. elem v us) p.fixeds vs)
          ∙ fixed_and (has_all m p.kept v) (elem v vs) (all (λ us. elem v us) p.fixeds)
              (has_found p.filters v) (has_all m cs v)
          ∙ h.same v;
      plain_kept = h.plain_kept;
      are_seen =
          all_last (λ us. inhabited m (fixed us)) p.fixeds vs
          ∙ and_both (plain_fixeds m p.fixeds) (inhabited m (fixed vs) && true) h.are_seen (
              and_both (inhabited m (fixed vs)) true
                (and_left (inhabited m (fixed vs)) true
                  (and_left (plain_part m (fixed vs)) (plain_parts m cs) h.plain_rest))
                refl);
      plain_quads = h.plain_quads;
      plain_rest = and_right (plain_part m (fixed vs)) (plain_parts m cs) h.plain_rest;
      is_firm =
          ap (λ b. some_firm cs || ((some_firm p.kept || not b) || is_some p.filters))
            (append-is_empty p.fixeds vs)
          ∙ firm_middle (some_firm cs) (some_firm p.kept) (is_some p.filters);
      no_heavier = omega (arith, h.no_heavier, length-append p.fixeds (vs ∷ []));
      all_so_far = λ u. ground arith;
    };
    fewer = omega arith;
  }

  nested-IsStep :
      (whole ds cs : Shapes V W F) (p : Pass V W F)
      → IsSorting whole (part (intersect ds) cs) p
      → IsStep whole (weight_parts (part (intersect ds) cs)) (sort_part (intersect ds) cs p)
  unfolding sort_part has plain firm weight
  nested-IsStep whole ds cs p h =
      let pd = and_right (inhabited m (intersect ds)) (some_firm ds && plain_parts m ds) (
        part_plain m (intersect ds)
          (and_left (plain_part m (intersect ds)) (plain_parts m cs) h.plain_rest)) in
      record {
        sorting = record {
          same = λ v.
              ap (λ b. has_pass p v && b) (has_all-append m cs ds v)
              ∙ later_and (has_pass p v) (has_all m ds v) (has_all m cs v)
              ∙ ap (λ b. has_pass p v && (b && has_all m cs v))
                  (sym (has-intersect m ds v (and_left (some_firm ds) (plain_parts m ds) pd)))
              ∙ h.same v;
          plain_kept = h.plain_kept;
          are_seen = h.are_seen;
          plain_quads = h.plain_quads;
          plain_rest =
              plain_parts-append m cs ds
              ∙ and_both (plain_parts m cs) (plain_parts m ds)
                  (and_right (plain_part m (intersect ds)) (plain_parts m cs) h.plain_rest)
                  (and_right (some_firm ds) (plain_parts m ds) pd);
          is_firm =
              ap (λ b. b || firm_pass p) (some_firm-append cs ds)
              ∙ firm_later (some_firm ds) (some_firm cs) (firm_pass p) h.is_firm;
          no_heavier = omega (arith, h.no_heavier, weight_parts-append cs ds);
          all_so_far = λ u. ground arith;
        };
        fewer = omega (arith, weight_parts-append cs ds);
      }

  save-IsStep :
      (whole : Shapes V W F) (tags : List String) (from : Shape V W F) (cs : Shapes V W F)
      (p : Pass V W F)
      → IsSorting whole (part (save tags from) cs) p
      → IsStep whole (weight_parts (part (save tags from) cs)) (sort_part (save tags from) cs p)
  unfolding sort_part has plain firm weight
  save-IsStep whole tags from cs p h = record {
    sorting = record {
      same = h.same;
      plain_kept = h.plain_kept;
      are_seen = h.are_seen;
      plain_quads = h.plain_quads;
      plain_rest = h.plain_rest;
      is_firm = h.is_firm;
      no_heavier = omega (arith, h.no_heavier, tag_weight-append p.tags tags);
      all_so_far = λ u. ground arith;
    };
    fewer = omega arith;
  }

  sort_part-IsStep :
      (whole : Shapes V W F) (c : Shape V W F) (cs : Shapes V W F) (p : Pass V W F)
      → IsSorting whole (part c cs) p
      → IsStep whole (weight_parts (part c cs)) (sort_part c cs p)
  unfolding sort_part has firm
  sort_part-IsStep whole all_nodes cs p h = gone-IsStep whole all_nodes cs p (λ v. refl) refl h
  sort_part-IsStep whole (optional from) cs p h = elim (Bool-cases (is_null from)) [
    | inl no_from ↦ rw no_from (gone-IsStep whole (optional from) cs p (λ v. refl) refl h)
    | inr with_from ↦ rw with_from (keep-IsStep whole (optional from) cs p h)
  ]
  sort_part-IsStep whole (quads fs) cs p h = quads-IsStep whole fs cs p h
  sort_part-IsStep whole (fixed vs) cs p h = fixed-IsStep whole vs cs p h
  sort_part-IsStep whole (intersect ds) cs p h = nested-IsStep whole ds cs p h
  sort_part-IsStep whole (save tags from) cs p h = save-IsStep whole tags from cs p h
  sort_part-IsStep whole c cs p h = keep-IsStep whole c cs p h

  -- The fuel of the pass is the number of the shapes.
  pub sort_parts-IsSorting :
      (n : ℕ) (whole cs : Shapes V W F) (p : Pass V W F)
      → IsSorting whole cs p
      → weight_parts cs ≤ n
      → Returns (sort_parts n cs p) (λ q. IsSorting whole end q)
  unfolding sort_parts weight
  sort_parts-IsSorting n whole end p h w = h
  sort_parts-IsSorting zero whole (part c cs) p h w = absurd (omega (arith, weight_pos c))
  sort_parts-IsSorting (suc n) whole (part c cs) p h w =
      let r = sort_part-IsStep whole c cs p h in
      sort_parts-IsSorting n whole (sort_part c cs p).0 (sort_part c cs p).1 r.sorting
        (omega (arith, r.fewer))
