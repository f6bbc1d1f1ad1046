-- ===== src/Shape/Laws/Quads.antt =====
-- graph/shape/shape.go: Optimize of Quads, without an optimizer.
use cayley.Prelude.{
  ℕ, ◌+◌, ◌<◌, ◌≤◌, Bool, true, false, not, ◌&&◌, ◌||◌, Option, none, some, Eq, ◌==◌, string_eq,
  if◌then◌else◌, done, Returns, Returns-bind, refl, ◌≡◌, ◌∙◌, ap, sym, arith, Bool-cases, inl, inr,
}
use cayley.Quad.{Direction, direction_eq}
use cayley.Shape.{Shape, QuadFilters, append, is_nil, nil, quads, stop, link}
use cayley.Shape.Optimize.{Optimize}
use cayley.Shape.Meaning.{
  View, IsFaithful, Keeps, has, has_ends, plain, plain_filter, plain_filters, firm, weight,
  weight_filters, leads_away, at_end,
}
use cayley.Shape.Optimize.Quads.{Swept, sweep_filter, sweep, quads_result, optimize_quads}
use cayley.Shape.Laws.Faithful.{
  plain_filter-same, filter_plain, IsFaithful-refl, IsFaithful-nil, and_left, and_right, and_both,
  and_true,
}
use cayley.Shape.Laws.Filters.{
  at_end-ext, at_end-false, and_assoc, or_assoc, or_false, and_swap, or_swap, IsMeasure,
  x-sweep_filter, plain-append, leads_away-append, weight-append,
}

module _ {V W F : Type 0} ⦃e : Eq V⦄ (m : View V W F) where
  pub has-append :
      (fs gs : QuadFilters V W F) (q : V)
      → has_ends m (append fs gs) q ≡ (has_ends m fs q && has_ends m gs q)
  unfolding has
  has-append stop gs q = refl
  has-append (link d s fs) gs q =
      ap (λ b. at_end (m.end_of q d) (λ v. has m s v) && b) (has-append fs gs q)
      ∙ sym (and_assoc (at_end (m.end_of q d) (λ v. has m s v)) (has_ends m fs q) (has_ends m gs q))

  -- The filters `acc` and those still to come, for the whole.
  pub record IsSweeping (whole acc fs : QuadFilters V W F) : Type 0 where
    pub same : (q : V) → (has_ends m acc q && has_ends m fs q) ≡ has_ends m whole q
    pub acc_plain : plain_filters m acc ≡ true
    pub rest_plain : plain_filters m fs ≡ true
    pub away : (d : Direction) → (leads_away d acc || leads_away d fs) ≡ leads_away d whole
    pub no_heavier : weight_filters acc + weight_filters fs ≤ weight_filters whole

  ends_IsMeasure : (q : V) → IsMeasure V W F (λ fs. has_ends m fs q) ◌&&◌
  ends_IsMeasure q = record {
    joins = λ fs gs. has-append fs gs q;
    commutes = λ a b. ground arith;
    associates = and_assoc;
  }

  plain_IsMeasure : IsMeasure V W F (plain_filters m) ◌&&◌
  plain_IsMeasure = record {
    joins = plain-append m;
    commutes = λ a b. ground arith;
    associates = and_assoc;
  }

  away_IsMeasure : (c : Direction) → IsMeasure V W F (leads_away c) ◌||◌
  away_IsMeasure c = record {
    joins = leads_away-append c;
    commutes = λ a b. ground arith;
    associates = or_assoc;
  }

  weight_IsMeasure : IsMeasure V W F weight_filters ◌+◌
  weight_IsMeasure = record {
    joins = weight-append;
    commutes = λ a b. omega arith;
    associates = λ a b c. omega arith;
  }

  pub ends_link :
      (d : Direction) (s : Shape V W F) (fs : QuadFilters V W F) (q : V)
      → has_ends m (link d s fs) q ≡ (at_end (m.end_of q d) (λ v. has m s v) && has_ends m fs q)
  unfolding has
  ends_link d s fs q = refl

  pub ends_stop : (q : V) → has_ends m stop q ≡ true
  unfolding has
  ends_stop q = refl

  -- A filter with a faithful replacement of its values.
  pub ends-faithful :
      (d : Direction) (s v : Shape V W F) (q : V)
      → IsFaithful m s v
      → has_ends m (link d v stop) q ≡ (at_end (m.end_of q d) (λ v. has m s v) && true)
  ends-faithful d s v q f =
      ends_link d v stop q
      ∙ ap (λ b. at_end (m.end_of q d) (λ v'. has m v v') && b) (ends_stop q)
      ∙ ap (λ b. b && true) (at_end-ext (m.end_of q d) (λ v'. has m v v') (λ v'. has m s v') f.same)

  sweep_step :
      (whole : QuadFilters V W F) (sw : Swept V W F) (d : Direction) (s v : Shape V W F) (ok : Bool)
      (fs : QuadFilters V W F)
      → IsSweeping whole (append sw.firsts sw.others) (link d s fs)
      → IsFaithful m s v
      → IsSweeping whole (append (sweep_filter d v ok sw).firsts (sweep_filter d v ok sw).others) fs
  unfolding plain weight
  sweep_step whole sw d s v ok fs h f =
      let acc = append sw.firsts sw.others in
      let x : V → Bool = λ q. at_end (m.end_of q d) (λ v'. has m s v') in
      record {
        same = λ q.
            ap (λ b. b && has_ends m fs q) (x-sweep_filter _ ◌&&◌ (ends_IsMeasure q) d v ok sw)
            ∙ ap (λ b. (b && has_ends m acc q) && has_ends m fs q) (ends-faithful d s v q f)
            ∙ and_swap (x q) (has_ends m acc q) (has_ends m fs q)
            ∙ ap (λ b. has_ends m acc q && b) (sym (ends_link d s fs q))
            ∙ h.same q;
        acc_plain =
            x-sweep_filter _ ◌&&◌ plain_IsMeasure d v ok sw
            ∙ and_both (plain_filter m d v && true) (plain_filters m acc)
                (and_both (plain_filter m d v) true
                  (plain_filter-same m d s v f.same f.still_plain
                    (and_left (plain_filter m d s) (plain_filters m fs) h.rest_plain))
                  refl)
                h.acc_plain;
        rest_plain = and_right (plain_filter m d s) (plain_filters m fs) h.rest_plain;
        away = λ c.
            ap (λ b. b || leads_away c fs) (x-sweep_filter _ ◌||◌ (away_IsMeasure c) d v ok sw)
            ∙ or_swap (not (d == c)) (leads_away c acc) (leads_away c fs)
            ∙ h.away c;
        no_heavier =
            omega
              (arith, x-sweep_filter _ ◌+◌ weight_IsMeasure d v ok sw, f.no_heavier, h.no_heavier);
      }

  either :
      (s v : Shape V W F) (ok : Bool)
      → IsFaithful m s v
      → plain m s ≡ true
      → IsFaithful m s (if ok then v else s)
  either s v true f h = f
  either s v false f h = IsFaithful-refl m s h

  plain_stop : plain_filters m stop ≡ true
  unfolding plain
  plain_stop = refl

  weight_stop :
      (fs : QuadFilters V W F)
      → weight_filters {V = V} {W = W} {F = F} stop + weight_filters fs ≤ weight_filters fs
  unfolding weight
  weight_stop fs = omega arith

  -- What the loop leaves: nil for filters that no quad passes, and else the filters.
  abbrev pub IsSwept : QuadFilters V W F → Option (Swept V W F) → Type 0
  IsSwept whole none = (q : V) → has_ends m whole q ≡ false
  IsSwept whole (some sw) = IsSweeping whole (append sw.firsts sw.others) stop

  ends_none :
      (whole acc fs : QuadFilters V W F) (d : Direction) (s : Shape V W F)
      → IsSweeping whole acc (link d s fs)
      → ((v : V) → has m s v ≡ false)
      → (q : V) → has_ends m whole q ≡ false
  ends_none whole acc fs d s h k q =
      sym (h.same q)
      ∙ ap (λ b. has_ends m acc q && b) (ends_link d s fs q)
      ∙ ap (λ b. has_ends m acc q && (b && has_ends m fs q))
          (at_end-false (m.end_of q d) (λ v. has m s v) k)
      ∙ ground arith

  pub has-is_nil : (s : Shape V W F) (v : V) → is_nil s ≡ true → has m s v ≡ false
  unfolding has
  has-is_nil nil v h = refl
  has-is_nil s v h = ground arith

  pub sweep_lem :
      (rec : Optimize V W F) (n : ℕ) (whole fs : QuadFilters V W F) (sw : Swept V W F)
      → Keeps m rec n
      → IsSweeping whole (append sw.firsts sw.others) fs
      → weight_filters whole < n
      → Returns (sweep rec fs sw) (IsSwept whole)
  unfolding sweep plain weight
  sweep_lem rec n whole stop sw k h w = h
  sweep_lem rec n whole (link d s fs) sw k h w = elim (Bool-cases (is_nil s)) [
    | inl yes_nil ↦
        rw yes_nil
          (ends_none whole (append sw.firsts sw.others) fs d s h λ v. has-is_nil s v yes_nil)
    | inr not_nil ↦ rw not_nil (
        Returns-bind (λ p. IsFaithful m s p.0) (IsSwept whole) (rec s)
          (λ p.
            if is_nil p.0
            then done none
            else sweep rec fs (sweep_filter d (if p.1 then p.0 else s) p.1 sw))
          (k s not_nil
            (filter_plain m d s (and_left (plain_filter m d s) (plain_filters m fs) h.rest_plain))
            (omega (arith, h.no_heavier)))
          λ p f. elim (Bool-cases (is_nil p.0)) [
            | inl now_nil ↦ rw now_nil (
                ends_none whole (append sw.firsts sw.others) fs d s h
                  λ v. sym (f.same v) ∙ has-is_nil p.0 v now_nil)
            | inr kept ↦ rw kept (
                sweep_lem rec n whole fs (sweep_filter d (if p.1 then p.0 else s) p.1 sw) k
                  (sweep_step whole sw d s (if p.1 then p.0 else s) p.1 fs h (
                    either s p.0 p.1 f (
                      filter_plain m d s
                        (and_left (plain_filter m d s) (plain_filters m fs) h.rest_plain))))
                  w)
          ])
  ]

  swept_result_lem :
      (fs : QuadFilters V W F) (found : Option (Swept V W F))
      → IsSwept fs found
      → Returns (quads_result none found) (λ p. IsFaithful m (quads fs) p.0)
  unfolding has plain weight firm
  swept_result_lem fs none h = IsFaithful-nil m (quads fs) h
  swept_result_lem fs (some sw) h =
      let gs = append sw.firsts sw.others in
      record {
        same = λ q. sym (and_true (has_ends m gs q)) ∙ h.same q;
        still_plain = h.acc_plain;
        still_unbounded = λ u. ground arith;
        still_away = λ d u. sym (or_false (leads_away d gs)) ∙ h.away d ∙ u;
        still_firm = λ f. refl;
        no_heavier = omega (arith, h.no_heavier);
      }

  pub quads_lem :
      (rec : Optimize V W F) (n : ℕ) (fs : QuadFilters V W F)
      → Keeps m rec n
      → plain_filters m fs ≡ true
      → weight_filters fs < n
      → Returns (optimize_quads rec none fs) (λ p. IsFaithful m (quads fs) p.0)
  unfolding optimize_quads
  quads_lem rec n fs k h w =
      let begin : Swept V W F = record { firsts = stop; others = stop; changed = false } in
      Returns-bind (IsSwept fs) (λ p. IsFaithful m (quads fs) p.0) (sweep rec fs begin)
        (quads_result none)
        (sweep_lem rec n fs fs begin k
          (record {
            same = λ q. ap (λ b. b && has_ends m fs q) (ends_stop q);
            acc_plain = plain_stop;
            rest_plain = h;
            away = λ d. refl;
            no_heavier = weight_stop fs;
          })
          w)
        (swept_result_lem fs)
