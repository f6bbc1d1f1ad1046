-- ===== src/Shape/Laws/Filters.antt =====
-- graph/shape/shape.go: measures of the filters of a Quads, as its loop moves them about.
use cayley.Prelude.{
  ◌+◌, Bool, true, false, not, ◌&&◌, ◌||◌, Option, none, some, Eq, ◌==◌, string_eq, refl, ◌≡◌, ◌∙◌,
  ap, sym, arith,
}
use cayley.Quad.{Direction, direction_eq}
use cayley.Shape.{Shape, QuadFilters, append, fixed, stop, link}
use cayley.Shape.Meaning.{
  View, plain_filter, plain, plain_filters, weight, weight_filters, leads_away, at_end,
}
use cayley.Shape.Optimize.Quads.{Swept, rotate, sweep_filter}

pub at_end-ext :
    {V : Type 0} (o : Option V) (p q : V → Bool) → ((v : V) → p v ≡ q v) → at_end o p ≡ at_end o q
at_end-ext none p q h = refl
at_end-ext (some v) p q h = h v

pub at_end-false :
    {V : Type 0} (o : Option V) (p : V → Bool) → ((v : V) → p v ≡ false) → at_end o p ≡ false
at_end-false none p h = refl
at_end-false (some v) p h = h v

-- Conjunctions and disjunctions of filters, as they are moved about.
pub and_assoc : (a b c : Bool) → ((a && b) && c) ≡ (a && (b && c))
and_assoc a b c = ground arith

pub or_assoc : (a b c : Bool) → ((a || b) || c) ≡ (a || (b || c))
or_assoc a b c = ground arith

pub or_false : (b : Bool) → (b || false) ≡ b
or_false b = ground arith

pub and_last : (a x b : Bool) → (a && (x && b)) ≡ (x && (a && b))
and_last a x b = ground arith

pub and_twice : (a b : Bool) → (a && b) ≡ (a && (a && b))
and_twice a b = ground arith

pub and_swap : (x a r : Bool) → (((x && true) && a) && r) ≡ (a && (x && r))
and_swap x a r = ground arith

pub or_swap : (x a r : Bool) → (((x || false) || a) || r) ≡ (a || (x || r))
or_swap x a r = ground arith

-- How a measure of filters, with values in `A`, sees a list of them: `op` joins two lists.
pub record IsMeasure {A : Type 0} (V W F : Type 0) (x : QuadFilters V W F → A) (op : A → A → A)
    : Type 0 where
  pub joins : (fs gs : QuadFilters V W F) → x (append fs gs) ≡ op (x fs) (x gs)
  pub commutes : (a b : A) → op a b ≡ op b a
  pub associates : (a b c : A) → op (op a b) c ≡ op a (op b c)

module _ {V W F : Type 0} {A : Type 0} (x : QuadFilters V W F → A) (op : A → A → A)
    (h : IsMeasure V W F x op) where
  -- A rotation moves one filter behind the others.
  pub x-rotate : (fs : QuadFilters V W F) → x (rotate fs) ≡ x fs
  x-rotate stop = refl
  x-rotate (link d s fs) =
      h.joins fs (link d s stop)
      ∙ h.commutes (x fs) (x (link d s stop))
      ∙ sym (h.joins (link d s stop) fs)

  pub x-front :
      (fs gs : QuadFilters V W F) (g : QuadFilters V W F)
      → x (append (append fs g) (rotate gs)) ≡ op (x g) (x (append fs gs))
  x-front fs gs g =
      h.joins (append fs g) (rotate gs)
      ∙ ap (λ a. op a (x (rotate gs))) (h.joins fs g ∙ h.commutes (x fs) (x g))
      ∙ ap (λ b. op (op (x g) (x fs)) b) (x-rotate gs)
      ∙ h.associates (x g) (x fs) (x gs)
      ∙ ap (op (x g)) (sym (h.joins fs gs))

  pub x-back :
      (fs gs : QuadFilters V W F) (g : QuadFilters V W F)
      → x (append fs (append gs g)) ≡ op (x g) (x (append fs gs))
  x-back fs gs g =
      h.joins fs (append gs g)
      ∙ ap (op (x fs)) (h.joins gs g)
      ∙ sym (h.associates (x fs) (x gs) (x g))
      ∙ h.commutes (op (x fs) (x gs)) (x g)
      ∙ ap (op (x g)) (sym (h.joins fs gs))

  -- One round of the loop of a Quads adds a filter.
  pub x-sweep_filter :
      (d : Direction) (s : Shape V W F) (ok : Bool) (sw : Swept V W F)
      → x (append (sweep_filter d s ok sw).firsts (sweep_filter d s ok sw).others)
        ≡ op (x (link d s stop)) (x (append sw.firsts sw.others))
  x-sweep_filter d (fixed vs) ok sw = x-front sw.firsts sw.others (link d (fixed vs) stop)
  x-sweep_filter d s ok sw = x-back sw.firsts sw.others (link d s stop)

module _ {V W F : Type 0} ⦃e : Eq V⦄ (m : View V W F) where
  pub plain-append :
      (fs gs : QuadFilters V W F)
      → plain_filters m (append fs gs) ≡ (plain_filters m fs && plain_filters m gs)
  unfolding plain
  plain-append stop gs = refl
  plain-append (link d s fs) gs =
      ap (λ b. plain_filter m d s && b) (plain-append fs gs)
      ∙ sym (and_assoc (plain_filter m d s) (plain_filters m fs) (plain_filters m gs))

module _ {V W F : Type 0} where
  pub leads_away-append :
      (c : Direction) (fs gs : QuadFilters V W F)
      → leads_away c (append fs gs) ≡ (leads_away c fs || leads_away c gs)
  leads_away-append c stop gs = refl
  leads_away-append c (link d s fs) gs =
      ap (λ b. not (d == c) || b) (leads_away-append c fs gs)
      ∙ sym (or_assoc (not (d == c)) (leads_away c fs) (leads_away c gs))

  pub weight-append :
      (fs gs : QuadFilters V W F)
      → weight_filters (append fs gs) ≡ weight_filters fs + weight_filters gs
  unfolding weight
  weight-append stop gs = omega arith
  weight-append (link d s fs) gs = omega (arith, weight-append fs gs)
