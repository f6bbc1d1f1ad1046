-- ===== src/Iterator/Laws/Rules.antt =====
-- How the code behind a call of `Next` or `Contains` is reasoned about: one case for each answer.
use cayley.Prelude.{
  ℕ, ◌<◌, Bool, true, false, List, [], ◌∷◌, Outcome, ◌>>=◌, ◌≡◌, sym, subst, inl, inr, List-cases,
  Bool-cases, Returns, Returns-bind, refl, ◌∙◌,
}
use cayley.Graph.Value.{Value}
use cayley.Graph.Iterator.{Iterator}
use cayley.Iterator.Laws.{
  Sequence, Enumerates, Steps, Stopped, Produced, Membership, Decides, Checked,
}

module _ {N E S B : Type 0} (it : Iterator N E S) where
  pub next_rule :
      (n : Sequence N E S) (seq : Enumerates it n) (fuel : ℕ) (s : S) (Q : B → Type 0)
      (f : Bool × S → Outcome B)
      → n.Valid s
      → n.cost s < fuel
      → ((s' : S) → n.rest s ≡ [] → Stopped it n s (false, s') → Returns (f (false, s')) Q)
      → ((v : Value N) (vs : List (Value N)) (s' : S)
          → n.rest s ≡ v ∷ vs
          → Produced it n s v vs (true, s')
          → Returns (f (true, s')) Q)
      → Returns (it.next fuel s >>= f) Q
  next_rule n seq fuel s Q f valid c stopped produced = elim (List-cases (n.rest s)) [
    | inl e ↦
        Returns-bind (Stopped it n s) Q (it.next fuel s) f
          (subst (λ l. Returns (it.next fuel s) (Steps it n s l)) e (seq.next_law fuel s valid c))
          λ r h.
            subst (λ b. Returns (f (b, r.1)) Q) (sym h.refused)
              (stopped r.1 e (record {
                refused = refl;
                valid = h.valid;
                empty = h.empty;
                reason = h.reason;
                same_stop = h.same_stop;
                cheaper = h.cheaper;
              }))
    | inr (v, vs, e) ↦
        Returns-bind (Produced it n s v vs) Q (it.next fuel s) f
          (subst (λ l. Returns (it.next fuel s) (Steps it n s l)) e (seq.next_law fuel s valid c))
          λ r h.
            subst (λ b. Returns (f (b, r.1)) Q) (sym h.moved)
              (produced v vs r.1 e (record {
                moved = refl;
                valid = h.valid;
                value = h.value;
                remains = h.remains;
                no_error = h.no_error;
                same_stop = h.same_stop;
                cheaper = h.cheaper;
              }))
  ]

  pub contains_rule :
      (m : Membership N S) (law : Decides it m) (fuel : ℕ) (v : Value N) (s : S) (Q : B → Type 0)
      (f : Bool × S → Outcome B)
      → m.Valid s
      → m.cost s < fuel
      → ((s' : S) → m.has s v ≡ true → Checked it m s v (true, s') → Returns (f (true, s')) Q)
      → ((s' : S) → m.has s v ≡ false → Checked it m s v (false, s') → Returns (f (false, s')) Q)
      → Returns (it.contains fuel v s >>= f) Q
  contains_rule m law fuel v s Q f valid c held lacked =
      Returns-bind (Checked it m s v) Q (it.contains fuel v s) f (law.contains_law fuel v s valid c)
        λ r h. elim (Bool-cases r.0) [
          | inl e ↦
              subst (λ b. Returns (f (b, r.1)) Q) (sym e)
                (held r.1 (sym h.answer ∙ e) (retold r true e h))
          | inr e ↦
              subst (λ b. Returns (f (b, r.1)) Q) (sym e)
                (lacked r.1 (sym h.answer ∙ e) (retold r false e h))
        ]
    where
      retold : (r : Bool × S) (b : Bool) → r.0 ≡ b → Checked it m s v r → Checked it m s v (b, r.1)
      retold r b e h = record {
        answer = sym e ∙ h.answer;
        valid = h.valid;
        same = h.same;
        cheaper = h.cheaper;
      }
