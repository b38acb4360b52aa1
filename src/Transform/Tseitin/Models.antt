-- ===== src/Transform/Tseitin/Models.antt =====
-- The clauses of the conversion are satisfiable exactly when the formula is, by the same values of
-- its own variables.
use d_real_cmake.Prelude.{
  ℕ, ◌≤◌, ◌≡◌, ◌≢◌, refl, sym, ◌∙◌, ap, subst, Bool, true, not, ◌&&◌, some, List, [], ◌∷◌, arith,
  ◌⊎◌, inl, inr, Bool-cases, some_injective, bind-some, ltb, and_left, and_right, and-true,
}
use d_real_cmake.Symbolic.Syntax.{
  Variable, Formula, Formulas, var, conj, disj, neg, forall, nil, cons,
}
use d_real_cmake.Symbolic.Meaning.{Semantics, eval, eval_and}
use d_real_cmake.Symbolic.Builder.{Builder, MeansWell, BuildsFrom}
use d_real_cmake.Transform.Clauses.{is_atomic}
use d_real_cmake.Transform.NaiveCnfizer.Depth.{depth}
use d_real_cmake.Transform.Tseitin.{
  State, boolean_variable, define, advance, emplace, collect, finish, visit, visit_all, all_same,
  name_clauses, convert,
}
use d_real_cmake.Transform.Tseitin.Cnfize.{eval_clauses, same}
use d_real_cmake.Transform.Tseitin.Fresh.{Assigns, Below, Agree, Agree-refl}
use d_real_cmake.Transform.Tseitin.Steps.{Step, Holds, Numbered, emplace-Holds}
use d_real_cmake.Transform.Tseitin.Meaning.{
  Quantifies, visit-Visits, visit_all-Visits, forall-clauses, eval_and-all_same,
}
use d_real_cmake.Transform.Tseitin.Asked.{
  asked_all, asked_all-emplace, asked-Holds, Holds-asked, asked-head, eval-collect,
}

finish-emplace :
    (B : Builder) (head b : Variable) (g : Formula) (ds : List (Variable × Formula))
    → finish B (var head) (emplace b g ds) ≡ collect B head (emplace b g ds) []
unfolding finish emplace
finish-emplace B head b g [] = refl
finish-emplace B head b g (d ∷ ds) = elim (Bool-cases (ltb b.id d.0.id)) [
  | inl q ↦ rw q refl
  | inr q ↦ rw q refl
]

module _ (S : Semantics) (B : Builder) (M : MeansWell S B) (F : BuildsFrom B)
    (mentions : Formula → List Variable → Bool) (Q : Quantifies S mentions) (A : Assigns S)
    (fuel n : ℕ) where
  abbrev start : State
  start = record { next = n; definitions = [] }

  -- The result is the formula itself, or a variable whose definition has the formula's value.
  abbrev Headed : Formula → Formula × State → Type 0
  Headed f r =
      ((r.1.definitions ≡ []) × ((ρ : S.Env) → eval S r.0 ρ ≡ eval S f ρ))
      ⊎ ((i : ℕ) × (g : Formula) × (ds : List (Variable × Formula)) × (r.0
            ≡ var (boolean_variable i))
          × (r.1.definitions ≡ emplace (boolean_variable i) g ds)
          × Numbered (λ j. j ≢ i) ds
          × ((ρ : S.Env) → Holds S ds ρ → eval S g ρ ≡ eval S f ρ))

  kept :
      (f g : Formula) (r : Formula × State)
      → ((ρ : S.Env) → eval S g ρ ≡ eval S f ρ)
      → some (g, start) ≡ some r
      → Headed f r
  kept f g r h e = subst (Headed f) (some_injective e) (inl (refl, h))

  name_clauses-Headed :
      (f : Formula) (fs : Formulas) (r : Formula × State)
      → ((ρ : S.Env) → eval_and S fs ρ ≡ eval S f ρ)
      → name_clauses B fs start ≡ some r
      → Headed f r
  unfolding name_clauses define advance eval
  name_clauses-Headed f nil r same e = let z : ⊥ = cc in absurd z
  name_clauses-Headed f (cons g gs) r same e = elim (Bool-cases (all_same B g gs)) [
    | inl q ↦ kept f g r (λ ρ. sym (eval_and-all_same S B M g gs ρ q) ∙ same ρ) (rw q at e)
    | inr q ↦ subst (Headed f) (some_injective (rw q at e)) (
        inr (
          n,
          B.make_conjunction (cons g gs),
          [],
          refl,
          refl,
          tt,
          λ ρ h. M.conjunction_lem (cons g gs) ρ ∙ same ρ,
        ))
  ]

  visit-Headed :
      (f : Formula) (r : Formula × State)
      → Below n f
      → depth f ≤ fuel
      → visit B mentions fuel f start ≡ some r
      → Headed f r
  unfolding visit Below depth define advance eval
  visit-Headed (conj fs) r b d e =
      let ((gs, t), e1, e2) = bind-some (visit_all B mentions fuel fs start) _ r e in
      let inner =
        visit_all-Visits S B M F mentions Q A fuel n fs start (gs, t) b (omega arith) d e1 in
      subst (Headed (conj fs)) (some_injective e2) (
        inr (
          t.next,
          B.make_conjunction gs,
          t.definitions,
          refl,
          refl,
          inner.numbers (λ j. j ≢ t.next) (λ i k l. omega (arith, l)) tt,
          λ ρ h. M.conjunction_lem gs ρ ∙ (inner.means ρ (inner.new_fit ρ h)).0,
        ))
  visit-Headed (disj fs) r b d e =
      let ((gs, t), e1, e2) = bind-some (visit_all B mentions fuel fs start) _ r e in
      let inner =
        visit_all-Visits S B M F mentions Q A fuel n fs start (gs, t) b (omega arith) d e1 in
      subst (Headed (disj fs)) (some_injective e2) (
        inr (
          t.next,
          B.make_disjunction gs,
          t.definitions,
          refl,
          refl,
          inner.numbers (λ j. j ≢ t.next) (λ i k l. omega (arith, l)) tt,
          λ ρ h. M.disjunction_lem gs ρ ∙ (inner.means ρ (inner.new_fit ρ h)).1,
        ))
  visit-Headed (neg f) r b d e = elim (Bool-cases (is_atomic f)) [
    | inl a ↦ kept (neg f) (neg f) r (λ ρ. refl) (rw a at e)
    | inr a ↦
        let ((g, t), e1, e2) =
          bind-some (visit B mentions fuel f (advance start)) _ r (rw a at e) in
        let inner =
          visit-Visits S B M F mentions Q A fuel n f (advance start) (g, t) b (omega arith) d e1 in
        subst (Headed (neg f)) (some_injective e2) (
          inr (
            n,
            B.negation g,
            t.definitions,
            refl,
            refl,
            inner.numbers (λ j. j ≢ n) (λ i k l. omega (arith, k)) tt,
            λ ρ h. M.negation_lem g ρ ∙ ap not (inner.means ρ (inner.new_fit ρ h)),
          ))
  ]
  visit-Headed (forall vs f) r b d e =
      let (fs, e1, same) = forall-clauses S B M F mentions Q A fuel n vs f start r d e in
      name_clauses-Headed (forall vs f) fs r same e1
  visit-Headed f r b d e = kept f f r (λ ρ. refl) e

  -- A model of the formula gives the new variables values at which the clauses hold, and every
  -- environment at which the clauses hold is a model of the formula.
  abbrev pub Equisatisfiable : Formula → ℕ → List Formula → Type 0
  Equisatisfiable f m clauses =
      ((ρ : S.Env) → eval_clauses S clauses ρ ≡ true → eval S f ρ ≡ true)
      × ((ρ : S.Env)
          → eval S f ρ ≡ true
          → (σ : S.Env) × Agree S n n m ρ σ × (eval_clauses S clauses σ ≡ true))

  module _ (f : Formula) (below : Below n f) (m : ℕ) (out : List Formula) where
    plain-Equisatisfiable :
        (g : Formula)
        → ((ρ : S.Env) → eval S g ρ ≡ eval S f ρ)
        → finish B g [] ≡ some out
        → Equisatisfiable f m out
    unfolding finish eval_clauses
    plain-Equisatisfiable g value e =
        let list = some_injective e in
        (
          λ ρ h.
              let a : eval_clauses S (g ∷ []) ρ ≡ true = (rw (← list) at h) in
              sym (value ρ) ∙ and_left (eval S g ρ) true a,
          λ ρ h. (
            ρ,
            Agree-refl S n n m ρ,
            rw (← list) (and-true (eval S g ρ) true (value ρ ∙ h) refl),
          ),
        )

    named-Equisatisfiable :
        (b : Variable) (g : Formula) (ds : List (Variable × Formula))
        → Numbered (λ j. j ≢ b.id) ds
        → ((ρ : S.Env) → Holds S ds ρ → eval S g ρ ≡ eval S f ρ)
        → Step S n n m [] (emplace b g ds) (λ ρ. S.truth ρ b ≡ eval S f ρ)
        → finish B (var b) (emplace b g ds) ≡ some out
        → Equisatisfiable f m out
    unfolding eval_clauses
    named-Equisatisfiable b g ds fresh value step e =
        let clauses_lem : (ρ : S.Env) → eval_clauses S out ρ ≡ (eval S g ρ && asked_all S b ds ρ) =
          λ ρ.
            eval-collect S b B M (emplace b g ds) [] out ρ (sym (finish-emplace B b b g ds) ∙ e)
            ∙ asked_all-emplace S b b g ds ρ
            ∙ ap (λ t. t && asked_all S b ds ρ) (asked-head S b b g ρ refl) in
        (
          λ ρ h.
              let k = sym (clauses_lem ρ) ∙ h in
              let old = asked-Holds S b ds ρ fresh (and_right (eval S g ρ) _ k) in
              sym (value ρ old) ∙ and_left (eval S g ρ) _ k,
          λ ρ h.
              let (σ, a, w) = step.extend ρ in
              let (now, old) = emplace-Holds S b g ds σ (step.hold σ w tt) in
              let true_now = sym now ∙ step.means σ w ∙ a.on_formulas f below ∙ h in
              (
                σ,
                a,
                clauses_lem σ ∙ and-true (eval S g σ) _ true_now (Holds-asked S b ds σ fresh old),
              ),
        )

    finish-Equisatisfiable :
        (r : Formula × State)
        → Headed f r
        → Step S n n m [] r.1.definitions (λ ρ. eval S r.0 ρ ≡ eval S f ρ)
        → finish B r.0 r.1.definitions ≡ some out
        → Equisatisfiable f m out
    unfolding eval
    finish-Equisatisfiable (g, s) (inl (e, value)) step k =
        plain-Equisatisfiable g value (rw e at k)
    finish-Equisatisfiable (g, s) (inr (i, d, ds, e1, e2, fresh, value)) step k =
        named-Equisatisfiable (boolean_variable i) d ds fresh value (rw (e1, e2) at step)
          (rw (e1, e2) at k)

-- When the conversion of a formula gives clauses, every environment at which the clauses hold is a
-- model of the formula, and for every model of the formula there is an environment at which the
-- clauses hold and which gives the same value to every formula over the variables that there were
-- before. Those are the variables with numbers below `next`, the formula's among them. The
-- operations of the symbolic library are taken to mean their connectives and to build their results
-- from their operands, the quantifier to distribute over conjunctions, and the fuel to exceed the
-- nesting of quantified formulas.
pub convert-Equisatisfiable :
    (S : Semantics) (B : Builder)
    → MeansWell S B
    → BuildsFrom B
    → (mentions : Formula → List Variable → Bool) → Quantifies S mentions
    → Assigns S
    → (fuel next last : ℕ) (f : Formula) (clauses : List Formula) → Below next f
    → depth f ≤ fuel
    → convert B mentions fuel next f ≡ some (clauses, last)
    → ((ρ : S.Env) → eval_clauses S clauses ρ ≡ true → eval S f ρ ≡ true)
      × ((ρ : S.Env)
          → eval S f ρ ≡ true
          → (σ : S.Env) × ((g : Formula) → Below next g → eval S g σ ≡ eval S g ρ)
            × (eval_clauses S clauses σ ≡ true))
unfolding convert
convert-Equisatisfiable S B M F mentions Q A fuel next last f clauses below d e =
    let ((g, s), e1, e2) = bind-some (visit B mentions fuel f _) _ _ e in
    let (out, e3, e4) = bind-some (finish B g s.definitions) _ _ e2 in
    let top = visit-Headed S B M F mentions Q A fuel next f (g, s) below d e1 in
    let step = visit-Visits S B M F mentions Q A fuel next f _ (g, s) below (omega arith) d e1 in
    let list : out ≡ clauses = ap (λ (t : List Formula × ℕ). t.0) (some_injective e4) in
    let (sound, complete) =
      finish-Equisatisfiable S B M F mentions Q A fuel next f below s.next clauses (g, s) top step
        (rw list at e3) in
    (sound, λ ρ h. let (σ, a, k) = complete ρ h in (σ, a.on_formulas, k))
