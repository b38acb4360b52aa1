-- ===== src/Transform/Tseitin/Meaning.antt =====
-- A visit gives a formula with the value of the visited one wherever the definitions hold, and the
-- definitions that it adds can be made to hold.
use d_real_cmake.Prelude.{
  ℕ, ◌≤◌, ◌≡◌, refl, sym, ◌∙◌, ap, ap₂, subst, fun_ext, Bool, true, false, not, ◌&&◌, ◌||◌, none,
  some, List, arith, inl, inr, Bool-cases, some_injective, bind-some, and_left, and_right,
  if◌then◌else◌,
}
use d_real_cmake.Symbolic.Syntax.{
  Variable, Formula, Formulas, false_formula, true_formula, var, eq, neq, gt, geq, lt, leq, conj,
  disj, neg, forall, forall_t, integral, nil, cons,
}
use d_real_cmake.Symbolic.Meaning.{Semantics, eval, eval_and, eval_or}
use d_real_cmake.Symbolic.Builder.{Builder, MeansWell, BuildsFrom}
use d_real_cmake.Transform.Clauses.{is_atomic, get_clauses, all_clauses, is_clause}
use d_real_cmake.Transform.NaiveCnfizer.Depth.{depth, depth_all}
use d_real_cmake.Transform.NaiveCnfizer.Meaning.{eval-convert}
use d_real_cmake.Transform.Tseitin.{
  State, define, advance, quantify_clauses, all_same, name_clauses, visit, visit_all,
}
use d_real_cmake.Transform.Tseitin.Fresh.{Assigns, Below, AllBelow}
use d_real_cmake.Transform.Tseitin.Steps.{Step, idle, implied, followed, name_after, name_before}

-- What a universal quantifier does with true, a conjunction, and a formula without its variables.
pub record Quantifies (S : Semantics) (mentions : Formula → List Variable → Bool) : Type 0 where
  pub all_true : (vs : List Variable) (ρ : S.Env) → S.all vs (λ σ. true) ρ ≡ true
  pub all_and :
      (vs : List Variable) (p q : S.Env → Bool) (ρ : S.Env)
      → S.all vs (λ σ. p σ && q σ) ρ ≡ (S.all vs p ρ && S.all vs q ρ)
  pub all_unused :
      (vs : List Variable) (f : Formula) (ρ : S.Env)
      → mentions f vs ≡ false
      → S.all vs (λ σ. eval S f σ) ρ ≡ eval S f ρ

pub eval_and-all_same :
    (S : Semantics) (B : Builder)
    → MeansWell S B
    → (f : Formula) (fs : Formulas) (ρ : S.Env) → all_same B f fs ≡ true
    → eval_and S (cons f fs) ρ ≡ eval S f ρ
unfolding all_same eval
eval_and-all_same S B M f nil ρ h = ground arith
eval_and-all_same S B M f (cons g gs) ρ h =
    let rest = eval_and-all_same S B M f gs ρ (and_right (B.same f g) (all_same B f gs) h) in
    let first = M.same_lem f g ρ (and_left (B.same f g) (all_same B f gs) h) in ground arith

module _ (S : Semantics) (B : Builder) (M : MeansWell S B) (F : BuildsFrom B)
    (mentions : Formula → List Variable → Bool) (Q : Quantifies S mentions) where
  eval_and-get_clauses :
      (f : Formula) (fs : Formulas) (ρ : S.Env)
      → get_clauses f ≡ some fs
      → eval_and S fs ρ ≡ eval S f ρ
  unfolding get_clauses eval
  eval_and-get_clauses (conj gs) fs ρ e = elim (Bool-cases (all_clauses gs)) [
    | inl h ↦
        let k : some gs ≡ some fs = (rw h at e) in ap (λ t. eval_and S t ρ) (sym (some_injective k))
    | inr h ↦ let k : none ≡ some fs = (rw h at e) in cc
  ]
  eval_and-get_clauses f fs ρ e = elim (Bool-cases (is_clause f)) [
    | inl h ↦
        let k : some (cons f nil) ≡ some fs = (rw h at e) in
        ap (λ t. eval_and S t ρ) (sym (some_injective k)) ∙ and_true (eval S f ρ)
    | inr h ↦ let k : none ≡ some fs = (rw h at e) in cc
  ]
    where
      and_true : (b : Bool) → (b && true) ≡ b
      and_true true = refl
      and_true false = refl

  eval-quantify_one :
      (vs : List Variable) (f : Formula) (ρ : S.Env)
      → eval S (if mentions f vs then B.quantify vs f else f) ρ ≡ S.all vs (λ σ. eval S f σ) ρ
  unfolding eval
  eval-quantify_one vs f ρ = elim (Bool-cases (mentions f vs)) [
    | inl h ↦ rw h (M.quantify_lem vs f ρ)
    | inr h ↦ rw h (sym (Q.all_unused vs f ρ h))
  ]

  eval_and-quantify_clauses :
      (vs : List Variable) (fs : Formulas) (ρ : S.Env)
      → eval_and S (quantify_clauses B mentions vs fs) ρ ≡ S.all vs (λ σ. eval_and S fs σ) ρ
  unfolding quantify_clauses eval
  eval_and-quantify_clauses vs nil ρ = sym (Q.all_true vs ρ)
  eval_and-quantify_clauses vs (cons f fs) ρ =
      ap₂ ◌&&◌ (eval-quantify_one vs f ρ) (eval_and-quantify_clauses vs fs ρ)
      ∙ sym (Q.all_and vs (λ σ. eval S f σ) (λ σ. eval_and S fs σ) ρ)

  module _ (A : Assigns S) (fuel n : ℕ) where
    abbrev pub Visits : Formula → State → Formula × State → Type 1
    Visits f s r =
        Step S n s.next r.1.next s.definitions r.1.definitions (λ ρ. eval S r.0 ρ ≡ eval S f ρ)

    abbrev pub VisitsAll : Formulas → State → Formulas × State → Type 1
    VisitsAll fs s r =
        Step S n s.next r.1.next s.definitions r.1.definitions
          (λ ρ. (eval_and S r.0 ρ ≡ eval_and S fs ρ) × (eval_or S r.0 ρ ≡ eval_or S fs ρ))

    kept : (f : Formula) (s : State) → Visits f s (f, s)
    kept f s = idle S n s.next s.definitions (λ ρ. eval S f ρ ≡ eval S f ρ) (λ ρ. refl)

    name_clauses-Visits :
        (f : Formula) (fs : Formulas) (s : State) (r : Formula × State)
        → Below n f
        → n ≤ s.next
        → ((ρ : S.Env) → eval_and S fs ρ ≡ eval S f ρ)
        → name_clauses B fs s ≡ some r
        → Visits f s r
    unfolding name_clauses define advance eval
    name_clauses-Visits f nil s r b h same e = let z : ⊥ = cc in absurd z
    name_clauses-Visits f (cons g gs) s r b h same e = elim (Bool-cases (all_same B g gs)) [
      | inl q ↦
          subst (Visits f s) (some_injective (rw q at e))
            (idle S n s.next s.definitions _ (λ ρ. sym (eval_and-all_same S B M g gs ρ q) ∙ same ρ))
      | inr q ↦ subst (Visits f s) (some_injective (rw q at e)) (
          name_after S A n f (B.make_conjunction (cons g gs)) b h
            (idle S n s.next s.definitions _ (λ ρ. M.conjunction_lem (cons g gs) ρ ∙ same ρ)))
    ]

    pub forall-clauses :
        (vs : List Variable) (f : Formula) (s : State) (r : Formula × State)
        → depth (forall vs f) ≤ fuel
        → visit B mentions fuel (forall vs f) s ≡ some r
        → (fs : Formulas) × (name_clauses B fs s ≡ some r)
          × ((ρ : S.Env) → eval_and S fs ρ ≡ eval S (forall vs f) ρ)
    unfolding visit depth eval
    forall-clauses vs f s r d e =
        let (g, e1, same) = eval-convert S B M F fuel f (omega (arith, d)) in
        let (fs, e2, e3) = bind-some (get_clauses g) _ r (rw e1 at e) in
        (
          quantify_clauses B mentions vs fs,
          e3,
          λ ρ.
              eval_and-quantify_clauses vs fs ρ
              ∙ ap (λ (p : S.Env → Bool). S.all vs p ρ)
                  (fun_ext (λ σ. eval_and-get_clauses g fs σ e2 ∙ same σ)),
        )

    mutual
      unfolding visit depth Below eval define advance

      pub visit-Visits :
          (f : Formula) (s : State) (r : Formula × State)
          → Below n f
          → n ≤ s.next
          → depth f ≤ fuel
          → visit B mentions fuel f s ≡ some r
          → Visits f s r
      visit-Visits (forall vs f) s r b h d e =
          let (fs, e1, same) = forall-clauses vs f s r d e in
          name_clauses-Visits (forall vs f) fs s r b h same e1
      visit-Visits (conj fs) s r b h d e =
          let ((gs, t), e1, e2) = bind-some (visit_all B mentions fuel fs s) _ r e in
          let inner = visit_all-Visits fs s (gs, t) b h d e1 in
          subst (Visits (conj fs) s) (some_injective e2) (
            name_after S A n (conj fs) (B.make_conjunction gs) b h
              (implied S n (λ ρ k. M.conjunction_lem gs ρ ∙ k.0) inner))
      visit-Visits (disj fs) s r b h d e =
          let ((gs, t), e1, e2) = bind-some (visit_all B mentions fuel fs s) _ r e in
          let inner = visit_all-Visits fs s (gs, t) b h d e1 in
          subst (Visits (disj fs) s) (some_injective e2) (
            name_after S A n (disj fs) (B.make_disjunction gs) b h
              (implied S n (λ ρ k. M.disjunction_lem gs ρ ∙ k.1) inner))
      visit-Visits (neg f) s r b h d e = elim (Bool-cases (is_atomic f)) [
        | inl a ↦ subst (Visits (neg f) s) (some_injective (rw a at e)) (kept (neg f) s)
        | inr a ↦
            let ((g, t), e1, e2) =
              bind-some (visit B mentions fuel f (advance s)) _ r (rw a at e) in
            let inner = visit-Visits f (advance s) (g, t) b (omega (arith, h)) d e1 in
            subst (Visits (neg f) s) (some_injective e2) (
              name_before S A n (neg f) (B.negation g) b h
                (implied S n (λ ρ k. M.negation_lem g ρ ∙ ap not k) inner))
      ]
      visit-Visits false_formula s r b h d e =
          subst (Visits false_formula s) (some_injective e) (kept false_formula s)
      visit-Visits true_formula s r b h d e =
          subst (Visits true_formula s) (some_injective e) (kept true_formula s)
      visit-Visits (var c) s r b h d e =
          subst (Visits (var c) s) (some_injective e) (kept (var c) s)
      visit-Visits (eq x y) s r b h d e =
          subst (Visits (eq x y) s) (some_injective e) (kept (eq x y) s)
      visit-Visits (neq x y) s r b h d e =
          subst (Visits (neq x y) s) (some_injective e) (kept (neq x y) s)
      visit-Visits (gt x y) s r b h d e =
          subst (Visits (gt x y) s) (some_injective e) (kept (gt x y) s)
      visit-Visits (geq x y) s r b h d e =
          subst (Visits (geq x y) s) (some_injective e) (kept (geq x y) s)
      visit-Visits (lt x y) s r b h d e =
          subst (Visits (lt x y) s) (some_injective e) (kept (lt x y) s)
      visit-Visits (leq x y) s r b h d e =
          subst (Visits (leq x y) s) (some_injective e) (kept (leq x y) s)
      visit-Visits (forall_t k f) s r b h d e =
          subst (Visits (forall_t k f) s) (some_injective e) (kept (forall_t k f) s)
      visit-Visits (integral k) s r b h d e =
          subst (Visits (integral k) s) (some_injective e) (kept (integral k) s)

      pub visit_all-Visits :
          (fs : Formulas) (s : State) (r : Formulas × State)
          → AllBelow n fs
          → n ≤ s.next
          → depth_all fs ≤ fuel
          → visit_all B mentions fuel fs s ≡ some r
          → VisitsAll fs s r
      visit_all-Visits nil s r b h d e =
          subst (VisitsAll nil s) (some_injective e)
            (idle S n s.next s.definitions _ (λ ρ. (refl, refl)))
      visit_all-Visits (cons f fs) s r b h d e =
          let ((g, t), e1, e2) = bind-some (visit B mentions fuel f s) _ r e in
          let ((gs, u), e3, e4) = bind-some (visit_all B mentions fuel fs t) _ r e2 in
          let first = visit-Visits f s (g, t) b.0 h (omega (arith, d)) e1 in
          let rest =
            visit_all-Visits fs t (gs, u) b.1 (omega (arith, h, first.grows)) (omega (arith, d))
              e3 in
          subst (VisitsAll (cons f fs) s) (some_injective e4) (
            implied S n (λ ρ k. (ap₂ ◌&&◌ k.0 k.1.0, ap₂ ◌||◌ k.0 k.1.1)) (followed S n first rest))
