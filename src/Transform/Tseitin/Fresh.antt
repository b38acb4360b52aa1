-- ===== src/Transform/Tseitin/Fresh.antt =====
-- A variable that does not occur in a formula may be given any value: what an environment must allow
-- for this, and the formulas whose variables have numbers below a bound.
use d_real_cmake.Prelude.{
  ℕ, suc, ◌<◌, ◌≤◌, ◌≡◌, ◌≢◌, refl, ◌∙◌, ap, ap₂, fun_ext, Bool, not, ◌&&◌, ◌||◌, List, All, arith,
  ◌⊎◌, inl, inr, [], ◌∷◌,
}
use d_real_cmake.Symbolic.Syntax.{
  Variable, Expression, Formula, Formulas, false_formula, true_formula, var, eq, neq, gt, geq, lt,
  leq, conj, disj, neg, forall, forall_t, integral, nil, cons,
}
use d_real_cmake.Symbolic.Numbers.{eq_real}
use d_real_cmake.Symbolic.Meaning.{Semantics, eval, eval_and, eval_or}

-- Giving a truth value to a variable changes no other variable, no expression and no flow, and
-- commutes with a quantifier that does not bind the variable.
pub record Assigns (S : Semantics) : Type 0 where
  pub assign : S.Env → Variable → Bool → S.Env
  pub truth-assign : (ρ : S.Env) (b : Variable) (v : Bool) → S.truth (assign ρ b v) b ≡ v
  pub truth_other :
      (ρ : S.Env) (b c : Variable) (v : Bool) → c.id ≢ b.id → S.truth (assign ρ b v) c ≡ S.truth ρ c
  pub value-assign :
      (ρ : S.Env) (b : Variable) (v : Bool) (e : Expression)
      → S.value (assign ρ b v) e ≡ S.value ρ e
  pub all-assign :
      (ρ : S.Env) (b : Variable) (v : Bool) (vs : List Variable) (p : S.Env → Bool)
      → All (λ (c : Variable). c.id ≢ b.id) vs
      → S.all vs p (assign ρ b v) ≡ S.all vs (λ σ. p (assign σ b v)) ρ
  pub all_times-assign :
      (ρ : S.Env) (b : Variable) (v : Bool) (k : ℕ) (p : S.Env → Bool)
      → S.all_times k p (assign ρ b v) ≡ S.all_times k (λ σ. p (assign σ b v)) ρ
  pub flows-assign :
      (ρ : S.Env) (b : Variable) (v : Bool) (k : ℕ) → S.flows k (assign ρ b v) ≡ S.flows k ρ

-- The numbers of the variables in the formula, bound ones included, are below the bound.
unfoldable mutual
  pub Below : ℕ → Formula → Type 0
  Below n (var b) = b.id < n
  Below n (conj fs) = AllBelow n fs
  Below n (disj fs) = AllBelow n fs
  Below n (neg f) = Below n f
  Below n (forall vs f) = All (λ (c : Variable). c.id < n) vs × Below n f
  Below n (forall_t k f) = Below n f
  Below n _ = Unit

  pub AllBelow : ℕ → Formulas → Type 0
  AllBelow n nil = Unit
  AllBelow n (cons f fs) = Below n f × AllBelow n fs

differ :
    (n : ℕ) (b : Variable) (vs : List Variable)
    → n ≤ b.id
    → All (λ (c : Variable). c.id < n) vs
    → All (λ (c : Variable). c.id ≢ b.id) vs
differ n b [] h k = tt
differ n b (c ∷ vs) h k = (omega (arith, h, k.0), differ n b vs h k.1)

module _ (S : Semantics) (A : Assigns S) (n : ℕ) (b : Variable) (v : Bool) (h : n ≤ b.id) where
  mutual
    unfolding Below eval

    -- A variable that is not in the formula does not matter.
    pub eval-assign : (f : Formula) (ρ : S.Env) → Below n f → eval S f (A.assign ρ b v) ≡ eval S f ρ
    eval-assign false_formula ρ k = refl
    eval-assign true_formula ρ k = refl
    eval-assign (var c) ρ k = A.truth_other ρ b c v (omega (arith, h, k))
    eval-assign (eq s t) ρ k =
        ap₂ (eq_real S.numbers) (A.value-assign ρ b v s) (A.value-assign ρ b v t)
    eval-assign (neq s t) ρ k =
        ap not (ap₂ (eq_real S.numbers) (A.value-assign ρ b v s) (A.value-assign ρ b v t))
    eval-assign (gt s t) ρ k =
        ap not (ap₂ S.numbers.le (A.value-assign ρ b v s) (A.value-assign ρ b v t))
    eval-assign (geq s t) ρ k = ap₂ S.numbers.le (A.value-assign ρ b v t) (A.value-assign ρ b v s)
    eval-assign (lt s t) ρ k =
        ap not (ap₂ S.numbers.le (A.value-assign ρ b v t) (A.value-assign ρ b v s))
    eval-assign (leq s t) ρ k = ap₂ S.numbers.le (A.value-assign ρ b v s) (A.value-assign ρ b v t)
    eval-assign (conj fs) ρ k = (eval_assign_all fs ρ k).0
    eval-assign (disj fs) ρ k = (eval_assign_all fs ρ k).1
    eval-assign (neg f) ρ k = ap not (eval-assign f ρ k)
    eval-assign (forall vs f) ρ k =
        A.all-assign ρ b v vs (λ σ. eval S f σ) (differ n b vs h k.0)
        ∙ ap (λ (p : S.Env → Bool). S.all vs p ρ) (fun_ext (λ σ. eval-assign f σ k.1))
    eval-assign (forall_t i f) ρ k =
        A.all_times-assign ρ b v i (λ σ. eval S f σ)
        ∙ ap (λ (p : S.Env → Bool). S.all_times i p ρ) (fun_ext (λ σ. eval-assign f σ k))
    eval-assign (integral i) ρ k = A.flows-assign ρ b v i

    eval_assign_all :
        (fs : Formulas) (ρ : S.Env)
        → AllBelow n fs
        → (eval_and S fs (A.assign ρ b v) ≡ eval_and S fs ρ)
          × (eval_or S fs (A.assign ρ b v) ≡ eval_or S fs ρ)
    eval_assign_all nil ρ k = (refl, refl)
    eval_assign_all (cons f fs) ρ k =
        let first = eval-assign f ρ k.0 in
        let rest = eval_assign_all fs ρ k.1 in (ap₂ ◌&&◌ first rest.0, ap₂ ◌||◌ first rest.1)

-- The two environments agree on the formulas below `n`, and on the variables outside the range.
pub record Agree (S : Semantics) (n lo hi : ℕ) (ρ σ : S.Env) : Type 0 where
  pub on_formulas : (f : Formula) → Below n f → eval S f σ ≡ eval S f ρ
  pub on_variables : (c : Variable) → ((c.id < lo) ⊎ (hi ≤ c.id)) → S.truth σ c ≡ S.truth ρ c

pub Agree-refl : (S : Semantics) (n lo hi : ℕ) (ρ : S.Env) → Agree S n lo hi ρ ρ
Agree-refl S n lo hi ρ = record { on_formulas = λ f k. refl; on_variables = λ c k. refl }

pub Agree-trans :
    (S : Semantics) (n lo mid hi : ℕ) (ρ σ τ : S.Env)
    → lo ≤ mid
    → mid ≤ hi
    → Agree S n lo mid ρ σ
    → Agree S n mid hi σ τ
    → Agree S n lo hi ρ τ
Agree-trans S n lo mid hi ρ σ τ h k a c = record {
  on_formulas = λ f d. c.on_formulas f d ∙ a.on_formulas f d;
  on_variables = λ v d.
      c.on_variables v (elim d [ inl e ↦ inl (omega (arith, e, h)) | inr e ↦ inr e ])
      ∙ a.on_variables v (elim d [ inl e ↦ inl e | inr e ↦ inr (omega (arith, e, k)) ]);
}

pub assign-Agree :
    (S : Semantics) (A : Assigns S) (n : ℕ) (b : Variable) (v : Bool) (ρ : S.Env)
    → n ≤ b.id
    → Agree S n b.id (suc b.id) ρ (A.assign ρ b v)
assign-Agree S A n b v ρ h = record {
  on_formulas = λ f k. eval-assign S A n b v h f ρ k;
  on_variables =
      λ c d. A.truth_other ρ b c v (elim d [ inl e ↦ omega (arith, e) | inr e ↦ omega (arith, e) ]);
}
