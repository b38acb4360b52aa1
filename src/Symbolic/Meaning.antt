-- ===== src/Symbolic/Meaning.antt =====
-- What formulas mean. Environments, the value of an expression and the quantifiers are parameters;
-- the connectives and the six relations are fixed.
use d_real_cmake.Prelude.{ℕ, Bool, true, false, not, ◌&&◌, ◌||◌, List}
use d_real_cmake.Symbolic.Syntax.{
  Variable, Expression, Formula, Formulas, false_formula, true_formula, var, eq, neq, gt, geq, lt,
  leq, conj, disj, neg, forall, forall_t, integral, nil, cons,
}
use d_real_cmake.Symbolic.Numbers.{Numbers, eq_real}

pub record Semantics : Type 1 where
  pub numbers : Numbers
  pub Env : Type 0
  pub truth : Env → Variable → Bool
  pub value : Env → Expression → numbers.Real
  pub all : List Variable → (Env → Bool) → Env → Bool
  pub all_times : ℕ → (Env → Bool) → Env → Bool
  pub flows : ℕ → Env → Bool

module _ (S : Semantics) where
  open S use {numbers, Env, truth, value, all, all_times, flows}

  unfoldable mutual
    pub eval : Formula → Env → Bool
    eval false_formula ρ = false
    eval true_formula ρ = true
    eval (var b) ρ = truth ρ b
    eval (eq a b) ρ = eq_real numbers (value ρ a) (value ρ b)
    eval (neq a b) ρ = not (eq_real numbers (value ρ a) (value ρ b))
    eval (gt a b) ρ = not (numbers.le (value ρ a) (value ρ b))
    eval (geq a b) ρ = numbers.le (value ρ b) (value ρ a)
    eval (lt a b) ρ = not (numbers.le (value ρ b) (value ρ a))
    eval (leq a b) ρ = numbers.le (value ρ a) (value ρ b)
    eval (conj fs) ρ = eval_and fs ρ
    eval (disj fs) ρ = eval_or fs ρ
    eval (neg f) ρ = not (eval f ρ)
    eval (forall vs f) ρ = all vs (λ σ. eval f σ) ρ
    eval (forall_t k f) ρ = all_times k (λ σ. eval f σ) ρ
    eval (integral k) ρ = flows k ρ

    pub eval_and : Formulas → Env → Bool
    eval_and nil ρ = true
    eval_and (cons f fs) ρ = eval f ρ && eval_and fs ρ

    pub eval_or : Formulas → Env → Bool
    eval_or nil ρ = false
    eval_or (cons f fs) ρ = eval f ρ || eval_or fs ρ
