-- ===== src/Symbolic/Builder.antt =====
-- The symbolic library's operations that build formulas, a parameter of the model, and what the
-- passes rely on: each operation means its connective, and it makes its result from its operands.
use d_real_cmake.Prelude.{◌≡◌, Bool, true, false, not, ◌&&◌, ◌||◌, List}
use d_real_cmake.Symbolic.Syntax.{
  Variable, Expression, Formula, Formulas, false_formula, true_formula, eq, neq, gt, geq, lt, leq,
  conj, disj, neg, forall, nil, cons, Every,
}
use d_real_cmake.Symbolic.Meaning.{Semantics, eval, eval_and, eval_or}

pub record Builder : Type 0 where
  -- Whether two formulas are one element of a set.
  pub same : Formula → Formula → Bool
  pub negation : Formula → Formula
  pub make_conjunction : Formulas → Formula
  pub make_disjunction : Formulas → Formula
  pub both : Formula → Formula → Formula
  pub either : Formula → Formula → Formula
  pub equal : Expression → Expression → Formula
  pub not_equal : Expression → Expression → Formula
  pub greater : Expression → Expression → Formula
  pub greater_equal : Expression → Expression → Formula
  pub less : Expression → Expression → Formula
  pub less_equal : Expression → Expression → Formula
  pub quantify : List Variable → Formula → Formula

pub record MeansWell (S : Semantics) (B : Builder) : Type 0 where
  pub same_lem : (f g : Formula) (ρ : S.Env) → B.same f g ≡ true → eval S f ρ ≡ eval S g ρ
  pub negation_lem : (f : Formula) (ρ : S.Env) → eval S (B.negation f) ρ ≡ not (eval S f ρ)
  pub conjunction_lem :
      (fs : Formulas) (ρ : S.Env) → eval S (B.make_conjunction fs) ρ ≡ eval_and S fs ρ
  pub disjunction_lem :
      (fs : Formulas) (ρ : S.Env) → eval S (B.make_disjunction fs) ρ ≡ eval_or S fs ρ
  pub both_lem : (f g : Formula) (ρ : S.Env) → eval S (B.both f g) ρ ≡ (eval S f ρ && eval S g ρ)
  pub either_lem :
      (f g : Formula) (ρ : S.Env) → eval S (B.either f g) ρ ≡ (eval S f ρ || eval S g ρ)
  pub equal_lem : (a b : Expression) (ρ : S.Env) → eval S (B.equal a b) ρ ≡ eval S (eq a b) ρ
  pub not_equal_lem :
      (a b : Expression) (ρ : S.Env) → eval S (B.not_equal a b) ρ ≡ eval S (neq a b) ρ
  pub greater_lem : (a b : Expression) (ρ : S.Env) → eval S (B.greater a b) ρ ≡ eval S (gt a b) ρ
  pub greater_equal_lem :
      (a b : Expression) (ρ : S.Env) → eval S (B.greater_equal a b) ρ ≡ eval S (geq a b) ρ
  pub less_lem : (a b : Expression) (ρ : S.Env) → eval S (B.less a b) ρ ≡ eval S (lt a b) ρ
  pub less_equal_lem :
      (a b : Expression) (ρ : S.Env) → eval S (B.less_equal a b) ρ ≡ eval S (leq a b) ρ
  pub quantify_lem :
      (vs : List Variable) (f : Formula) (ρ : S.Env)
      → eval S (B.quantify vs f) ρ ≡ eval S (forall vs f) ρ

-- The operations may simplify to a truth value and may flatten nested operands. A property of
-- formulas that survives this survives the operations.
pub record BuildsFrom (B : Builder) : Type 1 where
  pub conjunction_from :
      (P : Formula → Type 0)
      → P true_formula
      → P false_formula
      → ((fs : Formulas) → P (conj fs) → Every P fs)
      → ((fs : Formulas) → Every P fs → P (conj fs))
      → (fs : Formulas) → Every P fs
      → P (B.make_conjunction fs)
  pub disjunction_from :
      (P : Formula → Type 0)
      → P true_formula
      → P false_formula
      → ((fs : Formulas) → P (disj fs) → Every P fs)
      → ((fs : Formulas) → Every P fs → P (disj fs))
      → (fs : Formulas) → Every P fs
      → P (B.make_disjunction fs)
  pub relation_from :
      (P : Formula → Type 0)
      → P true_formula
      → P false_formula
      → (a b : Expression)
      → (P (eq a b) → P (B.equal a b))
        × (P (neq a b) → P (B.not_equal a b))
        × (P (gt a b) → P (B.greater a b))
        × (P (geq a b) → P (B.greater_equal a b))
        × (P (lt a b) → P (B.less a b))
        × (P (leq a b) → P (B.less_equal a b))
  -- Only truth values and negations are simplified by `operator!`.
  pub negation_from :
      (P : Formula → Type 0)
      → P true_formula
      → P false_formula
      → ((f : Formula) → P (neg f) → P f)
      → (f : Formula) → P (neg f)
      → P (B.negation f)

-- Truth values are compared only.
abbrev same_truth : Formula → Formula → Bool
same_truth true_formula true_formula = true
same_truth false_formula false_formula = true
same_truth _ _ = false

-- The operations that only build, and simplify nothing.
abbrev pub plain : Builder
plain = record {
  same = same_truth;
  negation = neg;
  make_conjunction = conj;
  make_disjunction = disj;
  both = λ f g. conj (cons f (cons g nil));
  either = λ f g. disj (cons f (cons g nil));
  equal = eq;
  not_equal = neq;
  greater = gt;
  greater_equal = geq;
  less = lt;
  less_equal = leq;
  quantify = forall;
}
