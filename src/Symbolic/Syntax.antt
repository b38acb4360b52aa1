-- ===== src/Symbolic/Syntax.antt =====
-- The shape of expressions and formulas as the solver's visitors see it: one constructor for each
-- `FormulaKind` that src/dreal/util/tseitin_cnfizer.cc switches on, and the expression kinds that
-- src/dreal/solver/filter_assertion.cc asks for. The symbolic library itself is vendored.
use d_real_cmake.Prelude.{ℕ, List, [], ◌∷◌}

pub data VariableType : Type 0 where
  continuous integer binary boolean : VariableType

pub record Variable : Type 0 where
  pub id : ℕ
  pub kind : VariableType

-- A double is its bit pattern; what the operations do with it is a parameter (Symbolic/Numbers).
abbrev pub Double : Type 0
Double = ℕ

-- `real_constant lb ub` is an unknown real of the interval; `term` is any kind that no code of the
-- model looks into.
pub data Expression : Type 0 where
  variable : Variable → Expression
  constant : Double → Expression
  real_constant : Double → Double → Expression
  term : ℕ → Expression

-- `forall_t` carries the flow with its bounds as one number, and the bound formula; `integral` is
-- one number. A `set<Formula>` is `Formulas`: neither its order nor duplicates matter to a value.
mutual
  pub data Formula : Type 0 where
    false_formula true_formula : Formula
    var : Variable → Formula
    eq neq gt geq lt leq : Expression → Expression → Formula
    conj disj : Formulas → Formula
    neg : Formula → Formula
    forall : List Variable → Formula → Formula
    forall_t : ℕ → Formula → Formula
    integral : ℕ → Formula

  pub data Formulas : Type 0 where
    nil : Formulas
    cons : Formula → Formulas → Formulas

abbrev pub to_list : Formulas → List Formula
to_list nil = []
to_list (cons f fs) = f ∷ to_list fs

abbrev pub of_list : List Formula → Formulas
of_list [] = nil
of_list (f ∷ fs) = cons f (of_list fs)

-- Every formula of a set has the property.
abbrev pub Every {ℓ} : (Formula → Type ℓ) → Formulas → Type ℓ
Every P nil = Unit
Every P (cons f fs) = P f × Every P fs
