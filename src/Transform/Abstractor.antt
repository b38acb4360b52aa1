-- ===== src/Transform/Abstractor.antt =====
-- src/dreal/util/predicate_abstractor.cc: a Boolean variable for each atomic formula, the same for
-- the same formula. A new variable takes the next number; `none` is an exception.
pub mod Maps
pub mod Meaning
pub mod Results
use d_real_cmake.Prelude.{
  ℕ, suc, Bool, true, false, Option, none, some, List, [], ◌∷◌, if◌then◌else◌, ◌>>=◌, ◌==◌, ◌&&◌,
  Eq,
}
use d_real_cmake.Symbolic.Syntax.{
  Variable, boolean, Formula, Formulas, false_formula, true_formula, var, eq, neq, gt, geq, lt, leq,
  conj, disj, neg, forall, forall_t, integral, nil, cons, of_list,
}
use d_real_cmake.Symbolic.Builder.{Builder}

pub record Abstractor : Type 0 where
  pub next : ℕ
  pub var_to_formula : List (Variable × Formula)
  pub formula_to_var : List (Formula × Variable)

-- `operator[]` and `find` of a variable.
unfoldable pub formula_of : List (Variable × Formula) → Variable → Option Formula
formula_of [] b = none
formula_of ((c, f) ∷ ds) b = let rest = formula_of ds b in if b.id == c.id then some f else rest

-- `emplace` keeps what it finds.
unfoldable pub if_absent : {A : Type 0} {C : Type 0} → Option A → C → List C → List C
if_absent none entry entries = entry ∷ entries
if_absent (some found) entry entries = entries

unfoldable pub emplace_var :
    Variable → Formula → List (Variable × Formula) → List (Variable × Formula)
emplace_var b f ds = if_absent (formula_of ds b) (b, f) ds

-- A formula that was met before has its variable.
unfoldable pub known :
    Option Variable → Abstractor → Option (Formula × Abstractor) → Option (Formula × Abstractor)
known (some b) s visited = some (var b, s)
known none s visited = visited

module _ (E : Eq Formula) where
  -- `operator[]` and `find` of a formula.
  unfoldable pub variable_of : List (Formula × Variable) → Formula → Option Variable
  variable_of [] f = none
  variable_of ((g, b) ∷ ds) f = let rest = variable_of ds f in if E.beq f g then some b else rest

  unfoldable pub emplace_formula :
      Formula → Variable → List (Formula × Variable) → List (Formula × Variable)
  emplace_formula f b ds = if_absent (variable_of ds f) (f, b) ds

  unfoldable pub add : Variable → Formula → Abstractor → Abstractor
  add b f s = record {
    next = s.next;
    var_to_formula = emplace_var b f s.var_to_formula;
    formula_to_var = emplace_formula f b s.formula_to_var;
  }

  unfoldable pub new_variable : Formula → Abstractor → Formula × Abstractor
  new_variable f s =
      let b : Variable = record { id = s.next; kind = boolean } in
      (
        var b,
        add b f (record {
          next = suc s.next;
          var_to_formula = s.var_to_formula;
          formula_to_var = s.formula_to_var;
        }),
      )

  unfoldable pub visit_atomic : Formula → Abstractor → Option (Formula × Abstractor)
  visit_atomic f s = known (variable_of s.formula_to_var f) s (some (new_variable f s))

  module _ (B : Builder) where
    unfoldable mutual
      pub visit : Formula → Abstractor → Option (Formula × Abstractor)
      visit (eq a b) s = known (variable_of s.formula_to_var (eq a b)) s (visit_atomic (eq a b) s)
      visit (lt a b) s = known (variable_of s.formula_to_var (lt a b)) s (visit_atomic (lt a b) s)
      visit (leq a b) s =
          known (variable_of s.formula_to_var (leq a b)) s (visit_atomic (leq a b) s)
      visit (forall vs f) s =
          known (variable_of s.formula_to_var (forall vs f)) s (visit_atomic (forall vs f) s)
      visit (forall_t k f) s =
          known (variable_of s.formula_to_var (forall_t k f)) s (visit_atomic (forall_t k f) s)
      visit (integral k) s =
          known (variable_of s.formula_to_var (integral k)) s (visit_atomic (integral k) s)
      visit (neq a b) s = known (variable_of s.formula_to_var (neq a b)) s none
      visit (gt a b) s = known (variable_of s.formula_to_var (gt a b)) s none
      visit (geq a b) s = known (variable_of s.formula_to_var (geq a b)) s none
      visit (conj fs) s =
          known (variable_of s.formula_to_var (conj fs)) s (
            visit_all fs s >>= λ ((gs, t) : Formulas × Abstractor). some (B.make_conjunction gs, t))
      visit (disj fs) s =
          known (variable_of s.formula_to_var (disj fs)) s (
            visit_all fs s >>= λ ((gs, t) : Formulas × Abstractor). some (B.make_disjunction gs, t))
      visit (neg f) s =
          known (variable_of s.formula_to_var (neg f)) s
            (visit f s >>= λ ((g, t) : Formula × Abstractor). some (B.negation g, t))
      visit false_formula s =
          known (variable_of s.formula_to_var false_formula) s (some (false_formula, s))
      visit true_formula s =
          known (variable_of s.formula_to_var true_formula) s (some (true_formula, s))
      visit (var b) s = known (variable_of s.formula_to_var (var b)) s (some (var b, s))

      pub visit_all : Formulas → Abstractor → Option (Formulas × Abstractor)
      visit_all nil s = some (nil, s)
      visit_all (cons f fs) s = visit f s >>= λ ((g, t) : Formula × Abstractor).
          visit_all fs t >>= λ ((gs, u) : Formulas × Abstractor). some (cons g gs, u)

    unfoldable pub convert : Formula → Abstractor → Option (Formula × Abstractor)
    convert f s = visit f s

    unfoldable pub convert_list : List Formula → Abstractor → Option (Formula × Abstractor)
    convert_list fs s = convert (B.make_conjunction (of_list fs)) s
