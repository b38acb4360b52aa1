-- ===== src/Filter/Variables.antt =====
-- The filter changes intervals only: the box has the variables that it had.
use d_real_cmake.Prelude.{
  ◌≡◌, refl, subst, Bool, true, false, not, Option, none, some, if◌then◌else◌,
}
use d_real_cmake.Symbolic.Syntax.{
  Variable, VariableType, continuous, integer, binary, boolean, Double, Expression, variable,
  constant, real_constant, Formula, eq, neq, gt, geq, lt, leq, neg,
}
use d_real_cmake.Symbolic.Numbers.{Numbers}
use d_real_cmake.Box.Interval.{Intervals}
use d_real_cmake.Box.{Box, set_interval, set_empty}
use d_real_cmake.Filter.{
  Outcome, FilterAssertionResult, update_bounds_via_equality, update_bounds_via_interval,
  update_lower_bound, update_upper_bound, strict_lower, strict_upper, update_strict_lower_bound,
  update_strict_upper_bound, assert_equal, visit_equal_to, visit_greater_than,
  visit_greater_than_or_equal_to, visit, filter_assertion,
}

module _ {N : Numbers} (I : Intervals N) (box : Box I) where
  abbrev SameVariables : Option (Outcome I) → Type 0
  SameVariables none = Unit
  SameVariables (some (r, new)) = new.variables ≡ box.variables

  either_box :
      (c : Bool) (a b : Box I)
      → a.variables ≡ box.variables
      → b.variables ≡ box.variables
      → (if c then a else b).variables ≡ box.variables
  either_box true a b h k = h
  either_box false a b h k = k

  either_outcome :
      (c : Bool) (a b : Outcome I)
      → a.1.variables ≡ box.variables
      → b.1.variables ≡ box.variables
      → (if c then a else b).1.variables ≡ box.variables
  either_outcome true a b h k = h
  either_outcome false a b h k = k

  equality_variables :
      (x : Variable) (v : Double)
      → (update_bounds_via_equality I x v box).1.variables ≡ box.variables
  unfolding update_bounds_via_equality set_interval set_empty
  equality_variables x v = either_outcome _ _ _ refl (either_box _ _ _ refl refl)

  interval_variables :
      (x : Variable) (a b : Double)
      → (update_bounds_via_interval I x a b box).1.variables ≡ box.variables
  unfolding update_bounds_via_interval set_interval set_empty
  interval_variables x a b = either_outcome _ _ _ refl (either_box _ _ _ refl refl)

  lower_variables :
      (x : Variable) (v : Double) → (update_lower_bound I x v box).1.variables ≡ box.variables
  unfolding update_lower_bound set_interval set_empty
  lower_variables x v = either_outcome _ _ _ refl (either_box _ _ _ refl refl)

  upper_variables :
      (x : Variable) (v : Double) → (update_upper_bound I x v box).1.variables ≡ box.variables
  unfolding update_upper_bound set_interval set_empty
  upper_variables x v = either_outcome _ _ _ refl (either_box _ _ _ refl refl)

  strict_lower-SameVariables :
      (k : VariableType) (x : Variable) (v : Double) → SameVariables (strict_lower I k x v box)
  unfolding strict_lower
  strict_lower-SameVariables continuous x v = lower_variables x (N.next_up v)
  strict_lower-SameVariables integer x v = lower_variables x v
  strict_lower-SameVariables binary x v = lower_variables x v
  strict_lower-SameVariables boolean x v = tt

  strict_upper-SameVariables :
      (k : VariableType) (x : Variable) (v : Double) → SameVariables (strict_upper I k x v box)
  unfolding strict_upper
  strict_upper-SameVariables continuous x v = upper_variables x (N.next_down v)
  strict_upper-SameVariables integer x v = upper_variables x v
  strict_upper-SameVariables binary x v = upper_variables x v
  strict_upper-SameVariables boolean x v = tt

  equal_to-SameVariables :
      (a b : Expression) (polarity : Bool) → SameVariables (visit_equal_to I a b box polarity)
  unfolding visit_equal_to assert_equal
  equal_to-SameVariables (variable x) (constant v) true = equality_variables x v
  equal_to-SameVariables (variable x) (real_constant a b) true = interval_variables x a b
  equal_to-SameVariables (constant v) (variable x) true = equality_variables x v
  equal_to-SameVariables (real_constant a b) (variable x) true = interval_variables x a b
  equal_to-SameVariables a b false = refl
  equal_to-SameVariables _ _ true = refl

  greater_than-SameVariables :
      (a b : Expression) (polarity : Bool) → SameVariables (visit_greater_than I a b box polarity)
  unfolding visit_greater_than update_strict_lower_bound update_strict_upper_bound
  greater_than-SameVariables (variable x) (constant v) true = strict_lower-SameVariables x.kind x v
  greater_than-SameVariables (variable x) (constant v) false = upper_variables x v
  greater_than-SameVariables (variable x) (real_constant a b) true =
      strict_lower-SameVariables x.kind x a
  greater_than-SameVariables (variable x) (real_constant a b) false = upper_variables x b
  greater_than-SameVariables (constant v) (variable x) true = strict_upper-SameVariables x.kind x v
  greater_than-SameVariables (constant v) (variable x) false = lower_variables x v
  greater_than-SameVariables (real_constant a b) (variable x) true =
      strict_upper-SameVariables x.kind x b
  greater_than-SameVariables (real_constant a b) (variable x) false = lower_variables x a
  greater_than-SameVariables _ _ _ = refl

  greater_equal-SameVariables :
      (a b : Expression) (polarity : Bool)
      → SameVariables (visit_greater_than_or_equal_to I a b box polarity)
  unfolding visit_greater_than_or_equal_to update_strict_lower_bound update_strict_upper_bound
  greater_equal-SameVariables (variable x) (constant v) true = lower_variables x v
  greater_equal-SameVariables (variable x) (constant v) false =
      strict_upper-SameVariables x.kind x v
  greater_equal-SameVariables (variable x) (real_constant a b) true = lower_variables x a
  greater_equal-SameVariables (variable x) (real_constant a b) false =
      strict_upper-SameVariables x.kind x b
  greater_equal-SameVariables (constant v) (variable x) true = upper_variables x v
  greater_equal-SameVariables (constant v) (variable x) false =
      strict_lower-SameVariables x.kind x v
  greater_equal-SameVariables (real_constant a b) (variable x) true = upper_variables x b
  greater_equal-SameVariables (real_constant a b) (variable x) false =
      strict_lower-SameVariables x.kind x a
  greater_equal-SameVariables _ _ _ = refl

  visit-SameVariables : (f : Formula) (polarity : Bool) → SameVariables (visit I f box polarity)
  unfolding visit
  visit-SameVariables (eq a b) polarity = equal_to-SameVariables a b polarity
  visit-SameVariables (neq a b) polarity = equal_to-SameVariables a b (not polarity)
  visit-SameVariables (gt a b) polarity = greater_than-SameVariables a b polarity
  visit-SameVariables (geq a b) polarity = greater_equal-SameVariables a b polarity
  visit-SameVariables (lt a b) polarity = greater_equal-SameVariables a b (not polarity)
  visit-SameVariables (leq a b) polarity = greater_than-SameVariables a b (not polarity)
  visit-SameVariables (neg f) polarity = visit-SameVariables f (not polarity)
  visit-SameVariables _ polarity = refl

-- The variables of the box that the filter gives.
pub variables-filter_assertion :
    {N : Numbers} (I : Intervals N) (box new : Box I) (f : Formula) (r : FilterAssertionResult)
    → filter_assertion I f box ≡ some (r, new)
    → new.variables ≡ box.variables
unfolding filter_assertion
variables-filter_assertion I box new f r e =
    subst (SameVariables I box) e (visit-SameVariables I box f true)
