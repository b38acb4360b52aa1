-- ===== src/Filter.antt =====
-- src/dreal/solver/filter_assertion.cc: an assertion that only bounds a variable is moved into the
-- box. `none` stands for DREAL_UNREACHABLE, at a strict bound of a Boolean variable.
pub mod Updates
pub mod Fits
pub mod Sound
pub mod Exact
pub mod Variables
use d_real_cmake.Prelude.{
  ◌≡◌, Bool, true, false, not, ◌&&◌, List, Option, none, some, if◌then◌else◌,
}
use d_real_cmake.Symbolic.Syntax.{
  Variable, VariableType, continuous, integer, binary, boolean, Double, Expression, variable,
  constant, real_constant, Formula, eq, neq, gt, geq, lt, leq, neg, var,
}
use d_real_cmake.Symbolic.Numbers.{Numbers, le_double, eq_double}
use d_real_cmake.Box.Interval.{Intervals}
use d_real_cmake.Box.{Box, interval, set_interval, set_empty}

pub record FilterAssertionResult : Type 0 where
  pub filtered : Bool
  pub changed : Bool

abbrev pub kept : FilterAssertionResult
kept = record { filtered = false; changed = false }

abbrev pub absorbed : Bool → FilterAssertionResult
absorbed c = record { filtered = true; changed = c }

module _ {N : Numbers} (I : Intervals N) where
  abbrev pub Outcome : Type 0
  Outcome = FilterAssertionResult × Box I

  unfoldable pub update_bounds_via_equality : Variable → Double → Box I → Outcome
  update_bounds_via_equality x v box =
      let intv = interval I box x in
      if eq_double N (I.lb intv) (I.ub intv) && eq_double N (I.lb intv) v
      then (absorbed false, box)
      else (
        absorbed true,
        (if I.contains intv v then set_interval I box x (I.of_point v) else set_empty I box),
      )

  unfoldable pub update_bounds_via_interval : Variable → Double → Double → Box I → Outcome
  update_bounds_via_interval x new_lb new_ub box =
      let intv = interval I box x in
      let both = I.intersect intv (I.of_bounds new_lb new_ub) in
      if eq_double N (I.lb intv) new_lb && eq_double N (I.ub intv) new_ub
      then (absorbed false, box)
      else (
        absorbed true,
        (if I.is_empty both
            then set_empty I (set_interval I box x both)
            else set_interval I box x both),
      )

  unfoldable pub update_lower_bound : Variable → Double → Box I → Outcome
  update_lower_bound x new_lb box =
      let intv = interval I box x in
      if le_double N new_lb (I.lb intv) then (absorbed false, box) else (
        absorbed true,
        (if le_double N new_lb (I.ub intv)
            then set_interval I box x (I.of_bounds new_lb (I.ub intv))
            else set_empty I box),
      )

  unfoldable pub update_upper_bound : Variable → Double → Box I → Outcome
  update_upper_bound x new_ub box =
      let intv = interval I box x in
      if le_double N (I.ub intv) new_ub then (absorbed false, box) else (
        absorbed true,
        (if le_double N (I.lb intv) new_ub
            then set_interval I box x (I.of_bounds (I.lb intv) new_ub)
            else set_empty I box),
      )

  -- The bound is moved, and the assertion kept.
  abbrev pub keep : Outcome → Outcome
  keep (r, box) = (record { filtered = false; changed = r.changed }, box)

  pub strict_lower : VariableType → Variable → Double → Box I → Option Outcome
  strict_lower continuous x v box = some (update_lower_bound x (N.next_up v) box)
  strict_lower integer x v box = some (keep (update_lower_bound x v box))
  strict_lower binary x v box = some (keep (update_lower_bound x v box))
  strict_lower boolean x v box = none

  unfoldable pub update_strict_lower_bound : Variable → Double → Box I → Option Outcome
  unfolding strict_lower
  update_strict_lower_bound x v box = strict_lower x.kind x v box

  pub strict_upper : VariableType → Variable → Double → Box I → Option Outcome
  strict_upper continuous x v box = some (update_upper_bound x (N.next_down v) box)
  strict_upper integer x v box = some (keep (update_upper_bound x v box))
  strict_upper binary x v box = some (keep (update_upper_bound x v box))
  strict_upper boolean x v box = none

  unfoldable pub update_strict_upper_bound : Variable → Double → Box I → Option Outcome
  unfolding strict_upper
  update_strict_upper_bound x v box = strict_upper x.kind x v box

  -- A positive equation.
  unfoldable pub assert_equal : Expression → Expression → Box I → Outcome
  assert_equal (variable x) (constant v) box = update_bounds_via_equality x v box
  assert_equal (variable x) (real_constant lb ub) box = update_bounds_via_interval x lb ub box
  assert_equal (constant v) (variable x) box = update_bounds_via_equality x v box
  assert_equal (real_constant lb ub) (variable x) box = update_bounds_via_interval x lb ub box
  assert_equal _ _ box = (kept, box)

  unfoldable pub visit_equal_to : Expression → Expression → Box I → Bool → Option Outcome
  visit_equal_to lhs rhs box true = some (assert_equal lhs rhs box)
  visit_equal_to lhs rhs box false = some (kept, box)

  unfoldable pub visit_greater_than : Expression → Expression → Box I → Bool → Option Outcome
  visit_greater_than (variable x) (constant v) box true = update_strict_lower_bound x v box
  visit_greater_than (variable x) (constant v) box false = some (update_upper_bound x v box)
  visit_greater_than (variable x) (real_constant lb ub) box true =
      update_strict_lower_bound x lb box
  visit_greater_than (variable x) (real_constant lb ub) box false =
      some (update_upper_bound x ub box)
  visit_greater_than (constant v) (variable x) box true = update_strict_upper_bound x v box
  visit_greater_than (constant v) (variable x) box false = some (update_lower_bound x v box)
  visit_greater_than (real_constant lb ub) (variable x) box true =
      update_strict_upper_bound x ub box
  visit_greater_than (real_constant lb ub) (variable x) box false =
      some (update_lower_bound x lb box)
  visit_greater_than _ _ box polarity = some (kept, box)

  unfoldable pub visit_greater_than_or_equal_to :
      Expression → Expression → Box I → Bool → Option Outcome
  visit_greater_than_or_equal_to (variable x) (constant v) box true =
      some (update_lower_bound x v box)
  visit_greater_than_or_equal_to (variable x) (constant v) box false =
      update_strict_upper_bound x v box
  visit_greater_than_or_equal_to (variable x) (real_constant lb ub) box true =
      some (update_lower_bound x lb box)
  visit_greater_than_or_equal_to (variable x) (real_constant lb ub) box false =
      update_strict_upper_bound x ub box
  visit_greater_than_or_equal_to (constant v) (variable x) box true =
      some (update_upper_bound x v box)
  visit_greater_than_or_equal_to (constant v) (variable x) box false =
      update_strict_lower_bound x v box
  visit_greater_than_or_equal_to (real_constant lb ub) (variable x) box true =
      some (update_upper_bound x ub box)
  visit_greater_than_or_equal_to (real_constant lb ub) (variable x) box false =
      update_strict_lower_bound x lb box
  visit_greater_than_or_equal_to _ _ box polarity = some (kept, box)

  unfoldable pub visit : Formula → Box I → Bool → Option Outcome
  visit (eq a b) box polarity = visit_equal_to a b box polarity
  visit (neq a b) box polarity = visit_equal_to a b box (not polarity)
  visit (gt a b) box polarity = visit_greater_than a b box polarity
  visit (geq a b) box polarity = visit_greater_than_or_equal_to a b box polarity
  visit (lt a b) box polarity = visit_greater_than_or_equal_to a b box (not polarity)
  visit (leq a b) box polarity = visit_greater_than a b box (not polarity)
  visit (neg f) box polarity = visit f box (not polarity)
  visit _ box polarity = some (kept, box)

  unfoldable pub filter_assertion : Formula → Box I → Option Outcome
  filter_assertion f box = visit f box true
