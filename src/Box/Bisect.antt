-- ===== src/Box/Bisect.antt =====
-- `Box::bisect` of src/dreal/util/box.cc and its two cases. Floor, ceiling, the next integer and
-- which reals are integers are parameters.
pub mod Covers
use d_real_cmake.Prelude.{
  ℕ, zero, suc, ◌≡◌, ◌⊎◌, Bool, true, false, ◌&&◌, List, [], ◌∷◌, Option, none, some, if◌then◌else◌,
  get_or, set, ◌>>=◌,
}
use d_real_cmake.Symbolic.Syntax.{
  Variable, VariableType, continuous, integer, binary, boolean, Double,
}
use d_real_cmake.Symbolic.Numbers.{Numbers, le_double}
use d_real_cmake.Box.Interval.{Intervals}
use d_real_cmake.Box.{Box}

pub record Integers (N : Numbers) : Type 1 where
  pub IsInteger : N.Real → Type 0
  pub is_integer : Double → Bool
  pub floor : Double → Double
  pub ceil : Double → Double
  pub successor : Double → Double
  pub ceil_lem :
      (d : Double) (x : N.Real)
      → IsInteger x
      → N.le (N.real d) x ≡ true
      → N.le (N.real (ceil d)) x ≡ true
  pub floor_lem :
      (d : Double) (x : N.Real)
      → IsInteger x
      → N.le x (N.real d) ≡ true
      → N.le x (N.real (floor d)) ≡ true
  -- An integer above a rounded number is at least the next one.
  pub successor_lem :
      (d : Double) (x : N.Real)
      → IsInteger x
      → N.le x (N.real (floor d)) ≡ false
      → N.le (N.real (successor (floor d))) x ≡ true

unfoldable pub get_elem? : {A : Type 0} → List A → ℕ → Option A
get_elem? [] i = none
get_elem? (x ∷ xs) zero = some x
get_elem? (x ∷ xs) (suc i) = get_elem? xs i

module _ {N : Numbers} (I : Intervals N) where
  -- `b[i] = iv`
  unfoldable pub set_at : Box I → ℕ → I.Interval → Box I
  set_at box i iv = record box { values = set box.values i iv }

  unfoldable pub bisect_continuous : Box I → ℕ → Double → Box I × Box I
  bisect_continuous box i ratio =
      let halves = I.bisect (get_or box.values i I.nothing) ratio in
      (set_at box i halves.0, set_at box i halves.1)

  module _ (Z : Integers N) where
    -- `none` is a failed assertion: the halves must not be reversed.
    unfoldable pub bisect_int : Box I → ℕ → Option (Box I × Box I)
    bisect_int box i =
        let intv = get_or box.values i I.nothing in
        let lb = Z.ceil (I.lb intv) in
        let ub = Z.floor (I.ub intv) in
        let mid_floor = Z.floor (I.mid intv) in
        if le_double N (I.lb intv) lb
          && (le_double N lb mid_floor
              && (le_double N (Z.successor mid_floor) ub && le_double N ub (I.ub intv)))
        then some (
          set_at box i (I.of_bounds lb mid_floor),
          set_at box i (I.of_bounds (Z.successor mid_floor) ub),
        )
        else none

    bisect_kind : VariableType → Box I → ℕ → Double → Option (Box I × Box I)
    bisect_kind continuous box i ratio = some (bisect_continuous box i ratio)
    bisect_kind integer box i ratio = bisect_int box i
    bisect_kind binary box i ratio = bisect_int box i
    bisect_kind boolean box i ratio = none

    -- `none` is an exception or a failed assertion.
    unfoldable pub bisect : Box I → ℕ → Double → Option (Box I × Box I)
    unfolding bisect_kind
    bisect box i ratio =
        if I.is_bisectable (get_or box.values i I.nothing)
        then (get_elem? box.variables i >>= λ (v : Variable). bisect_kind v.kind box i ratio)
        else none
