-- ===== src/Symbolic/Numbers.antt =====
-- Real numbers and doubles, as a parameter of the model: a total order, the real that a double
-- stands for, and `nextafter` in the two directions in which it is called. No NaN occurs.
use d_real_cmake.Prelude.{◌≡◌, Bool, true, false, not, ◌&&◌}
use d_real_cmake.Symbolic.Syntax.{Double}

pub record Numbers : Type 1 where
  pub Real : Type 0
  pub le : Real → Real → Bool
  pub le_refl : (a : Real) → le a a ≡ true
  pub le_trans : (a b c : Real) → le a b ≡ true → le b c ≡ true → le a c ≡ true
  pub le_total : (a b : Real) → le a b ≡ false → le b a ≡ true
  pub real : Double → Real
  pub next_up : Double → Double
  pub next_down : Double → Double

module _ (N : Numbers) where
  -- Comparisons of doubles, as the source writes them.
  abbrev pub le_double : Double → Double → Bool
  le_double a b = N.le (N.real a) (N.real b)

  abbrev pub eq_double : Double → Double → Bool
  eq_double a b = le_double a b && le_double b a

  abbrev pub lt_real : N.Real → N.Real → Bool
  lt_real a b = not (N.le b a)

  abbrev pub eq_real : N.Real → N.Real → Bool
  eq_real a b = N.le a b && N.le b a
