-- ===== src/Box/Interval.antt =====
-- The interval library, a parameter of the model: intervals of reals with doubles for bounds, the
-- operations that the solver calls, and their documented behaviour. `mem` says which reals an
-- interval holds; no code computes it.
use d_real_cmake.Prelude.{◌≡◌, Bool, true, false, ◌&&◌, ◌⊎◌}
use d_real_cmake.Symbolic.Syntax.{Double}
use d_real_cmake.Symbolic.Numbers.{Numbers, le_double}

pub record Intervals (N : Numbers) : Type 1 where
  pub Interval : Type 0
  pub mem : Interval → N.Real → Bool
  pub lb : Interval → Double
  pub ub : Interval → Double
  pub is_empty : Interval → Bool
  pub nothing : Interval
  pub of_bounds : Double → Double → Interval
  pub of_point : Double → Interval
  pub contains : Interval → Double → Bool
  pub intersect : Interval → Interval → Interval
  pub hull : Interval → Interval → Interval
  pub diam : Interval → Double
  pub is_bisectable : Interval → Bool
  pub bisect : Interval → Double → Interval × Interval
  pub mid : Interval → Double
  pub is_empty-nothing : is_empty nothing ≡ true
  pub mem-nothing : (x : N.Real) → mem nothing x ≡ false
  pub mem-is_empty : (i : Interval) (x : N.Real) → is_empty i ≡ true → mem i x ≡ false
  pub mem-bounds :
      (i : Interval) (x : N.Real)
      → is_empty i ≡ false
      → mem i x ≡ (N.le (N.real (lb i)) x && N.le x (N.real (ub i)))
  pub mem-of_bounds :
      (a b : Double) (x : N.Real)
      → le_double N a b ≡ true
      → mem (of_bounds a b) x ≡ (N.le (N.real a) x && N.le x (N.real b))
  pub mem-of_point :
      (a : Double) (x : N.Real) → mem (of_point a) x ≡ (N.le (N.real a) x && N.le x (N.real a))
  pub contains_lem : (i : Interval) (a : Double) → contains i a ≡ mem i (N.real a)
  pub mem-intersect : (i j : Interval) (x : N.Real) → mem (intersect i j) x ≡ (mem i x && mem j x)
  pub mem-hull_left : (i j : Interval) (x : N.Real) → mem i x ≡ true → mem (hull i j) x ≡ true
  pub mem-hull_right : (i j : Interval) (x : N.Real) → mem j x ≡ true → mem (hull i j) x ≡ true
  pub mem-bisect :
      (i : Interval) (ratio : Double) (x : N.Real)
      → is_bisectable i ≡ true
      → mem i x ≡ true
      → (mem (bisect i ratio).0 x ≡ true) ⊎ (mem (bisect i ratio).1 x ≡ true)
