-- ===== src/Filter/Exact.antt =====
-- When the filter drops an assertion, and where its strict bounds lose reals.
use d_real_cmake.Prelude.{ℕ, ◌≡◌, refl, subst, ◌↔◌, true, false, some}
use d_real_cmake.Symbolic.Syntax.{
  Variable, VariableType, continuous, integer, binary, boolean, Double, variable, constant, Formula,
  gt,
}
use d_real_cmake.Symbolic.Meaning.{Semantics, eval}
use d_real_cmake.Box.Interval.{Intervals}
use d_real_cmake.Box.{Box}
use d_real_cmake.Box.Points.{Inside}
use d_real_cmake.Filter.Updates.{update_lower_bound-Restricts}
use d_real_cmake.Filter.Fits.{Reads, IsOnGrid, Knows, KnowsTerm, Exact, Fits}
use d_real_cmake.Filter.Sound.{Fits-visit}
use d_real_cmake.Filter.{
  FilterAssertionResult, update_lower_bound, strict_lower, update_strict_lower_bound,
  visit_greater_than, visit, filter_assertion,
}

-- An assertion that the filter drops is not lost: the points of the new box are then exactly the
-- points of the old one at which it holds. This is for coordinates that are doubles, and constants
-- that are single doubles other than the largest and the smallest. The box is taken to have the
-- variables that the literal bounds, with intervals that are not empty, and the bounds of an
-- unknown constant to be in order.
pub filter_assertion-Exact :
    (S : Semantics) (I : Intervals S.numbers) (p : ℕ → S.numbers.Real) (ρ : S.Env)
    → IsOnGrid S.numbers p
    → Reads S p ρ
    → (f : Formula) (box new : Box I) (r : FilterAssertionResult) → Knows I box f
    → Exact S.numbers f
    → filter_assertion I f box ≡ some (r, new)
    → r.filtered ≡ true
    → Inside I p new ↔ (Inside I p box × (eval S f ρ ≡ true))
unfolding filter_assertion
filter_assertion-Exact S I p ρ grid reads f box new r k c e d =
    let F : Fits I p box (eval S f ρ) (Exact S.numbers f) (some (r, new)) =
      subst (Fits I p box (eval S f ρ) (Exact S.numbers f)) e
        (Fits-visit S I p box grid ρ reads f true k) in
    (λ w. (F.1 w, F.2 c d w), λ h. F.0 h.0 h.1)

-- A strict bound `x > v` on a continuous variable loses the reals between `v` and the next double:
-- if the coordinate of `x` is strictly between them, the assertion holds at the point, and the point
-- is not in the box that the filter returns. The box is taken to know the variable.
pub filter_assertion_gap :
    (S : Semantics) (I : Intervals S.numbers) (p : ℕ → S.numbers.Real) (ρ : S.Env)
    → Reads S p ρ
    → (x : Variable) (v : Double) (box : Box I) → x.kind ≡ continuous
    → KnowsTerm I box (variable x)
    → S.numbers.le (p x.id) (S.numbers.real v) ≡ false
    → S.numbers.le (S.numbers.real (S.numbers.next_up v)) (p x.id) ≡ false
    → (r : FilterAssertionResult) (new : Box I)
    → filter_assertion I (gt (variable x) (constant v)) box ≡ some (r, new)
    → (eval S (gt (variable x) (constant v)) ρ ≡ true) × (¬ Inside I p new)
unfolding filter_assertion visit visit_greater_than update_strict_lower_bound strict_lower eval
filter_assertion_gap S I p ρ reads x v box kind k above below r new e =
    (rw (reads.variable_lem x, reads.constant_lem v, above) refl, lost x.kind kind r new e)
  where
    lost :
        (t : VariableType)
        → t ≡ continuous
        → (s : FilterAssertionResult) (b : Box I) → strict_lower I t x v box ≡ some (s, b)
        → ¬ Inside I p b
    lost integer q s b h w = cc
    lost binary q s b h w = cc
    lost boolean q s b h w = cc
    lost continuous q s b h w =
        let R = update_lower_bound-Restricts I p box x k.0 k.1 (S.numbers.next_up v) in
        let same : b ≡ (update_lower_bound I x (S.numbers.next_up v) box).1 = cc in
        let g = R.only (subst (Inside I p) same w) in cc
