-- ===== src/Filter/Sound.antt =====
-- The filter against the meaning of formulas: which points of the box it keeps.
use d_real_cmake.Prelude.{
  ℕ, ◌≡◌, ◌∙◌, ap, subst, Bool, true, false, not, some, arith, polar, polar-not, not-not,
}
use d_real_cmake.Symbolic.Syntax.{
  Variable, Double, Expression, variable, constant, real_constant, Formula, eq, neq, gt, geq, lt,
  leq, neg,
}
use d_real_cmake.Symbolic.Numbers.{Numbers, le_double, eq_real}
use d_real_cmake.Symbolic.Meaning.{Semantics, eval}
use d_real_cmake.Box.Interval.{Intervals}
use d_real_cmake.Box.{Box}
use d_real_cmake.Box.Points.{Inside}
use d_real_cmake.Filter.Updates.{
  update_bounds_via_equality-Restricts, update_bounds_via_interval-Restricts,
}
use d_real_cmake.Filter.{
  FilterAssertionResult, update_bounds_via_equality, update_bounds_via_interval, update_lower_bound,
  update_upper_bound, update_strict_lower_bound, update_strict_upper_bound, assert_equal,
  visit_equal_to, visit_greater_than, visit_greater_than_or_equal_to, visit, filter_assertion,
}
use d_real_cmake.Filter.Fits.{
  Exact, ExactTerm, Fits, Fits-Restricts, Fits-kept, Fits-lower, Fits-strict_lower,
  Fits-strict_upper, Fits-upper, Fits-weaker, IsOnGrid, Knows, KnowsTerm, Reads,
}

module _ (S : Semantics) (I : Intervals S.numbers) (p : ℕ → S.numbers.Real) (box : Box I)
    (grid : IsOnGrid S.numbers p) (ρ : S.Env) (reads : Reads S p ρ) where
  abbrev N : Numbers
  N = S.numbers

  Fits-greater_than :
      (a b : Expression) (polarity : Bool)
      → KnowsTerm I box a × KnowsTerm I box b
      → Fits I p box
          (polar polarity (not (N.le (S.value ρ a) (S.value ρ b))))
          (ExactTerm N a × ExactTerm N b)
          (visit_greater_than I a b box polarity)
  unfolding visit_greater_than update_strict_lower_bound update_strict_upper_bound
  Fits-greater_than (variable x) (constant v) true k =
      rw (reads.variable_lem x, reads.constant_lem v)
        (Fits-weaker I p box _ _ _ _ (update_strict_lower_bound I x v box) (λ h. h)
          (λ c. (c.1, λ h. h)) (Fits-strict_lower I p box grid x k.0 x.kind v))
  Fits-greater_than (variable x) (constant v) false k =
      rw (reads.variable_lem x, reads.constant_lem v, not-not) (Fits-upper I p box grid x k.0 v _)
  Fits-greater_than (variable x) (real_constant lb ub) true k = rw (reads.variable_lem x) (
      Fits-weaker I p box _ _ _ _ (update_strict_lower_bound I x lb box)
        (λ h.
          let l = reads.lower lb ub k.1 in
          ground (arith, N.le_trans (p x.id) (N.real lb) (S.value ρ (real_constant lb ub))))
        (λ c. absurd c.1) (Fits-strict_lower I p box grid x k.0 x.kind lb))
  Fits-greater_than (variable x) (real_constant lb ub) false k =
      rw (reads.variable_lem x, not-not)
        (Fits-weaker I p box _ _ Unit _ (some (update_upper_bound I x ub box))
          (λ h.
            N.le_trans (p x.id) (S.value ρ (real_constant lb ub)) (N.real ub) h
              (reads.upper lb ub k.1))
          (λ c. absurd c.1) (Fits-upper I p box grid x k.0 ub Unit))
  Fits-greater_than (constant v) (variable x) true k =
      rw (reads.variable_lem x, reads.constant_lem v)
        (Fits-weaker I p box _ _ _ _ (update_strict_upper_bound I x v box) (λ h. h)
          (λ c. (c.0, λ h. h)) (Fits-strict_upper I p box grid x k.1 x.kind v))
  Fits-greater_than (constant v) (variable x) false k =
      rw (reads.variable_lem x, reads.constant_lem v, not-not) (Fits-lower I p box grid x k.1 v _)
  Fits-greater_than (real_constant lb ub) (variable x) true k = rw (reads.variable_lem x) (
      Fits-weaker I p box _ _ _ _ (update_strict_upper_bound I x ub box)
        (λ h.
          let l = reads.upper lb ub k.0 in
          ground (arith, N.le_trans (S.value ρ (real_constant lb ub)) (N.real ub) (p x.id)))
        (λ c. absurd c.0) (Fits-strict_upper I p box grid x k.1 x.kind ub))
  Fits-greater_than (real_constant lb ub) (variable x) false k =
      rw (reads.variable_lem x, not-not)
        (Fits-weaker I p box _ _ Unit _ (some (update_lower_bound I x lb box))
          (λ h.
            N.le_trans (N.real lb) (S.value ρ (real_constant lb ub)) (p x.id)
              (reads.lower lb ub k.0) h)
          (λ c. absurd c.0) (Fits-lower I p box grid x k.1 lb Unit))
  Fits-greater_than _ _ polarity k = Fits-kept I p box _ _

  Fits-greater_than_or_equal_to :
      (a b : Expression) (polarity : Bool)
      → KnowsTerm I box a × KnowsTerm I box b
      → Fits I p box
          (polar polarity (N.le (S.value ρ b) (S.value ρ a)))
          (ExactTerm N a × ExactTerm N b)
          (visit_greater_than_or_equal_to I a b box polarity)
  unfolding visit_greater_than_or_equal_to update_strict_lower_bound update_strict_upper_bound
  Fits-greater_than_or_equal_to (variable x) (constant v) true k =
      rw (reads.variable_lem x, reads.constant_lem v) (Fits-lower I p box grid x k.0 v _)
  Fits-greater_than_or_equal_to (variable x) (constant v) false k =
      rw (reads.variable_lem x, reads.constant_lem v)
        (Fits-weaker I p box _ _ _ _ (update_strict_upper_bound I x v box) (λ h. h)
          (λ c. (c.1, λ h. h)) (Fits-strict_upper I p box grid x k.0 x.kind v))
  Fits-greater_than_or_equal_to (variable x) (real_constant lb ub) true k =
      rw (reads.variable_lem x) (
        Fits-weaker I p box _ _ Unit _ (some (update_lower_bound I x lb box))
          (λ h.
            N.le_trans (N.real lb) (S.value ρ (real_constant lb ub)) (p x.id)
              (reads.lower lb ub k.1) h)
          (λ c. absurd c.1) (Fits-lower I p box grid x k.0 lb Unit))
  Fits-greater_than_or_equal_to (variable x) (real_constant lb ub) false k =
      rw (reads.variable_lem x) (
        Fits-weaker I p box _ _ _ _ (update_strict_upper_bound I x ub box)
          (λ h.
            let l = reads.upper lb ub k.1 in
            ground (arith, N.le_trans (S.value ρ (real_constant lb ub)) (N.real ub) (p x.id)))
          (λ c. absurd c.1) (Fits-strict_upper I p box grid x k.0 x.kind ub))
  Fits-greater_than_or_equal_to (constant v) (variable x) true k =
      rw (reads.variable_lem x, reads.constant_lem v) (Fits-upper I p box grid x k.1 v _)
  Fits-greater_than_or_equal_to (constant v) (variable x) false k =
      rw (reads.variable_lem x, reads.constant_lem v)
        (Fits-weaker I p box _ _ _ _ (update_strict_lower_bound I x v box) (λ h. h)
          (λ c. (c.0, λ h. h)) (Fits-strict_lower I p box grid x k.1 x.kind v))
  Fits-greater_than_or_equal_to (real_constant lb ub) (variable x) true k =
      rw (reads.variable_lem x) (
        Fits-weaker I p box _ _ Unit _ (some (update_upper_bound I x ub box))
          (λ h.
            N.le_trans (p x.id) (S.value ρ (real_constant lb ub)) (N.real ub) h
              (reads.upper lb ub k.0))
          (λ c. absurd c.0) (Fits-upper I p box grid x k.1 ub Unit))
  Fits-greater_than_or_equal_to (real_constant lb ub) (variable x) false k =
      rw (reads.variable_lem x) (
        Fits-weaker I p box _ _ _ _ (update_strict_lower_bound I x lb box)
          (λ h.
            let l = reads.lower lb ub k.0 in
            ground (arith, N.le_trans (p x.id) (N.real lb) (S.value ρ (real_constant lb ub))))
          (λ c. absurd c.0) (Fits-strict_lower I p box grid x k.1 x.kind lb))
  Fits-greater_than_or_equal_to _ _ polarity k = Fits-kept I p box _ _

  eq_real_comm : (a b : N.Real) → eq_real N a b ≡ eq_real N b a
  eq_real_comm a b = ground arith

  Fits-point :
      (x : Variable) (v : Double) (condition : Type 0)
      → KnowsTerm I box (variable x)
      → Fits I p box
          (eq_real N (p x.id) (N.real v))
          condition
          (some (update_bounds_via_equality I x v box))
  Fits-point x v condition k =
      Fits-Restricts I p box x _ condition (update_bounds_via_equality I x v box)
        (update_bounds_via_equality-Restricts I p box x k.0 k.1 v)

  Fits-interval :
      (x : Variable) (lb ub : Double) (condition : Type 0)
      → KnowsTerm I box (variable x)
      → le_double N lb ub ≡ true
      → Fits I p box
          (eq_real N (p x.id) (S.value ρ (real_constant lb ub)))
          (condition × ⊥)
          (some (update_bounds_via_interval I x lb ub box))
  Fits-interval x lb ub condition k o =
      let r : N.Real = S.value ρ (real_constant lb ub) in
      let l = reads.lower lb ub o in
      let u = reads.upper lb ub o in
      Fits-weaker I p box _ _ Unit _ (some (update_bounds_via_interval I x lb ub box))
        (λ h. ground (
          arith,
          N.le_trans (N.real lb) (S.value ρ (real_constant lb ub)) (p x.id),
          N.le_trans (p x.id) (S.value ρ (real_constant lb ub)) (N.real ub),
        ))
        (λ c. absurd c.1)
        (Fits-Restricts I p box x _ Unit (update_bounds_via_interval I x lb ub box) (
          update_bounds_via_interval-Restricts I p box x k.0 k.1 lb ub
            (N.le_trans (N.real lb) (S.value ρ (real_constant lb ub)) (N.real ub) l u)))

  Fits-assert_equal :
      (a b : Expression)
      → KnowsTerm I box a × KnowsTerm I box b
      → Fits I p box
          (eq_real N (S.value ρ a) (S.value ρ b))
          (ExactTerm N a × ExactTerm N b)
          (some (assert_equal I a b box))
  unfolding assert_equal
  Fits-assert_equal (variable x) (constant v) k =
      rw (reads.variable_lem x, reads.constant_lem v) (Fits-point x v _ k.0)
  Fits-assert_equal (variable x) (real_constant lb ub) k =
      rw (reads.variable_lem x) (Fits-interval x lb ub Unit k.0 k.1)
  Fits-assert_equal (constant v) (variable x) k =
      rw (reads.variable_lem x, reads.constant_lem v, eq_real_comm (N.real v) (p x.id))
        (Fits-point x v _ k.1)
  Fits-assert_equal (real_constant lb ub) (variable x) k =
      rw (reads.variable_lem x, eq_real_comm (S.value ρ (real_constant lb ub)) (p x.id))
        (Fits-weaker I p box _ _ (Unit {0} × ⊥) _ (some (update_bounds_via_interval I x lb ub box))
          (λ h. h) (λ c. absurd c.0) (Fits-interval x lb ub Unit k.1 k.0))
  Fits-assert_equal _ _ k = Fits-kept I p box _ _

  Fits-equal_to :
      (a b : Expression) (polarity : Bool)
      → KnowsTerm I box a × KnowsTerm I box b
      → Fits I p box
          (polar polarity (eq_real N (S.value ρ a) (S.value ρ b)))
          (ExactTerm N a × ExactTerm N b)
          (visit_equal_to I a b box polarity)
  unfolding visit_equal_to
  Fits-equal_to a b true k = Fits-assert_equal a b k
  Fits-equal_to a b false k = Fits-kept I p box _ _

  pub Fits-visit :
      (f : Formula) (polarity : Bool)
      → Knows I box f
      → Fits I p box (polar polarity (eval S f ρ)) (Exact N f) (visit I f box polarity)
  unfolding visit eval
  Fits-visit (eq a b) polarity k = Fits-equal_to a b polarity k
  Fits-visit (neq a b) polarity k = rw (← polar-not) (Fits-equal_to a b (not polarity) k)
  Fits-visit (gt a b) polarity k = Fits-greater_than a b polarity k
  Fits-visit (geq a b) polarity k = Fits-greater_than_or_equal_to a b polarity k
  Fits-visit (lt a b) polarity k =
      rw (← polar-not) (Fits-greater_than_or_equal_to a b (not polarity) k)
  Fits-visit (leq a b) polarity k =
      subst (λ h. Fits I p box h (Exact N (leq a b)) (visit_greater_than I a b box (not polarity)))
        (polar-not polarity (not (N.le (S.value ρ a) (S.value ρ b)))
          ∙ ap (polar polarity) (not-not _))
        (Fits-greater_than a b (not polarity) k)
  Fits-visit (neg f) polarity k = rw (← polar-not) (Fits-visit f (not polarity) k)
  Fits-visit _ polarity k = Fits-kept I p box _ _

-- The filter moves a literal into the box without losing a solution: a point of the box at which
-- the assertion holds is a point of the new box, provided that no coordinate lies strictly between
-- a double and its neighbour. The box is taken to have the variables that the literal bounds, with
-- intervals that are not empty, and the bounds of an unknown constant to be in order.
pub filter_assertion-keeps :
    (S : Semantics) (I : Intervals S.numbers) (p : ℕ → S.numbers.Real) (ρ : S.Env)
    → IsOnGrid S.numbers p
    → Reads S p ρ
    → (f : Formula) (box new : Box I) (r : FilterAssertionResult) → Knows I box f
    → filter_assertion I f box ≡ some (r, new)
    → Inside I p box
    → eval S f ρ ≡ true
    → Inside I p new
unfolding filter_assertion
filter_assertion-keeps S I p ρ grid reads f box new r k e =
    let F = Fits-visit S I p box grid ρ reads f true k in
    (subst (Fits I p box (eval S f ρ) (Exact S.numbers f)) e F).0
