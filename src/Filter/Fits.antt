-- ===== src/Filter/Fits.antt =====
-- What the filter's result owes the literal that it was given, and the updates that pay it.
use d_real_cmake.Prelude.{ℕ, ◌≡◌, Bool, true, false, not, Option, none, some, arith}
use d_real_cmake.Symbolic.Syntax.{
  Variable, VariableType, continuous, integer, binary, boolean, Double, Expression, variable,
  constant, real_constant, term, Formula, eq, neq, gt, geq, lt, leq, neg,
}
use d_real_cmake.Symbolic.Numbers.{Numbers, le_double}
use d_real_cmake.Symbolic.Meaning.{Semantics}
use d_real_cmake.Box.Interval.{Intervals}
use d_real_cmake.Box.{Box, interval, has_variable}
use d_real_cmake.Box.Points.{Inside}
use d_real_cmake.Filter.Updates.{
  Restricts, update_lower_bound-Restricts, update_upper_bound-Restricts,
}
use d_real_cmake.Filter.{
  Outcome, kept, keep, update_lower_bound, update_upper_bound, strict_lower, strict_upper,
}

-- The environment reads the coordinates of a point for the variables, and the constants as what
-- they stand for.
pub record Reads (S : Semantics) (p : ℕ → S.numbers.Real) (ρ : S.Env) : Type 0 where
  pub variable_lem : (v : Variable) → S.value ρ (variable v) ≡ p v.id
  pub constant_lem : (c : Double) → S.value ρ (constant c) ≡ S.numbers.real c
  pub lower :
      (a b : Double)
      → le_double S.numbers a b ≡ true
      → S.numbers.le (S.numbers.real a) (S.value ρ (real_constant a b)) ≡ true
  pub upper :
      (a b : Double)
      → le_double S.numbers a b ≡ true
      → S.numbers.le (S.value ρ (real_constant a b)) (S.numbers.real b) ≡ true

-- No coordinate lies strictly between a double and its neighbour, as when all are doubles.
pub record IsOnGrid (N : Numbers) (p : ℕ → N.Real) : Type 0 where
  pub above :
      (v : Double) (i : ℕ)
      → N.le (p i) (N.real v) ≡ false
      → N.le (N.real (N.next_up v)) (p i) ≡ true
  pub below :
      (v : Double) (i : ℕ)
      → N.le (N.real v) (p i) ≡ false
      → N.le (p i) (N.real (N.next_down v)) ≡ true

-- The box has the variables that a literal bounds, with intervals that are not empty, and the bounds
-- of an unknown constant are in order.
module _ {N : Numbers} (I : Intervals N) where
  abbrev pub KnowsTerm : Box I → Expression → Type 0
  KnowsTerm box (variable v) =
      (has_variable box.variables v ≡ true) × (I.is_empty (interval I box v) ≡ false)
  KnowsTerm box (constant _) = Unit
  KnowsTerm box (real_constant a b) = le_double N a b ≡ true
  KnowsTerm box (term _) = Unit

abbrev pub Knows : {N : Numbers} (I : Intervals N) → Box I → Formula → Type 0
Knows I box (eq a b) = KnowsTerm I box a × KnowsTerm I box b
Knows I box (neq a b) = KnowsTerm I box a × KnowsTerm I box b
Knows I box (gt a b) = KnowsTerm I box a × KnowsTerm I box b
Knows I box (geq a b) = KnowsTerm I box a × KnowsTerm I box b
Knows I box (lt a b) = KnowsTerm I box a × KnowsTerm I box b
Knows I box (leq a b) = KnowsTerm I box a × KnowsTerm I box b
Knows I box (neg f) = Knows I box f
Knows I box _ = Unit

-- The constants are single doubles with neighbours on both sides.
abbrev pub ExactTerm : Numbers → Expression → Type 0
ExactTerm N (constant v) =
    (le_double N (N.next_up v) v ≡ false) × (le_double N v (N.next_down v) ≡ false)
ExactTerm N (real_constant _ _) = ⊥
ExactTerm N (variable _) = Unit
ExactTerm N (term _) = Unit

abbrev pub Exact : Numbers → Formula → Type 0
Exact N (eq a b) = ExactTerm N a × ExactTerm N b
Exact N (neq a b) = ExactTerm N a × ExactTerm N b
Exact N (gt a b) = ExactTerm N a × ExactTerm N b
Exact N (geq a b) = ExactTerm N a × ExactTerm N b
Exact N (lt a b) = ExactTerm N a × ExactTerm N b
Exact N (leq a b) = ExactTerm N a × ExactTerm N b
Exact N (neg f) = Exact N f
Exact N _ = Unit

module _ {N : Numbers} (I : Intervals N) (p : ℕ → N.Real) (box : Box I) where
  -- The new box keeps the points at which the literal holds, and adds none; where the literal is
  -- dropped and the condition holds, it holds at every point kept.
  abbrev pub Fits : Bool → Type 0 → Option (Outcome I) → Type 0
  Fits holds condition none = Unit
  Fits holds condition (some (r, new)) =
      (Inside I p box → holds ≡ true → Inside I p new)
      × (Inside I p new → Inside I p box)
      × (condition → r.filtered ≡ true → Inside I p new → holds ≡ true)

  pub Fits-kept : (holds : Bool) (condition : Type 0) → Fits holds condition (some (kept, box))
  Fits-kept holds condition = (λ w h. w, λ w. w, λ c e w. cc)

  pub Fits-Restricts :
      (x : Variable) (holds : Bool) (condition : Type 0) (o : Outcome I)
      → Restricts I p x box holds o.1
      → Fits holds condition (some o)
  Fits-Restricts x holds condition o R = (R.keeps, R.within, λ c e w. R.only w)

  -- A literal implied by the one that the box was restricted to.
  pub Fits-weaker :
      (holds holds' : Bool) (condition condition' : Type 0) (o : Option (Outcome I))
      → (holds' ≡ true → holds ≡ true)
      → (condition' → condition × (holds ≡ true → holds' ≡ true))
      → Fits holds condition o
      → Fits holds' condition' o
  Fits-weaker holds holds' condition condition' none h c F = tt
  Fits-weaker holds holds' condition condition' (some (r, new)) h c F =
      (λ w t. F.0 w (h t), F.1, λ k e w. (c k).1 (F.2 (c k).0 e w))

  -- The bound is moved, and the literal stays asserted.
  pub Fits-keep :
      (holds holds' : Bool) (condition : Type 0) (o : Outcome I)
      → (holds' ≡ true → holds ≡ true)
      → Fits holds condition (some o)
      → Fits holds' condition (some (keep I o))
  Fits-keep holds holds' condition o h F = (λ w t. F.0 w (h t), F.1, λ k e w. cc)

module _ {N : Numbers} (I : Intervals N) (p : ℕ → N.Real) (box : Box I) (grid : IsOnGrid N p) where
  abbrev pub Room : Double → Type 0
  Room v = (le_double N (N.next_up v) v ≡ false) × (le_double N v (N.next_down v) ≡ false)

  module _ (x : Variable) (known : KnowsTerm I box (variable x)) where
    pub Fits-lower :
        (v : Double) (condition : Type 0)
        → Fits I p box (N.le (N.real v) (p x.id)) condition (some (update_lower_bound I x v box))
    Fits-lower v condition =
        Fits-Restricts I p box x _ condition (update_lower_bound I x v box)
          (update_lower_bound-Restricts I p box x known.0 known.1 v)

    pub Fits-upper :
        (v : Double) (condition : Type 0)
        → Fits I p box (N.le (p x.id) (N.real v)) condition (some (update_upper_bound I x v box))
    Fits-upper v condition =
        Fits-Restricts I p box x _ condition (update_upper_bound I x v box)
          (update_upper_bound-Restricts I p box x known.0 known.1 v)

    pub not-true : (b : Bool) → not b ≡ true → b ≡ false
    not-true b h = ground arith

    pub Fits-strict_lower :
        (k : VariableType) (v : Double)
        → Fits I p box (not (N.le (p x.id) (N.real v))) (Room v) (strict_lower I k x v box)
    unfolding strict_lower
    Fits-strict_lower continuous v =
        Fits-weaker I p box _ _ Unit _ (some (update_lower_bound I x (N.next_up v) box))
          (λ h. grid.above v x.id (not-true _ h))
          (λ r. (
            tt,
            λ h.
                let r' = r.0 in
                ground (arith, N.le_trans (N.real (N.next_up v)) (p x.id) (N.real v)),
          ))
          (Fits-lower (N.next_up v) Unit)
    Fits-strict_lower integer v =
        Fits-keep I p box _ _ (Room v) (update_lower_bound I x v box)
          (λ h. N.le_total (p x.id) (N.real v) (not-true _ h)) (Fits-lower v (Room v))
    Fits-strict_lower binary v =
        Fits-keep I p box _ _ (Room v) (update_lower_bound I x v box)
          (λ h. N.le_total (p x.id) (N.real v) (not-true _ h)) (Fits-lower v (Room v))
    Fits-strict_lower boolean v = tt

    pub Fits-strict_upper :
        (k : VariableType) (v : Double)
        → Fits I p box (not (N.le (N.real v) (p x.id))) (Room v) (strict_upper I k x v box)
    unfolding strict_upper
    Fits-strict_upper continuous v =
        Fits-weaker I p box _ _ Unit _ (some (update_upper_bound I x (N.next_down v) box))
          (λ h. grid.below v x.id (not-true _ h))
          (λ r. (
            tt,
            λ h.
                let r' = r.1 in
                ground (arith, N.le_trans (N.real v) (p x.id) (N.real (N.next_down v))),
          ))
          (Fits-upper (N.next_down v) Unit)
    Fits-strict_upper integer v =
        Fits-keep I p box _ _ (Room v) (update_upper_bound I x v box)
          (λ h. N.le_total (N.real v) (p x.id) (not-true _ h)) (Fits-upper v (Room v))
    Fits-strict_upper binary v =
        Fits-keep I p box _ _ (Room v) (update_upper_bound I x v box)
          (λ h. N.le_total (N.real v) (p x.id) (not-true _ h)) (Fits-upper v (Room v))
    Fits-strict_upper boolean v = tt
