-- ===== src/Solver/Context/Core/Numeric.antt =====
-- Boxes whose Boolean variables may be overwritten, as `CheckSatCore` does with a model of the SAT
-- solver: the points as far as the other variables go.
use d_real_cmake.Prelude.{
  ℕ, zero, suc, ◌≡◌, refl, Bool, true, false, List, [], ◌∷◌, if◌then◌else◌, inl, inr, Bool-cases,
  ◌==◌, set,
}
use d_real_cmake.Symbolic.Syntax.{Variable, VariableType, boolean}
use d_real_cmake.Symbolic.Numbers.{Numbers}
use d_real_cmake.Box.Interval.{Intervals}
use d_real_cmake.Box.{Box, empty, index, has_variable}
use d_real_cmake.Box.Points.{Within, index_here, index_there}

unfoldable pub is_boolean_type : VariableType → Bool
is_boolean_type boolean = true
is_boolean_type _ = false

-- The box's variable with that number is Boolean.
unfoldable pub declared_boolean : List Variable → Variable → Bool
declared_boolean [] b = false
declared_boolean (v ∷ vs) b = if v.id == b.id then is_boolean_type v.kind else declared_boolean vs b

declared-has_variable :
    (vs : List Variable) (b : Variable) → declared_boolean vs b ≡ true → has_variable vs b ≡ true
unfolding declared_boolean has_variable
declared-has_variable [] b d = d
declared-has_variable (v ∷ vs) b d = elim (Bool-cases (v.id == b.id)) [
  | inl e ↦ rw e refl
  | inr e ↦ rw e (declared-has_variable vs b (rw e at d))
]

module _ {N : Numbers} (I : Intervals N) (p : ℕ → N.Real) where
  -- The coordinates of the variables that are not Boolean lie in their intervals.
  abbrev pub NumbersWithin : List Variable → List I.Interval → Type 0
  NumbersWithin [] [] = Unit
  NumbersWithin (v ∷ vs) (i ∷ is') =
      (is_boolean_type v.kind ≡ false → I.mem i (p v.id) ≡ true) × NumbersWithin vs is'
  NumbersWithin _ _ = ⊥

  abbrev pub NumbersInside : Box I → Type 0
  NumbersInside box = NumbersWithin box.variables box.values

  pub set-NumbersWithin :
      (vs : List Variable) (is' : List I.Interval) (b : Variable) (j : I.Interval)
      → declared_boolean vs b ≡ true
      → NumbersWithin vs is'
      → NumbersWithin vs (set is' (index vs b) j)
  unfolding declared_boolean
  set-NumbersWithin [] [] b j d h = h
  set-NumbersWithin (v ∷ vs) (i ∷ is') b j d h = elim (Bool-cases (v.id == b.id)) [
    | inl e ↦
        let kind : is_boolean_type v.kind ≡ true = (rw e at d) in
        rw (index_here v vs b e) ((λ k. let z : ⊥ = cc in absurd z), h.1)
    | inr e ↦
        let later : declared_boolean vs b ≡ true = (rw e at d) in
        let (known, there) = index_there v vs b e (declared-has_variable (v ∷ vs) b d) in
        rw there (h.0, set-NumbersWithin vs is' b j later h.1)
  ]
  set-NumbersWithin [] (i ∷ is') b j d h = absurd h
  set-NumbersWithin (v ∷ vs) [] b j d h = absurd h

  pub Within-NumbersWithin :
      (vs : List Variable) (is' : List I.Interval) → Within I p vs is' → NumbersWithin vs is'
  Within-NumbersWithin [] [] h = h
  Within-NumbersWithin (v ∷ vs) (i ∷ is') h = (λ k. h.0, Within-NumbersWithin vs is' h.1)
  Within-NumbersWithin [] (i ∷ is') h = absurd h
  Within-NumbersWithin (v ∷ vs) [] h = absurd h

pub first_is_empty-set :
    {N : Numbers} (I : Intervals N) (vs : List Variable) (is' : List I.Interval) (k : ℕ)
    (j : I.Interval)
    → I.is_empty j ≡ false
    → empty I (record { variables = vs; values = is' }) ≡ false
    → empty I (record { variables = vs; values = set is' k j }) ≡ false
unfolding empty
first_is_empty-set I vs [] k j e h = h
first_is_empty-set I vs (i ∷ is') zero j e h = e
first_is_empty-set I vs (i ∷ is') (suc k) j e h = h
