-- ===== src/Tests/Boxes.antt =====
-- Bisecting and branching a box, and moving literals into it.
use d_real_cmake.Prelude.{
  ap, subst, ℕ, zero, suc, ◌≡◌, refl, ◌⊎◌, ◌↔◌, true, [], ◌∷◌, Option, none, some,
}
use d_real_cmake.Symbolic.Syntax.{Variable, variable, constant, Formula, gt}
use d_real_cmake.Symbolic.Meaning.{eval}
use d_real_cmake.Box.{Box, has_variable, interval, set_interval, index, position}
use d_real_cmake.Box.Points.{Inside}
use d_real_cmake.Box.Bisect.{get_elem?, bisect, bisect_int, bisect_continuous, set_at}
use d_real_cmake.Box.Bisect.Covers.{Typed, bisect_covers}
use d_real_cmake.Solver.Brancher.{wider, find_max_diam, branch_largest_first}
use d_real_cmake.Solver.Brancher.Largest.{
  NoneWider, Chosen, find_max_diam_largest, branch_largest_first_covers,
}
use d_real_cmake.Filter.{
  absorbed, filter_assertion, visit, visit_greater_than, update_strict_lower_bound,
  update_lower_bound,
}
use d_real_cmake.Filter.Fits.{KnowsTerm}
use d_real_cmake.Filter.Sound.{filter_assertion-keeps}
use d_real_cmake.Filter.Exact.{filter_assertion-Exact, filter_assertion_gap}
use d_real_cmake.Tests.Instances.{
  intervals, integers, semantics, reads, on_grid, x, n, box, doubles, point, point-Inside,
}

abbrev narrowed : ℕ × ℕ → ℕ × ℕ → Box intervals
narrowed i j = record { variables = x ∷ n ∷ []; values = i ∷ j ∷ [] }

some_injective : {A : Type 0} {a b : A} → some a ≡ some b → a ≡ b
some_injective {A = A} {a = a} e = ap (λ o. value_or a o) e
  where
    value_or : A → Option A → A
    value_or d none = d
    value_or d (some b) = b

integer-Typed :
    (v : Variable) → get_elem? box.variables 1 ≡ some v → Typed integers v.kind (point v.id)
unfolding get_elem?
integer-Typed v e =
    let same : n ≡ v = some_injective e in
    subst (λ (t : Variable). Typed integers t.kind (point t.id)) same (2, refl)

bisected : bisect intervals integers box 1 0 ≡ some (narrowed (0, 8) (2, 4), narrowed (0, 8) (6, 6))
unfolding bisect bisect_int get_elem? set_at
bisected = refl

bisect_covers_example :
    Inside intervals point (narrowed (0, 8) (2, 4))
    ⊎ Inside intervals point (narrowed (0, 8) (6, 6))
bisect_covers_example =
    bisect_covers intervals integers point box (narrowed (0, 8) (2, 4)) (narrowed (0, 8) (6, 6)) 1 0
      bisected integer-Typed refl point-Inside

branched :
    branch_largest_first intervals integers 0 box (true ∷ true ∷ [])
    ≡ some (some (0, narrowed (0, 4) (2, 6), narrowed (4, 8) (2, 6)))
unfolding branch_largest_first find_max_diam wider bisect bisect_continuous set_at get_elem?
branched = refl

continuous-Typed :
    (v : Variable) → get_elem? box.variables 0 ≡ some v → Typed integers v.kind (point v.id)
unfolding get_elem?
continuous-Typed v e =
    subst (λ (t : Variable). Typed integers t.kind (point t.id)) (some_injective e) tt

branch_largest_first_covers_example :
    Inside intervals point (narrowed (0, 4) (2, 6))
    ⊎ Inside intervals point (narrowed (4, 8) (2, 6))
branch_largest_first_covers_example =
    branch_largest_first_covers intervals integers point 0 box (narrowed (0, 4) (2, 6))
      (narrowed (4, 8) (2, 6)) (true ∷ true ∷ []) 0 branched continuous-Typed refl point-Inside

find_max_diam_largest_example :
    NoneWider intervals
      (find_max_diam intervals box (true ∷ true ∷ [])).0
      (true ∷ true ∷ [])
      box.values
    × ((find_max_diam intervals box (true ∷ true ∷ []) ≡ (0, none))
        ⊎ ((i : ℕ) × ((find_max_diam intervals box (true ∷ true ∷ [])).1 ≡ some i)
            × Chosen intervals
                (find_max_diam intervals box (true ∷ true ∷ [])).0
                (true ∷ true ∷ [])
                box.values
                i))
find_max_diam_largest_example = find_max_diam_largest intervals box (true ∷ true ∷ [])

-- `x > 2`, in doubles.
abbrev above_two : Formula
above_two = gt (variable x) (constant 2)

filtered : filter_assertion intervals above_two box ≡ some (absorbed true, narrowed (3, 8) (2, 6))
unfolding filter_assertion visit visit_greater_than update_strict_lower_bound update_lower_bound
    interval set_interval index position
filtered = refl

known : KnowsTerm intervals box (variable x)
unfolding interval index position has_variable
known = (refl, refl)

holds : eval semantics above_two point ≡ true
unfolding eval
holds = refl

filter_assertion-keeps_example : Inside intervals point (narrowed (3, 8) (2, 6))
filter_assertion-keeps_example =
    filter_assertion-keeps semantics intervals point point (on_grid doubles) (reads point) above_two
      box (narrowed (3, 8) (2, 6)) (absorbed true) (known, tt) filtered point-Inside holds

filter_assertion-Exact_example :
    Inside intervals point (narrowed (3, 8) (2, 6))
    ↔ (Inside intervals point box × (eval semantics above_two point ≡ true))
filter_assertion-Exact_example =
    filter_assertion-Exact semantics intervals point point (on_grid doubles) (reads point) above_two
      box (narrowed (3, 8) (2, 6)) (absorbed true) (known, tt) (tt, (refl, refl)) filtered refl

-- `x` is 5, strictly between the doubles 2 and 3, which are the reals 4 and 6.
abbrev between : ℕ → ℕ
between zero = 5
between (suc i) = 8

filter_assertion_gap_example :
    (eval semantics above_two between ≡ true)
    × (¬ Inside intervals between (narrowed (3, 8) (2, 6)))
filter_assertion_gap_example =
    filter_assertion_gap semantics intervals between between (reads between) x 2 box refl known refl
      refl (absorbed true) (narrowed (3, 8) (2, 6)) filtered
