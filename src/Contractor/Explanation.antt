-- ===== src/Contractor/Explanation.antt =====
-- `GenerateExplanation` of src/dreal/contractor/contractor_status.cc and `HaveIntersection` of
-- src/dreal/symbolic/symbolic.cc. Formulas, their equality and their free variables are
-- parameters.
pub mod Closure
pub mod Fixpoint
use d_real_cmake.Prelude.{
  ℕ, zero, suc, ◌≡◌, Bool, true, false, ◌||◌, List, [], ◌∷◌, ◌++◌, Option, none, some,
  if◌then◌else◌, Eq,
}
use d_real_cmake.Symbolic.Syntax.{Variable}
use d_real_cmake.Symbolic.Numbers.{Numbers}
use d_real_cmake.Box.Interval.{Intervals}
use d_real_cmake.Box.{has_variable}
use d_real_cmake.Contractor.Status.{ContractorStatus}

-- Both sets are sorted in the source, which walks them together; as sets they share a variable.
unfoldable pub have_intersection : List Variable → List Variable → Bool
have_intersection [] ws = false
have_intersection (v ∷ vs) ws = has_variable ws v || have_intersection vs ws

unfoldable pub is_empty_list {ℓ} : {A : Type ℓ} → List A → Bool
is_empty_list [] = true
is_empty_list (x ∷ xs) = false

module _ {Formula : Type 0} (E : Eq Formula) (free_variables : Formula → List Variable) where
  -- `explanation.count(f) > 0`
  abbrev pub contains : Formula → List Formula → Bool
  contains f [] = false
  contains f (g ∷ gs) = E.beq f g || contains f gs

  -- `seen` and `explanation`.
  abbrev pub Explained : Type 0
  Explained = List Variable × List Formula

  start_one : List Variable → Formula → Explained → Explained
  start_one unsat_witness f st =
      if is_empty_list (free_variables f)
      then (st.0, f ∷ st.1)
      else (if have_intersection unsat_witness (free_variables f)
          then (free_variables f ++ st.0, f ∷ st.1)
          else st)

  unfoldable pub start : List Variable → List Formula → Explained → Explained
  unfolding start_one
  start unsat_witness [] st = st
  start unsat_witness (f ∷ fs) st = start unsat_witness fs (start_one unsat_witness f st)

  -- The body of the inner loop; the last component says whether the formula was added.
  visit : Formula → Explained → Explained × Bool
  visit f st =
      if contains f st.1
      then (st, false)
      else (if have_intersection st.0 (free_variables f)
          then ((free_variables f ++ st.0, f ∷ st.1), true)
          else (st, false))

  -- One turn of the `while`; the last component is `keep_going`.
  unfoldable pub turn : List Formula → Explained → Bool → Explained × Bool
  unfolding visit
  turn [] st keep_going = (st, keep_going)
  turn (f ∷ fs) st keep_going =
      let visited = visit f st in turn fs visited.0 (visited.1 || keep_going)

  -- The `while` on fuel, `none` is its end.
  unfoldable pub grow : ℕ → List Formula → Explained → Option (List Formula)
  grow zero used_constraints st = none
  grow (suc fuel) used_constraints st =
      let turned = turn used_constraints st false in
      let rest = grow fuel used_constraints turned.0 in if turned.1 then rest else some turned.0.1

  unfoldable pub splice : List Variable → List Formula → List Formula → List Formula
  splice unsat_witness [] explanation = explanation
  splice unsat_witness (f ∷ fs) explanation =
      splice unsat_witness fs (
        if have_intersection unsat_witness (free_variables f) then f ∷ explanation else explanation)

  finish : List Variable → List Formula → Option (List Formula) → Option (List Formula)
  finish unsat_witness inconclusive_odes none = none
  finish unsat_witness inconclusive_odes (some explanation) =
      some (splice unsat_witness inconclusive_odes explanation)

  unfoldable pub generate_explanation :
      ℕ → List Variable → List Formula → List Formula → Option (List Formula)
  unfolding finish
  generate_explanation fuel unsat_witness used_constraints inconclusive_odes =
      let started = start unsat_witness used_constraints ([], []) in
      if is_empty_list unsat_witness
      then some started.1
      else finish unsat_witness inconclusive_odes (grow fuel used_constraints started)
