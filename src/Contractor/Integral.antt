-- ===== src/Contractor/Integral.antt =====
-- src/dreal/contractor/contractor_integer.cc: the bounds of integer and binary variables are
-- rounded inwards.
pub mod Keeps
use d_real_cmake.Prelude.{
  ℕ, zero, suc, Bool, true, false, not, ◌||◌, List, [], ◌∷◌, map, Option, none, some, if◌then◌else◌,
  get_or, set,
}
use d_real_cmake.Symbolic.Syntax.{
  Variable, VariableType, continuous, integer, binary, boolean, Double,
}
use d_real_cmake.Symbolic.Numbers.{Numbers, le_double}
use d_real_cmake.Box.Interval.{Intervals}
use d_real_cmake.Box.{Box, set_empty}
use d_real_cmake.Box.Bisect.{Integers, get_elem?, set_at}
use d_real_cmake.Contractor.Status.{ContractorStatus, add_unsat_witness}

is_integral : VariableType → Bool
is_integral continuous = false
is_integral integer = true
is_integral binary = true
is_integral boolean = false

-- The indexes that the constructor collects; `i` is the position of the first variable that is left.
indexes_from : ℕ → List Variable → List ℕ
indexes_from i [] = []
indexes_from i (v ∷ vs) =
    let rest = indexes_from (suc i) vs in if is_integral v.kind then i ∷ rest else rest

unfoldable pub int_indexes : List Variable → List ℕ
unfolding indexes_from is_integral
int_indexes vs = indexes_from 0 vs

module _ {N : Numbers} (I : Intervals N) (Z : Integers N) where
  witness_at : Option Variable → ContractorStatus I → ContractorStatus I
  witness_at none cs = cs
  witness_at (some v) cs = add_unsat_witness v cs

  -- The box is emptied, the variable recorded, and every bit of the output set.
  refute_at : ℕ → ContractorStatus I → ContractorStatus I
  unfolding witness_at
  refute_at idx cs =
      let emptied = record cs { box = set_empty I cs.box } in
      let witnessed = witness_at (get_elem? cs.box.variables idx) emptied in
      record witnessed { output = map (λ _. true) witnessed.output }

  -- The body of the loop; `true` is its `return`.
  unfoldable pub round_at : ℕ → ContractorStatus I → Bool × ContractorStatus I
  unfolding refute_at
  round_at idx cs =
      let iv = get_or cs.box.values idx I.nothing in
      let new_lb = Z.ceil (I.lb iv) in
      let new_ub = Z.floor (I.ub iv) in
      if I.is_empty iv
      then (false, cs)
      else (if not (Z.is_integer (I.lb iv)) || not (Z.is_integer (I.ub iv))
          then (if le_double N new_lb new_ub
              then (
                false,
                record cs {
                  box = set_at I cs.box idx (I.of_bounds new_lb new_ub);
                  output = set cs.output idx true;
                },
              )
              else (true, refute_at idx cs))
          else (false, cs))

  round_all : List ℕ → ContractorStatus I → ContractorStatus I
  round_all [] cs = cs
  round_all (idx ∷ rest) cs =
      let rounded = round_at idx cs in if rounded.0 then rounded.1 else round_all rest rounded.1

  -- The contractor that is built for a box with these variables.
  unfoldable pub prune : List Variable → ContractorStatus I → ContractorStatus I
  unfolding round_all
  prune vs cs = round_all (int_indexes vs) cs
