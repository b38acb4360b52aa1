-- ===== src/Solver/Theory.antt =====
-- src/dreal/solver/theory_solver.cc: the conjunction of literals that the SAT solver proposes is
-- filtered into the box, the rest is made into contractors and evaluators, and the search decides.
-- What builds the contractor or the evaluator of a formula is a parameter, and so are the fixpoint,
-- the order and the further contractors of the configuration. `none` is an exception or the end of
-- the fuel.
pub mod Filtering
pub mod Sound
use d_real_cmake.Prelude.{
  ℕ, Bool, true, false, List, [], ◌∷◌, ◌++◌, map, Option, none, some, if◌then◌else◌, ◌>>=◌, Eq,
}
use d_real_cmake.Symbolic.Syntax.{Variable, Formula}
use d_real_cmake.Symbolic.Numbers.{Numbers}
use d_real_cmake.Box.Interval.{Intervals}
use d_real_cmake.Box.{Box, empty}
use d_real_cmake.Filter.{FilterAssertionResult, filter_assertion}
use d_real_cmake.Contractor.Status.{
  ContractorStatus, make, add_used_constraint, add_unsat_witnesses,
}
use d_real_cmake.Contractor.Combine.{Contractor}
use d_real_cmake.Contractor.Explanation.{generate_explanation}
use d_real_cmake.Solver.Evaluate.{FormulaEvaluator}
use d_real_cmake.Solver.Icp.{Parts, check_sat}
use d_real_cmake.Solver.Context.Core.{Verdict, delta_sat, unsat}

module _ {N : Numbers} (I : Intervals N) where
  -- `contractor_of` and `evaluator_of` look into the caches; `further` is the polytope and the
  -- shaving contractor, as far as they are configured, and `forward` and `backward` the contractors
  -- of differential equations.
  pub record Tools : Type 0 where
    pub eq_formula : Eq Formula
    pub include_ode : Formula → Bool
    pub contractor_of : Formula × Box I → Contractor I
    pub evaluator_of : Formula → FormulaEvaluator I
    pub order : List (Contractor I) → List (Contractor I)
    pub integer_contractor : Box I → Contractor I
    pub further : Box I → List Formula → List (Contractor I)
    pub forward : Box I → List Formula → List (Contractor I)
    pub backward : Box I → List Formula → List (Contractor I)
    pub fixpoint : List (Contractor I) → Contractor I
    pub parts : Parts I

  -- The loop over the assertions: left with an empty box, or run to its end with the formulas that
  -- want a contractor, each with the box that the contractor is built for.
  pub data Filtered : Type 0 where
    refuted : ContractorStatus I → Filtered
    filtered : ContractorStatus I → List (Formula × Box I) → Filtered

  module _ (T : Tools) where
    abbrev free_variables : Formula → List Variable
    free_variables f = T.parts.free_variables f

    -- The formula gets a contractor.
    unfoldable pub keep : Formula × Box I → Option Filtered → Option Filtered
    keep f (some (filtered cs fs)) = some (filtered cs (f ∷ fs))
    keep f o = o

    -- The four results of the filter, with the status that holds the new box.
    unfoldable pub sort_result :
        Formula
        → (filtered changed : Bool) → ContractorStatus I
        → (ContractorStatus I → Option Filtered)
        → Option Filtered
    sort_result f false false cs rest = keep (f, cs.box) (rest cs)
    sort_result f false true cs rest =
        keep (f, cs.box) (rest (add_used_constraint free_variables f cs))
    sort_result f true true cs rest =
        let used = add_used_constraint free_variables f cs in
        if empty I used.box
        then some (refuted (add_unsat_witnesses (free_variables f) used))
        else rest used
    sort_result f true false cs rest = rest cs

    unfoldable pub sort_outcome :
        Formula
        → ContractorStatus I
        → (ContractorStatus I → Option Filtered)
        → Option (FilterAssertionResult × Box I)
        → Option Filtered
    sort_outcome f cs rest none = none
    sort_outcome f cs rest (some (r, box)) =
        sort_result f r.filtered r.changed (record cs { box = box }) rest

    unfoldable pub filter_assertions : List Formula → ContractorStatus I → Option Filtered
    filter_assertions [] cs = some (filtered cs [])
    filter_assertions (f ∷ fs) cs =
        let rest = λ (c : ContractorStatus I). filter_assertions fs c in
        if T.include_ode f then rest cs else sort_outcome f cs rest (filter_assertion I f cs.box)

    -- The contractors again after each one of differential equations.
    unfoldable pub after_each : List (Contractor I) → List (Contractor I) → List (Contractor I)
    after_each [] nl_ctcs = []
    after_each (ode ∷ odes) nl_ctcs = ode ∷ (nl_ctcs ++ after_each odes nl_ctcs)

    unfoldable pub assemble : Box I → List Formula → List (Formula × Box I) → Contractor I
    assemble box assertions kept =
        let nl_ctcs =
          T.order (map T.contractor_of kept)
          ++ (T.integer_contractor box ∷ T.further box assertions) in
        T.fixpoint (
          nl_ctcs
          ++ (after_each (T.forward box assertions) nl_ctcs
              ++ after_each (T.backward box assertions) nl_ctcs))

    unfoldable pub parts_with : Contractor I → List Formula → Parts I
    parts_with contractor assertions = record T.parts {
      prune = contractor;
      evaluators = map T.evaluator_of assertions;
    }

    unfoldable pub explain : ℕ → ContractorStatus I → Option (Verdict I)
    explain fuel cs =
        generate_explanation T.eq_formula free_variables fuel cs.unsat_witness cs.used_constraints
          cs.inconclusive_odes
        >>= λ (explanation : List Formula). some (unsat explanation)

    -- After the search only the box counts.
    unfoldable pub judge : ℕ → Bool × ContractorStatus I → Option (Verdict I)
    judge fuel (answer, cs) = if empty I cs.box then explain fuel cs else some (delta_sat cs.box)

    unfoldable pub search :
        ℕ → List Formula → Contractor I → ContractorStatus I → Option (Verdict I)
    search fuel assertions contractor cs =
        check_sat I (parts_with contractor assertions) fuel cs
        >>= λ (r : Bool × ContractorStatus I). judge fuel r

    unfoldable pub after_filter : ℕ → List Formula → Filtered → Option (Verdict I)
    after_filter fuel assertions (refuted cs) = explain fuel cs
    after_filter fuel assertions (filtered cs kept) =
        search fuel assertions (assemble cs.box assertions kept) cs

    unfoldable pub theory_check : ℕ → Box I → List Formula → Option (Verdict I)
    theory_check fuel box [] = search fuel [] (T.integer_contractor box) (make box)
    theory_check fuel box (f ∷ fs) =
        filter_assertions (f ∷ fs) (make box) >>= λ (r : Filtered). after_filter fuel (f ∷ fs) r
