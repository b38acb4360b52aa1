-- ===== src/Contractor/Status.antt =====
-- src/dreal/contractor/contractor_status.h and contractor_status.cc: the box under contraction and
-- what has been recorded about it. The free variables of a formula are the symbolic library's.
use d_real_cmake.Prelude.{
  ℕ, Bool, false, List, [], ◌∷◌, ◌++◌, map, Option, none, if◌then◌else◌, ◌||◌,
}
use d_real_cmake.Symbolic.Syntax.{Variable, Formula}
use d_real_cmake.Symbolic.Numbers.{Numbers}
use d_real_cmake.Box.Interval.{Intervals}
use d_real_cmake.Box.{Box, empty, inplace_union}

-- `branching_point` is `none` for the source's -1; a set is a list, `output` has a bit for each
-- variable of the box.
pub record ContractorStatus {N : Numbers} (I : Intervals N) : Type 0 where
  pub box : Box I
  pub branching_point : Option ℕ
  pub output : List Bool
  pub used_constraints : List Formula
  pub inconclusive_odes : List Formula
  pub unsat_witness : List Variable

unfoldable pub no_bits : {A : Type 0} → List A → List Bool
no_bits xs = map (λ _. false) xs

unfoldable pub or_bits : List Bool → List Bool → List Bool
or_bits [] bs = []
or_bits (a ∷ as') [] = a ∷ as'
or_bits (a ∷ as') (b ∷ bs) = (a || b) ∷ or_bits as' bs

module _ {N : Numbers} {I : Intervals N} where
  unfoldable pub make : Box I → ContractorStatus I
  make box = record {
    box = box;
    branching_point = none;
    output = no_bits box.variables;
    used_constraints = [];
    inconclusive_odes = [];
    unsat_witness = [];
  }

  unfoldable pub add_unsat_witness : Variable → ContractorStatus I → ContractorStatus I
  add_unsat_witness v cs = record cs { unsat_witness = v ∷ cs.unsat_witness }

  unfoldable pub add_unsat_witnesses : List Variable → ContractorStatus I → ContractorStatus I
  unfolding add_unsat_witness
  add_unsat_witnesses [] cs = cs
  add_unsat_witnesses (v ∷ vs) cs = add_unsat_witnesses vs (add_unsat_witness v cs)

  unfoldable pub add_inconclusive_ode : Formula → ContractorStatus I → ContractorStatus I
  add_inconclusive_ode f cs = record cs { inconclusive_odes = f ∷ cs.inconclusive_odes }

  unfoldable pub inplace_join : ContractorStatus I → ContractorStatus I → ContractorStatus I
  inplace_join cs other = record cs {
    box = inplace_union I cs.box other.box;
    output = or_bits cs.output other.output;
    unsat_witness = other.unsat_witness ++ cs.unsat_witness;
    used_constraints = other.used_constraints ++ cs.used_constraints;
    inconclusive_odes = other.inconclusive_odes ++ cs.inconclusive_odes;
  }

module _ (free_variables : Formula → List Variable) {N : Numbers} {I : Intervals N} where
  unfoldable pub add_used_constraint : Formula → ContractorStatus I → ContractorStatus I
  add_used_constraint f cs =
      let witnessed = if empty I cs.box then add_unsat_witnesses (free_variables f) cs else cs in
      record witnessed { used_constraints = f ∷ witnessed.used_constraints }

  unfoldable pub add_used_constraints : List Formula → ContractorStatus I → ContractorStatus I
  unfolding add_used_constraint
  add_used_constraints [] cs = cs
  add_used_constraints (f ∷ fs) cs = add_used_constraints fs (add_used_constraint f cs)
