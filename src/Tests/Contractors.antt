-- ===== src/Tests/Contractors.antt =====
-- Contractors on the box of two variables.
use d_real_cmake.Prelude.{
  ℕ, suc, ◌<◌, ◌≤◌, ◌≡◌, refl, ◌⊎◌, inl, inr, ◌↔◌, Bool, true, false, List, [], ◌∷◌, none, some,
  All, Member, nat_eq, leb, ltb, if◌then◌else◌, arith, Bool-cases,
}
use d_real_cmake.Symbolic.Syntax.{Variable, continuous}
use d_real_cmake.Box.{has_variable}
use d_real_cmake.Box.Points.{Inside}
use d_real_cmake.Contractor.Status.{ContractorStatus, no_bits}
use d_real_cmake.Contractor.Combine.{Contractor, seq, join}
use d_real_cmake.Contractor.Combine.Keeps.{Keeps, join_keeps}
use d_real_cmake.Contractor.Combine.Stages.{
  RunsUntilEmpty, FixpointResult, apply_all, seq_order, fixpoint_ends,
}
use d_real_cmake.Contractor.Integral.{prune}
use d_real_cmake.Contractor.Integral.Keeps.{prune_integral_keeps}
use d_real_cmake.Contractor.Worklist.{run}
use d_real_cmake.Contractor.Worklist
use d_real_cmake.Contractor.Worklist.Runs.{PruneOrder}
use d_real_cmake.Contractor.Worklist.Ends.{Progress, no_bit_set-no_bits, worklist_ends}
use d_real_cmake.Contractor.Explanation.{
  have_intersection, is_empty_list, start, turn, grow, splice, generate_explanation,
}
use d_real_cmake.Contractor.Explanation.Closure.{Reached}
use d_real_cmake.Contractor.Explanation.Fixpoint.{generate_explanation_lem}
use d_real_cmake.Solver.Evaluate.{no_bit_set}
use d_real_cmake.Tests.Instances.{intervals, integers, x, n, point, box}

abbrev status : ContractorStatus intervals
status = record {
  box = box;
  branching_point = none;
  output = false ∷ false ∷ [];
  used_constraints = [];
  inconclusive_odes = [];
  unsat_witness = [];
}

-- Cuts the first interval at the double 5, and reports the change.
abbrev cut : List (ℕ × ℕ) → List (ℕ × ℕ)
cut [] = []
cut (i ∷ is') = if ltb 5 i.1 then (i.0, 5) ∷ is' else i ∷ is'

abbrev touched : List (ℕ × ℕ) → List Bool → List Bool
touched [] bits = bits
touched (i ∷ is') bits = if ltb 5 i.1 then true ∷ false ∷ [] else bits

abbrev below_five : Contractor intervals
below_five cs = record cs {
  box = record { variables = cs.box.variables; values = cut cs.box.values };
  output = touched cs.box.values cs.output;
}

seq_order_example :
    RunsUntilEmpty intervals
      (below_five ∷ below_five ∷ [])
      status
      (seq intervals (below_five ∷ below_five ∷ []) status)
    × ((p : ℕ → ℕ)
        → All (Keeps intervals p) (below_five ∷ below_five ∷ [])
        → Inside intervals p status.box
        → (seq intervals (below_five ∷ below_five ∷ []) status
            ≡ apply_all intervals (below_five ∷ below_five ∷ []) status)
          × Inside intervals p (seq intervals (below_five ∷ below_five ∷ []) status).box)
seq_order_example = seq_order intervals (below_five ∷ below_five ∷ []) status

abbrev top : List (ℕ × ℕ) → ℕ
top [] = 0
top (i ∷ is') = i.1

abbrev unchanged : List (ℕ × ℕ) → List (ℕ × ℕ) → Bool
unchanged old new = leb (top old) (top new)

fixpoint_ends_example : FixpointResult intervals unchanged (below_five ∷ []) 9 status
fixpoint_ends_example =
    fixpoint_ends intervals unchanged (below_five ∷ []) (λ b. top b.values)
      (λ cs full q. ground arith) 9 status (omega arith)

join_keeps_example :
    Inside intervals point (join intervals (below_five ∷ below_five ∷ []) status).box
join_keeps_example =
    join_keeps intervals point (below_five ∷ below_five ∷ []) status
      ((refl, refl), ((refl, refl), tt)) below_five (inl refl) (refl, (refl, tt))

below_five_progress :
    (cs : ContractorStatus intervals) (bits : List Bool) (is' : List (ℕ × ℕ))
    → no_bit_set bits ≡ true
    → ((no_bit_set (touched is' bits) ≡ true) × (top (cut is') ≤ top is'))
      ⊎ (top (cut is') < top is')
below_five_progress cs bits [] h = inl (h, omega arith)
below_five_progress cs bits (i ∷ is') h = elim (Bool-cases (ltb 5 i.1)) [
  | inl e ↦ inr (rw e (ground arith))
  | inr e ↦ inl (rw e (h, omega arith))
]

below_five-Progress : Progress intervals (λ b. top b.values) below_five
unfolding run
below_five-Progress cs =
    below_five_progress cs (no_bits cs.output) cs.box.values (no_bit_set-no_bits cs.output)

-- The only contractor has the first variable for its input.
abbrev inputs : List (List Bool)
inputs = (true ∷ []) ∷ (false ∷ []) ∷ []

worklist_ends_example :
    (end : ContractorStatus intervals) × (Worklist.prune intervals inputs unchanged
        (below_five ∷ [])
        99
        status
      ≡ some end)
    × PruneOrder intervals inputs (below_five ∷ []) status end
    × ((p : ℕ → ℕ)
        → All (Keeps intervals p) (below_five ∷ [])
        → Inside intervals p status.box
        → Inside intervals p end.box)
worklist_ends_example =
    worklist_ends intervals (λ b. top b.values) inputs unchanged (below_five ∷ [])
      (below_five-Progress, tt) 99 status (omega arith)

abbrev rough : ContractorStatus intervals
rough = record status { box = record { variables = x ∷ n ∷ []; values = (0, 8) ∷ (1, 7) ∷ [] } }

prune_integral_keeps_example :
    Inside intervals point (prune intervals integers (x ∷ n ∷ []) rough).box
prune_integral_keeps_example =
    prune_integral_keeps intervals integers point rough (tt, ((2, refl), tt)) (refl, (refl, tt))

-- A formula that is named by a number, over the variables with this number and the next.
abbrev over : ℕ → List Variable
over k = record { id = k; kind = continuous } ∷ record { id = suc k; kind = continuous } ∷ []

generate_explanation_lem_example :
    (ex : List ℕ) × (generate_explanation nat_eq over 9 (x ∷ []) (3 ∷ 1 ∷ 0 ∷ []) (0 ∷ 7 ∷ [])
      ≡ some ex)
    × ((f : ℕ)
        → Member f ex ↔ (
            Reached nat_eq over (x ∷ []) (3 ∷ 1 ∷ 0 ∷ []) f
            ⊎ (Member f (0 ∷ 7 ∷ []) × (have_intersection (x ∷ []) (over f) ≡ true))))
unfolding is_empty_list
generate_explanation_lem_example =
    generate_explanation_lem nat_eq over 9 (x ∷ []) (3 ∷ 1 ∷ 0 ∷ []) (0 ∷ 7 ∷ []) refl (omega arith)

explained :
    generate_explanation nat_eq over 9 (x ∷ []) (3 ∷ 1 ∷ 0 ∷ []) (0 ∷ 7 ∷ [])
    ≡ some (0 ∷ 1 ∷ 0 ∷ [])
unfolding generate_explanation start turn grow splice have_intersection has_variable is_empty_list
explained = refl
