-- ===== src/Contractor/Combine.antt =====
-- src/dreal/contractor/contractor_seq.cc, contractor_fixpoint.cc and contractor_join.cc: contractors
-- made of contractors. A contractor is what its `Prune` does to the status.
pub mod Keeps
pub mod Stages
use d_real_cmake.Prelude.{
  ℕ, zero, suc, Bool, true, false, List, [], ◌∷◌, Option, none, some, if◌then◌else◌,
}
use d_real_cmake.Symbolic.Numbers.{Numbers}
use d_real_cmake.Box.Interval.{Intervals}
use d_real_cmake.Box.{Box, empty, set_empty}
use d_real_cmake.Contractor.Status.{ContractorStatus, inplace_join}

module _ {N : Numbers} (I : Intervals N) where
  abbrev pub Contractor : Type 0
  Contractor = ContractorStatus I → ContractorStatus I

  unfoldable pub seq : List Contractor → Contractor
  seq [] cs = cs
  seq (c ∷ rest) cs = let pruned = c cs in if empty I pruned.box then pruned else seq rest pruned

  -- The body of the fixpoint's `do`; `true` is its `return`.
  unfoldable pub sweep : List Contractor → ContractorStatus I → Bool × ContractorStatus I
  sweep [] cs = (false, cs)
  sweep (c ∷ rest) cs =
      let pruned = c cs in if empty I pruned.box then (true, pruned) else sweep rest pruned

  -- The loop takes fuel, `none` is its end.
  unfoldable pub fixpoint :
      (List I.Interval → List I.Interval → Bool)
      → List Contractor
      → ℕ
      → ContractorStatus I
      → Option (ContractorStatus I)
  fixpoint term_cond contractors zero cs = none
  fixpoint term_cond contractors (suc fuel) cs =
      let swept = sweep contractors cs in
      let rest = fixpoint term_cond contractors fuel swept.1 in
      if swept.0
      then some swept.1
      else (if term_cond cs.box.values swept.1.box.values then some swept.1 else rest)

  join_all : ContractorStatus I → List Contractor → ContractorStatus I → ContractorStatus I
  join_all saved_original [] cs = cs
  join_all saved_original (c ∷ rest) cs =
      join_all saved_original rest (inplace_join cs (c saved_original))

  unfoldable pub join : List Contractor → Contractor
  unfolding join_all
  join contractors cs = join_all cs contractors (record cs { box = set_empty I cs.box })
