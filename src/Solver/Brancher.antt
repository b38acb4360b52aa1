-- ===== src/Solver/Brancher.antt =====
-- src/dreal/solver/brancher.cc: branch on the widest candidate.
pub mod Largest
use d_real_cmake.Prelude.{
  ℕ, zero, suc, Bool, true, false, not, ◌&&◌, List, [], ◌∷◌, Option, none, some, if◌then◌else◌,
  ◌>>=◌,
}
use d_real_cmake.Symbolic.Syntax.{Double}
use d_real_cmake.Symbolic.Numbers.{Numbers, le_double}
use d_real_cmake.Box.Interval.{Intervals}
use d_real_cmake.Box.{Box}
use d_real_cmake.Box.Bisect.{Integers, bisect}

module _ {N : Numbers} (I : Intervals N) where
  -- The test of the loop's body.
  unfoldable pub wider : I.Interval → Double → Bool
  wider iv max_diam = not (le_double N (I.diam iv) max_diam) && I.is_bisectable iv

  -- `find_first` and `find_next` go through the set bits in order; `idx` is the position of the
  -- first of the bits that are left.
  find_max :
      (idx : ℕ) → List Bool → List I.Interval → (max_diam : Double) → Option ℕ → Double × Option ℕ
  find_max idx [] ivs max_diam best = (max_diam, best)
  find_max idx (b ∷ bs) [] max_diam best = (max_diam, best)
  find_max idx (b ∷ bs) (iv ∷ ivs) max_diam best =
      let take = b && wider iv max_diam in
      find_max (suc idx) bs ivs (if take then I.diam iv else max_diam)
        (if take then some idx else best)

  -- The bit pattern of 0.0 is 0; `none` is the source's -1.
  unfoldable pub find_max_diam : Box I → List Bool → Double × Option ℕ
  unfolding find_max
  find_max_diam box active_set = find_max 0 active_set box.values 0 none

  abbrev pub tagged : ℕ → Box I × Box I → Option (Option (ℕ × Box I × Box I))
  tagged branching_dim halves = some (some (branching_dim, halves.0, halves.1))

  -- `ratio` is the default of `bisect`, 0.5. The outer `none` is an exception of `bisect`, the
  -- inner one the result -1.
  unfoldable pub branch_largest_first :
      Integers N → (ratio : Double) → Box I → List Bool → Option (Option (ℕ × Box I × Box I))
  branch_largest_first Z ratio box active_set = elim (find_max_diam box active_set).1 [
    | none ↦ some none
    | some branching_dim ↦ bisect I Z box branching_dim ratio >>= tagged branching_dim
  ]
