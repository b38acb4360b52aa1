-- ===== src/Box.antt =====
-- src/dreal/util/box.cc: variables with an interval for each.
pub mod Interval
pub mod Points
pub mod Bisect
use d_real_cmake.Prelude.{
  ℕ, zero, suc, ◌≡◌, Bool, true, false, List, [], ◌∷◌, map, Option, none, some, ◌==◌, if◌then◌else◌,
  get_or, set, ◌||◌,
}
use d_real_cmake.Symbolic.Syntax.{Variable, Double}
use d_real_cmake.Symbolic.Numbers.{Numbers}
use Interval.{Intervals}

pub record Box {N : Numbers} (I : Intervals N) : Type 0 where
  pub variables : List Variable
  pub values : List I.Interval

-- The position at which `var_to_idx_` has a variable; variables are compared by their ids.
unfoldable pub position : List Variable → Variable → Option ℕ
position [] v = none
position (w ∷ ws) v =
    if w.id == v.id then some 0 else elim (position ws v) [ none ↦ none | some i ↦ some (suc i) ]

-- A key that `var_to_idx_` lacks gets the index 0, as `operator[]` of the map makes it.
abbrev pub or_zero : Option ℕ → ℕ
or_zero none = 0
or_zero (some i) = i

unfoldable pub index : List Variable → Variable → ℕ
index vs v = or_zero (position vs v)

unfoldable pub has_variable : List Variable → Variable → Bool
has_variable [] v = false
has_variable (w ∷ ws) v = (w.id == v.id) || has_variable ws v

-- `values_.is_empty()`: an interval vector is empty if its first component is.
first_is_empty : {N : Numbers} (I : Intervals N) → List I.Interval → Bool
first_is_empty I [] = false
first_is_empty I (i ∷ is') = I.is_empty i

unfoldable pub empty : {N : Numbers} (I : Intervals N) → Box I → Bool
unfolding first_is_empty
empty I box = first_is_empty I box.values

-- `values_ |= b.values_`
unfoldable pub zip_hull :
    {N : Numbers} (I : Intervals N) → List I.Interval → List I.Interval → List I.Interval
zip_hull I [] js = []
zip_hull I (i ∷ is') [] = []
zip_hull I (i ∷ is') (j ∷ js) = I.hull i j ∷ zip_hull I is' js

unfoldable pub inplace_union : {N : Numbers} (I : Intervals N) → Box I → Box I → Box I
unfolding zip_hull
inplace_union I a b = record a { values = zip_hull I a.values b.values }

module _ {N : Numbers} (I : Intervals N) where
  unfoldable pub interval : Box I → Variable → I.Interval
  interval box v = get_or box.values (index box.variables v) I.nothing

  unfoldable pub set_interval : Box I → Variable → I.Interval → Box I
  set_interval box v i = record box { values = set box.values (index box.variables v) i }

  unfoldable pub set_empty : Box I → Box I
  set_empty box = record box { values = map (λ _. I.nothing) box.values }
