-- ===== src/Config/OptionValue.antt =====
-- src/dreal/util/option_value.h: a value with the kind of request that set it.
use d_real_cmake.Prelude.{
  ℕ, ◌≤◌, ◌≡◌, ◌<◌, ◌∙◌, ap, refl, List, [], ◌∷◌, leb, if◌then◌else◌, arith, ◌==◌, Option, none,
  some, inl, inr, Option-cases,
}
use Prim.Native.Nat.{max}
use native.Mathlib.Decide.{ℕ_discrete}

pub data Source : Type 0 where
  default from_file from_command_line from_code : Source

pub record OptionValue (T : Type 0) : Type 0 where
  pub value : T
  pub type : Source

module _ {T : Type 0} where
  pub make : T → OptionValue T
  make v = record { value = v; type = default }

  -- `operator=`
  pub assign : T → OptionValue T → OptionValue T
  assign v o = record { value = v; type = from_code }

  keep_from_code : Source → T → OptionValue T → OptionValue T
  keep_from_code from_code v o = o
  keep_from_code _ v o = record { value = v; type = from_command_line }

  pub set_from_command_line : T → OptionValue T → OptionValue T
  unfolding keep_from_code
  set_from_command_line v o = keep_from_code o.type v o

  replace_low : Source → T → OptionValue T → OptionValue T
  replace_low default v o = record { value = v; type = from_file }
  replace_low from_file v o = record { value = v; type = from_file }
  replace_low from_command_line v o = o
  replace_low from_code v o = o

  pub set_from_file : T → OptionValue T → OptionValue T
  unfolding replace_low
  set_from_file v o = replace_low o.type v o

-- The order in which the kinds of request outrank one another.
abbrev pub rank : Source → ℕ
rank default = 0
rank from_file = 1
rank from_command_line = 2
rank from_code = 3

-- A request: its kind, which is not `default`, and its value.
pub data Request (T : Type 0) : Type 0 where
  file command_line code : T → Request T

module _ {T : Type 0} where
  abbrev pub kind : Request T → Source
  kind (file v) = from_file
  kind (command_line v) = from_command_line
  kind (code v) = from_code

  abbrev pub requested : Request T → T
  requested (file v) = v
  requested (command_line v) = v
  requested (code v) = v

  pub apply : OptionValue T → Request T → OptionValue T
  unfolding set_from_file set_from_command_line assign
  apply o (file v) = set_from_file v o
  apply o (command_line v) = set_from_command_line v o
  apply o (code v) = assign v o

  pub run : OptionValue T → List (Request T) → OptionValue T
  run o [] = o
  run o (r ∷ rs) = run (apply o r) rs

  -- The highest rank among the requests, 0 if there is none.
  pub top : List (Request T) → ℕ
  top [] = 0
  top (r ∷ rs) = max (rank (kind r)) (top rs)

  -- The value of the last request of a rank.
  pub latest : ℕ → List (Request T) → Option T
  latest k [] = none
  latest k (r ∷ rs) = elim (latest k rs) [
    | some v ↦ some v
    | none ↦ if rank (kind r) == k then some (requested r) else none
  ]

  abbrev pub value_or : Option T → T → T
  value_or none v = v
  value_or (some w) v = w

  apply-rank :
      (o : OptionValue T) (r : Request T)
      → apply o r ≡ (
          if leb (rank o.type) (rank (kind r))
          then record { value = requested r; type = kind r }
          else o)
  unfolding apply
  apply-rank o r = ground arith

  rank-kind : (r : Request T) → 1 ≤ rank (kind r)
  rank-kind (file v) = omega arith
  rank-kind (command_line v) = omega arith
  rank-kind (code v) = omega arith

  latest-top : (rs : List (Request T)) → latest (top rs) rs ≡ none → top rs ≡ 0
  unfolding latest top
  latest-top [] h = refl
  latest-top (r ∷ rs) h = ground (arith, latest-top rs, rank-kind r)

  rank-apply :
      (o : OptionValue T) (r : Request T)
      → rank (apply o r).type ≡ max (rank o.type) (rank (kind r))
  rank-apply o r = ground (arith, apply-rank o r)

  value-apply :
      (o : OptionValue T) (r : Request T)
      → (apply o r).value ≡ (if leb (rank o.type) (rank (kind r)) then requested r else o.value)
  value-apply o r = ground (arith, apply-rank o r)

  top-lt : (rs : List (Request T)) (m : ℕ) → top rs ≤ m → 1 ≤ m → latest m rs ≡ none → top rs < m
  top-lt rs m h k e = elim (ℕ_discrete (top rs) m) [
    | yes p ↦ absurd (omega (arith, latest-top rs (rw p e)))
    | no p ↦ omega arith
  ]

  rank-run :
      (o : OptionValue T) (rs : List (Request T))
      → rank (run o rs).type ≡ max (rank o.type) (top rs)
  unfolding run top
  rank-run o [] = omega arith
  rank-run o (r ∷ rs) = omega (arith, rank-run (apply o r) rs, rank-apply o r)

  value-step :
      (o : OptionValue T) (r : Request T) (rs : List (Request T)) (m : ℕ)
      → m ≡ max (rank o.type) (max (rank (kind r)) (top rs))
      → value_or (latest m rs) (apply o r).value ≡ value_or (latest m (r ∷ rs)) o.value
  unfolding latest
  value-step o r rs m e = elim (Option-cases (latest m rs)) [
    | inl h ↦
        let lt : top rs < m = top-lt rs m (omega arith) (omega (arith, rank-kind r)) h in
        rw h (rw (value-apply o r) (lower lt))
    | inr (w, h) ↦ rw h refl
  ]
    where
      lower :
          top rs < m
          → (if leb (rank o.type) (rank (kind r)) then requested r else o.value)
            ≡ value_or (if rank (kind r) == m then some (requested r) else none) o.value
      lower lt = ground arith

  value-run :
      (o : OptionValue T) (rs : List (Request T))
      → (run o rs).value ≡ value_or (latest (max (rank o.type) (top rs)) rs) o.value
  unfolding run top latest
  value-run o [] = refl
  value-run o (r ∷ rs) =
      let same : max (rank (apply o r).type) (top rs)
          ≡ max (rank o.type) (max (rank (kind r)) (top rs)) =
        omega (arith, rank-apply o r) in
      value-run (apply o r) rs
      ∙ ap (λ m. value_or (latest m rs) (apply o r).value) same
      ∙ value-step o r rs _ refl

  -- After any sequence of requests the option is of the highest kind that occurs among them (file
  -- below command line below code, 0 standing for the default), and its value is that of the last
  -- request of this kind, or the default value if there is no request.
  pub run-make :
      (v : T) (rs : List (Request T))
      → (rank (run (make v) rs).type ≡ top rs)
        × ((run (make v) rs).value ≡ value_or (latest (top rs) rs) v)
  unfolding make
  run-make v rs = (
    omega (arith, rank-run (make v) rs),
    value-run (make v) rs ∙ ap (λ m. value_or (latest m rs) v) (omega arith),
  )
