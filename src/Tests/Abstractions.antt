-- ===== src/Tests/Abstractions.antt =====
-- A formula that is normalized, and its abstraction.
use d_real_cmake.Prelude.{◌<◌, ◌≡◌, refl, Bool, true, false, [], ◌∷◌, none, some, arith, Eq, ◌↔◌}
use native.Mathlib.Decide.{ℕ_discrete}
use mathlib.Core.HLevel.{Discrete}
use d_real_cmake.Symbolic.Syntax.{
  Variable, boolean, Formula, variable, constant, var, neq, gt, geq, lt, leq, conj, disj, neg, cons,
  nil,
}
use d_real_cmake.Symbolic.Meaning.{eval}
use d_real_cmake.Symbolic.Builder.{plain}
use d_real_cmake.Transform.Normalizer.{Normalizer, height, is_normal}
use d_real_cmake.Transform.Normalizer
use d_real_cmake.Transform.Normalizer.Meaning.{AreSound, convert-Converts}
use d_real_cmake.Transform.Tseitin.Fresh.{Below}
use d_real_cmake.Transform.Tseitin.Steps.{Holds}
use d_real_cmake.Transform.Abstractor.{Abstractor, visit_atomic, convert, variable_of, formula_of}
use d_real_cmake.Transform.Abstractor.Maps.{IsLinked, is_named}
use d_real_cmake.Transform.Abstractor.Meaning.{is_boolean}
use d_real_cmake.Transform.Abstractor.Results.{
  convert-Abstracts, visit_atomic_lem, Remembers, convert_throws,
}
use d_real_cmake.Tests.Instances.{plain_means, plain_builds, x, n}
use d_real_cmake.Tests.Definitions.{valuations, assigns, p}

formula_discrete : Discrete Formula
formula_discrete = hlevel ℕ_discrete

abbrev holds : {A : Type 0} → Dec A → Bool
holds (yes a) = true
holds (no a) = false

holds_iff : {A : Type 0} (d : Dec A) → (holds d ≡ true) ↔ A
holds_iff (yes a) = (λ e. a, λ a. refl)
holds_iff (no h) = (λ e. cc, λ a. absurd (h a))

pub formulas : Eq Formula
formulas = record {
  beq = λ f g. holds (formula_discrete f g);
  beq_iff = λ f g. holds_iff (formula_discrete f g);
}

-- `p`, or not both `x > 2` and `n ≠ 4`.
abbrev mixed : Formula
mixed = disj (
    cons (var p) (
      cons
        (neg
          (conj (cons (gt (variable x) (constant 2)) (cons (neq (variable n) (constant 4)) nil))))
        nil))

mixed-height : height mixed < 6
unfolding height
mixed-height = omega arith

abbrev empty_cache : Normalizer
empty_cache = record { cache = []; inserted = [] }

convert-Converts_example :
    (g : Formula) × (t : Normalizer) × (Normalizer.convert plain formulas 6 mixed empty_cache
      ≡ some (g, t))
    × (is_normal g ≡ true)
    × ((ρ : valuations.Env) → eval valuations g ρ ≡ eval valuations mixed ρ)
    × AreSound valuations formulas t.cache
convert-Converts_example =
    convert-Converts valuations plain (plain_means valuations) plain_builds formulas 6 mixed
      empty_cache mixed-height tt

abbrev no_maps : Abstractor
no_maps = record { next = 5; var_to_formula = []; formula_to_var = [] }

no_maps-IsLinked : IsLinked formulas 5 no_maps
no_maps-IsLinked = (omega arith, tt)

abbrev pub bound : Formula
bound = leq (variable x) (constant 2)

-- `p`, or not `x ≤ 2`.
abbrev normal : Formula
normal = disj (cons (var p) (cons (neg bound) nil))

normal_lem : is_normal normal ≡ true
unfolding is_normal
normal_lem = refl

normal-Below : Below 5 normal
unfolding Below
normal-Below = (omega arith, (tt, tt))

convert-Abstracts_example :
    (g : Formula) × (t : Abstractor) × (convert formulas plain normal no_maps ≡ some (g, t))
    × (is_boolean g ≡ true)
    × IsLinked formulas 5 t
    × ((ρ : valuations.Env)
        → (σ : valuations.Env) × ((h : Formula)
            → Below 5 h
            → eval valuations h σ ≡ eval valuations h ρ)
          × Holds valuations t.var_to_formula σ
          × (eval valuations g σ ≡ eval valuations normal ρ))
convert-Abstracts_example =
    convert-Abstracts valuations plain (plain_means valuations) plain_builds assigns formulas 5
      normal no_maps normal_lem normal-Below no_maps-IsLinked

abbrev b5 : Variable
b5 = record { id = 5; kind = boolean }

abbrev one_entry : Abstractor
one_entry = record {
  next = 6;
  var_to_formula = (b5, bound) ∷ [];
  formula_to_var = (bound, b5) ∷ [];
}

one_entry-IsLinked : IsLinked formulas 5 one_entry
unfolding formula_of variable_of Below is_named
one_entry-IsLinked =
    (omega arith, ((refl, refl, omega arith, omega arith, tt, refl, refl, refl), tt))

-- `x < 2` after `x ≤ 2`.
abbrev strictly : Formula
strictly = lt (variable x) (constant 2)

strictly-is_named : is_named strictly ≡ true
unfolding is_named
strictly-is_named = refl

strictly-Below : Below 5 strictly
unfolding Below
strictly-Below = tt

visit_atomic_lem_example :
    (b : Variable) × (t : Abstractor) × (visit_atomic formulas strictly one_entry ≡ some (var b, t))
    × Remembers formulas 5 strictly one_entry b t
visit_atomic_lem_example =
    visit_atomic_lem formulas 5 strictly one_entry strictly-Below strictly-is_named
      one_entry-IsLinked

-- `p`, or `x ≥ 2`.
abbrev raw : Formula
raw = disj (cons (var p) (cons (geq (variable x) (constant 2)) nil))

raw_lem : is_normal raw ≡ false
unfolding is_normal
raw_lem = refl

raw-Below : Below 5 raw
unfolding Below
raw-Below = (omega arith, (tt, tt))

convert_throws_example : convert formulas plain raw no_maps ≡ none
convert_throws_example =
    convert_throws valuations plain (plain_means valuations) plain_builds formulas 5 raw no_maps
      raw_lem raw-Below no_maps-IsLinked
