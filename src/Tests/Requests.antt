-- ===== src/Tests/Requests.antt =====
-- Options whose texts are numbers, and a nested quantifier.
use d_real_cmake.Prelude.{ℕ, ◌≡◌, refl, [], ◌∷◌, some, none, nat_eq, ltb, ◌↔◌}
use d_real_cmake.Symbolic.Syntax.{Formula, forall, var, disj, cons, nil}
use d_real_cmake.Config.OptionValue.{OptionValue, default}
use d_real_cmake.Solver.Context.Options.{
  Texts, Options, set_option, get_option, thrown, get_option_refused,
}
use d_real_cmake.Solver.Context.Forall.{
  reject_unsupported_forall, IsSupported, reject_unsupported_forall_lem,
}
use d_real_cmake.Tests.Instances.{x}
use d_real_cmake.Tests.Definitions.{p}

abbrev texts : Texts
texts = record {
  Text = ℕ;
  eq_text = nat_eq;
  format = λ d. d;
  is_positive = λ d. ltb 0 d;
  precision_key = 1;
  prune_key = 2;
}

abbrev thousandth : OptionValue ℕ
thousandth = record { value = 5; type = default }

abbrev options : Options texts
options = record { option = []; precision = thousandth; forall_pre_prune_prec = thousandth }

get_option_refused_example :
    (s : Options texts) × (set_option texts 1 0 options ≡ thrown s)
    × (s.precision ≡ thousandth)
    × (s.forall_pre_prune_prec ≡ thousandth)
    × (get_option texts s 1 ≡ some 0)
get_option_refused_example = get_option_refused texts 0 options refl

-- For all `x`, `p` or for all `x`, `p`.
abbrev nested : Formula
nested = forall (x ∷ []) (disj (cons (var p) (cons (forall (x ∷ []) (var p)) nil)))

reject_unsupported_forall_lem_example :
    ((reject_unsupported_forall nested ≡ some tt) ↔ IsSupported nested)
    × ((reject_unsupported_forall nested ≡ none) ↔ (¬ IsSupported nested))
reject_unsupported_forall_lem_example = reject_unsupported_forall_lem nested
