-- ===== src/Transform/NaiveCnfizer/Meaning.antt =====
-- The conversion gives a formula, and the formula means the same.
use d_real_cmake.Prelude.{
  ℕ, zero, suc, ◌<◌, ◌≤◌, ◌≡◌, refl, sym, ◌∙◌, ap, ap₂, fun_ext, Bool, true, ◌&&◌, ◌||◌, Option,
  none, some, arith,
}
use d_real_cmake.Symbolic.Syntax.{
  Formula, Formulas, false_formula, true_formula, var, eq, neq, gt, geq, lt, leq, conj, disj, neg,
  forall, forall_t, integral, nil, cons,
}
use d_real_cmake.Symbolic.Meaning.{Semantics, eval, eval_and, eval_or}
use d_real_cmake.Symbolic.Builder.{Builder, MeansWell, BuildsFrom}
use d_real_cmake.Transform.Nnfizer
use d_real_cmake.Transform.Nnfizer.Meaning.{eval-nnf}
use d_real_cmake.Transform.Nnfizer.Shape.{MayNegate, IsNnf, AreNnf, convert-IsNnf}
use d_real_cmake.Transform.Clauses.{is_atomic}
use d_real_cmake.Transform.NaiveCnfizer.{
  operands, append, or_each, each_or, or_all, clauses, disjoin, visit, visit_all, convert,
}
use d_real_cmake.Transform.NaiveCnfizer.Depth.{depth, depth_all, depth-convert}

module _ (S : Semantics) (B : Builder) (M : MeansWell S B) where
  eval_and-append :
      (fs gs : Formulas) (ρ : S.Env)
      → eval_and S (append fs gs) ρ ≡ (eval_and S fs ρ && eval_and S gs ρ)
  unfolding append eval
  eval_and-append nil gs ρ = refl
  eval_and-append (cons f fs) gs ρ = let rest = eval_and-append fs gs ρ in ground arith

  eval_and-or_each :
      (f : Formula) (gs : Formulas) (ρ : S.Env)
      → eval_and S (or_each B f gs) ρ ≡ (eval S f ρ || eval_and S gs ρ)
  unfolding or_each eval
  eval_and-or_each f nil ρ = ground arith
  eval_and-or_each f (cons g gs) ρ =
      let rest = eval_and-or_each f gs ρ in let q = M.either_lem f g ρ in ground arith

  eval_and-each_or :
      (fs : Formulas) (g : Formula) (ρ : S.Env)
      → eval_and S (each_or B fs g) ρ ≡ (eval_and S fs ρ || eval S g ρ)
  unfolding each_or eval
  eval_and-each_or nil g ρ = refl
  eval_and-each_or (cons f fs) g ρ =
      let rest = eval_and-each_or fs g ρ in let q = M.either_lem f g ρ in ground arith

  eval_and-or_all :
      (fs gs : Formulas) (ρ : S.Env)
      → eval_and S (or_all B fs gs) ρ ≡ (eval_and S fs ρ || eval_and S gs ρ)
  unfolding or_all eval
  eval_and-or_all nil gs ρ = refl
  eval_and-or_all (cons f fs) gs ρ =
      let rest = eval_and-or_all fs gs ρ in
      let q = eval_and-append (or_each B f gs) (or_all B fs gs) ρ in
      let e = eval_and-or_each f gs ρ in ground arith

  eval-operands :
      (f : Formula) (fs : Formulas) (ρ : S.Env)
      → operands f ≡ some fs
      → eval S f ρ ≡ eval_and S fs ρ
  unfolding operands eval
  eval-operands (conj gs) fs ρ e = let same : gs ≡ fs = cc in ap (λ t. eval_and S t ρ) same
  eval-operands _ fs ρ e = cc

  eval_and-clauses :
      (f g : Formula) (o q : Option Formulas) (ρ : S.Env)
      → operands f ≡ o
      → operands g ≡ q
      → eval_and S (clauses B f g o q) ρ ≡ (eval S f ρ || eval S g ρ)
  unfolding clauses eval
  eval_and-clauses f g (some fs) (some gs) ρ e k =
      eval_and-or_all fs gs ρ
      ∙ ap₂ ◌||◌ (sym (eval-operands f fs ρ e)) (sym (eval-operands g gs ρ k))
  eval_and-clauses f g (some fs) none ρ e k =
      eval_and-each_or fs g ρ ∙ ap (λ b. b || eval S g ρ) (sym (eval-operands f fs ρ e))
  eval_and-clauses f g none (some gs) ρ e k =
      eval_and-or_each f gs ρ ∙ ap (λ b. eval S f ρ || b) (sym (eval-operands g gs ρ k))
  eval_and-clauses f g none none ρ e k = let q = M.either_lem f g ρ in ground arith

  eval-disjoin :
      (f : Formula) (fs : Formulas) (ρ : S.Env)
      → eval S (disjoin B f fs) ρ ≡ (eval S f ρ || eval_or S fs ρ)
  unfolding disjoin eval
  eval-disjoin f nil ρ = ground arith
  eval-disjoin f (cons g gs) ρ =
      let rest = eval-disjoin (B.make_conjunction (clauses B f g (operands f) (operands g))) gs ρ in
      let e = M.conjunction_lem (clauses B f g (operands f) (operands g)) ρ in
      let q = eval_and-clauses f g (operands f) (operands g) ρ refl refl in ground arith

  -- A result with the meaning of a formula.
  abbrev Gives : Formula → Option Formula → Type 0
  Gives f o = (g : Formula) × (o ≡ some g) × ((ρ : S.Env) → eval S g ρ ≡ eval S f ρ)

  abbrev GivesAll : Formulas → Option Formulas → Type 0
  GivesAll fs o =
      (gs : Formulas) × (o ≡ some gs)
      × ((ρ : S.Env) → eval_and S gs ρ ≡ eval_and S fs ρ)
      × ((ρ : S.Env) → eval_or S gs ρ ≡ eval_or S fs ρ)

  MayNegate-is_atomic : (f : Formula) → MayNegate true f → is_atomic f ≡ true
  unfolding is_atomic
  MayNegate-is_atomic (conj fs) h = absurd h
  MayNegate-is_atomic (disj fs) h = absurd h
  MayNegate-is_atomic (neg f) h = absurd h
  MayNegate-is_atomic _ h = refl

  module _ (n : ℕ) (recur : Formula → Option Formula)
      (ok : (f : Formula) → depth f < n → Gives f (recur f)) where
    mutual
      unfolding visit depth IsNnf eval

      Gives-visit : (f : Formula) → IsNnf true f → depth f ≤ n → Gives f (visit B recur f)
      Gives-visit (eq a b) h d = (
        B.both (B.greater_equal a b) (B.less_equal a b),
        refl,
        λ ρ.
            let q = M.both_lem (B.greater_equal a b) (B.less_equal a b) ρ in
            let u = M.greater_equal_lem a b ρ in let v = M.less_equal_lem a b ρ in ground arith,
      )
      Gives-visit (neq a b) h d = (
        B.either (B.greater a b) (B.less a b),
        refl,
        λ ρ.
            let q = M.either_lem (B.greater a b) (B.less a b) ρ in
            let u = M.greater_lem a b ρ in let v = M.less_lem a b ρ in ground arith,
      )
      Gives-visit (conj fs) h d =
          let (gs, e, and_same, or_same) = Gives-visit_all fs h d in
          (B.make_conjunction gs, rw e refl, λ ρ. M.conjunction_lem gs ρ ∙ and_same ρ)
      Gives-visit (disj fs) h d =
          let (gs, e, and_same, or_same) = Gives-visit_all fs h d in
          (disjoin B false_formula gs, rw e refl, λ ρ. eval-disjoin false_formula gs ρ ∙ or_same ρ)
      Gives-visit (neg f) h d = (neg f, rw (MayNegate-is_atomic f h) refl, λ ρ. refl)
      Gives-visit (forall vs f) h d =
          let (g, e, same) = ok f (omega (arith, d)) in
          (
            B.quantify vs g,
            rw e refl,
            λ ρ. M.quantify_lem vs g ρ ∙ ap (λ (t : S.Env → Bool). S.all vs t ρ) (fun_ext same),
          )
      Gives-visit false_formula h d = (false_formula, refl, λ ρ. refl)
      Gives-visit true_formula h d = (true_formula, refl, λ ρ. refl)
      Gives-visit (var b) h d = (var b, refl, λ ρ. refl)
      Gives-visit (gt a b) h d = (gt a b, refl, λ ρ. refl)
      Gives-visit (geq a b) h d = (geq a b, refl, λ ρ. refl)
      Gives-visit (lt a b) h d = (lt a b, refl, λ ρ. refl)
      Gives-visit (leq a b) h d = (leq a b, refl, λ ρ. refl)
      Gives-visit (forall_t k f) h d = (forall_t k f, refl, λ ρ. refl)
      Gives-visit (integral k) h d = (integral k, refl, λ ρ. refl)

      Gives-visit_all :
          (fs : Formulas) → AreNnf true fs → depth_all fs ≤ n → GivesAll fs (visit_all B recur fs)
      Gives-visit_all nil h d = (nil, refl, λ ρ. refl, λ ρ. refl)
      Gives-visit_all (cons f fs) h d =
          let (g, e, same) = Gives-visit f h.0 (omega (arith, d)) in
          let (gs, k, and_same, or_same) = Gives-visit_all fs h.1 (omega (arith, d)) in
          (
            cons g gs,
            rw (e, k) refl,
            λ ρ. ap₂ ◌&&◌ (same ρ) (and_same ρ),
            λ ρ. ap₂ ◌||◌ (same ρ) (or_same ρ),
          )

-- With more fuel than quantified formulas are nested, the conversion gives a formula, and in every
-- environment the formula has the value of the one it was made from. The operations of the symbolic
-- library are taken to mean their connectives and to build their results from their operands.
pub eval-convert :
    (S : Semantics) (B : Builder)
    → MeansWell S B
    → BuildsFrom B
    → (fuel : ℕ) (f : Formula) → depth f < fuel
    → (g : Formula) × (convert B fuel f ≡ some g) × ((ρ : S.Env) → eval S g ρ ≡ eval S f ρ)
unfolding convert
eval-convert S B M F zero f d = absurd (omega (arith, d))
eval-convert S B M F (suc fuel) f d =
    let shallow = depth-convert B F f true in
    let (g, e, same) =
      Gives-visit S B M fuel (λ t. convert B fuel t) (eval-convert S B M F fuel)
        (Nnfizer.convert B f true) (convert-IsNnf B F f true) (omega (arith, shallow, d)) in
    (g, e, λ ρ. same ρ ∙ eval-nnf S B M f true ρ)
