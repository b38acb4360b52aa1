-- ===== src/Transform/Tseitin/Cnfize.antt =====
-- The clauses made for a variable and its connective say that the two have the same value.
use d_real_cmake.Prelude.{
  ◌≡◌, refl, sym, ◌∙◌, ap, Bool, true, false, not, ◌&&◌, ◌||◌, List, [], ◌∷◌, ◌++◌, some, arith,
}
use d_real_cmake.Symbolic.Syntax.{
  Variable, Formula, Formulas, true_formula, var, conj, disj, neg, nil, cons, to_list,
}
use d_real_cmake.Symbolic.Meaning.{Semantics, eval, eval_and, eval_or}
use d_real_cmake.Symbolic.Builder.{Builder, MeansWell}
use d_real_cmake.Transform.Clauses.{imply, map_negation}
use d_real_cmake.Transform.Tseitin.{
  add, add_iff, add_each, each_add, cnfize_negation, cnfize_conjunction, cnfize_disjunction, cnfize,
  push_head,
}

module _ (S : Semantics) where
  -- The value of a list of clauses.
  unfoldable pub eval_clauses : List Formula → S.Env → Bool
  eval_clauses [] ρ = true
  eval_clauses (f ∷ fs) ρ = eval S f ρ && eval_clauses fs ρ

-- Both values are the same.
unfoldable pub same : Bool → Bool → Bool
same true b = b
same false b = not b

pub same-≡ : (a b : Bool) → same a b ≡ true → a ≡ b
unfolding same
same-≡ true b h = sym h
same-≡ false true h = h
same-≡ false false h = refl

pub same_refl : (a : Bool) → same a a ≡ true
unfolding same
same_refl true = refl
same_refl false = refl

module _ (S : Semantics) (B : Builder) (M : MeansWell S B) where
  pub eval_clauses-append :
      (fs gs : List Formula) (ρ : S.Env)
      → eval_clauses S (fs ++ gs) ρ ≡ (eval_clauses S fs ρ && eval_clauses S gs ρ)
  unfolding eval_clauses
  eval_clauses-append [] gs ρ = refl
  eval_clauses-append (f ∷ fs) gs ρ = let rest = eval_clauses-append fs gs ρ in ground arith

  last_lem :
      (f : Formula) (fs : List Formula) (ρ : S.Env)
      → eval_clauses S (fs ++ (f ∷ [])) ρ ≡ (eval_clauses S fs ρ && eval S f ρ)
  unfolding eval_clauses
  last_lem f fs ρ = let q = eval_clauses-append fs (f ∷ []) ρ in ground arith

  eval-add :
      (f : Formula) (fs : List Formula) (ρ : S.Env)
      → eval_clauses S (add B f fs) ρ ≡ (eval_clauses S fs ρ && eval S f ρ)
  unfolding add eval
  eval-add true_formula fs ρ = ground arith
  eval-add f fs ρ = last_lem f fs ρ

  eval-imply :
      (f g : Formula) (ρ : S.Env) → eval S (imply B f g) ρ ≡ (not (eval S f ρ) || eval S g ρ)
  unfolding imply
  eval-imply f g ρ =
      M.either_lem (B.negation f) g ρ ∙ ap (λ t. t || eval S g ρ) (M.negation_lem f ρ)

  eval-add_each :
      (l : Formula) (fs : Formulas) (cs : List Formula) (ρ : S.Env)
      → eval_clauses S (add_each B l fs cs) ρ
        ≡ (eval_clauses S cs ρ && (eval S l ρ || eval_and S fs ρ))
  unfolding add_each eval
  eval-add_each l nil cs ρ = ground arith
  eval-add_each l (cons f fs) cs ρ =
      let rest = eval-add_each l fs (add B (B.either l f) cs) ρ in
      let a = eval-add (B.either l f) cs ρ in let e = M.either_lem l f ρ in ground arith

  eval-each_add :
      (fs : Formulas) (l : Formula) (cs : List Formula) (ρ : S.Env)
      → eval_clauses S (each_add B fs l cs) ρ
        ≡ (eval_clauses S cs ρ && (eval S l ρ || eval_and S fs ρ))
  unfolding each_add eval
  eval-each_add nil l cs ρ = ground arith
  eval-each_add (cons f fs) l cs ρ =
      let rest = eval-each_add fs l (add B (B.either f l) cs) ρ in
      let a = eval-add (B.either f l) cs ρ in let e = M.either_lem f l ρ in ground arith

  eval_or-map_negation :
      (fs : Formulas) (ρ : S.Env) → eval_or S (map_negation B fs) ρ ≡ not (eval_and S fs ρ)
  unfolding map_negation eval
  eval_or-map_negation nil ρ = refl
  eval_or-map_negation (cons f fs) ρ =
      let rest = eval_or-map_negation fs ρ in let e = M.negation_lem f ρ in ground arith

  eval_and-map_negation :
      (fs : Formulas) (ρ : S.Env) → eval_and S (map_negation B fs) ρ ≡ not (eval_or S fs ρ)
  unfolding map_negation eval
  eval_and-map_negation nil ρ = refl
  eval_and-map_negation (cons f fs) ρ =
      let rest = eval_and-map_negation fs ρ in let e = M.negation_lem f ρ in ground arith

  eval-cnfize_negation :
      (b : Variable) (f : Formula) (cs : List Formula) (ρ : S.Env)
      → eval_clauses S (cnfize_negation B b f cs) ρ
        ≡ (eval_clauses S cs ρ && same (S.truth ρ b) (eval S f ρ))
  unfolding cnfize_negation add_iff eval same
  eval-cnfize_negation b f cs ρ =
      let a = eval-add (imply B f (var b)) (add B (imply B (var b) f) cs) ρ in
      let c = eval-add (imply B (var b) f) cs ρ in
      let d = eval-imply f (var b) ρ in let e = eval-imply (var b) f ρ in ground arith

  eval-cnfize_conjunction :
      (b : Variable) (fs : Formulas) (cs : List Formula) (ρ : S.Env)
      → eval_clauses S (cnfize_conjunction B b fs cs) ρ
        ≡ (eval_clauses S cs ρ && same (S.truth ρ b) (eval_and S fs ρ))
  unfolding cnfize_conjunction eval same
  eval-cnfize_conjunction b fs cs ρ =
      let ns = B.make_disjunction (map_negation B fs) in
      let a = eval-add (B.either ns (var b)) (add_each B (B.negation (var b)) fs cs) ρ in
      let c = M.either_lem ns (var b) ρ in
      let d = M.disjunction_lem (map_negation B fs) ρ in
      let e = eval_or-map_negation fs ρ in
      let g = eval-add_each (B.negation (var b)) fs cs ρ in
      let h = M.negation_lem (var b) ρ in ground arith

  eval-cnfize_disjunction :
      (b : Variable) (fs : Formulas) (cs : List Formula) (ρ : S.Env)
      → eval_clauses S (cnfize_disjunction B b fs cs) ρ
        ≡ (eval_clauses S cs ρ && same (S.truth ρ b) (eval_or S fs ρ))
  unfolding cnfize_disjunction eval same
  eval-cnfize_disjunction b fs cs ρ =
      let first = B.either (B.negation (var b)) (disj fs) in
      let a = eval-each_add (map_negation B fs) (var b) (add B first cs) ρ in
      let c = eval-add first cs ρ in
      let d = M.either_lem (B.negation (var b)) (disj fs) ρ in
      let e = eval_and-map_negation fs ρ in let h = M.negation_lem (var b) ρ in ground arith

  to_list_lem : (fs : Formulas) (ρ : S.Env) → eval_clauses S (to_list fs) ρ ≡ eval_and S fs ρ
  unfolding eval_clauses eval
  to_list_lem nil ρ = refl
  to_list_lem (cons f fs) ρ = ap (λ t. eval S f ρ && t) (to_list_lem fs ρ)

  pub eval-push_head :
      (f : Formula) (cs : List Formula) (ρ : S.Env)
      → eval_clauses S (push_head B f cs) ρ ≡ (eval_clauses S cs ρ && eval S f ρ)
  unfolding push_head eval
  eval-push_head (conj fs) cs ρ =
      eval_clauses-append cs (to_list fs) ρ ∙ ap (λ t. eval_clauses S cs ρ && t) (to_list_lem fs ρ)
  eval-push_head f cs ρ = last_lem f cs ρ

  -- When clauses are made for a variable and a formula, then in every environment they hold together
  -- with those that were there before exactly if those do and the variable has the value of the
  -- formula. The operations of the symbolic library are taken to mean their connectives.
  pub eval-cnfize :
      (b : Variable) (f : Formula) (cs ds : List Formula) (ρ : S.Env)
      → cnfize B b f cs ≡ some ds
      → eval_clauses S ds ρ ≡ (eval_clauses S cs ρ && same (S.truth ρ b) (eval S f ρ))
  unfolding cnfize eval
  eval-cnfize b (conj fs) cs ds ρ e =
      let k : cnfize_conjunction B b fs cs ≡ ds = cc in
      ap (λ t. eval_clauses S t ρ) (sym k) ∙ eval-cnfize_conjunction b fs cs ρ
  eval-cnfize b (disj fs) cs ds ρ e =
      let k : cnfize_disjunction B b fs cs ≡ ds = cc in
      ap (λ t. eval_clauses S t ρ) (sym k) ∙ eval-cnfize_disjunction b fs cs ρ
  eval-cnfize b (neg f) cs ds ρ e =
      let k : cnfize_negation B b (neg f) cs ≡ ds = cc in
      ap (λ t. eval_clauses S t ρ) (sym k) ∙ eval-cnfize_negation b (neg f) cs ρ
  eval-cnfize b _ cs ds ρ e = cc
