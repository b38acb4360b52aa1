-- ===== src/Transform/Tseitin/Steps.antt =====
-- What a visit does to the definitions: a predicate of environments says that the new variables have
-- the values of the formulas they stand for.
use d_real_cmake.Prelude.{
  ℕ, suc, ◌<◌, ◌≤◌, ◌≡◌, sym, ◌∙◌, List, [], ◌∷◌, arith, ltb, inl, inr, Bool-cases,
}
use d_real_cmake.Symbolic.Syntax.{Variable, Formula}
use d_real_cmake.Symbolic.Meaning.{Semantics, eval}
use d_real_cmake.Transform.Tseitin.{boolean_variable, emplace}
use d_real_cmake.Transform.Tseitin.Fresh.{
  Assigns, Below, Agree, Agree-refl, Agree-trans, assign-Agree,
}

-- Every definition in the list holds.
abbrev pub Holds : (S : Semantics) → List (Variable × Formula) → S.Env → Type 0
Holds S [] ρ = Unit
Holds S (d ∷ ds) ρ = (S.truth ρ d.0 ≡ eval S d.1 ρ) × Holds S ds ρ

abbrev pub Numbered : (ℕ → Type 0) → List (Variable × Formula) → Type 0
Numbered Q [] = Unit
Numbered Q (d ∷ ds) = Q d.0.id × Numbered Q ds

pub record Step (S : Semantics) (n lo hi : ℕ) (ds es : List (Variable × Formula))
    (P : S.Env → Type 0) : Type 1 where
  pub Fits : S.Env → Type 0
  pub grows : lo ≤ hi
  pub new_fit : (ρ : S.Env) → Holds S es ρ → Fits ρ
  pub old_hold : (ρ : S.Env) → Holds S es ρ → Holds S ds ρ
  pub hold : (ρ : S.Env) → Fits ρ → Holds S ds ρ → Holds S es ρ
  pub means : (ρ : S.Env) → Fits ρ → P ρ
  pub extend : (ρ : S.Env) → (σ : S.Env) × Agree S n lo hi ρ σ × Fits σ
  pub stable : (m k : ℕ) (ρ σ : S.Env) → hi ≤ m → Agree S n m k ρ σ → Fits ρ → Fits σ
  pub numbers : (Q : ℕ → Type 0) → ((i : ℕ) → lo ≤ i → i < hi → Q i) → Numbered Q ds → Numbered Q es

module _ (S : Semantics) where
  pub Holds-emplace :
      (b : Variable) (g : Formula) (ds : List (Variable × Formula)) (ρ : S.Env)
      → S.truth ρ b ≡ eval S g ρ
      → Holds S ds ρ
      → Holds S (emplace b g ds) ρ
  unfolding emplace
  Holds-emplace b g [] ρ e h = (e, tt)
  Holds-emplace b g (d ∷ ds) ρ e h = elim (Bool-cases (ltb b.id d.0.id)) [
    | inl q ↦ rw q (e, h)
    | inr q ↦ rw q (h.0, Holds-emplace b g ds ρ e h.1)
  ]

  pub emplace-Holds :
      (b : Variable) (g : Formula) (ds : List (Variable × Formula)) (ρ : S.Env)
      → Holds S (emplace b g ds) ρ
      → (S.truth ρ b ≡ eval S g ρ) × Holds S ds ρ
  unfolding emplace
  emplace-Holds b g [] ρ h = (h.0, tt)
  emplace-Holds b g (d ∷ ds) ρ h = elim (Bool-cases (ltb b.id d.0.id)) [
    | inl q ↦ (rw q at h)
    | inr q ↦
        let k = (rw q at h) in let rest = emplace-Holds b g ds ρ k.1 in (rest.0, (k.0, rest.1))
  ]

pub Numbered-emplace :
    (Q : ℕ → Type 0) (b : Variable) (g : Formula) (ds : List (Variable × Formula))
    → Q b.id
    → Numbered Q ds
    → Numbered Q (emplace b g ds)
unfolding emplace
Numbered-emplace Q b g [] q h = (q, tt)
Numbered-emplace Q b g (d ∷ ds) q h = elim (Bool-cases (ltb b.id d.0.id)) [
  | inl e ↦ rw e (q, h)
  | inr e ↦ rw e (h.0, Numbered-emplace Q b g ds q h.1)
]

module _ (S : Semantics) (n : ℕ) where
  -- Nothing is defined.
  pub idle :
      (lo : ℕ) (ds : List (Variable × Formula)) (P : S.Env → Type 0)
      → ((ρ : S.Env) → P ρ)
      → Step S n lo lo ds ds P
  idle lo ds P h = record {
    Fits = λ ρ. Unit;
    grows = omega arith;
    new_fit = λ ρ k. tt;
    old_hold = λ ρ k. k;
    hold = λ ρ u k. k;
    means = λ ρ u. h ρ;
    extend = λ ρ. (ρ, Agree-refl S n lo lo ρ, tt);
    stable = λ m k ρ σ h a u. tt;
    numbers = λ Q q k. k;
  }

  pub implied :
      {lo hi : ℕ} {ds es : List (Variable × Formula)} {P Q : S.Env → Type 0}
      → ((ρ : S.Env) → P ρ → Q ρ)
      → Step S n lo hi ds es P
      → Step S n lo hi ds es Q
  implied h s = record {
    Fits = s.Fits;
    grows = s.grows;
    new_fit = s.new_fit;
    old_hold = s.old_hold;
    hold = s.hold;
    means = λ ρ k. h ρ (s.means ρ k);
    extend = s.extend;
    stable = s.stable;
    numbers = s.numbers;
  }

  pub followed :
      {lo mid hi : ℕ} {ds es gs : List (Variable × Formula)} {P Q : S.Env → Type 0}
      → Step S n lo mid ds es P
      → Step S n mid hi es gs Q
      → Step S n lo hi ds gs (λ ρ. P ρ × Q ρ)
  followed {lo} {mid} {hi} s t = record {
    Fits = λ ρ. s.Fits ρ × t.Fits ρ;
    grows = omega (arith, s.grows, t.grows);
    new_fit = λ ρ h. (s.new_fit ρ (t.old_hold ρ h), t.new_fit ρ h);
    old_hold = λ ρ h. s.old_hold ρ (t.old_hold ρ h);
    hold = λ ρ w h. t.hold ρ w.1 (s.hold ρ w.0 h);
    means = λ ρ w. (s.means ρ w.0, t.means ρ w.1);
    extend = λ ρ.
        let (σ, a, w) = s.extend ρ in
        let (τ, c, u) = t.extend σ in
        (
          τ,
          Agree-trans S n lo mid hi ρ σ τ s.grows t.grows a c,
          (s.stable mid hi σ τ (omega arith) c w, u),
        );
    stable = λ m k ρ σ h a w.
        (s.stable m k ρ σ (omega (arith, h, t.grows)) a w.0, t.stable m k ρ σ h a w.1);
    numbers = λ Q q h.
        t.numbers Q (λ i k l. q i (omega (arith, k, s.grows)) l)
          (s.numbers Q (λ i k l. q i k (omega (arith, l, t.grows))) h);
  }

module _ (S : Semantics) (A : Assigns S) (n : ℕ) (f g : Formula) (below : Below n f) where
  abbrev Same : S.Env → Type 0
  Same ρ = eval S g ρ ≡ eval S f ρ

  -- A variable with the number that comes after the others is defined as the formula.
  pub name_after :
      {lo mid : ℕ} {ds es : List (Variable × Formula)}
      → n ≤ lo
      → Step S n lo mid ds es Same
      → Step S n lo
          (suc mid)
          ds
          (emplace (boolean_variable mid) g es)
          (λ ρ. S.truth ρ (boolean_variable mid) ≡ eval S f ρ)
  name_after {lo} {mid} {ds} {es} h s =
      let b = boolean_variable mid in
      record {
        Fits = λ ρ. s.Fits ρ × (S.truth ρ b ≡ eval S f ρ);
        grows = omega (arith, s.grows);
        new_fit = λ ρ k.
            let (e, l) = emplace-Holds S b g es ρ k in
            (s.new_fit ρ l, e ∙ s.means ρ (s.new_fit ρ l));
        old_hold = λ ρ k. s.old_hold ρ (emplace-Holds S b g es ρ k).1;
        hold = λ ρ w k. Holds-emplace S b g es ρ (w.1 ∙ sym (s.means ρ w.0)) (s.hold ρ w.0 k);
        means = λ ρ w. w.1;
        extend = λ ρ.
            let (σ, a, w) = s.extend ρ in
            let v = eval S f σ in
            let τ = A.assign σ b v in
            let c = assign-Agree S A n b v σ (omega (arith, h, s.grows)) in
            (
              τ,
              Agree-trans S n lo mid (suc mid) ρ σ τ s.grows (omega arith) a c,
              (
                s.stable mid (suc mid) σ τ (omega arith) c w,
                A.truth-assign σ b v ∙ sym (c.on_formulas f below),
              ),
            );
        stable = λ m k ρ σ l a w. (
          s.stable m k ρ σ (omega (arith, l)) a w.0,
          a.on_variables b (inl (omega (arith, l))) ∙ w.1 ∙ sym (a.on_formulas f below),
        );
        numbers = λ Q q k.
            Numbered-emplace Q b g es (q mid s.grows (omega arith))
              (s.numbers Q (λ i u l. q i u (omega (arith, l))) k);
      }

  -- A variable with the number that comes before the others is defined as the formula.
  pub name_before :
      {lo hi : ℕ} {ds es : List (Variable × Formula)}
      → n ≤ lo
      → Step S n (suc lo) hi ds es Same
      → Step S n lo hi ds
          (emplace (boolean_variable lo) g es)
          (λ ρ. S.truth ρ (boolean_variable lo) ≡ eval S f ρ)
  name_before {lo} {hi} {ds} {es} h s =
      let b = boolean_variable lo in
      record {
        Fits = λ ρ. s.Fits ρ × (S.truth ρ b ≡ eval S f ρ);
        grows = omega (arith, s.grows);
        new_fit = λ ρ k.
            let (e, l) = emplace-Holds S b g es ρ k in
            (s.new_fit ρ l, e ∙ s.means ρ (s.new_fit ρ l));
        old_hold = λ ρ k. s.old_hold ρ (emplace-Holds S b g es ρ k).1;
        hold = λ ρ w k. Holds-emplace S b g es ρ (w.1 ∙ sym (s.means ρ w.0)) (s.hold ρ w.0 k);
        means = λ ρ w. w.1;
        extend = λ ρ.
            let v = eval S f ρ in
            let σ = A.assign ρ b v in
            let (τ, c, w) = s.extend σ in
            let a = assign-Agree S A n b v ρ h in
            (
              τ,
              Agree-trans S n lo (suc lo) hi ρ σ τ (omega arith) s.grows a c,
              (
                w,
                c.on_variables b (inl (omega arith))
                    ∙ A.truth-assign ρ b v
                    ∙ sym (c.on_formulas f below ∙ a.on_formulas f below),
              ),
            );
        stable = λ m k ρ σ l a w. (
          s.stable m k ρ σ l a w.0,
          a.on_variables b (inl (omega (arith, l, s.grows))) ∙ w.1 ∙ sym (a.on_formulas f below),
        );
        numbers = λ Q q k.
            Numbered-emplace Q b g es (q lo (omega arith) (omega (arith, s.grows)))
              (s.numbers Q (λ i u l. q i (omega (arith, u)) l) k);
      }
