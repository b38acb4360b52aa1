-- ===== src/Contractor/Explanation/Closure.antt =====
-- The explanation is the least fixpoint that the comment in the source describes.
use d_real_cmake.Prelude.{
  ◌≡◌, refl, sym, subst, ◌⊎◌, inl, inr, true, ◌||◌, List, [], ◌∷◌, ◌++◌, Eq, Member, All, arith,
  Bool-cases,
}
use d_real_cmake.Symbolic.Syntax.{Variable}
use d_real_cmake.Contractor.Explanation.{
  have_intersection, is_empty_list, contains, Explained, start_one, start,
}

have_intersection-append :
    (us vs ws : List Variable)
    → have_intersection (us ++ vs) ws ≡ (have_intersection us ws || have_intersection vs ws)
unfolding have_intersection
have_intersection-append [] vs ws = refl
have_intersection-append (u ∷ us) vs ws = let q = have_intersection-append us vs ws in ground arith

module _ {Formula : Type 0} (E : Eq Formula) (free_variables : Formula → List Variable) where
  pub contains-Member :
      (f : Formula) (gs : List Formula) → contains E free_variables f gs ≡ true → Member f gs
  contains-Member f [] h = cc
  contains-Member f (g ∷ gs) h = elim (Bool-cases (E.beq f g)) [
    | inl e ↦ inl ((E.beq_iff f g).0 e)
    | inr e ↦ inr (contains-Member f gs (rw e at h))
  ]

  module _ (witness : List Variable) (used : List Formula) where
    -- The formulas of the explanation: those without variables, those that share a variable with
    -- the witness, and those that share one with a formula that has been reached.
    pub data Reached : Formula → Type 0 where
      closed : (f : Formula) → Member f used → is_empty_list (free_variables f) ≡ true → Reached f
      touching :
          (f : Formula)
          → Member f used
          → have_intersection witness (free_variables f) ≡ true
          → Reached f
      linked :
          (f g : Formula)
          → Member f used
          → Reached g
          → have_intersection (free_variables g) (free_variables f) ≡ true
          → Reached f

    pub record Inv (st : Explained E free_variables) : Type 0 where
      pub only : (f : Formula) → Member f st.1 → Reached f
      pub seen_from :
          (f : Formula)
          → Member f used
          → have_intersection st.0 (free_variables f) ≡ true
          → Reached f
      pub seen_all :
          (g : Formula)
          → Member g st.1
          → (f : Formula) → have_intersection (free_variables g) (free_variables f) ≡ true
          → have_intersection st.0 (free_variables f) ≡ true

    pub Inv-add :
        (f : Formula) (st : Explained E free_variables)
        → Inv st
        → Reached f
        → Inv (free_variables f ++ st.0, f ∷ st.1)
    Inv-add f st V r = record {
      only = λ g m. elim m [ inl e ↦ subst Reached (sym e) r | inr m' ↦ V.only g m' ];
      seen_from = λ g m h.
          let q = have_intersection-append (free_variables f) st.0 (free_variables g) in
          elim (Bool-cases (have_intersection (free_variables f) (free_variables g))) [
            | inl e ↦ linked g f m r e
            | inr e ↦ V.seen_from g m (ground arith)
          ];
      seen_all = λ g m k h.
          let q = have_intersection-append (free_variables f) st.0 (free_variables k) in
          elim m [
            | inl e ↦
                let h' =
                  subst (λ t. have_intersection (free_variables t) (free_variables k) ≡ true) e h in
                ground arith
            | inr m' ↦ let h' = V.seen_all g m' k h in ground arith
          ];
    }

    no_variables :
        (vs ws : List Variable) → is_empty_list vs ≡ true → have_intersection vs ws ≡ true → ⊥
    unfolding is_empty_list have_intersection
    no_variables [] ws e h = cc
    no_variables (v ∷ vs) ws e h = cc

    Inv-closed :
        (f : Formula) (st : Explained E free_variables)
        → Inv st
        → Reached f
        → is_empty_list (free_variables f) ≡ true
        → Inv (st.0, f ∷ st.1)
    Inv-closed f st V r c = record {
      only = λ g m. elim m [ inl e ↦ subst Reached (sym e) r | inr m' ↦ V.only g m' ];
      seen_from = V.seen_from;
      seen_all = λ g m k h. elim m [
        | inl e ↦ absurd (
            no_variables (free_variables f) (free_variables k) c
              (subst (λ t. have_intersection (free_variables t) (free_variables k) ≡ true) e h))
        | inr m' ↦ V.seen_all g m' k h
      ];
    }

    -- What the first loop puts into the explanation.
    abbrev pub Base : Formula → Type 0
    Base f =
        (is_empty_list (free_variables f) ≡ true)
        ⊎ (have_intersection witness (free_variables f) ≡ true)

    start_one-Inv :
        (f : Formula) (st : Explained E free_variables)
        → Member f used
        → Inv st
        → Inv (start_one E free_variables witness f st)
    unfolding start_one
    start_one-Inv f st m V = elim (Bool-cases (is_empty_list (free_variables f))) [
      | inl c ↦ rw c (Inv-closed f st V (closed f m c) c)
      | inr c ↦ elim (Bool-cases (have_intersection witness (free_variables f))) [
        | inl t ↦ rw (c, t) (Inv-add f st V (touching f m t))
        | inr t ↦ rw (c, t) V
      ]
    ]

    pub start-Inv :
        (fs : List Formula) (st : Explained E free_variables)
        → All (λ f. Member f used) fs
        → Inv st
        → Inv (start E free_variables witness fs st)
    unfolding start
    start-Inv [] st h V = V
    start-Inv (f ∷ fs) st h V = start-Inv fs _ h.1 (start_one-Inv f st h.0 V)

    start_one_grows :
        (f g : Formula) (st : Explained E free_variables)
        → Member g st.1
        → Member g (start_one E free_variables witness f st).1
    unfolding start_one
    start_one_grows f g st m = elim (Bool-cases (is_empty_list (free_variables f))) [
      | inl c ↦ rw c (inr m)
      | inr c ↦ elim (Bool-cases (have_intersection witness (free_variables f))) [
        | inl t ↦ rw (c, t) (inr m)
        | inr t ↦ rw (c, t) m
      ]
    ]

    start_grows :
        (fs : List Formula) (g : Formula) (st : Explained E free_variables)
        → Member g st.1
        → Member g (start E free_variables witness fs st).1
    unfolding start
    start_grows [] g st m = m
    start_grows (f ∷ fs) g st m = start_grows fs g _ (start_one_grows f g st m)

    start_one-Base :
        (f : Formula) (st : Explained E free_variables)
        → Base f
        → Member f (start_one E free_variables witness f st).1
    unfolding start_one
    start_one-Base f st b = elim (Bool-cases (is_empty_list (free_variables f))) [
      | inl c ↦ rw c (inl refl)
      | inr c ↦ elim (Bool-cases (have_intersection witness (free_variables f))) [
        | inl t ↦ rw (c, t) (inl refl)
        | inr t ↦ absurd (ground arith)
      ]
    ]

    pub start-Base :
        (fs : List Formula) (f : Formula) (st : Explained E free_variables)
        → Member f fs
        → Base f
        → Member f (start E free_variables witness fs st).1
    unfolding start
    start-Base [] f st m b = elim m [ ]
    start-Base (g ∷ fs) f st (inl e) b = start_grows fs f _ (
        subst (λ t. Member f (start_one E free_variables witness t st).1) e (start_one-Base f st b))
    start-Base (g ∷ fs) f st (inr m) b = start-Base fs f _ m b
