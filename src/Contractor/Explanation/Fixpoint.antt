-- ===== src/Contractor/Explanation/Fixpoint.antt =====
-- The loop of the explanation ends at its fixpoint.
use d_real_cmake.Prelude.{
  ℕ, zero, suc, ◌+◌, ◌<◌, ◌≤◌, ◌≡◌, refl, sym, subst, ◌⊎◌, inl, inr, ◌↔◌, Bool, true, false, List,
  [], ◌∷◌, ◌++◌, some, if◌then◌else◌, Eq, Member, All, All-Member, member-All, length, arith,
  Bool-cases,
}
use d_real_cmake.Symbolic.Syntax.{Variable}
use d_real_cmake.Contractor.Explanation.{
  have_intersection, is_empty_list, contains, Explained, start, visit, turn, grow, splice, finish,
  generate_explanation,
}
use d_real_cmake.Contractor.Explanation.Closure.{
  contains-Member, Reached, closed, touching, linked, Inv, Inv-add, Base, start-Inv, start-Base,
}

module _ {Formula : Type 0} (E : Eq Formula) (free_variables : Formula → List Variable) where
  -- How many of the formulas are not in the explanation.
  abbrev missing : List Formula → List Formula → ℕ
  missing [] ex = 0
  missing (f ∷ fs) ex = (if contains E free_variables f ex then 0 else 1) + missing fs ex

  missing_add_le : (fs ex : List Formula) (g : Formula) → missing fs (g ∷ ex) ≤ missing fs ex
  missing_add_le [] ex g = omega arith
  missing_add_le (f ∷ fs) ex g =
      let rest = missing_add_le fs ex g in
      elim (Bool-cases (E.beq f g)) [
        | inl e ↦ rw e (omega (arith, rest))
        | inr e ↦ rw e (omega (arith, rest))
      ]

  missing_add_lt :
      (fs ex : List Formula) (g : Formula)
      → Member g fs
      → contains E free_variables g ex ≡ false
      → missing fs (g ∷ ex) < missing fs ex
  missing_add_lt [] ex g m h = elim m [ ]
  missing_add_lt (f ∷ fs) ex g (inl e) h =
      let rest = missing_add_le fs ex g in
      let here : E.beq f g ≡ true = (E.beq_iff f g).1 (sym e) in
      let out : contains E free_variables f ex ≡ false =
        subst (λ t. contains E free_variables t ex ≡ false) e h in
      rw (here, out) (omega (arith, rest))
  missing_add_lt (f ∷ fs) ex g (inr m) h =
      let rest = missing_add_lt fs ex g m h in
      elim (Bool-cases (E.beq f g)) [
        | inl e ↦ rw e (omega (arith, rest))
        | inr e ↦ rw e (omega (arith, rest))
      ]

  missing-length : (fs ex : List Formula) → missing fs ex ≤ length fs
  missing-length [] ex = omega arith
  missing-length (f ∷ fs) ex =
      let rest = missing-length fs ex in
      elim (Bool-cases (contains E free_variables f ex)) [
        | inl e ↦ rw e (omega (arith, rest))
        | inr e ↦ rw e (omega (arith, rest))
      ]

  abbrev tick : Bool → ℕ
  tick b = if b then 1 else 0

  -- A formula that stays outside, seen from a state of the loop.
  abbrev Outside : Explained E free_variables → Formula → Type 0
  Outside st f = Member f st.1 ⊎ (have_intersection st.0 (free_variables f) ≡ false)

  module _ (witness : List Variable) (used : List Formula) where
    -- The three outcomes of a visit.
    visit_cases :
        (f : Formula) (st : Explained E free_variables)
        → ((visit E free_variables f st ≡ (st, false)) × Outside st f)
          ⊎ ((visit E free_variables f st ≡ ((free_variables f ++ st.0, f ∷ st.1), true))
              × (contains E free_variables f st.1 ≡ false)
              × (have_intersection st.0 (free_variables f) ≡ true))
    unfolding visit
    visit_cases f st = elim (Bool-cases (contains E free_variables f st.1)) [
      | inl c ↦ inl (rw c refl, inl (contains-Member E free_variables f st.1 c))
      | inr c ↦ elim (Bool-cases (have_intersection st.0 (free_variables f))) [
        | inl h ↦ inr (rw (c, h) refl, c, h)
        | inr h ↦ inl (rw (c, h) refl, inr h)
      ]
    ]

    -- The turn keeps the invariant and what is in the explanation, pays for each formula it adds,
    -- and adds nothing if it says so.
    record Turned (fs : List Formula) (st : Explained E free_variables) (b : Bool)
        (r : Explained E free_variables × Bool) : Type 0 where
      inv : Inv E free_variables witness used r.0
      grows : (g : Formula) → Member g st.1 → Member g r.0.1
      pays : missing used r.0.1 + tick r.1 ≤ missing used st.1 + tick b
      quiet : r.1 ≡ false → (b ≡ false) × (r.0 ≡ st) × All (Outside st) fs

    turn_lem :
        (fs : List Formula) (st : Explained E free_variables) (b : Bool)
        → All (λ f. Member f used) fs
        → Inv E free_variables witness used st
        → Turned fs st b (turn E free_variables fs st b)
    unfolding turn
    turn_lem [] st b h V = record {
      inv = V;
      grows = λ g m. m;
      pays = omega arith;
      quiet = λ q. (q, refl, tt);
    }
    turn_lem (f ∷ fs) st b h V = elim (visit_cases f st) [
      | inl (e, o) ↦
          let T = turn_lem fs st b h.1 V in
          rw (e, turn)
            (record {
              inv = T.inv;
              grows = T.grows;
              pays = T.pays;
              quiet = λ q. let (b', same, out) = T.quiet q in (b', same, (o, out));
            })
      | inr (e, c, i) ↦
          let added : Explained E free_variables = (free_variables f ++ st.0, f ∷ st.1) in
          let T =
            turn_lem fs added true h.1
              (Inv-add E free_variables witness used f st V (V.seen_from f h.0 i)) in
          let less = missing_add_lt used st.1 f h.0 c in
          rw (e, turn)
            (record {
              inv = T.inv;
              grows = λ g m. T.grows g (inr m);
              pays = omega (arith, T.pays, less);
              quiet = λ q. let (b', same, out) = T.quiet q in cc;
            })
    ]

    abbrev Settled : List Formula → Explained E free_variables → Type 0
    Settled ex st =
        (seen : List Variable) × Inv E free_variables witness used (seen, ex)
        × ((g : Formula) → Member g st.1 → Member g ex)
        × All (Outside (seen, ex)) used

    grow_ends :
        (fuel : ℕ) (st : Explained E free_variables)
        → Inv E free_variables witness used st
        → missing used st.1 < fuel
        → (ex : List Formula) × (grow E free_variables fuel used st ≡ some ex) × Settled ex st
    unfolding grow
    grow_ends zero st V h = absurd (omega (arith, h))
    grow_ends (suc fuel) st V h =
        let T = turn_lem used st false (All-Member _ used (λ f m. m)) V in
        let turned = turn E free_variables used st false in
        elim (Bool-cases turned.1) [
          | inl q ↦
              let one : tick turned.1 ≡ 1 = rw q refl in
              let (ex, e, (seen, W, sub, out)) =
                grow_ends fuel turned.0 T.inv (omega (arith, T.pays, one, h)) in
              (ex, rw q e, (seen, W, λ g m. sub g (T.grows g m), out))
          | inr q ↦
              let (b', same, out) = T.quiet q in
              (
                turned.0.1,
                rw q refl,
                (
                  turned.0.0,
                  T.inv,
                  T.grows,
                  subst (λ (s : Explained E free_variables). All (Outside s) used) (sym same) out,
                ),
              )
        ]

    Reached-in :
        (ex : List Formula) (st : Explained E free_variables)
        → ((f : Formula) → Member f used → Base E free_variables witness used f → Member f st.1)
        → Settled ex st
        → (f : Formula) → Reached E free_variables witness used f
        → Member f ex
    Reached-in ex st base S f (closed _ m c) = S.2 f (base f m (inl c))
    Reached-in ex st base S f (touching _ m t) = S.2 f (base f m (inr t))
    Reached-in ex st base S f (linked _ g m r i) = elim (member-All _ used f S.3 m) [
      | inl k ↦ k
      | inr k ↦ let q = S.1.seen_all g (Reached-in ex st base S g r) f i in cc
    ]

  splice_lem :
      (witness : List Variable) (odes ex : List Formula) (f : Formula)
      → Member f (splice E free_variables witness odes ex)
        ↔ (Member f ex ⊎ (Member f odes × (have_intersection witness (free_variables f) ≡ true)))
  unfolding splice
  splice_lem witness [] ex f = (λ m. inl m, λ m. elim m [ inl k ↦ k | inr (k, i) ↦ elim k [ ] ])
  splice_lem witness (g ∷ odes) ex f =
      elim (Bool-cases (have_intersection witness (free_variables g))) [
        | inl t ↦
            let (to, from) = splice_lem witness odes (g ∷ ex) f in
            rw t (
              λ m. elim (to m) [
                | inl (inl e) ↦ inr (
                  inl e,
                  subst (λ k. have_intersection witness (free_variables k) ≡ true) (sym e) t,
                )
                | inl (inr k) ↦ inl k
                | inr (k, i) ↦ inr (inr k, i)
              ],
              λ m. from (elim m [
                | inl k ↦ inl (inr k)
                | inr (inl e, i) ↦ inl (inl e)
                | inr (inr k, i) ↦ inr (k, i)
              ]),
            )
        | inr t ↦
            let (to, from) = splice_lem witness odes ex f in
            rw t (
              λ m. elim (to m) [ inl k ↦ inl k | inr (k, i) ↦ inr (inr k, i) ],
              λ m. elim m [
                | inl k ↦ from (inl k)
                | inr (inl e, i) ↦ absurd (
                    let q = subst (λ k. have_intersection witness (free_variables k) ≡ true) e i in
                    cc)
                | inr (inr k, i) ↦ from (inr (k, i))
              ],
            )
      ]

-- With a witness that is not empty and more fuel than there are used constraints, an explanation
-- is returned, and its formulas are these and no others: the least set of used constraints that
-- has those without variables, those that share a variable with the witness and those that share
-- one with a formula in it; and the inconclusive constraints that share a variable with the witness.
pub generate_explanation_lem :
    {Formula : Type 0} (E : Eq Formula) (free_variables : Formula → List Variable) (fuel : ℕ)
    (witness : List Variable) (used odes : List Formula)
    → is_empty_list witness ≡ false
    → length used < fuel
    → (ex : List Formula) × (generate_explanation E free_variables fuel witness used odes ≡ some ex)
      × ((f : Formula)
          → Member f ex ↔ (
              Reached E free_variables witness used f
              ⊎ (Member f odes × (have_intersection witness (free_variables f) ≡ true))))
unfolding generate_explanation finish have_intersection
generate_explanation_lem {Formula = Formula} E fv fuel witness used odes full enough =
    let empty_inv : Inv E fv witness used ([], []) = record {
      only = λ f m. elim m [ ];
      seen_from = λ f m h. none_seen f h;
      seen_all = λ g m. elim m [ ];
    } in
    let V = start-Inv E fv witness used used ([], []) (All-Member _ used (λ f m. m)) empty_inv in
    let started = start E fv witness used ([], []) in
    let (ex, e, S) =
      grow_ends E fv witness used fuel started V
        (omega (arith, missing-length E fv used started.1, enough)) in
    let base : (f : Formula) → Member f used → Base E fv witness used f → Member f started.1 =
      λ f m b. start-Base E fv witness used used f ([], []) m b in
    let into = Reached-in E fv witness used ex started base S in
    (
      splice E fv witness odes ex,
      rw (full, e) refl,
      λ f. (
        λ m. elim ((splice_lem E fv witness odes ex f).0 m) [
          | inl k ↦ inl (S.1.only f k)
          | inr k ↦ inr k
        ],
        λ m.
            (splice_lem E fv witness odes ex f).1
              (elim m [ inl r ↦ inl (into f r) | inr k ↦ inr k ]),
      ),
    )
  where
    none_seen : (f : Formula) → have_intersection [] (fv f) ≡ true → Reached E fv witness used f
    none_seen f h = cc
