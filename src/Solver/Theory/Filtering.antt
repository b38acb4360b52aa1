-- ===== src/Solver/Theory/Filtering.antt =====
-- The filter of the theory solver loses no solution.
use d_real_cmake.Prelude.{
  ℕ, ◌≡◌, refl, sym, ◌∙◌, subst, ap, inl, inr, Bool, true, false, List, [], ◌∷◌, Option, none, some,
  All, Bool-cases,
}
use d_real_cmake.Symbolic.Syntax.{
  Variable, Expression, variable, constant, real_constant, term, Formula, eq, neq, gt, geq, lt, leq,
  neg,
}
use d_real_cmake.Symbolic.Meaning.{Semantics, eval}
use d_real_cmake.Symbolic.Numbers.{Numbers}
use d_real_cmake.Box.Interval.{Intervals}
use d_real_cmake.Box.{Box, empty, interval, has_variable}
use d_real_cmake.Box.Points.{Inside, mem-interval, not-Inside-empty}
use d_real_cmake.Filter.{FilterAssertionResult, filter_assertion}
use d_real_cmake.Filter.Fits.{IsOnGrid, Knows, KnowsTerm, Reads}
use d_real_cmake.Filter.Sound.{filter_assertion-keeps}
use d_real_cmake.Filter.Variables.{variables-filter_assertion}
use d_real_cmake.Contractor.Status.{
  ContractorStatus, add_used_constraint, add_unsat_witness, add_unsat_witnesses,
}
use d_real_cmake.Solver.Theory.{
  Tools, Filtered, refuted, filtered, keep, sort_result, sort_outcome, filter_assertions,
}

module _ {N : Numbers} (I : Intervals N) (p : ℕ → N.Real) (box new : Box I) where
  KnowsTerm-of :
      (e : Expression)
      → KnowsTerm I box e
      → new.variables ≡ box.variables
      → Inside I p new
      → KnowsTerm I new e
  KnowsTerm-of (variable v) (has, full) same w =
      let has' : has_variable new.variables v ≡ true =
        subst (λ vs. has_variable vs v ≡ true) (sym same) has in
      (
        has',
        elim (Bool-cases (I.is_empty (interval I new v))) [
          | inl q ↦
              let m = mem-interval I p new v has' w in
              let n = I.mem-is_empty (interval I new v) (p v.id) q in cc
          | inr q ↦ q
        ],
      )
  KnowsTerm-of (constant _) k same w = tt
  KnowsTerm-of (real_constant a b) k same w = k
  KnowsTerm-of (term _) k same w = tt

  Knows-of :
      (f : Formula) → Knows I box f → new.variables ≡ box.variables → Inside I p new → Knows I new f
  Knows-of (eq a b) (k, l) same w = (KnowsTerm-of a k same w, KnowsTerm-of b l same w)
  Knows-of (neq a b) (k, l) same w = (KnowsTerm-of a k same w, KnowsTerm-of b l same w)
  Knows-of (gt a b) (k, l) same w = (KnowsTerm-of a k same w, KnowsTerm-of b l same w)
  Knows-of (geq a b) (k, l) same w = (KnowsTerm-of a k same w, KnowsTerm-of b l same w)
  Knows-of (lt a b) (k, l) same w = (KnowsTerm-of a k same w, KnowsTerm-of b l same w)
  Knows-of (leq a b) (k, l) same w = (KnowsTerm-of a k same w, KnowsTerm-of b l same w)
  Knows-of (neg f) k same w = Knows-of f k same w
  Knows-of _ k same w = tt

abbrev pub Holds : (S : Semantics) → S.Env → Formula → Type 0
Holds S ρ f = eval S f ρ ≡ true

module _ {N : Numbers} (I : Intervals N) (p : ℕ → N.Real) where
  Knows-after :
      (box new : Box I) (fs : List Formula)
      → All (Knows I box) fs
      → new.variables ≡ box.variables
      → Inside I p new
      → All (Knows I new) fs
  Knows-after box new [] k same w = tt
  Knows-after box new (f ∷ fs) (k, ks) same w =
      (Knows-of I p box new f k same w, Knows-after box new fs ks same w)

  box-add_unsat_witnesses :
      (vs : List Variable) (cs : ContractorStatus I) → (add_unsat_witnesses vs cs).box ≡ cs.box
  unfolding add_unsat_witnesses add_unsat_witness
  box-add_unsat_witnesses [] cs = refl
  box-add_unsat_witnesses (v ∷ vs) cs = box-add_unsat_witnesses vs _

  box-add_used_constraint :
      (free_variables : Formula → List Variable) (f : Formula) (cs : ContractorStatus I)
      → (add_used_constraint free_variables f cs).box ≡ cs.box
  unfolding add_used_constraint
  box-add_used_constraint free_variables f cs = elim (Bool-cases (empty I cs.box)) [
    | inl q ↦ rw q (box-add_unsat_witnesses (free_variables f) cs)
    | inr q ↦ rw q refl
  ]

module _ (S : Semantics) (I : Intervals S.numbers) (T : Tools I) (p : ℕ → S.numbers.Real)
    (ρ : S.Env) where
  -- The filter has not refuted the point, and what is left over holds there.
  abbrev pub Kept : Option (Filtered I) → Type 0
  Kept none = Unit
  Kept (some (refuted cs)) = ⊥
  Kept (some (filtered cs kept)) =
      Inside I p cs.box × All (λ (k : Formula × Box I). Holds S ρ k.0) kept

  Kept-keep :
      (f : Formula × Box I) (o : Option (Filtered I)) → Holds S ρ f.0 → Kept o → Kept (keep I T f o)
  unfolding keep
  Kept-keep f none k h = tt
  Kept-keep f (some (refuted cs)) k h = h
  Kept-keep f (some (filtered cs kept)) k h = (h.0, (k, h.1))

  Kept-sort_result :
      (f : Formula) (is_filtered changed : Bool) (cs : ContractorStatus I)
      (rest : ContractorStatus I → Option (Filtered I))
      → Holds S ρ f
      → Inside I p cs.box
      → ((c : ContractorStatus I) → c.box ≡ cs.box → Kept (rest c))
      → Kept (sort_result I T f is_filtered changed cs rest)
  unfolding sort_result
  Kept-sort_result f false false cs rest k w h = Kept-keep (f, cs.box) _ k (h cs refl)
  Kept-sort_result f false true cs rest k w h =
      Kept-keep (f, cs.box) _ k (h _ (box-add_used_constraint I p T.parts.free_variables f cs))
  Kept-sort_result f true true cs rest k w h =
      let used = add_used_constraint T.parts.free_variables f cs in
      let same = box-add_used_constraint I p T.parts.free_variables f cs in
      elim (Bool-cases (empty I used.box)) [
        | inl q ↦ absurd (not-Inside-empty I p used.box q (subst (Inside I p) (sym same) w))
        | inr q ↦ rw q (h used same)
      ]
  Kept-sort_result f true false cs rest k w h = h cs refl

  module _ (grid : IsOnGrid S.numbers p) (reads : Reads S p ρ) where
    Kept-sort_outcome :
        (f : Formula) (cs : ContractorStatus I) (rest : ContractorStatus I → Option (Filtered I))
        (o : Option (FilterAssertionResult × Box I))
        → filter_assertion I f cs.box ≡ o
        → Knows I cs.box f
        → Holds S ρ f
        → Inside I p cs.box
        → ((c : ContractorStatus I)
            → c.box.variables ≡ cs.box.variables
            → Inside I p c.box
            → Kept (rest c))
        → Kept (sort_outcome I T f cs rest o)
    unfolding sort_outcome
    Kept-sort_outcome f cs rest none e k h w go = tt
    Kept-sort_outcome f cs rest (some (r, new)) e k h w go =
        let w' = filter_assertion-keeps S I p ρ grid reads f cs.box new r k e w h in
        let same = variables-filter_assertion I cs.box new f r e in
        Kept-sort_result f r.filtered r.changed (record cs { box = new }) rest h w'
          (λ c b. go c (ap (λ d. d.variables) b ∙ same) (subst (Inside I p) (sym b) w'))

    pub Kept-filter_assertions :
        (fs : List Formula) (cs : ContractorStatus I)
        → All (Holds S ρ) fs
        → All (Knows I cs.box) fs
        → Inside I p cs.box
        → Kept (filter_assertions I T fs cs)
    unfolding filter_assertions
    Kept-filter_assertions [] cs h k w = (w, tt)
    Kept-filter_assertions (f ∷ fs) cs (h, hs) (k, ks) w =
        let go = λ (c : ContractorStatus I). Kept-filter_assertions fs c hs in
        elim (Bool-cases (T.include_ode f)) [
          | inl q ↦ rw q (go cs ks w)
          | inr q ↦ rw q (
              Kept-sort_outcome f cs (λ c. filter_assertions I T fs c) (filter_assertion I f cs.box)
                refl k h w
                (λ c same inside. go c (Knows-after I p cs.box c.box fs ks same inside) inside))
        ]
