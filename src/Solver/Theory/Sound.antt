-- ===== src/Solver/Theory/Sound.antt =====
-- The theory solver refutes no conjunction that has a solution in the box.
use d_real_cmake.Prelude.{
  ℕ, ◌≡◌, ◌⊎◌, Bool, true, false, List, [], ◌∷◌, ◌++◌, map, some, All, bind-some, subst,
}
use d_real_cmake.Symbolic.Syntax.{Formula}
use d_real_cmake.Symbolic.Meaning.{Semantics}
use d_real_cmake.Box.Interval.{Intervals}
use d_real_cmake.Box.{Box}
use d_real_cmake.Box.Points.{Inside}
use d_real_cmake.Filter.Fits.{IsOnGrid, Knows, Reads}
use d_real_cmake.Contractor.Status.{ContractorStatus, make}
use d_real_cmake.Contractor.Combine.{Contractor}
use d_real_cmake.Contractor.Combine.Keeps.{Keeps}
use d_real_cmake.Solver.Context.Core.{delta_sat}
use d_real_cmake.Solver.Context.Core
use d_real_cmake.Solver.Evaluate.{unsat}
use d_real_cmake.Solver.Evaluate
use d_real_cmake.Solver.Icp.{check_sat}
use d_real_cmake.Solver.Icp.Sound.{Respects, check_sat_sound}
use d_real_cmake.Solver.Icp.Found.{empty-check_sat}
use d_real_cmake.Solver.Theory.{
  Tools, Filtered, refuted, filtered, filter_assertions, after_each, parts_with, assemble, search,
  judge, after_filter, theory_check,
}
use d_real_cmake.Solver.Theory.Filtering.{Holds, Kept, Kept-filter_assertions}

All-append {κ} :
    {A : Type 0} (P : A → Type κ) (xs ys : List A) → All P xs → All P ys → All P (xs ++ ys)
All-append P [] ys h k = k
All-append P (x ∷ xs) ys h k = (h.0, All-append P xs ys h.1 k)

-- What the tools promise for one point: what is made of formulas that hold at the point does not cut
-- it off or refute a box that holds it, and neither do the contractors that are made of no formula.
-- The fixpoint keeps what its contractors keep, the order loses none of them, and the halves of the
-- brancher cover the point.
pub record Careful (S : Semantics) (I : Intervals S.numbers) (T : Tools I) (p : ℕ → S.numbers.Real)
    (ρ : S.Env) : Type 0 where
  pub contractor_keeps :
      (f : Formula) (b : Box I) → Holds S ρ f → Keeps I p (T.contractor_of (f, b))
  pub integer_keeps : (b : Box I) → Keeps I p (T.integer_contractor b)
  pub further_keep :
      (b : Box I) (fs : List Formula) → All (Holds S ρ) fs → All (Keeps I p) (T.further b fs)
  pub forward_keep :
      (b : Box I) (fs : List Formula) → All (Holds S ρ) fs → All (Keeps I p) (T.forward b fs)
  pub backward_keep :
      (b : Box I) (fs : List Formula) → All (Holds S ρ) fs → All (Keeps I p) (T.backward b fs)
  pub order_keeps : (cs : List (Contractor I)) → All (Keeps I p) cs → All (Keeps I p) (T.order cs)
  pub fixpoint_keeps : (cs : List (Contractor I)) → All (Keeps I p) cs → Keeps I p (T.fixpoint cs)
  pub not_refuted :
      (f : Formula) (b : Box I)
      → Holds S ρ f
      → Inside I p b
      → ¬ ((T.evaluator_of f).evaluate b ≡ Evaluate.unsat)
  pub covers :
      (b : Box I) (bits : List Bool) (dim : ℕ) (left right : Box I)
      → T.parts.brancher b bits ≡ some (dim, left, right)
      → Inside I p b
      → Inside I p left ⊎ Inside I p right

module _ (S : Semantics) (I : Intervals S.numbers) (T : Tools I) (p : ℕ → S.numbers.Real)
    (ρ : S.Env) (C : Careful S I T p ρ) where
  map-contractors :
      (kept : List (Formula × Box I))
      → All (λ (k : Formula × Box I). Holds S ρ k.0) kept
      → All (Keeps I p) (map T.contractor_of kept)
  map-contractors [] h = tt
  map-contractors (k ∷ kept) h = (C.contractor_keeps k.0 k.1 h.0, map-contractors kept h.1)

  after_each-Keeps :
      (odes nl : List (Contractor I))
      → All (Keeps I p) odes
      → All (Keeps I p) nl
      → All (Keeps I p) (after_each I T odes nl)
  unfolding after_each
  after_each-Keeps [] nl h k = tt
  after_each-Keeps (o ∷ odes) nl h k =
      (h.0, All-append (Keeps I p) nl _ k (after_each-Keeps odes nl h.1 k))

  assemble-Keeps :
      (b : Box I) (fs : List Formula) (kept : List (Formula × Box I))
      → All (Holds S ρ) fs
      → All (λ (k : Formula × Box I). Holds S ρ k.0) kept
      → Keeps I p (assemble I T b fs kept)
  unfolding assemble
  assemble-Keeps b fs kept h k =
      let K = Keeps I p in
      let own = C.order_keeps _ (map-contractors kept k) in
      let nl = All-append K _ _ own (C.integer_keeps b, C.further_keep b fs h) in
      let forward = after_each-Keeps _ _ (C.forward_keep b fs h) nl in
      let backward = after_each-Keeps _ _ (C.backward_keep b fs h) nl in
      C.fixpoint_keeps _ (All-append K _ _ nl (All-append K _ _ forward backward))

  map-evaluators :
      (fs : List Formula) (b : Box I)
      → All (Holds S ρ) fs
      → Inside I p b
      → All (λ e. ¬ (e.evaluate b ≡ Evaluate.unsat)) (map T.evaluator_of fs)
  map-evaluators [] b h w = tt
  map-evaluators (f ∷ fs) b h w = (C.not_refuted f b h.0 w, map-evaluators fs b h.1 w)

  parts_with-Respects :
      (contractor : Contractor I) (fs : List Formula)
      → Keeps I p contractor
      → All (Holds S ρ) fs
      → Respects I (parts_with I T contractor fs) p
  unfolding parts_with
  parts_with-Respects contractor fs k h = record {
    prune_keeps = k;
    not_refuted = λ b w. map-evaluators fs b h w;
    covers = C.covers;
  }

  -- A run of the search on a box that holds the point.
  search-not-unsat :
      (fuel : ℕ) (assertions : List Formula) (contractor : Contractor I) (cs : ContractorStatus I)
      → Keeps I p contractor
      → All (Holds S ρ) assertions
      → Inside I p cs.box
      → (explanation : List Formula)
      → ¬ (search I T fuel assertions contractor cs ≡ some (Core.unsat explanation))
  unfolding search judge
  search-not-unsat fuel assertions contractor cs k h w explanation e =
      let P = parts_with I T contractor assertions in
      let ((answer, end), a, b) = bind-some (check_sat I P fuel cs) _ _ e in judged answer end a b
    where
      judged :
          (answer : Bool) (end : ContractorStatus I)
          → check_sat I (parts_with I T contractor assertions) fuel cs ≡ some (answer, end)
          → ¬ (judge I T fuel (answer, end) ≡ some (Core.unsat explanation))
      judged true end a b =
          let q = empty-check_sat I (parts_with I T contractor assertions) fuel cs end a in
          let b' = rw q at b in cc
      judged false end a b =
          let R = parts_with-Respects contractor assertions k h in
          check_sat_sound I (parts_with I T contractor assertions) p R fuel cs end a w

  after_filter-not-unsat :
      (fuel : ℕ) (assertions : List Formula) (r : Filtered I)
      → All (Holds S ρ) assertions
      → Kept S I T p ρ (some r)
      → (explanation : List Formula)
      → ¬ (after_filter I T fuel assertions r ≡ some (Core.unsat explanation))
  unfolding after_filter
  after_filter-not-unsat fuel assertions (refuted cs) h w explanation e = absurd w
  after_filter-not-unsat fuel assertions (filtered cs kept) h (w, k) explanation e =
      search-not-unsat fuel assertions _ cs (assemble-Keeps cs.box assertions kept h k) h w
        explanation e

-- The theory solver does not refute assertions that hold together at a point of the box, when no
-- coordinate of the point lies strictly between a double and its neighbour, the box has the
-- variables that the assertions bound with intervals that are not empty, and bounds of unknown
-- constants are in order. What builds contractors and evaluators is taken to be careful with the
-- point for formulas that hold there, the fixpoint, the order and the brancher with the point.
pub theory_check_sound :
    (S : Semantics) (I : Intervals S.numbers) (T : Tools I) (p : ℕ → S.numbers.Real) (ρ : S.Env)
    → IsOnGrid S.numbers p
    → Reads S p ρ
    → Careful S I T p ρ
    → (fuel : ℕ) (box : Box I) (assertions : List Formula) → All (Holds S ρ) assertions
    → All (Knows I box) assertions
    → Inside I p box
    → (explanation : List Formula)
    → ¬ (theory_check I T fuel box assertions ≡ some (Core.unsat explanation))
unfolding theory_check make
theory_check_sound S I T p ρ grid reads C fuel box [] h k w explanation e =
    search-not-unsat S I T p ρ C fuel [] (T.integer_contractor box) (make box) (C.integer_keeps box)
      tt w explanation e
theory_check_sound S I T p ρ grid reads C fuel box (f ∷ fs) h k w explanation e =
    let kept = Kept-filter_assertions S I T p ρ grid reads (f ∷ fs) (make box) h k w in
    let (r, a, b) = bind-some (filter_assertions I T (f ∷ fs) (make box)) _ _ e in
    after_filter-not-unsat S I T p ρ C fuel (f ∷ fs) r h (subst (Kept S I T p ρ) a kept) explanation
      b
