-- ===== src/Contractor/Integral/Keeps.antt =====
-- Rounding the bounds loses no point with integral coordinates.
use d_real_cmake.Prelude.{
  ℕ, suc, ◌+◌, ◌≡◌, refl, sym, ◌∙◌, inl, inr, true, false, not, ◌||◌, ◌&&◌, List, [], ◌∷◌, some,
  get_or, All, arith, Bool-cases, and_left, and_right, and-true, subst,
}
use d_real_cmake.Symbolic.Syntax.{Variable, VariableType, continuous, integer, binary, boolean}
use d_real_cmake.Symbolic.Numbers.{Numbers, le_double}
use d_real_cmake.Box.Interval.{Intervals}
use d_real_cmake.Box.Points.{Inside}
use d_real_cmake.Box.Bisect.{Integers, get_elem?, set_at}
use d_real_cmake.Box.Bisect.Covers.{Typed, mem_at, Within-at}
use d_real_cmake.Contractor.Status.{ContractorStatus}
use d_real_cmake.Contractor.Integral.{
  is_integral, indexes_from, int_indexes, round_at, round_all, prune,
}

module _ {N : Numbers} (I : Intervals N) (Z : Integers N) (p : ℕ → N.Real) where
  -- The index is that of a variable whose value is an integer.
  abbrev HoldsInteger : List Variable → ℕ → Type 0
  HoldsInteger vs idx = (v : Variable) × (get_elem? vs idx ≡ some v) × Z.IsInteger (p v.id)

  typed_integral :
      (k : VariableType) (x : N.Real) → is_integral k ≡ true → Typed Z k x → Z.IsInteger x
  unfolding is_integral
  typed_integral continuous x e t = cc
  typed_integral integer x e t = t
  typed_integral binary x e t = t
  typed_integral boolean x e t = cc

  indexes_hold :
      (all vs : List Variable) (i : ℕ)
      → ((j : ℕ) (v : Variable) → get_elem? vs j ≡ some v → get_elem? all (i + j) ≡ some v)
      → All (λ v. Typed Z v.kind (p v.id)) vs
      → All (HoldsInteger all) (indexes_from i vs)
  unfolding indexes_from get_elem?
  indexes_hold all [] i at t = tt
  indexes_hold all (v ∷ vs) i at t =
      let rest =
        indexes_hold all vs (suc i)
          (λ j u e. subst (λ k. get_elem? all k ≡ some u) (omega arith) (at (suc j) u e)) t.1 in
      elim (Bool-cases (is_integral v.kind)) [
        | inl e ↦
            let here : get_elem? all i ≡ some v =
              subst (λ k. get_elem? all k ≡ some v) (omega arith) (at 0 v refl) in
            rw e ((v, here, typed_integral v.kind (p v.id) e t.0), rest)
        | inr e ↦ rw e rest
      ]

  module _ (cs : ContractorStatus I) (idx : ℕ) (h : HoldsInteger cs.box.variables idx)
      (w : Inside I p cs.box) where
    abbrev iv : I.Interval
    iv = get_or cs.box.values idx I.nothing

    rounded_holds :
        I.is_empty iv ≡ false
        → (N.le (N.real (Z.ceil (I.lb iv))) (p h.0.id)
            && N.le (p h.0.id) (N.real (Z.floor (I.ub iv))))
          ≡ true
    rounded_holds full =
        let x = p h.0.id in
        let m =
          sym (I.mem-bounds iv x full) ∙ mem_at I p cs.box.variables cs.box.values idx h.0 h.1 w in
        and-true _ _ (Z.ceil_lem (I.lb iv) x h.2 (and_left _ (N.le x (N.real (I.ub iv))) m))
          (Z.floor_lem (I.ub iv) x h.2 (and_right (N.le (N.real (I.lb iv)) x) _ m))

    rounded_ordered :
        I.is_empty iv ≡ false → le_double N (Z.ceil (I.lb iv)) (Z.floor (I.ub iv)) ≡ true
    rounded_ordered full =
        let m = rounded_holds full in
        N.le_trans _ (p h.0.id) _ (and_left _ (N.le (p h.0.id) (N.real (Z.floor (I.ub iv)))) m)
          (and_right (N.le (N.real (Z.ceil (I.lb iv))) (p h.0.id)) _ m)

    -- The body keeps the point and does not return.
    round_at_keeps :
        ((round_at I Z idx cs).0 ≡ false)
        × Inside I p (round_at I Z idx cs).1.box
        × ((round_at I Z idx cs).1.box.variables ≡ cs.box.variables)
    unfolding round_at set_at
    round_at_keeps = elim (Bool-cases (I.is_empty iv)) [
      | inl e ↦ rw e (refl, w, refl)
      | inr e ↦
          let ordered = rounded_ordered e in
          let m =
            I.mem-of_bounds (Z.ceil (I.lb iv)) (Z.floor (I.ub iv)) (p h.0.id) ordered
            ∙ rounded_holds e in
          elim (Bool-cases (not (Z.is_integer (I.lb iv)) || not (Z.is_integer (I.ub iv)))) [
            | inl q ↦
                rw (e, q, ordered)
                  (refl, Within-at I p cs.box.variables cs.box.values idx h.0 _ h.1 m w, refl)
            | inr q ↦ rw (e, q) (refl, w, refl)
          ]
    ]

  round_all_keeps :
      (idxs : List ℕ) (cs : ContractorStatus I)
      → All (HoldsInteger cs.box.variables) idxs
      → Inside I p cs.box
      → Inside I p (round_all I Z idxs cs).box
  unfolding round_all
  round_all_keeps [] cs h w = w
  round_all_keeps (idx ∷ rest) cs h w =
      let (go, w', same) = round_at_keeps cs idx h.0 w in
      rw go (
        round_all_keeps rest (round_at I Z idx cs).1
          (subst (λ vs. All (HoldsInteger vs) rest) (sym same) h.1) w')

-- The integer contractor that is built for a box keeps every point of the box whose integer and
-- binary coordinates are integers. In particular it never empties a box that holds such a point.
pub prune_integral_keeps :
    {N : Numbers} (I : Intervals N) (Z : Integers N) (p : ℕ → N.Real) (cs : ContractorStatus I)
    → All (λ v. Typed Z v.kind (p v.id)) cs.box.variables
    → Inside I p cs.box
    → Inside I p (prune I Z cs.box.variables cs).box
unfolding prune int_indexes
prune_integral_keeps I Z p cs t w =
    round_all_keeps I Z p (indexes_from 0 cs.box.variables) cs
      (indexes_hold I Z p cs.box.variables cs.box.variables 0
        (λ j v e. subst (λ k. get_elem? cs.box.variables k ≡ some v) (omega arith) e) t)
      w
