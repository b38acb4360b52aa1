-- ===== src/Box/Bisect/Covers.antt =====
-- The two halves of a bisected box hold all its points.
use d_real_cmake.Prelude.{
  ℕ, zero, suc, ◌≡◌, sym, ◌∙◌, subst, ◌⊎◌, inl, inr, Bool, true, false, ◌&&◌, List, [], ◌∷◌, some,
  get_or, set, Bool-cases, Option-cases, and-true, and_left, and_right,
}
use d_real_cmake.Symbolic.Syntax.{
  Variable, VariableType, continuous, integer, binary, boolean, Double,
}
use d_real_cmake.Symbolic.Numbers.{Numbers, le_double}
use d_real_cmake.Box.Interval.{Intervals}
use d_real_cmake.Box.{Box}
use d_real_cmake.Box.Points.{Within, Inside}
use d_real_cmake.Box.Bisect.{
  Integers, get_elem?, set_at, bisect_continuous, bisect_int, bisect_kind, bisect,
}

-- A value of an integer or binary variable is an integer.
abbrev pub Typed : {N : Numbers} → Integers N → VariableType → N.Real → Type 0
Typed Z integer x = Z.IsInteger x
Typed Z binary x = Z.IsInteger x
Typed Z continuous x = Unit
Typed Z boolean x = Unit

module _ {N : Numbers} (I : Intervals N) (p : ℕ → N.Real) where
  pub mem_at :
      (vs : List Variable) (is' : List I.Interval) (i : ℕ) (v : Variable)
      → get_elem? vs i ≡ some v
      → Within I p vs is'
      → I.mem (get_or is' i I.nothing) (p v.id) ≡ true
  unfolding get_elem?
  mem_at [] is' i v e w = cc
  mem_at (u ∷ vs) [] i v e w = absurd w
  mem_at (u ∷ vs) (j ∷ is') zero v e w =
      let q : u ≡ v = cc in subst (λ (t : Variable). I.mem j (p t.id) ≡ true) q w.0
  mem_at (u ∷ vs) (j ∷ is') (suc i) v e w = mem_at vs is' i v e w.1

  pub Within-at :
      (vs : List Variable) (is' : List I.Interval) (i : ℕ) (v : Variable) (j : I.Interval)
      → get_elem? vs i ≡ some v
      → I.mem j (p v.id) ≡ true
      → Within I p vs is'
      → Within I p vs (set is' i j)
  unfolding get_elem?
  Within-at [] is' i v j e m w = cc
  Within-at (u ∷ vs) [] i v j e m w = absurd w
  Within-at (u ∷ vs) (k ∷ is') zero v j e m w =
      let q : v ≡ u = cc in (subst (λ (t : Variable). I.mem j (p t.id) ≡ true) q m, w.1)
  Within-at (u ∷ vs) (k ∷ is') (suc i) v j e m w = (w.0, Within-at vs is' i v j e m w.1)

  module _ (box : Box I) (i : ℕ) (v : Variable) (at : get_elem? box.variables i ≡ some v)
      (w : Inside I p box) where
    abbrev intv : I.Interval
    intv = get_or box.values i I.nothing

    Inside-at : (j : I.Interval) → I.mem j (p v.id) ≡ true → Inside I p (set_at I box i j)
    unfolding set_at
    Inside-at j m = Within-at box.variables box.values i v j at m w

    covers_continuous :
        (ratio : Double)
        → I.is_bisectable intv ≡ true
        → Inside I p (bisect_continuous I box i ratio).0
          ⊎ Inside I p (bisect_continuous I box i ratio).1
    unfolding bisect_continuous
    covers_continuous ratio b =
        elim (I.mem-bisect intv ratio (p v.id) b (mem_at box.variables box.values i v at w)) [
          | inl m ↦ inl (Inside-at _ m)
          | inr m ↦ inr (Inside-at _ m)
        ]

    abbrev ordered : Integers N → Bool
    ordered Z =
        let lb = Z.ceil (I.lb intv) in
        let ub = Z.floor (I.ub intv) in
        let mid_floor = Z.floor (I.mid intv) in
        le_double N (I.lb intv) lb
        && (le_double N lb mid_floor
            && (le_double N (Z.successor mid_floor) ub && le_double N ub (I.ub intv)))

    covers_int :
        (Z : Integers N) (l r : Box I)
        → Z.IsInteger (p v.id)
        → I.is_empty intv ≡ false
        → bisect_int I Z box i ≡ some (l, r)
        → Inside I p l ⊎ Inside I p r
    unfolding bisect_int
    covers_int Z l r int full e =
        let x = p v.id in
        let lb = Z.ceil (I.lb intv) in
        let ub = Z.floor (I.ub intv) in
        let cut = Z.floor (I.mid intv) in
        let m = sym (I.mem-bounds intv x full) ∙ mem_at box.variables box.values i v at w in
        let above : N.le (N.real lb) x ≡ true =
          Z.ceil_lem (I.lb intv) x int (and_left _ (N.le x (N.real (I.ub intv))) m) in
        let under : N.le x (N.real ub) ≡ true =
          Z.floor_lem (I.ub intv) x int (and_right (N.le (N.real (I.lb intv)) x) _ m) in
        elim (Bool-cases (ordered Z)) [
          | inl g ↦
              let e' = rw g at e in
              let left_is : set_at I box i (I.of_bounds lb cut) ≡ l = cc in
              let right_is : set_at I box i (I.of_bounds (Z.successor cut) ub) ≡ r = cc in
              let g' = and_right (le_double N (I.lb intv) lb) _ g in
              let ab = and_left (le_double N lb cut) _ g' in
              let cd =
                and_left (le_double N (Z.successor cut) ub) _
                  (and_right (le_double N lb cut) _ g') in
              elim (Bool-cases (N.le x (N.real cut))) [
                | inl h ↦ inl (
                    subst (Inside I p) left_is
                      (Inside-at _ (I.mem-of_bounds lb cut x ab ∙ and-true _ _ above h)))
                | inr h ↦ inr (
                    subst (Inside I p) right_is (
                      Inside-at _ (
                        I.mem-of_bounds (Z.successor cut) ub x cd
                        ∙ and-true _ _ (Z.successor_lem (I.mid intv) x int h) under)))
              ]
          | inr g ↦ let e' = rw g at e in cc
        ]

    covers_kind :
        (Z : Integers N) (t : VariableType) (ratio : Double) (l r : Box I)
        → Typed Z t (p v.id)
        → I.is_bisectable intv ≡ true
        → I.is_empty intv ≡ false
        → bisect_kind I Z t box i ratio ≡ some (l, r)
        → Inside I p l ⊎ Inside I p r
    unfolding bisect_kind
    covers_kind Z continuous ratio l r t b full e =
        let halves = bisect_continuous I box i ratio in
        let p0 : halves.0 ≡ l = cc in
        let p1 : halves.1 ≡ r = cc in
        elim (covers_continuous ratio b) [
          | inl h ↦ inl (subst (Inside I p) p0 h)
          | inr h ↦ inr (subst (Inside I p) p1 h)
        ]
    covers_kind Z integer ratio l r t b full e = covers_int Z l r t full e
    covers_kind Z binary ratio l r t b full e = covers_int Z l r t full e
    covers_kind Z boolean ratio l r t b full e = cc

-- If a box is bisected, every point of it is in one of the two halves. The coordinates of integer
-- and binary variables are taken to be integers, and the interval that is cut not to be empty.
pub bisect_covers :
    {N : Numbers} (I : Intervals N) (Z : Integers N) (p : ℕ → N.Real) (box l r : Box I) (i : ℕ)
    (ratio : Double)
    → bisect I Z box i ratio ≡ some (l, r)
    → ((v : Variable) → get_elem? box.variables i ≡ some v → Typed Z v.kind (p v.id))
    → I.is_empty (get_or box.values i I.nothing) ≡ false
    → Inside I p box
    → Inside I p l ⊎ Inside I p r
unfolding bisect
bisect_covers I Z p box l r i ratio e typed full w =
    elim (Bool-cases (I.is_bisectable (get_or box.values i I.nothing))) [
      | inl b ↦ elim (Option-cases (get_elem? box.variables i)) [
        | inl n ↦ let e' = rw (b, n) at e in cc
        | inr (v, n) ↦
            covers_kind I p box i v n w Z v.kind ratio l r (typed v n) b full (rw (b, n) at e)
      ]
      | inr b ↦ let e' = rw b at e in cc
    ]
