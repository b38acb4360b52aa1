-- ===== src/Solver/Brancher/Largest.antt =====
-- The dimension that is chosen.
use d_real_cmake.Prelude.{
  ℕ, zero, suc, ◌+◌, ◌≡◌, refl, ◌∙◌, ap, subst, ◌⊎◌, inl, inr, Bool, true, false, ◌&&◌, List, [],
  ◌∷◌, Option, none, some, get_or, arith, Bool-cases, ◌>>=◌,
}
use d_real_cmake.Symbolic.Syntax.{Variable, Double}
use d_real_cmake.Symbolic.Numbers.{Numbers, le_double}
use d_real_cmake.Box.Interval.{Intervals}
use d_real_cmake.Box.{Box}
use d_real_cmake.Box.Points.{Inside}
use d_real_cmake.Box.Bisect.{Integers, bisect, get_elem?}
use d_real_cmake.Box.Bisect.Covers.{Typed, bisect_covers}
use d_real_cmake.Solver.Brancher.{wider, tagged, find_max, find_max_diam, branch_largest_first}

module _ {N : Numbers} (I : Intervals N) where
  -- No candidate is bisectable and wider than a bound.
  abbrev pub NoneWider : Double → List Bool → List I.Interval → Type 0
  NoneWider d [] ivs = Unit
  NoneWider d (b ∷ bs) [] = Unit
  NoneWider d (b ∷ bs) (iv ∷ ivs) = ((b && wider I iv d) ≡ false) × NoneWider d bs ivs

  -- The position of a candidate that is bisectable and of the given width.
  abbrev pub Chosen : Double → List Bool → List I.Interval → ℕ → Type 0
  Chosen d [] ivs i = ⊥
  Chosen d (b ∷ bs) [] i = ⊥
  Chosen d (b ∷ bs) (iv ∷ ivs) zero = (b ≡ true) × (I.is_bisectable iv ≡ true) × (I.diam iv ≡ d)
  Chosen d (b ∷ bs) (iv ∷ ivs) (suc i) = Chosen d bs ivs i

  find_max_grows :
      (idx : ℕ) (bs : List Bool) (ivs : List I.Interval) (m : Double) (best : Option ℕ)
      → le_double N m (find_max I idx bs ivs m best).0 ≡ true
  unfolding find_max wider
  find_max_grows idx [] ivs m best = N.le_refl (N.real m)
  find_max_grows idx (b ∷ bs) [] m best = N.le_refl (N.real m)
  find_max_grows idx (b ∷ bs) (iv ∷ ivs) m best = elim (Bool-cases (b && wider I iv m)) [
    | inl q ↦
        rw (q, find_max)
          (N.le_trans _ _ _ (N.le_total (N.real (I.diam iv)) (N.real m) (ground arith))
            (find_max_grows (suc idx) bs ivs (I.diam iv) (some idx)))
    | inr q ↦ rw (q, find_max) (find_max_grows (suc idx) bs ivs m best)
  ]

  wider_mono :
      (iv : I.Interval) (m d : Double)
      → le_double N m d ≡ true
      → wider I iv m ≡ false
      → wider I iv d ≡ false
  unfolding wider
  wider_mono iv m d h k = ground (arith, N.le_trans (N.real (I.diam iv)) (N.real m) (N.real d))

  wider_self : (iv : I.Interval) → wider I iv (I.diam iv) ≡ false
  unfolding wider
  wider_self iv = let q = N.le_refl (N.real (I.diam iv)) in ground arith

  find_max_take :
      (idx : ℕ) (b : Bool) (bs : List Bool) (iv : I.Interval) (ivs : List I.Interval) (m : Double)
      (best : Option ℕ)
      → (b && wider I iv m) ≡ true
      → find_max I (suc idx) bs ivs (I.diam iv) (some idx)
        ≡ find_max I idx (b ∷ bs) (iv ∷ ivs) m best
  unfolding find_max
  find_max_take idx b bs iv ivs m best q = rw (q, find_max) refl

  find_max_skip :
      (idx : ℕ) (b : Bool) (bs : List Bool) (iv : I.Interval) (ivs : List I.Interval) (m : Double)
      (best : Option ℕ)
      → (b && wider I iv m) ≡ false
      → find_max I (suc idx) bs ivs m best ≡ find_max I idx (b ∷ bs) (iv ∷ ivs) m best
  unfolding find_max
  find_max_skip idx b bs iv ivs m best q = rw (q, find_max) refl

  narrow_bit : (b : Bool) (w : Bool) → w ≡ false → (b && w) ≡ false
  narrow_bit b w h = ground arith

  narrow_mono :
      (b : Bool) (iv : I.Interval) (m d : Double)
      → le_double N m d ≡ true
      → (b && wider I iv m) ≡ false
      → (b && wider I iv d) ≡ false
  narrow_mono false iv m d h k = refl
  narrow_mono true iv m d h k = wider_mono iv m d h k

  find_max-NoneWider :
      (idx : ℕ) (bs : List Bool) (ivs : List I.Interval) (m : Double) (best : Option ℕ)
      → NoneWider (find_max I idx bs ivs m best).0 bs ivs
  unfolding find_max
  find_max-NoneWider idx [] ivs m best = tt
  find_max-NoneWider idx (b ∷ bs) [] m best = tt
  find_max-NoneWider idx (b ∷ bs) (iv ∷ ivs) m best = elim (Bool-cases (b && wider I iv m)) [
    | inl q ↦
        let top = find_max_grows (suc idx) bs ivs (I.diam iv) (some idx) in
        let small = wider_mono iv (I.diam iv) _ top (wider_self iv) in
        subst (λ (r : Double × Option ℕ). NoneWider r.0 (b ∷ bs) (iv ∷ ivs))
          (find_max_take idx b bs iv ivs m best q)
          (narrow_bit b _ small, find_max-NoneWider (suc idx) bs ivs (I.diam iv) (some idx))
    | inr q ↦
        let top = find_max_grows (suc idx) bs ivs m best in
        subst (λ (r : Double × Option ℕ). NoneWider r.0 (b ∷ bs) (iv ∷ ivs))
          (find_max_skip idx b bs iv ivs m best q)
          (narrow_mono b iv m _ top q, find_max-NoneWider (suc idx) bs ivs m best)
  ]

  -- Nothing was chosen among these, or a position among them was.
  find_max-Chosen :
      (idx : ℕ) (bs : List Bool) (ivs : List I.Interval) (m : Double) (best : Option ℕ)
      → (find_max I idx bs ivs m best ≡ (m, best))
        ⊎ ((i : ℕ) × ((find_max I idx bs ivs m best).1 ≡ some (idx + i))
            × Chosen (find_max I idx bs ivs m best).0 bs ivs i)
  unfolding find_max wider
  find_max-Chosen idx [] ivs m best = inl refl
  find_max-Chosen idx (b ∷ bs) [] m best = inl refl
  find_max-Chosen idx (b ∷ bs) (iv ∷ ivs) m best = elim (Bool-cases (b && wider I iv m)) [
    | inl q ↦ elim (find_max-Chosen (suc idx) bs ivs (I.diam iv) (some idx)) [
      | inl e ↦ rw (q, find_max) (rw e (inr (0, ap some (omega arith), ground arith)))
      | inr (i, e, c) ↦ rw (q, find_max) (inr (suc i, e ∙ ap some (omega arith), c))
    ]
    | inr q ↦ elim (find_max-Chosen (suc idx) bs ivs m best) [
      | inl e ↦ rw (q, find_max) (inl e)
      | inr (i, e, c) ↦ rw (q, find_max) (inr (suc i, e ∙ ap some (omega arith), c))
    ]
  ]

-- The dimension that is found is a candidate and bisectable, the number beside it is its width, and
-- no bisectable candidate is wider. If none is found, no bisectable candidate is wider than 0.
pub find_max_diam_largest :
    {N : Numbers} (I : Intervals N) (box : Box I) (active_set : List Bool)
    → NoneWider I (find_max_diam I box active_set).0 active_set box.values
      × ((find_max_diam I box active_set ≡ (0, none))
          ⊎ ((i : ℕ) × ((find_max_diam I box active_set).1 ≡ some i)
              × Chosen I (find_max_diam I box active_set).0 active_set box.values i))
unfolding find_max_diam
find_max_diam_largest I box bits = (
  find_max-NoneWider I 0 bits box.values 0 none,
  elim (find_max-Chosen I 0 bits box.values 0 none) [
    | inl e ↦ inl e
    | inr (i, e, c) ↦ inr (i, e ∙ ap some (omega arith), c)
  ],
)

-- A box that is branched on the widest candidate loses no point: the two boxes that come back
-- hold every point whose integer and binary coordinates are integers.
pub branch_largest_first_covers :
    {N : Numbers} (I : Intervals N) (Z : Integers N) (p : ℕ → N.Real) (ratio : Double)
    (box l r : Box I) (bits : List Bool) (dim : ℕ)
    → branch_largest_first I Z ratio box bits ≡ some (some (dim, l, r))
    → ((v : Variable) → get_elem? box.variables dim ≡ some v → Typed Z v.kind (p v.id))
    → I.is_empty (get_or box.values dim I.nothing) ≡ false
    → Inside I p box
    → Inside I p l ⊎ Inside I p r
unfolding branch_largest_first
branch_largest_first_covers I Z p ratio box l r bits dim e typed full w =
    step (find_max_diam I box bits).1 refl
  where
    halved :
        (i : ℕ) (o : Option (Box I × Box I))
        → bisect I Z box i ratio ≡ o
        → (o >>= tagged I i) ≡ some (some (dim, l, r))
        → Inside I p l ⊎ Inside I p r
    halved i none q k = cc
    halved i (some (a, b)) q k =
        let same : i ≡ dim = cc in
        let q' : bisect I Z box dim ratio ≡ some (l, r) = cc in
        bisect_covers I Z p box l r dim ratio q' typed full w

    step : (o : Option ℕ) → (find_max_diam I box bits).1 ≡ o → Inside I p l ⊎ Inside I p r
    step none q = let e' = rw (q, branch_largest_first) at e in cc
    step (some i) q = halved i _ refl (rw (q, branch_largest_first) at e)
