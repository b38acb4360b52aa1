-- ===== src/Filter/Updates.antt =====
-- What each update of a bound does to the points of a box.
use d_real_cmake.Prelude.{
  ℕ, ◌≡◌, sym, ◌∙◌, ap, inl, inr, Bool, true, false, ◌&&◌, arith, Bool-cases, and-true, and_left,
  and_right,
}
use d_real_cmake.Symbolic.Syntax.{Variable, Double}
use d_real_cmake.Symbolic.Numbers.{Numbers, le_double, eq_real}
use d_real_cmake.Box.Interval.{Intervals}
use d_real_cmake.Box.{Box, interval, set_interval, set_empty, has_variable}
use d_real_cmake.Box.Points.{
  Inside, set_empty-set_interval, mem-interval, Inside-set_interval, set_interval-Inside,
  not-Inside-set_empty,
}
use d_real_cmake.Filter.{
  update_bounds_via_equality, update_bounds_via_interval, update_lower_bound, update_upper_bound,
}

-- An update that leaves exactly the points whose coordinate satisfies a test.
pub record Restricts {N : Numbers} (I : Intervals N) (p : ℕ → N.Real) (x : Variable) (box : Box I)
    (test : Bool) (new : Box I) : Type 0 where
  pub keeps : Inside I p box → test ≡ true → Inside I p new
  pub within : Inside I p new → Inside I p box
  pub only : Inside I p new → test ≡ true

module _ {N : Numbers} (I : Intervals N) (p : ℕ → N.Real) (box : Box I) (x : Variable)
    (has : has_variable box.variables x ≡ true) where
  abbrev old : Bool
  old = I.mem (interval I box x) (p x.id)

  Restricts-same : (test : Bool) → (old ≡ true → test ≡ true) → Restricts I p x box test box
  Restricts-same test h = record {
    keeps = λ w t. w;
    within = λ w. w;
    only = λ w. h (mem-interval I p box x has w);
  }

  Restricts-to :
      (test : Bool) (j : I.Interval)
      → I.mem j (p x.id) ≡ (old && test)
      → Restricts I p x box test (set_interval I box x j)
  Restricts-to test j h = record {
    keeps = λ w t.
        Inside-set_interval I p box x j has (h ∙ and-true _ _ (mem-interval I p box x has w) t) w;
    within = λ w.
        let (m, back) = set_interval-Inside I p box x j has w in back (and_left _ _ (sym h ∙ m));
    only =
        λ w. let (m, back) = set_interval-Inside I p box x j has w in and_right old _ (sym h ∙ m);
  }

  Restricts-none :
      (test : Bool) → (old ≡ true → test ≡ true → ⊥) → Restricts I p x box test (set_empty I box)
  Restricts-none test h = record {
    keeps = λ w t. absurd (h (mem-interval I p box x has w) t);
    within = λ w. absurd (not-Inside-set_empty I p box x has w);
    only = λ w. absurd (not-Inside-set_empty I p box x has w);
  }

-- Facts about a total order, as equations of its test.
module _ (N : Numbers) where
  le_flip : (a b : N.Real) → N.le a b ≡ false → N.le b a ≡ true
  le_flip = N.le_total

  -- `[a, b]` cut from below at `v`, where `a ≤ v`.
  cut_below :
      (a b v x : N.Real)
      → N.le v a ≡ false
      → (N.le v x && N.le x b) ≡ ((N.le a x && N.le x b) && N.le v x)
  cut_below a b v x h = ground (arith, N.le_total v a, N.le_trans a v x)

  cut_above :
      (a b v x : N.Real)
      → N.le b v ≡ false
      → (N.le a x && N.le x v) ≡ ((N.le a x && N.le x b) && N.le x v)
  cut_above a b v x h = ground (arith, N.le_total b v, N.le_trans x v b)

  pinned :
      (a b v x : N.Real)
      → N.le a v ≡ true
      → N.le v b ≡ true
      → (N.le v x && N.le x v) ≡ ((N.le a x && N.le x b) && (N.le x v && N.le v x))
  pinned a b v x h k = ground (arith, N.le_trans a v x, N.le_trans x v b)

module _ {N : Numbers} (I : Intervals N) (p : ℕ → N.Real) (box : Box I) (x : Variable)
    (has : has_variable box.variables x ≡ true) (full : I.is_empty (interval I box x) ≡ false) where
  abbrev low : N.Real
  low = N.real (I.lb (interval I box x))

  abbrev high : N.Real
  high = N.real (I.ub (interval I box x))

  old_bounds : I.mem (interval I box x) (p x.id) ≡ (N.le low (p x.id) && N.le (p x.id) high)
  old_bounds = I.mem-bounds (interval I box x) (p x.id) full

  pub update_lower_bound-Restricts :
      (v : Double) → Restricts I p x box (N.le (N.real v) (p x.id)) (update_lower_bound I x v box).1
  unfolding update_lower_bound
  update_lower_bound-Restricts v = elim (Bool-cases (N.le (N.real v) low)) [
    | inl h ↦ rw h (
        Restricts-same I p box x has _
          λ m. let m' = sym old_bounds ∙ m in ground (arith, N.le_trans (N.real v) low (p x.id)))
    | inr h ↦ elim (Bool-cases (N.le (N.real v) high)) [
      | inl k ↦
          rw (h, k)
            (Restricts-to I p box x has _ _ (
              I.mem-of_bounds v _ (p x.id) k
              ∙ cut_below N low high (N.real v) (p x.id) h
              ∙ ap (λ b. b && N.le (N.real v) (p x.id)) (sym old_bounds)))
      | inr k ↦
          rw (h, k)
            (Restricts-none I p box x has _ λ m t.
              let m' = sym old_bounds ∙ m in ground (arith, N.le_trans (N.real v) (p x.id) high))
    ]
  ]

  pub update_upper_bound-Restricts :
      (v : Double) → Restricts I p x box (N.le (p x.id) (N.real v)) (update_upper_bound I x v box).1
  unfolding update_upper_bound
  update_upper_bound-Restricts v = elim (Bool-cases (N.le high (N.real v))) [
    | inl h ↦ rw h (
        Restricts-same I p box x has _
          λ m. let m' = sym old_bounds ∙ m in ground (arith, N.le_trans (p x.id) high (N.real v)))
    | inr h ↦ elim (Bool-cases (N.le low (N.real v))) [
      | inl k ↦
          rw (h, k)
            (Restricts-to I p box x has _ _ (
              I.mem-of_bounds _ v (p x.id) k
              ∙ cut_above N low high (N.real v) (p x.id) h
              ∙ ap (λ b. b && N.le (p x.id) (N.real v)) (sym old_bounds)))
      | inr k ↦
          rw (h, k)
            (Restricts-none I p box x has _ λ m t.
              let m' = sym old_bounds ∙ m in ground (arith, N.le_trans low (p x.id) (N.real v)))
    ]
  ]

  inner :
      (v : Double) → I.contains (interval I box x) v ≡ (N.le low (N.real v) && N.le (N.real v) high)
  inner v = I.contains_lem (interval I box x) v ∙ I.mem-bounds (interval I box x) (N.real v) full

  pub update_bounds_via_equality-Restricts :
      (v : Double)
      → Restricts I p x box
          (N.le (p x.id) (N.real v) && N.le (N.real v) (p x.id))
          (update_bounds_via_equality I x v box).1
  unfolding update_bounds_via_equality
  update_bounds_via_equality-Restricts v =
      elim (Bool-cases (eq_real N low high && eq_real N low (N.real v))) [
        | inl h ↦ rw h (
            Restricts-same I p box x has _ λ m.
              let m' = sym old_bounds ∙ m in
              ground (
                arith,
                N.le_trans high low (N.real v),
                N.le_trans (p x.id) high (N.real v),
                N.le_trans (N.real v) low (p x.id),
              ))
        | inr h ↦ elim (Bool-cases (I.contains (interval I box x) v)) [
          | inl k ↦
              rw (h, k)
                (Restricts-to I p box x has _ _ (
                  let k' = sym (inner v) ∙ k in
                  I.mem-of_point v (p x.id)
                  ∙ pinned N low high (N.real v) (p x.id) (and_left _ _ k')
                      (and_right (N.le low (N.real v)) _ k')
                  ∙ ap (λ b. b && (N.le (p x.id) (N.real v) && N.le (N.real v) (p x.id)))
                      (sym old_bounds)))
          | inr k ↦
              rw (h, k)
                (Restricts-none I p box x has _ λ m t.
                  let m' = sym old_bounds ∙ m in
                  let k' = sym (inner v) ∙ k in
                  ground (
                    arith,
                    N.le_trans low (p x.id) (N.real v),
                    N.le_trans (N.real v) (p x.id) high,
                  ))
        ]
      ]

  in_both :
      (a b : Double)
      → le_double N a b ≡ true
      → I.mem (I.intersect (interval I box x) (I.of_bounds a b)) (p x.id) ≡ (
          I.mem (interval I box x) (p x.id)
          && (N.le (N.real a) (p x.id) && N.le (p x.id) (N.real b)))
  in_both a b ab =
      I.mem-intersect _ _ (p x.id)
      ∙ ap (λ t. I.mem (interval I box x) (p x.id) && t) (I.mem-of_bounds a b (p x.id) ab)

  pub update_bounds_via_interval-Restricts :
      (a b : Double)
      → le_double N a b ≡ true
      → Restricts I p x box
          (N.le (N.real a) (p x.id) && N.le (p x.id) (N.real b))
          (update_bounds_via_interval I x a b box).1
  unfolding update_bounds_via_interval
  update_bounds_via_interval-Restricts a b ab =
      elim (Bool-cases (eq_real N low (N.real a) && eq_real N high (N.real b))) [
        | inl h ↦ rw h (
            Restricts-same I p box x has _ λ m.
              let m' = sym old_bounds ∙ m in
              ground
                (arith, N.le_trans (N.real a) low (p x.id), N.le_trans (p x.id) high (N.real b)))
        | inr h ↦
            elim (Bool-cases (I.is_empty (I.intersect (interval I box x) (I.of_bounds a b)))) [
              | inl k ↦
                  rw (h, k, set_empty-set_interval I box x _)
                    (Restricts-none I p box x has _ λ m t.
                      let k' = I.mem-is_empty _ (p x.id) k in
                      let e = in_both a b ab in ground arith)
              | inr k ↦ rw (h, k) (Restricts-to I p box x has _ _ (in_both a b ab))
            ]
      ]
