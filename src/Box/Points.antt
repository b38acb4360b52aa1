-- ===== src/Box/Points.antt =====
-- The points of a box, and what writing one interval does to them.
use d_real_cmake.Prelude.{
  ℕ, zero, suc, ◌<◌, length, ◌≡◌, refl, sym, subst, ap, inl, inr, true, false, List, [], ◌∷◌, map,
  some, ◌==◌, ==_iff, get_or, set, arith, Bool-cases,
}
use d_real_cmake.Symbolic.Syntax.{Variable}
use d_real_cmake.Symbolic.Numbers.{Numbers}
use d_real_cmake.Box.Interval.{Intervals}
use d_real_cmake.Box.{
  Box, position, index, has_variable, interval, set_interval, set_empty, first_is_empty, empty,
}

position-some :
    (vs : List Variable) (v : Variable)
    → has_variable vs v ≡ true
    → (i : ℕ) × (position vs v ≡ some i)
unfolding has_variable position
position-some [] v h = cc
position-some (u ∷ vs) v h = elim (Bool-cases (u.id == v.id)) [
  | inl e ↦ (0, rw e refl)
  | inr e ↦ let (i, q) = position-some vs v (rw e at h) in (suc i, rw e (rw q refl))
]

pub index_here :
    (u : Variable) (vs : List Variable) (v : Variable)
    → (u.id == v.id) ≡ true
    → index (u ∷ vs) v ≡ 0
unfolding index position
index_here u vs v e = rw e refl

pub index_there :
    (u : Variable) (vs : List Variable) (v : Variable)
    → (u.id == v.id) ≡ false
    → has_variable (u ∷ vs) v ≡ true
    → (has_variable vs v ≡ true) × (index (u ∷ vs) v ≡ suc (index vs v))
unfolding has_variable index position
index_there u vs v e h =
    let h' : has_variable vs v ≡ true = rw e at h in
    let (i, q) = position-some vs v h' in (h', rw e (rw q refl))

pub index-lt :
    (vs : List Variable) (v : Variable) → has_variable vs v ≡ true → index vs v < length vs
unfolding has_variable
index-lt [] v h = cc
index-lt (u ∷ vs) v h = elim (Bool-cases (u.id == v.id)) [
  | inl e ↦ rw (index_here u vs v e) (omega arith)
  | inr e ↦ let (h', q) = index_there u vs v e h in rw q (omega (arith, index-lt vs v h'))
]

map-set {ℓ} :
    {A : Type ℓ} (a : A) (xs : List A) (i : ℕ) (x : A) → map (λ _. a) (set xs i x) ≡ map (λ _. a) xs
map-set a [] i x = refl
map-set a (y ∷ ys) zero x = refl
map-set a (y ∷ ys) (suc i) x = ap (λ t. a ∷ t) (map-set a ys i x)

pub set_empty-set_interval :
    {N : Numbers} (I : Intervals N) (box : Box I) (v : Variable) (j : I.Interval)
    → set_empty I (set_interval I box v j) ≡ set_empty I box
unfolding set_empty set_interval
set_empty-set_interval I box v j = rw (map-set I.nothing box.values (index box.variables v) j)

module _ {N : Numbers} (I : Intervals N) (p : ℕ → N.Real) where
  -- Every coordinate lies in the interval of its variable.
  abbrev pub Within : List Variable → List I.Interval → Type 0
  Within [] [] = Unit
  Within (v ∷ vs) (i ∷ is') = (I.mem i (p v.id) ≡ true) × Within vs is'
  Within _ _ = ⊥

  abbrev pub Inside : Box I → Type 0
  Inside box = Within box.variables box.values

  mem-get_or :
      (vs : List Variable) (is' : List I.Interval) (v : Variable)
      → has_variable vs v ≡ true
      → Within vs is'
      → I.mem (get_or is' (index vs v) I.nothing) (p v.id) ≡ true
  unfolding has_variable
  mem-get_or [] is' v h w = cc
  mem-get_or (u ∷ vs) [] v h w = absurd w
  mem-get_or (u ∷ vs) (i ∷ is') v h w = elim (Bool-cases (u.id == v.id)) [
    | inl e ↦ rw (index_here u vs v e) (subst (λ k. I.mem i (p k) ≡ true) ((==_iff _ _).0 e) w.0)
    | inr e ↦ let (h', q) = index_there u vs v e h in rw q (mem-get_or vs is' v h' w.1)
  ]

  -- Writing an interval that holds the coordinate keeps a point inside.
  Within-set :
      (vs : List Variable) (is' : List I.Interval) (v : Variable) (j : I.Interval)
      → has_variable vs v ≡ true
      → I.mem j (p v.id) ≡ true
      → Within vs is'
      → Within vs (set is' (index vs v) j)
  unfolding has_variable
  Within-set [] is' v j h m w = cc
  Within-set (u ∷ vs) [] v j h m w = absurd w
  Within-set (u ∷ vs) (i ∷ is') v j h m w = elim (Bool-cases (u.id == v.id)) [
    | inl e ↦
        rw (index_here u vs v e) (subst (λ k. I.mem j (p k) ≡ true) (sym ((==_iff _ _).0 e)) m, w.1)
    | inr e ↦ let (h', q) = index_there u vs v e h in rw q (w.0, Within-set vs is' v j h' m w.1)
  ]

  -- A point inside after a write has its coordinate in the interval written, and was inside before
  -- if its coordinate was in the interval that was overwritten.
  set-Within :
      (vs : List Variable) (is' : List I.Interval) (v : Variable) (j : I.Interval)
      → has_variable vs v ≡ true
      → Within vs (set is' (index vs v) j)
      → (I.mem j (p v.id) ≡ true)
        × (I.mem (get_or is' (index vs v) I.nothing) (p v.id) ≡ true → Within vs is')
  unfolding has_variable
  set-Within [] is' v j h w = cc
  set-Within (u ∷ vs) [] v j h w = absurd w
  set-Within (u ∷ vs) (i ∷ is') v j h w = elim (Bool-cases (u.id == v.id)) [
    | inl e ↦ rw (index_here u vs v e) (here ((==_iff _ _).0 e) (rw (index_here u vs v e) at w))
    | inr e ↦
        let (h', q) = index_there u vs v e h in
        let w' : Within (u ∷ vs) (set (i ∷ is') (suc (index vs v)) j) = rw q at w in
        let (m, back) = set-Within vs is' v j h' w'.1 in rw q (m, λ k. (w'.0, back k))
  ]
    where
      here :
          u.id ≡ v.id
          → Within (u ∷ vs) (j ∷ is')
          → (I.mem j (p v.id) ≡ true) × (I.mem i (p v.id) ≡ true → Within (u ∷ vs) (i ∷ is'))
      here e w' = (
        subst (λ k. I.mem j (p k) ≡ true) e w'.0,
        λ m. (subst (λ k. I.mem i (p k) ≡ true) (sym e) m, w'.1),
      )

  not-Within-nothing :
      (vs : List Variable) (is' : List I.Interval) (v : Variable)
      → has_variable vs v ≡ true
      → Within vs (map (λ _. I.nothing) is')
      → ⊥
  unfolding has_variable
  not-Within-nothing [] is' v h w = cc
  not-Within-nothing (u ∷ vs) [] v h w = absurd w
  not-Within-nothing (u ∷ vs) (i ∷ is') v h w = let q = I.mem-nothing (p u.id) in cc

  -- The same of a box.
  pub mem-interval :
      (box : Box I) (v : Variable)
      → has_variable box.variables v ≡ true
      → Inside box
      → I.mem (interval I box v) (p v.id) ≡ true
  unfolding interval
  mem-interval box v h w = mem-get_or box.variables box.values v h w

  pub Inside-set_interval :
      (box : Box I) (v : Variable) (j : I.Interval)
      → has_variable box.variables v ≡ true
      → I.mem j (p v.id) ≡ true
      → Inside box
      → Inside (set_interval I box v j)
  unfolding set_interval
  Inside-set_interval box v j h m w = Within-set box.variables box.values v j h m w

  pub set_interval-Inside :
      (box : Box I) (v : Variable) (j : I.Interval)
      → has_variable box.variables v ≡ true
      → Inside (set_interval I box v j)
      → (I.mem j (p v.id) ≡ true) × (I.mem (interval I box v) (p v.id) ≡ true → Inside box)
  unfolding set_interval interval
  set_interval-Inside box v j h w = set-Within box.variables box.values v j h w

  pub not-Inside-set_empty :
      (box : Box I) (v : Variable)
      → has_variable box.variables v ≡ true
      → Inside (set_empty I box)
      → ⊥
  unfolding set_empty
  not-Inside-set_empty box v h w = not-Within-nothing box.variables box.values v h w

  first_is_empty-not-Within :
      (vs : List Variable) (is' : List I.Interval) → first_is_empty I is' ≡ true → Within vs is' → ⊥
  unfolding first_is_empty
  first_is_empty-not-Within vs [] h w = cc
  first_is_empty-not-Within [] (i ∷ is') h w = absurd w
  first_is_empty-not-Within (v ∷ vs) (i ∷ is') h w = let q = I.mem-is_empty i (p v.id) h in cc

  pub not-Inside-empty : (box : Box I) → empty I box ≡ true → ¬ Inside box
  unfolding empty
  not-Inside-empty box h w = first_is_empty-not-Within box.variables box.values h w
