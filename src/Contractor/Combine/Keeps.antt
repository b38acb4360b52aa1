-- ===== src/Contractor/Combine/Keeps.antt =====
-- What the combined contractors do to a point that their parts keep.
use d_real_cmake.Prelude.{
  ℕ, suc, ◌≡◌, refl, inl, inr, List, [], ◌∷◌, map, All, Member, length, arith, Bool-cases, subst,
  sym, ap,
}
use d_real_cmake.Symbolic.Syntax.{Variable}
use d_real_cmake.Symbolic.Numbers.{Numbers}
use d_real_cmake.Box.Interval.{Intervals}
use d_real_cmake.Box.{Box, empty, set_empty, zip_hull, inplace_union}
use d_real_cmake.Box.Points.{Within, Inside}
use d_real_cmake.Contractor.Status.{ContractorStatus, inplace_join}
use d_real_cmake.Contractor.Combine.{Contractor, sweep, join_all, join}

module _ {N : Numbers} (I : Intervals N) (p : ℕ → N.Real) where
  -- A contractor does not cut the point off.
  abbrev pub Keeps : Contractor I → Type 0
  Keeps c = (cs : ContractorStatus I) → Inside I p cs.box → Inside I p (c cs).box

  pub sweep-Keeps :
      (cts : List (Contractor I))
      → All Keeps cts
      → (cs : ContractorStatus I) → Inside I p cs.box
      → Inside I p (sweep I cts cs).1.box
  unfolding sweep
  sweep-Keeps [] h cs w = w
  sweep-Keeps (c ∷ rest) h cs w = elim (Bool-cases (empty I (c cs).box)) [
    | inl e ↦ rw e (h.0 cs w)
    | inr e ↦ rw e (sweep-Keeps rest h.1 (c cs) (h.0 cs w))
  ]

  Within-hull_left :
      (vs : List Variable) (is' js : List I.Interval)
      → length is' ≡ length js
      → Within I p vs is'
      → Within I p vs (zip_hull I is' js)
  unfolding zip_hull
  Within-hull_left [] [] js e w = tt
  Within-hull_left [] (i ∷ is') js e w = absurd w
  Within-hull_left (v ∷ vs) [] js e w = absurd w
  Within-hull_left (v ∷ vs) (i ∷ is') [] e w = absurd (omega (arith, e))
  Within-hull_left (v ∷ vs) (i ∷ is') (j ∷ js) e w =
      (I.mem-hull_left i j (p v.id) w.0, Within-hull_left vs is' js (omega (arith, e)) w.1)

  Within-hull_right :
      (vs : List Variable) (is' js : List I.Interval)
      → length is' ≡ length js
      → Within I p vs js
      → Within I p vs (zip_hull I is' js)
  unfolding zip_hull
  Within-hull_right [] [] [] e w = tt
  Within-hull_right [] [] (j ∷ js) e w = absurd w
  Within-hull_right [] (i ∷ is') [] e w = absurd (omega (arith, e))
  Within-hull_right [] (i ∷ is') (j ∷ js) e w = absurd w
  Within-hull_right (v ∷ vs) is' [] e w = absurd w
  Within-hull_right (v ∷ vs) [] (j ∷ js) e w = absurd (omega (arith, e))
  Within-hull_right (v ∷ vs) (i ∷ is') (j ∷ js) e w =
      (I.mem-hull_right i j (p v.id) w.0, Within-hull_right vs is' js (omega (arith, e)) w.1)

-- A contractor leaves the box its variables and the number of its intervals.
abbrev pub SameShape : {N : Numbers} {I : Intervals N} → Box I → Box I → Type 0
SameShape a b = (a.variables ≡ b.variables) × (length a.values ≡ length b.values)

length-map_const {ℓ} : {A : Type ℓ} (a : A) (xs : List A) → length (map (λ _. a) xs) ≡ length xs
length-map_const a [] = refl
length-map_const a (x ∷ xs) = ap suc (length-map_const a xs)

length-zip_hull :
    {N : Numbers} (I : Intervals N) (is' js : List I.Interval)
    → length is' ≡ length js
    → length (zip_hull I is' js) ≡ length is'
unfolding zip_hull
length-zip_hull I [] js e = refl
length-zip_hull I (i ∷ is') [] e = absurd (omega (arith, e))
length-zip_hull I (i ∷ is') (j ∷ js) e = ap suc (length-zip_hull I is' js (omega (arith, e)))

module _ {N : Numbers} (I : Intervals N) (p : ℕ → N.Real) (saved : ContractorStatus I) where
  abbrev AsSaved : ContractorStatus I → Type 0
  AsSaved cs = SameShape saved.box cs.box

  joined_shape :
      (c : Contractor I) (cs : ContractorStatus I)
      → SameShape saved.box (c saved).box
      → AsSaved cs
      → AsSaved (inplace_join cs (c saved))
  unfolding inplace_join inplace_union
  joined_shape c cs s t =
      let q = length-zip_hull I cs.box.values (c saved).box.values (omega (arith, s.1, t.1)) in
      (t.0, omega (arith, q, t.1))

  join_all_held :
      (cts : List (Contractor I))
      → All (λ (c : Contractor I). SameShape saved.box (c saved).box) cts
      → (cs : ContractorStatus I) → AsSaved cs
      → Inside I p cs.box
      → Inside I p (join_all I saved cts cs).box
  unfolding join_all inplace_join inplace_union
  join_all_held [] h cs s w = w
  join_all_held (c ∷ rest) h cs s w =
      join_all_held rest h.1 (inplace_join cs (c saved)) (joined_shape c cs h.0 s) (
        Within-hull_left I p cs.box.variables cs.box.values (c saved).box.values
          (omega (arith, h.0.1, s.1)) w)

  join_all-Member :
      (cts : List (Contractor I))
      → All (λ (c : Contractor I). SameShape saved.box (c saved).box) cts
      → (cs : ContractorStatus I) → AsSaved cs
      → (c : Contractor I) → Member c cts
      → Inside I p (c saved).box
      → Inside I p (join_all I saved cts cs).box
  unfolding join_all inplace_join inplace_union
  join_all-Member [] h cs s c m w = elim m [ ]
  join_all-Member (d ∷ rest) h cs s c (inl e) w =
      let w' : Inside I p (d saved).box =
        subst (λ (k : Contractor I). Inside I p (k saved).box) e w in
      let vars : (d saved).box.variables ≡ cs.box.variables = cc in
      join_all_held rest h.1 (inplace_join cs (d saved)) (joined_shape d cs h.0 s) (
        Within-hull_right I p cs.box.variables cs.box.values (d saved).box.values
          (omega (arith, h.0.1, s.1)) (subst (λ vs. Within I p vs (d saved).box.values) vars w'))
  join_all-Member (d ∷ rest) h cs s c (inr m) w =
      join_all-Member rest h.1 (inplace_join cs (d saved)) (joined_shape d cs h.0 s) c m w

-- A join keeps a point if one of its contractors keeps it, each of them run on the box at the
-- start. Each contractor is taken to leave the variables and the number of intervals as they are.
pub join_keeps :
    {N : Numbers} (I : Intervals N) (p : ℕ → N.Real) (contractors : List (Contractor I))
    (cs : ContractorStatus I)
    → All (λ (c : Contractor I). SameShape cs.box (c cs).box) contractors
    → (c : Contractor I) → Member c contractors
    → Inside I p (c cs).box
    → Inside I p (join I contractors cs).box
unfolding join set_empty
join_keeps I p cts cs h c m w =
    join_all-Member I p cs cts h (record cs { box = set_empty I cs.box })
      (refl, sym (length-map_const I.nothing cs.box.values)) c m w
