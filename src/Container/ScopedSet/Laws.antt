-- ===== src/Container/ScopedSet/Laws.antt =====
-- Closing a scope, and `insert` of a key.
use d_real_cmake.Prelude.{
  Bool, true, false, or_left, or_right, none, if◌then◌else◌, ◌⊎◌, ℕ, ◌≡◌, refl, sym, ◌∙◌, ap, inl,
  inr, List, [], ◌∷◌, ◌++◌, Option, some, length, arith, length-append, ◌>>=◌, Eq, beq_refl,
  Bool-cases, ◌||◌,
}
use mathlib.Core.List.{append_assoc}
use d_real_cmake.Container.ScopedSet.{
  ScopedSet, contains, erase, insert, push, pop, clear, pop_scope, unwind,
}

-- What a client does between a `push` and its `pop`.
pub data Session (K : Type 0) : Type 0 where
  done : Session K
  inserts : K → Session K → Session K
  scope : Session K → Session K → Session K
  clears : Session K → Session K

module _ {K : Type 0} (e : Eq K) where
  pub run : Session K → ScopedSet K → Option (ScopedSet K)
  run done s = some s
  run (inserts k r) s = run r (insert e k s)
  run (scope inner r) s = run inner (push e s) >>= λ t. pop e t >>= λ u. run r u
  run (clears r) s = run r (clear e s)

  -- Whether the session clears, in itself or in one of its scopes.
  pub has_clear : Session K → Bool
  has_clear done = false
  has_clear (inserts k r) = has_clear r
  has_clear (scope inner r) = has_clear inner || has_clear r
  has_clear (clears r) = true

  undo_all : List K → List K → List K
  undo_all [] m = m
  undo_all (a ∷ as') m = undo_all as' (erase e m a)

  undo_all-append : (xs ys m : List K) → undo_all (xs ++ ys) m ≡ undo_all ys (undo_all xs m)
  unfolding undo_all
  undo_all-append [] ys m = refl
  undo_all-append (x ∷ xs) ys m = undo_all-append xs ys (erase e m x)

  unwind_lem : (xs ys m : List K) → unwind e (length ys) (xs ++ ys) m ≡ (ys, undo_all xs m)
  unfolding unwind undo_all
  unwind_lem [] [] m = refl
  unwind_lem [] (y ∷ ys) m = ground arith
  unwind_lem (x ∷ xs) ys m = ground (arith, length-append xs ys, unwind_lem xs ys (erase e m x))

  pop-recorded :
      (xs : List K) (s : ScopedSet K) (m : List K)
      → undo_all xs m ≡ s.set
      → pop e (record { actions = xs ++ s.actions; stack = length s.actions ∷ s.stack; set = m })
        ≡ some s
  unfolding pop
  pop-recorded xs s m h = rw (unwind_lem xs s.actions m, pop_scope) (rw h refl)

  abbrev recorded : List K → List K → List K → List ℕ → Option (ScopedSet K)
  recorded xs m acts sc = some (record { actions = xs ++ acts; stack = sc; set = m })

  pop-outside : (s : ScopedSet K) → s.stack ≡ [] → pop e s ≡ none
  unfolding pop pop_scope
  pop-outside s h = rw h refl

  run_lem :
      (r : Session K) (s : ScopedSet K)
      → has_clear r ≡ false
      → (xs : List K) × (m : List K) × (run r s
          ≡ some (record { actions = xs ++ s.actions; stack = s.stack; set = m }))
        × (undo_all xs m ≡ s.set)
  unfolding run has_clear push undo_all insert
  run_lem done s n = ([], s.set, refl, refl)
  run_lem (inserts k r) s n = elim (Bool-cases (contains e s.set k)) [
    | inl h ↦ rw h (run_lem r s n)
    | inr h ↦
        let t : ScopedSet K = record s { actions = k ∷ s.actions; set = k ∷ s.set } in
        let (xs, m, p, q) = run_lem r t n in
        rw h (
          xs ++ (k ∷ []),
          m,
          p ∙ ap (λ acts. recorded [] m acts s.stack) (sym (append_assoc xs (k ∷ []) s.actions)),
          undo_all-append xs (k ∷ []) m
              ∙ ap (λ l. erase e l k) q
              ∙ unfold erase in rw (beq_refl e k) refl,
        )
  ]
  run_lem (scope inner r) s n =
      let (xs, m, p, q) = run_lem inner (push e s) (or_left (has_clear inner) (has_clear r) n) in
      let (ys, m', p', q') = run_lem r s (or_right (has_clear inner) (has_clear r) n) in
      (ys, m', rw p (rw (pop-recorded xs s m q) p'), q')
  run_lem (clears r) s n = let z : ⊥ = cc in absurd z

  -- A session that clears throws at the end of a scope, or ends outside all scopes.
  run-clears :
      (r : Session K) (s : ScopedSet K)
      → has_clear r ≡ true
      → (run r s ≡ none) ⊎ ((t : ScopedSet K) × (run r s ≡ some t) × (t.stack ≡ []))
  unfolding run has_clear clear
  run-clears done s n = let z : ⊥ = cc in absurd z
  run-clears (inserts k r) s n = run-clears r (insert e k s) n
  run-clears (clears r) s n = elim (Bool-cases (has_clear r)) [
    | inl h ↦ run-clears r (clear e s) h
    | inr h ↦ let (xs, m, p, q) = run_lem r (clear e s) h in inr (_, p, refl)
  ]
  run-clears (scope inner r) s n = elim (Bool-cases (has_clear inner)) [
    | inl h ↦ elim (run-clears inner (push e s) h) [
      | inl q ↦ inl (rw q refl)
      | inr (t, q, top) ↦ let throws = pop-outside t top in inl (rw (q, throws) refl)
    ]
    | inr h ↦
        let (xs, m, p, q) = run_lem inner (push e s) h in
        let opened : run inner (push e s)
            ≡ some (record {
              actions = xs ++ s.actions;
              stack = length s.actions ∷ s.stack;
              set = m;
            }) =
          p ∙ unfold push in refl in
        let closed = pop-recorded xs s m (q ∙ unfold push in refl) in
        rw (opened, closed) (run-clears r s (rw h at n))
  ]

  -- Whatever a session inserts, keys that are already there too, and whatever scopes it opens and closes in
  -- itself, it runs without an exception, and the `pop` after it brings back the keys,
  -- the recorded actions and the open scopes exactly as they were at the `push` before it; but if it
  -- clears, in itself or in one of its scopes, then a `pop` throws.
  pub set_pop-run :
      (r : Session K) (s : ScopedSet K)
      → (run r (push e s) >>= pop e) ≡ (if has_clear r then none else some s)
  set_pop-run r s = elim (Bool-cases (has_clear r)) [
    | inl h ↦ elim (run-clears r (push e s) h) [
      | inl q ↦ rw (h, q) refl
      | inr (t, q, top) ↦ let throws = pop-outside t top in rw (h, q) throws
    ]
    | inr h ↦
        let (xs, m, p, q) = run_lem r (push e s) h in
        rw (h, p) (unfold push in pop-recorded xs s m q)
  ]

  -- After `insert` the set has the key, and every other key if it had it before.
  pub contains-insert :
      (k j : K) (s : ScopedSet K)
      → contains e (insert e k s).set j ≡ (e.beq k j || contains e s.set j)
  unfolding insert contains
  contains-insert k j s = ground (arith, e.beq_iff k j)
