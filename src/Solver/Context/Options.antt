-- ===== src/Solver/Context/Options.antt =====
-- The numeric options of src/dreal/solver/context_impl.cc: `SetOption` with a number and
-- `GetOption`. The keys' texts, the format of a number and which numbers are positive are
-- parameters.
use d_real_cmake.Prelude.{
  ◌≡◌, refl, Bool, true, false, List, [], ◌∷◌, Option, none, some, if◌then◌else◌, Eq, inl, inr,
  Bool-cases, beq_refl,
}
use d_real_cmake.Symbolic.Syntax.{Double}
use d_real_cmake.Config.OptionValue.{OptionValue, set_from_file}

-- `precision_key` is ":precision" and `prune_key` is ":forall-pre-prune-prec".
pub record Texts : Type 1 where
  pub Text : Type 0
  pub eq_text : Eq Text
  pub format : Double → Text
  pub is_positive : Double → Bool
  pub precision_key : Text
  pub prune_key : Text

module _ (X : Texts) where
  -- `option_` and the two settings of `config_`.
  pub record Options : Type 0 where
    pub option : List (X.Text × X.Text)
    pub precision : OptionValue Double
    pub forall_pre_prune_prec : OptionValue Double

  unfoldable pub find : List (X.Text × X.Text) → X.Text → Option X.Text
  find [] key = none
  find ((k, v) ∷ entries) key =
      let rest = find entries key in if X.eq_text.beq k key then some v else rest

  -- `option_[key] = value`
  unfoldable pub write : X.Text → X.Text → List (X.Text × X.Text) → List (X.Text × X.Text)
  write key value [] = (key, value) ∷ []
  write key value ((k, v) ∷ entries) =
      let rest = write key value entries in
      if X.eq_text.beq k key then (k, value) ∷ entries else (k, v) ∷ rest

  -- An exception leaves the object as it is by then.
  pub data Outcome : Type 0 where
    thrown done : Options → Outcome

  unfoldable pub remember : X.Text → Double → Options → Options
  remember key val o = record o { option = write key (X.format val) o.option }

  unfoldable pub set_option : X.Text → Double → Options → Outcome
  set_option key val o =
      let s = remember key val o in
      if X.eq_text.beq key X.precision_key
      then (if X.is_positive val
          then done (record s { precision = set_from_file val s.precision })
          else thrown s)
      else if X.eq_text.beq key X.prune_key
      then (if X.is_positive val
          then done (record s { forall_pre_prune_prec = set_from_file val s.forall_pre_prune_prec })
          else thrown s)
      else done s

  -- `:precision` that was not set is the configuration's.
  unfoldable pub or_default : Option X.Text → Bool → Options → Option X.Text
  or_default (some v) is_precision o = some v
  or_default none true o = some (X.format o.precision.value)
  or_default none false o = none

  unfoldable pub get_option : Options → X.Text → Option X.Text
  get_option o key = or_default (find o.option key) (X.eq_text.beq key X.precision_key) o

  find-write :
      (key value : X.Text) (entries : List (X.Text × X.Text))
      → find (write key value entries) key ≡ some value
  unfolding find write
  find-write key value [] = rw (beq_refl X.eq_text key) refl
  find-write key value ((k, v) ∷ entries) = elim (Bool-cases (X.eq_text.beq k key)) [
    | inl e ↦ rw (e, e) refl
    | inr e ↦ rw (e, e) (find-write key value entries)
  ]

  get_option-remember :
      (key : X.Text) (val : Double) (o : Options)
      → get_option (remember key val o) key ≡ some (X.format val)
  unfolding get_option remember or_default
  get_option-remember key val o = rw (find-write key (X.format val) o.option) refl

-- A precision that is not positive is refused with an exception and the settings are unchanged, but
-- it has been recorded: `GetOption` answers with the refused number from then on.
pub get_option_refused :
    (X : Texts) (val : Double) (o : Options X)
    → X.is_positive val ≡ false
    → (s : Options X) × (set_option X X.precision_key val o ≡ thrown s)
      × (s.precision ≡ o.precision)
      × (s.forall_pre_prune_prec ≡ o.forall_pre_prune_prec)
      × (get_option X s X.precision_key ≡ some (X.format val))
unfolding set_option remember
get_option_refused X val o e = (
  remember X X.precision_key val o,
  rw (beq_refl X.eq_text X.precision_key, e) refl,
  refl,
  refl,
  get_option-remember X X.precision_key val o,
)
