-- ===== src/Verify/Reported.antt =====
-- What the device reports: `expected_registers`, `register_ever_reported`,
-- `register_promptly_reported` and `_is_channel_state` of src/oscmix_desk/verify.py.
use oscmix_autostart.Base.{
  Bool, true, false, not, ◌&&◌, ◌||◌, Option, none, some, List, [], ◌∷◌, if◌then◌else◌, ◌>>=◌,
}
use oscmix_autostart.Base.Text.{Text, text, starts_with, contains}
use oscmix_autostart.Base.Float.{Floating}
use oscmix_autostart.Base.Dict.{Dict, put}
use oscmix_autostart.Base.Equality.{text_eq}
use oscmix_autostart.Registers.Defs.{VerifyClass, write_only, Register, Device}
use oscmix_autostart.Registers.Lookup.{verify_class, register_at, cold_plug_complete}
use oscmix_autostart.Config.Defs.{Value, Config}
use oscmix_autostart.Reconcile.Desired.{Entry, desired}

-- The tags and the arguments that each path has to report.
abbrev pub Expected : Type 0 → Type 0
Expected F = Dict Text (Text × List (Value F))

module _ {F : Type 0} where
  unfoldable pub expect : List (Entry F) → Expected F → Expected F
  unfolding put
  expect [] d = d
  expect (e ∷ es) d = expect es (put e.path (e.tags, e.args) d)

abbrev is_write_only : Option VerifyClass → Bool
is_write_only (some write_only) = true
is_write_only c = false

module _ {F : Type 0} where
  unfoldable pub register_ever_reported : Text → Option (Device F) → Bool
  unfolding starts_with contains verify_class
  register_ever_reported path device =
      if starts_with (text "/mix/") path && contains (text "/playback/") path
      then false
      else not (is_write_only (verify_class device path))

  -- A row that has a domain and stands below `/input/{ch}/` or `/output/{ch}/`.
  unfoldable pub is_channel_row : Option (Register F) → Bool
  unfolding starts_with
  is_channel_row none = false
  is_channel_row (some r) = elim r.domain [
    | none ↦ false
    | some d ↦
        starts_with (text "/input/{ch}/") r.template
        || starts_with (text "/output/{ch}/") r.template
  ]

  -- `none` is the `ValueError` of `register_at`.
  unfoldable pub is_channel_state : Device F → Text → Option Bool
  unfolding register_at is_channel_row
  is_channel_state d path = do r ← register_at (some d) path; some (is_channel_row r)

  abbrev promptly_on : Option (Device F) → Text → Option Bool
  promptly_on none path = some true
  promptly_on (some d) path = do
    channel ← is_channel_state d path
    some (if channel then cold_plug_complete (some d) path else true)

  unfoldable pub register_promptly_reported : Text → Option (Device F) → Option Bool
  unfolding register_ever_reported is_channel_state cold_plug_complete
  register_promptly_reported path device =
      let reported = promptly_on device path in
      if register_ever_reported path device then reported else some false

module _ {F : Type 0} ⦃fl : Floating F⦄ where
  unfoldable pub expected_registers : Config F → Option (Expected F)
  unfolding expect
  expected_registers c = do es ← desired c; some (expect es [])
