-- ===== src/Verify/Judge.antt =====
-- What counts as a problem and what the device may keep: `_unconfirmed`, `_kept_by_the_device` and
-- `_report` of src/oscmix_desk/verify.py.
use oscmix_autostart.Base.{
  Bool, true, false, not, Option, some, List, [], ◌∷◌, ◌++◌, if◌then◌else◌, ◌>>=◌, keep,
}
use oscmix_autostart.Base.Text.{Text}
use oscmix_autostart.Base.Dict.{Dict}
use oscmix_autostart.Base.Sort.{sort, text_le}
use oscmix_autostart.Registers.Defs.{Policy, pin, remember, Device}
use oscmix_autostart.Reconcile.Policy.{policy_for}
use oscmix_autostart.Verify.Reported.{register_promptly_reported}
use oscmix_autostart.Verify.Observe.{VerifyResult}

abbrev pub is_pin : Policy → Bool
is_pin pin = true
is_pin remember = false

module _ {F : Type 0} where
  -- `[path for path in result.unobserved if register_promptly_reported(path, device)]`
  unfoldable pub lost : Option (Device F) → List Text → Option (List Text)
  lost device [] = some []
  lost device (p ∷ ps) = do
    prompt ← register_promptly_reported p device
    rest ← lost device ps
    some (if prompt then p ∷ rest else rest)

  -- `[path for path in result.mismatched if policy_for(path, device, overrides) == PIN]`
  unfoldable pub insisted : Option (Device F) → Dict (Text × Text) Policy → List Text → List Text
  unfolding keep
  insisted device overrides = keep (λ p. is_pin (policy_for p device overrides))

  unfoldable pub unconfirmed :
      VerifyResult → Option (Device F) → Dict (Text × Text) Policy → Option (List Text)
  unfolding lost insisted sort
  unconfirmed r device overrides = do
    gone ← lost device r.unobserved
    some (sort text_le (insisted device overrides r.mismatched ++ gone))

  unfoldable pub kept_by_the_device :
      VerifyResult → Option (Device F) → Dict (Text × Text) Policy → List Text
  unfolding keep sort
  kept_by_the_device r device overrides =
      sort text_le (keep (λ p. not (is_pin (policy_for p device overrides))) r.mismatched)
