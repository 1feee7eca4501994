-- ===== src/Command/Switch.antt =====
-- `_switch_profile` of src/oscmix_desk/cli.py: the exit code of a switch.
use oscmix_autostart.Base.{◌≡◌, ℕ, true, refl, ap}
use native.Mathlib.Omega.{arith}
use oscmix_autostart.Base.Text.{Text}
use oscmix_autostart.Base.Float.{Floating}
use oscmix_autostart.Verify.Session.{Environment, Session, Run, Step, on, off, ◌>>=◌, then_do, give}
use oscmix_autostart.Profiles.Load.{Files}
use oscmix_autostart.Profiles.Switch.{
  State, applied_verified, applied_unverified, not_applied, Outcome, switch_profile,
}
use oscmix_autostart.Profiles.Promise.{switch_profile-refused}
use oscmix_autostart.Session.Run.{exit_ok}

-- `EXIT_CONFIG` (src/oscmix_desk/constants.py)
abbrev pub exit_config : ℕ
exit_config = 2

abbrev pub code_for : State → ℕ
code_for not_applied = exit_config
code_for applied_verified = exit_ok
code_for applied_unverified = exit_ok

ok_not_config : exit_ok ≡ exit_config → ⊥
ok_not_config h = omega (arith, h)

code_for-refused : (st : State) → code_for st ≡ exit_config → st ≡ not_applied
code_for-refused not_applied h = refl
code_for-refused applied_verified h = absurd (ok_not_config h)
code_for-refused applied_unverified h = absurd (ok_not_config h)

module _ {F : Type 0} ⦃fl : Floating F⦄ where
  unfoldable pub switch_command : Environment F → Text → Files → Step F ℕ
  switch_command env name files = do
    outcome ← switch_profile env true name files
    give (code_for outcome.state)

  run-refused :
      (r : Run F Outcome) (s' : Session F)
      → then_do r (λ outcome. give (code_for outcome.state)) ≡ on exit_config s'
      → (o : Outcome) × (r ≡ on o s') × (o.state ≡ not_applied)
  run-refused (on o s) s' h = (o, ap (on o) (cc h), code_for-refused o.state (cc h))
  run-refused (off s) s' h = cc h

  -- A switch that exits with EXIT_CONFIG did nothing: nothing was written, asked or heard.
  pub switch_command-refused :
      (env : Environment F) (name : Text) (files : Files) (s s' : Session F)
      → switch_command env name files s ≡ on exit_config s'
      → s' ≡ s
  unfolding switch_command
  switch_command-refused env name files s s' h =
      let (o, e, st) = run-refused (switch_profile env true name files s) s' h in
      switch_profile-refused env true name files s s' o e st
