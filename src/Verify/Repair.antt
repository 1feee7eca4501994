-- ===== src/Verify/Repair.antt =====
-- `_observe`, `verify_routing`, `verify_and_repair` and `reconcile_now` of
-- src/oscmix_desk/verify.py. Logging, sockets and the clock are left out.
use oscmix_autostart.Base.{Bool, true, false, Option, none, some, List, [], ◌∷◌, if◌then◌else◌}
use oscmix_autostart.Base.Text.{Text}
use oscmix_autostart.Base.Float.{Floating}
use oscmix_autostart.Registers.Defs.{Device}
use oscmix_autostart.Registers.Lookup.{device_for_name}
use oscmix_autostart.Config.Defs.{Value, Config}
use oscmix_autostart.Reconcile.Messages.{Message}
use oscmix_autostart.Routing.Sequence.{output_link_state}
use oscmix_autostart.Verify.Reported.{Expected, expected_registers}
use oscmix_autostart.Verify.Observe.{
  VerifyResult, Seen, nothing_seen, absorb, prompt_set, window_may_close, result_of,
}
use oscmix_autostart.Verify.Judge.{unconfirmed, kept_by_the_device}
use oscmix_autostart.Verify.Session.{
  Environment, Run, Step, on, ◌>>=◌, give, lift, act, received, requested, ask, listen,
  wait_unless_stopped, blind_reapply_mix, reapply, link_sync, reapply_without_confirmation,
}

-- `on_observed`
abbrev pub Hook : Type 0 → Type 0
Hook F = Text → List (Value F) → Step F Unit

-- `on_observed=None`
abbrev pub no_hook : {F : Type 0} → Hook F
no_hook path args = give tt

-- The problems and what the device keeps, or `none` where there is no problem.
unfoldable pub verdict : List Text → List Text → Option (List Text × List Text)
verdict [] kept = none
verdict (p ∷ ps) kept = some (p ∷ ps, kept)

module _ {F : Type 0} ⦃fl : Floating F⦄ where
  -- The reports of one call of `messages`.
  unfoldable pub absorb_all : Hook F → Expected F → List (Message F) → Seen → Step F Seen
  absorb_all hook registers [] seen = give seen
  absorb_all hook registers ((path, tags, args) ∷ ms) seen = do
    _ ← act (received path)
    _ ← hook path args
    seen' ← lift (absorb (path, tags, args) registers seen)
    absorb_all hook registers ms seen'

  -- `_observe`: the rounds end where the clock passes the deadline.
  unfoldable pub observe :
      Environment F → Hook F → Expected F → List Text → List (List (Message F)) → Seen → Step F Seen
  observe env hook registers prompt [] seen = give seen
  observe env hook registers prompt (ms ∷ rounds) seen = do
    stopped ← ask env
    let more = (do
      seen' ← absorb_all hook registers ms seen
      observe env hook registers prompt rounds seen')
    if stopped
        then give seen
        else (if window_may_close registers prompt seen then give seen else more)

  -- What a listener hears is asked for and observed; `none`: the receive port is held.
  unfoldable pub hear_dump :
      Environment F
      → Hook F
      → Expected F
      → Option (Device F)
      → Option (List (List (Message F)))
      → Step F (Option VerifyResult)
  hear_dump env hook registers device none = give none
  hear_dump env hook registers device (some rounds) = do
    _ ← act requested
    seen ← observe env hook registers (prompt_set registers device) rounds nothing_seen
    give (some (result_of registers seen))

  unfoldable pub verify_routing :
      Environment F → Hook F → Expected F → Option (Device F) → Step F (Option VerifyResult)
  verify_routing env hook registers device = do
    heard ← listen env
    hear_dump env hook registers device heard

  -- Write 2, where the links were never reported.
  unfoldable pub ensure_mix : Config F → Step F Unit
  ensure_mix c s = if s.done then on tt s else reapply_without_confirmation c s

  -- What follows a read-back that no stop interrupted.
  unfoldable pub judge :
      Environment F
      → Config F
      → Option (Device F)
      → Option VerifyResult
      → Step F (Option (List Text × List Text))
  judge env c device none = do _ ← blind_reapply_mix env c; give none
  judge env c device (some r) = do
    _ ← ensure_mix c
    problems ← lift (unconfirmed r device c.policies)
    give (verdict problems (kept_by_the_device r device c.policies))

  -- One round of the loop of `verify_and_repair`, up to the test for problems: the problems and
  -- what the device keeps, or `none` where it returns.
  unfoldable pub attempt :
      Environment F
      → Config F
      → Expected F
      → Option (Device F)
      → Step F (Option (List Text × List Text))
  attempt env c registers device = do
    stopped ← ask env
    if stopped then give none else (do
      result ← verify_routing env (link_sync env c) registers device
      late ← ask env
      if late then give none else judge env c device result)

  -- The end of the first round: write 3, unless a stop is asked for, and the second round.
  unfoldable pub repair :
      Environment F → Config F → Expected F → Option (Device F) → List Text → Step F Unit
  repair env c registers device kept = do
    stopped ← ask env
    if stopped then give tt else (do
      _ ← reapply env c kept
      late ← wait_unless_stopped env env.sleeps
      if late then give tt else (do _ ← attempt env c registers device; give tt))

  unfoldable pub next_round :
      Environment F
      → Config F
      → Expected F
      → Option (Device F)
      → Option (List Text × List Text)
      → Step F Unit
  next_round env c registers device none = give tt
  next_round env c registers device (some (problems, kept)) = repair env c registers device kept

  unfoldable pub verify_rounds :
      Environment F → Config F → Expected F → Option (Device F) → Step F Unit
  verify_rounds env c registers device = do
    found ← attempt env c registers device
    next_round env c registers device found

  -- `none`: an exception before the first question.
  unfoldable pub verify_and_repair : Environment F → Config F → Option (Run F Unit)
  verify_and_repair env c = elim (expected_registers c) [
    | none ↦ none
    | some registers ↦ elim (output_link_state c.routes) [
      | none ↦ none
      | some links ↦ some (
          verify_rounds env c registers (device_for_name c.device_name) (record {
            questions = 0;
            listeners = 0;
            pending = links;
            done = elim links [ [] ↦ true | x ∷ xs ↦ false ];
            acts = [];
          }))
    ]
  ]

  -- What `reconcile_now` does with a read-back that no stop interrupted.
  unfoldable pub reconcile :
      Environment F → Config F → Option (Device F) → Option VerifyResult → Step F Bool
  reconcile env c device none = give false
  reconcile env c device (some r) = do
    _ ← lift (unconfirmed r device c.policies)
    _ ← reapply env c (kept_by_the_device r device c.policies)
    give true

  -- `reconcile_now`: whether the routing was written.
  unfoldable pub reconcile_now : Environment F → Config F → Step F Bool
  reconcile_now env c = do
    registers ← lift (expected_registers c)
    result ← verify_routing env no_hook registers (device_for_name c.device_name)
    stopped ← ask env
    if stopped then give false else reconcile env c (device_for_name c.device_name) result
