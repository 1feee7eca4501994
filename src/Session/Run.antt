-- ===== src/Session/Run.antt =====
-- `run_session` and what it composes, of src/oscmix_desk/session.py: what it does in order, newest
-- first, and how it ends. Discovery, processes, signals and threads are the environment.
use oscmix_autostart.Base.{ℕ, Bool, true, not, Option, none, some, List, [], ◌∷◌, if◌then◌else◌}
use oscmix_autostart.Base.Int.{ℤ, pos, eq_ℤ}
use oscmix_autostart.Base.Float.{Floating}
use oscmix_autostart.Config.Defs.{Config}
use oscmix_autostart.Reconcile.Messages.{Message}
use oscmix_autostart.Reconcile.Desired.{Entry, desired}
use oscmix_autostart.Reconcile.Plan.{plan, messages}
use oscmix_autostart.Routing.Apply.{Effect, apply_routing, default_tolerance}
use oscmix_autostart.Routing.Trace.{interrupted}
use oscmix_autostart.Session.Supervise.{
  Round, Supervision, returned, running, start_watching, supervise,
}

-- `EXIT_OK` and `EXIT_FAILURE`
abbrev pub exit_ok : ℕ
exit_ok = 0

abbrev pub exit_failure : ℕ
exit_failure = 1

pub data Deed (F : Type 0) : Type 0 where
  -- `_print_dry_run`
  printed : List (Message F) → Deed F
  -- `_cleanup_stale_backend`
  cleaned : Deed F
  -- `_start_backend`, with both binaries found.
  started : Deed F
  -- `apply_routing`
  applied : List (Effect F) → Deed F
  -- The verifier's thread.
  verifying : Deed F
  -- `sd_notify("READY=1")`
  ready : Deed F
  -- `supervise`, with how it ended.
  supervised : Supervision → Deed F
  -- `_await_verifier`
  awaited : Deed F

-- What the machine answers, in the order of the questions.
pub record Machine (F : Type 0) : Type 0 where
  -- `wait_for_seq_client`
  pub client : Option ℕ
  -- `usb_device_present`, where there is no client.
  pub present : Bool
  -- `--dry-run`
  pub dry_run : Bool
  -- Both binaries are there.
  pub binaries : Bool
  -- The child is alive behind the wait for its port.
  pub alive : Bool
  -- What the listener of the link barrier hears.
  pub echo : Option (List (List (Message F)))
  -- The rounds of `supervise`, and the status of a killed child.
  pub rounds : List Round
  pub status : ℤ
  -- `CHILD_STOP_GRACE`
  pub grace : ℕ
  -- `usb_device_present` behind the end of the child.
  pub present_after : Bool

-- An exit status, an exception that nothing catches, or a session that goes on; and what was done.
pub data Ending (F : Type 0) : Type 0 where
  exits : ℕ → List (Deed F) → Ending F
  raises : List (Deed F) → Ending F
  goes_on : List (Deed F) → Ending F

module _ {F : Type 0} where
  -- `_exit_code_for`
  unfoldable pub exit_code_for : ℤ → Bool → Bool → List (Deed F) → Ending F
  exit_code_for code stopped present deeds =
      if stopped
      then exits exit_ok (ready ∷ deeds)
      else if not present
      then exits exit_ok (ready ∷ deeds)
      else if eq_ℤ code (pos 0)
      then exits exit_ok (ready ∷ deeds)
      else exits exit_failure deeds

  abbrev pub after_supervise : Machine F → List (Deed F) → Supervision → Ending F
  after_supervise m deeds (running w) = goes_on (supervised (running w) ∷ deeds)
  after_supervise m deeds (returned code w) =
      exit_code_for code w.stop m.present_after (awaited ∷ supervised (returned code w) ∷ deeds)

  -- From the call of `supervise` on.
  unfoldable pub supervised_session : Machine F → List (Deed F) → Ending F
  supervised_session m deeds =
      after_supervise m deeds (supervise true m.grace m.status m.rounds start_watching)

  abbrev pub raised_or_ready : Machine F → List (Deed F) → List (Effect F) → Ending F
  raised_or_ready m deeds fx =
      if interrupted fx
      then raises (applied fx ∷ deeds)
      else supervised_session m (ready ∷ verifying ∷ applied fx ∷ deeds)

  abbrev pub applied_or_raised : Machine F → List (Deed F) → Option (List (Effect F)) → Ending F
  applied_or_raised m deeds none = raises deeds
  applied_or_raised m deeds (some fx) = raised_or_ready m deeds fx

module _ {F : Type 0} ⦃fl : Floating F⦄ where
  -- Nothing is applied where nothing is declared.
  abbrev pub apply_declared :
      Machine F → Config F → List (Deed F) → Option (List (Entry F)) → Ending F
  apply_declared m c deeds none = raises deeds
  apply_declared m c deeds (some []) = supervised_session m (ready ∷ deeds)
  apply_declared m c deeds (some (e ∷ es)) = applied_or_raised m deeds (apply_routing c [] m.echo)

  -- `_apply_and_verify`, and what `run_session` does behind it.
  unfoldable pub apply_and_verify : Machine F → Config F → List (Deed F) → Ending F
  apply_and_verify m c deeds = apply_declared m c deeds (desired c)

  -- `_print_dry_run`: `plan` without an observation.
  unfoldable pub print_dry_run : Config F → Ending F
  print_dry_run c = elim (desired c) [
    | none ↦ raises []
    | some es ↦ elim (plan es none none default_tolerance) [
      | none ↦ raises []
      | some p ↦ exits exit_ok (printed (messages p) ∷ [])
    ]
  ]

  -- From the start of the backend on.
  unfoldable pub start_session : Machine F → Config F → Ending F
  start_session m c =
      if not m.binaries
      then exits exit_failure (cleaned ∷ [])
      else if m.alive
      then apply_and_verify m c (started ∷ cleaned ∷ [])
      else supervised_session m (started ∷ cleaned ∷ [])

  abbrev pub session_with : Machine F → Config F → Option ℕ → Ending F
  session_with m c none =
      if not m.present then exits exit_ok (ready ∷ []) else exits exit_failure []
  session_with m c (some client) = if m.dry_run then print_dry_run c else start_session m c

  unfoldable pub run_session : Machine F → Config F → Ending F
  run_session m c = session_with m c m.client
