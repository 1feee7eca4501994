-- ===== src/Session/Tests.antt =====
-- Runs of the session.
use oscmix_autostart.Base.{◌≡◌, refl, true, false, none, some, List, [], ◌∷◌, arith}
use oscmix_autostart.Base.Int.{pos}
use oscmix_autostart.Base.Deci.{Deci, deci_floats}
use oscmix_autostart.Desk.{desk, link_echo}
use oscmix_autostart.Session.Supervise.{
  Quiet, Round, ended, timed_out, start_watching, supervise, killed, reconciled, quiet_round,
  reload_step,
}
use oscmix_autostart.Session.Grace.{Sanctioned, due_of, watch_of, supervise_grace}
use oscmix_autostart.Session.Stops.{Ends, supervise-Ends, reconciles, supervise-reconciles}
use oscmix_autostart.Session.Run.{Machine, run_session}
use oscmix_autostart.Session.Reload.{on_hangup}
use oscmix_autostart.Verify.Session.{Environment, Session, on, off}
use oscmix_autostart.Config.Document.{malformed, undecodable}
use oscmix_autostart.Config.Load.{load_config}
use oscmix_autostart.Session.Ready.{Contract, run_session-Contract}

-- A round at a time.
abbrev idle : Quiet
idle = record {
  reload_before = true;
  stop_before = false;
  reload_after = false;
  stop_after = false;
  now = 5;
}

abbrev stopping : Quiet
stopping = record {
  reload_before = false;
  stop_before = true;
  reload_after = false;
  stop_after = false;
  now = 10;
}

abbrev waiting : Quiet
waiting = record {
  reload_before = true;
  stop_before = false;
  reload_after = false;
  stop_after = false;
  now = 15;
}

abbrev late : Quiet
late = record {
  reload_before = false;
  stop_before = false;
  reload_after = false;
  stop_after = false;
  now = 21;
}

abbrev rounds : List Round
rounds = timed_out idle ∷ timed_out stopping ∷ timed_out waiting ∷ timed_out late ∷ []

-- The child is killed at 21: the grace period of 10 began at 10.
killed_late :
    (watch_of (supervise true 10 (pos 9) rounds start_watching)).deeds ≡ killed 21 ∷ reconciled ∷ []
unfolding supervise quiet_round reload_step
killed_late = refl

supervise_grace_example :
    Sanctioned
      (due_of 10 rounds none)
      (watch_of (supervise true 10 (pos 9) rounds start_watching)).deeds
supervise_grace_example = supervise_grace true 10 (pos 9) rounds

supervise-Ends_example : Ends (supervise true 10 (pos 9) rounds start_watching)
supervise-Ends_example =
    supervise-Ends true 10 (pos 9) (idle ∷ []) stopping (waiting ∷ []) late [] (ground arith, tt)
      refl (ground arith)

supervise-reconciles_example :
    reconciles
      (watch_of (
        supervise true 10
          (pos 9)
          (timed_out stopping ∷ timed_out waiting ∷ [])
          start_watching)).deeds
    ≡ 0
supervise-reconciles_example =
    supervise-reconciles true 10 (pos 9) stopping (timed_out waiting ∷ []) start_watching refl

-- The device is found, the routing applied, and the backend ends by itself.
abbrev machine : Machine Deci
machine = record {
  client = some 24;
  present = true;
  dry_run = false;
  binaries = true;
  alive = true;
  echo = some link_echo;
  rounds = timed_out idle ∷ ended false (pos 3) ∷ [];
  status = pos 9;
  grace = 10;
  present_after = true;
}

run_session-Contract_example : Contract machine (run_session machine desk)
run_session-Contract_example = run_session-Contract machine desk refl

-- The device is not heard.
abbrev outside : Environment Deci
outside = record { stop = λ n. false; dump = λ n. some []; echo = none; sleeps = 0 }

abbrev nothing_yet : Session Deci
nothing_yet = record { questions = 0; listeners = 0; pending = []; done = true; acts = [] }

-- A file that `configparser` refuses leaves the session as it was.
malformed_ignored : on_hangup outside desk (some malformed) nothing_yet ≡ on tt nothing_yet
unfolding on_hangup load_config
malformed_ignored = refl

-- A file that is not in UTF-8 ends it.
undecodable_raises : on_hangup outside desk (some undecodable) nothing_yet ≡ off nothing_yet
unfolding on_hangup load_config
undecodable_raises = refl
