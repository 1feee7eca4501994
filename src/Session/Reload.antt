-- ===== src/Session/Reload.antt =====
-- `_reconcile` of src/oscmix_desk/session.py: what a SIGHUP makes the session do.
use oscmix_autostart.Base.{Option, none, some}
use oscmix_autostart.Base.Float.{Floating}
use oscmix_autostart.Config.Defs.{Config}
use oscmix_autostart.Config.Parsed.{Parsed, parsed, refused, raised}
use oscmix_autostart.Config.Document.{File}
use oscmix_autostart.Config.Load.{load_config}
use oscmix_autostart.Verify.Session.{Environment, Step, off, ◌>>=◌, give}
use oscmix_autostart.Verify.Repair.{reconcile_now}

module _ {F : Type 0} where
  -- The ports and the name of the device belong to the running process.
  abbrev pub keep_machine : Config F → Config F → Config F
  keep_machine running fresh = record fresh {
    osc_port = running.osc_port;
    osc_recv_port = running.osc_recv_port;
    device_name = running.device_name;
  }

module _ {F : Type 0} ⦃fl : Floating F⦄ where
  -- A config that is not usable is not applied; other exceptions go through.
  abbrev pub reconcile_with : Environment F → Config F → Parsed (Config F) → Step F Unit
  reconcile_with env running (refused p) = give tt
  reconcile_with env running raised = off
  reconcile_with env running (parsed fresh) = do
    _ ← reconcile_now env (keep_machine running fresh)
    give tt

  -- Where there is no path, the running config is reconciled.
  abbrev pub reconcile_path : Environment F → Config F → Option File → Step F Unit
  reconcile_path env running none = do _ ← reconcile_now env running; give tt
  reconcile_path env running (some file) = reconcile_with env running (load_config (some file))

  unfoldable pub on_hangup : Environment F → Config F → Option File → Step F Unit
  on_hangup env running file = reconcile_path env running file
