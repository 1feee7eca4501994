-- ===== src/Session/Supervise.antt =====
-- `supervise` of src/oscmix_desk/process.py: one step for each round of its loop.
use oscmix_autostart.Base.{
  ℕ, ◌+◌, leb, Bool, true, false, not, ◌&&◌, ◌||◌, Option, none, some, List, [], ◌∷◌, if◌then◌else◌,
}
use oscmix_autostart.Base.Int.{ℤ}

-- A round in which the child did not end: what the signal handlers set up to the two tests, what they
-- set behind the first test or during the callback, and the clock, in some unit of time.
pub record Quiet : Type 0 where
  pub reload_before : Bool
  pub stop_before : Bool
  pub reload_after : Bool
  pub stop_after : Bool
  pub now : ℕ

-- `child.wait(timeout=0.5)`: the child ended, whether a stop was asked for meanwhile and with which
-- status, or the time was over.
pub data Round : Type 0 where
  ended : Bool → ℤ → Round
  timed_out : Quiet → Round

pub data Deed : Type 0 where
  -- `on_reload()`
  reconciled : Deed
  -- `child.kill()`, at a time.
  killed : ℕ → Deed

-- `stop_requested`, `reload_requested`, `kill_deadline`, and what was done, newest first.
pub record Watch : Type 0 where
  pub stop : Bool
  pub reload : Bool
  pub deadline : Option ℕ
  pub deeds : List Deed

-- The loop returned the status of the child, or goes on.
pub data Supervision : Type 0 where
  returned : ℤ → Watch → Supervision
  running : Watch → Supervision

abbrev pub start_watching : Watch
start_watching = record { stop = false; reload = false; deadline = none; deeds = [] }

-- The signals that came before the tests of the round.
abbrev pub heard : Quiet → Watch → Watch
heard q w = record w { stop = w.stop || q.stop_before; reload = w.reload || q.reload_before }

-- The callback, where one is asked for; the flag is cleared before it runs.
unfoldable pub reload_step : Bool → Quiet → Watch → Watch
reload_step has_callback q w =
    if w.reload && has_callback && not w.stop
    then record w {
      stop = w.stop || q.stop_after;
      reload = q.reload_after;
      deeds = reconciled ∷ w.deeds;
    }
    else record w { stop = w.stop || q.stop_after; reload = w.reload || q.reload_after }

-- The escalation: the deadline, and whether the child is killed.
abbrev pub escalate : ℕ → ℕ → Bool → Option ℕ → Option ℕ × Bool
escalate grace now false deadline = (deadline, false)
escalate grace now true none = (some (now + grace), false)
escalate grace now true (some due) = (some due, leb due now)

abbrev pub escalated : ℕ → Option ℕ × Bool → Watch → Watch
escalated now e w = record w {
  deadline = e.0;
  deeds = if e.1 then killed now ∷ w.deeds else w.deeds;
}

-- A round, and whether the child is killed.
unfoldable pub quiet_round : Bool → ℕ → Quiet → Watch → Watch × Bool
quiet_round has_callback grace q w =
    let w' = reload_step has_callback q (heard q w) in
    let e = escalate grace q.now w'.stop w'.deadline in (escalated q.now e w', e.1)

-- The loop over the rounds that the child and the clock give it; `status` is what `child.wait()`
-- returns of a killed child.
unfoldable pub supervise : Bool → ℕ → ℤ → List Round → Watch → Supervision
supervise has_callback grace status [] w = running w
supervise has_callback grace status (ended stopped code ∷ rounds) w =
    returned code (record w { stop = w.stop || stopped })
supervise has_callback grace status (timed_out q ∷ rounds) w =
    let after = quiet_round has_callback grace q w in
    let rest = supervise has_callback grace status rounds after.0 in
    if after.1 then returned status after.0 else rest
