-- ===== src/Session/Grace.antt =====
-- The escalation of `supervise` of src/oscmix_desk/process.py: a stop, a grace period, a SIGKILL.
use oscmix_autostart.Base.{
  ℕ, ◌+◌, ◌≤◌, ◌≡◌, refl, sym, ap, ◌∙◌, subst, leb, Bool, true, false, not, ◌&&◌, ◌||◌, Bool-cases,
  inl, inr, Option, none, some, List, [], ◌∷◌, arith, if◌then◌else◌,
}
use oscmix_autostart.Base.Int.{ℤ}
use oscmix_autostart.Session.Supervise.{
  Quiet, Round, ended, timed_out, Deed, reconciled, killed, Watch, Supervision, returned, running,
  start_watching, heard, reload_step, escalate, quiet_round, supervise,
}

-- Where the loop stands.
abbrev pub watch_of : Supervision → Watch
watch_of (returned code w) = w
watch_of (running w) = w

-- The clock of the first round by whose end a stop is asked for, if the child is still there.
unfoldable pub first_notice : List Round → Option ℕ
first_notice [] = none
first_notice (ended stopped code ∷ rounds) = none
first_notice (timed_out q ∷ rounds) =
    let rest = first_notice rounds in if q.stop_before || q.stop_after then some q.now else rest

-- The time from which the child may be killed: the deadline, or what it will be.
abbrev pub due_from : ℕ → Option ℕ → Option ℕ → Option ℕ
due_from grace (some d) notice = some d
due_from grace none none = none
due_from grace none (some t) = some (t + grace)

abbrev pub due_of : ℕ → List Round → Option ℕ → Option ℕ
due_of grace rounds deadline = due_from grace deadline (first_notice rounds)

-- A kill is not before that time.
abbrev pub Sanctioned : Option ℕ → List Deed → Type 0
Sanctioned due [] = Unit
Sanctioned due (reconciled ∷ deeds) = Sanctioned due deeds
Sanctioned due (killed t ∷ deeds) = ((d : ℕ) × (due ≡ some d) × (d ≤ t)) × Sanctioned due deeds

-- A stop has its deadline at the end of the round.
abbrev Armed : Bool → Option ℕ → Type 0
Armed true none = ⊥
Armed stop deadline = Unit

-- The deadline is what is due.
abbrev DueIs : Option ℕ → Option ℕ → Type 0
DueIs none due = Unit
DueIs (some d) due = due ≡ some d

DueIs-due_of : (grace : ℕ) (rounds : List Round) (d : Option ℕ) → DueIs d (due_of grace rounds d)
DueIs-due_of grace rounds none = tt
DueIs-due_of grace rounds (some d) = refl

reload_step-stop :
    (hc : Bool) (q : Quiet) (w : Watch) → (reload_step hc q w).stop ≡ (w.stop || q.stop_after)
unfolding reload_step
reload_step-stop hc q w = ground arith

reload_step-deadline :
    (hc : Bool) (q : Quiet) (w : Watch) → (reload_step hc q w).deadline ≡ w.deadline
unfolding reload_step
reload_step-deadline hc q w = ground arith

reload_step-Sanctioned :
    (due : Option ℕ) (hc : Bool) (q : Quiet) (w : Watch)
    → Sanctioned due w.deeds
    → Sanctioned due (reload_step hc q w).deeds
unfolding reload_step
reload_step-Sanctioned due hc q w h = elim (Bool-cases (w.reload && hc && not w.stop)) [
  | inl e ↦ rw e h
  | inr e ↦ rw e h
]

escalate-Armed :
    (grace now : ℕ) (stop : Bool) (d : Option ℕ) → Armed stop (escalate grace now stop d).0
escalate-Armed grace now false d = tt
escalate-Armed grace now true none = tt
escalate-Armed grace now true (some due) = tt

escalate_due : (grace now d : ℕ) (stop : Bool) → (escalate grace now stop (some d)).0 ≡ some d
escalate_due grace now d true = refl
escalate_due grace now d false = refl

-- The round moves the deadline to where it will be.
due_of-escalate :
    (grace : ℕ) (q : Quiet) (rounds : List Round) (stop : Bool) (d : Option ℕ)
    → Armed stop d
    → due_of grace rounds (escalate grace q.now (stop || q.stop_before || q.stop_after) d).0
      ≡ due_of grace (timed_out q ∷ rounds) d
unfolding first_notice
due_of-escalate grace q rounds false none h = elim (Bool-cases (q.stop_before || q.stop_after)) [
  | inl e ↦ rw e refl
  | inr e ↦ rw e refl
]
due_of-escalate grace q rounds true none h = elim h [ ]
due_of-escalate grace q rounds stop (some d) h =
    rw (escalate_due grace q.now d (stop || q.stop_before || q.stop_after)) refl

-- A kill of this round is not before the deadline.
escalate-Sanctioned :
    (grace now : ℕ) (stop : Bool) (d due : Option ℕ) (deeds : List Deed)
    → DueIs d due
    → Sanctioned due deeds
    → Sanctioned due (if (escalate grace now stop d).1 then killed now ∷ deeds else deeds)
escalate-Sanctioned grace now false d due deeds e h = h
escalate-Sanctioned grace now true none due deeds e h = h
escalate-Sanctioned grace now true (some d) due deeds e h = elim (Bool-cases (leb d now)) [
  | inl t ↦ rw t ((d, e, ground arith), h)
  | inr t ↦ rw t h
]

quiet_round-Sanctioned :
    (due : Option ℕ) (hc : Bool) (grace : ℕ) (q : Quiet) (w : Watch)
    → DueIs w.deadline due
    → Sanctioned due w.deeds
    → Sanctioned due (quiet_round hc grace q w).0.deeds
unfolding quiet_round
quiet_round-Sanctioned due hc grace q w e h =
    let w' = reload_step hc q (heard q w) in
    escalate-Sanctioned grace q.now w'.stop w'.deadline due w'.deeds
      (subst (λ d. DueIs d due) (sym (reload_step-deadline hc q (heard q w))) e)
      (reload_step-Sanctioned due hc q (heard q w) h)

pub quiet_round-deadline :
    (hc : Bool) (grace : ℕ) (q : Quiet) (w : Watch)
    → (quiet_round hc grace q w).0.deadline
      ≡ (escalate grace q.now (w.stop || q.stop_before || q.stop_after) w.deadline).0
unfolding quiet_round
quiet_round-deadline hc grace q w =
    rw (reload_step-stop hc q (heard q w), reload_step-deadline hc q (heard q w)) refl

pub quiet_round-stop :
    (hc : Bool) (grace : ℕ) (q : Quiet) (w : Watch)
    → (quiet_round hc grace q w).0.stop ≡ (w.stop || q.stop_before || q.stop_after)
unfolding quiet_round
quiet_round-stop hc grace q w = reload_step-stop hc q (heard q w)

pub quiet_round-kill :
    (hc : Bool) (grace : ℕ) (q : Quiet) (w : Watch)
    → (quiet_round hc grace q w).1
      ≡ (escalate grace q.now (w.stop || q.stop_before || q.stop_after) w.deadline).1
unfolding quiet_round
quiet_round-kill hc grace q w =
    rw (reload_step-stop hc q (heard q w), reload_step-deadline hc q (heard q w)) refl

quiet_round-Armed :
    (hc : Bool) (grace : ℕ) (q : Quiet) (w : Watch)
    → Armed (quiet_round hc grace q w).0.stop (quiet_round hc grace q w).0.deadline
unfolding quiet_round
quiet_round-Armed hc grace q w = escalate-Armed grace q.now _ _

supervise-Sanctioned :
    (hc : Bool) (grace : ℕ) (status : ℤ) (rounds : List Round) (w : Watch)
    → Armed w.stop w.deadline
    → Sanctioned (due_of grace rounds w.deadline) w.deeds
    → Sanctioned
        (due_of grace rounds w.deadline)
        (watch_of (supervise hc grace status rounds w)).deeds
unfolding supervise
supervise-Sanctioned hc grace status [] w a h = h
supervise-Sanctioned hc grace status (ended stopped code ∷ rounds) w a h = h
supervise-Sanctioned hc grace status (timed_out q ∷ rounds) w a h =
    let due = due_of grace (timed_out q ∷ rounds) w.deadline in
    let next = (quiet_round hc grace q w).0 in
    let safe : Sanctioned due next.deeds =
      quiet_round-Sanctioned due hc grace q w (DueIs-due_of grace (timed_out q ∷ rounds) w.deadline)
        h in
    let same : due_of grace rounds next.deadline ≡ due =
      ap (due_of grace rounds) (quiet_round-deadline hc grace q w)
      ∙ due_of-escalate grace q rounds w.stop w.deadline a in
    elim (Bool-cases (quiet_round hc grace q w).1) [
      | inl e ↦ rw e safe
      | inr e ↦ rw e (
          subst (λ d. Sanctioned d (watch_of (supervise hc grace status rounds next)).deeds) same
            (supervise-Sanctioned hc grace status rounds next (quiet_round-Armed hc grace q w)
              (subst (λ d. Sanctioned d next.deeds) (sym same) safe)))
    ]

-- supervise kills the child only at a time that is at least the grace period behind the first round
-- that noticed a stop, whatever the child, the signals and the clock do.
pub supervise_grace :
    (hc : Bool) (grace : ℕ) (status : ℤ) (rounds : List Round)
    → Sanctioned
        (due_of grace rounds none)
        (watch_of (supervise hc grace status rounds start_watching)).deeds
supervise_grace hc grace status rounds =
    supervise-Sanctioned hc grace status rounds start_watching tt tt
