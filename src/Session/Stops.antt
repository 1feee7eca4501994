-- ===== src/Session/Stops.antt =====
-- That `supervise` of src/oscmix_desk/process.py ends after a stop, and what it no longer does then.
use oscmix_autostart.Base.{
  ℕ, suc, ◌+◌, ◌≤◌, ◌≡◌, refl, sym, ◌∙◌, subst, Bool, true, false, not, ◌&&◌, ◌||◌, Bool-cases, inl,
  inr, Option, none, some, List, [], ◌∷◌, ◌++◌, map, All, arith,
}
use oscmix_autostart.Base.Int.{ℤ}
use oscmix_autostart.Session.Supervise.{
  Quiet, Round, ended, timed_out, Deed, reconciled, killed, Watch, Supervision, returned, running,
  start_watching, heard, reload_step, escalate, escalated, quiet_round, supervise,
}
use oscmix_autostart.Session.Grace.{
  watch_of, quiet_round-deadline, quiet_round-stop, quiet_round-kill,
}

-- The loop ended.
abbrev pub Ends : Supervision → Type 0
Ends (returned code w) = Unit
Ends (running w) = ⊥

-- A deadline is there with a stop only, and not above the bound.
abbrev TimedBy : ℕ → Bool → Option ℕ → Type 0
TimedBy bound false none = Unit
TimedBy bound true (some d) = d ≤ bound
TimedBy bound stop deadline = ⊥

escalate-TimedBy :
    (bound grace now : ℕ) (stop later : Bool) (d : Option ℕ)
    → now + grace ≤ bound
    → TimedBy bound stop d
    → TimedBy bound (stop || later) (escalate grace now (stop || later) d).0
escalate-TimedBy bound grace now true later (some d) h t = t
escalate-TimedBy bound grace now true later none h t = elim t [ ]
escalate-TimedBy bound grace now false true none h t = h
escalate-TimedBy bound grace now false false none h t = tt
escalate-TimedBy bound grace now false later (some d) h t = elim t [ ]

or_assoc : (a b c : Bool) → ((a || b) || c) ≡ (a || (b || c))
or_assoc true b c = refl
or_assoc false b c = refl

or_true : (a b c : Bool) → (b || c) ≡ true → ((a || b) || c) ≡ true
or_true a b c h = ground arith

-- A round keeps the deadline timed.
quiet_round-TimedBy :
    (bound : ℕ) (hc : Bool) (grace : ℕ) (q : Quiet) (w : Watch)
    → q.now + grace ≤ bound
    → TimedBy bound w.stop w.deadline
    → TimedBy bound (quiet_round hc grace q w).0.stop (quiet_round hc grace q w).0.deadline
quiet_round-TimedBy bound hc grace q w h t =
    rw
      (
        quiet_round-stop hc grace q w,
        quiet_round-deadline hc grace q w,
        or_assoc w.stop q.stop_before q.stop_after,
      )
      (escalate-TimedBy bound grace q.now w.stop (q.stop_before || q.stop_after) w.deadline h t)

escalate_timed :
    (bound grace now : ℕ) (stop : Bool) (d : Option ℕ)
    → TimedBy bound true d
    → (escalate grace now stop d).0 ≡ d
escalate_timed bound grace now true (some d) t = refl
escalate_timed bound grace now false (some d) t = refl
escalate_timed bound grace now stop none t = elim t [ ]

escalate_kills :
    (bound grace now : ℕ) (d : Option ℕ)
    → TimedBy bound true d
    → bound ≤ now
    → (escalate grace now true d).1 ≡ true
escalate_kills bound grace now (some d) t h = ground arith
escalate_kills bound grace now none t h = elim t [ ]

-- What the loop does with a round that does not kill, and with one that does.
round-Ends :
    (hc : Bool) (grace : ℕ) (status : ℤ) (q : Quiet) (rounds : List Round) (w : Watch)
    → Ends (supervise hc grace status rounds (quiet_round hc grace q w).0)
    → Ends (supervise hc grace status (timed_out q ∷ rounds) w)
unfolding supervise
round-Ends hc grace status q rounds w h = elim (Bool-cases (quiet_round hc grace q w).1) [
  | inl e ↦ rw e tt
  | inr e ↦ rw e h
]

timed-Ends :
    (hc : Bool) (grace : ℕ) (status : ℤ) (middle : List Quiet) (l : Quiet) (after : List Round)
    (w : Watch)
    → w.stop ≡ true
    → TimedBy l.now true w.deadline
    → Ends (supervise hc grace status (map timed_out middle ++ (timed_out l ∷ after)) w)
unfolding supervise
timed-Ends hc grace status [] l after w s t =
    let kill : (quiet_round hc grace l w).1 ≡ true =
      quiet_round-kill hc grace l w
      ∙ rw s (escalate_kills l.now grace l.now w.deadline t (omega arith)) in
    rw kill tt
timed-Ends hc grace status (q ∷ middle) l after w s t =
    let next = (quiet_round hc grace q w).0 in
    let stopped : next.stop ≡ true = quiet_round-stop hc grace q w ∙ rw s refl in
    let kept : next.deadline ≡ w.deadline =
      quiet_round-deadline hc grace q w ∙ escalate_timed l.now grace q.now _ w.deadline t in
    round-Ends hc grace status q (map timed_out middle ++ (timed_out l ∷ after)) w (
      timed-Ends hc grace status middle l after next stopped
        (subst (TimedBy l.now true) (sym kept) t))

weaken_bound :
    (a b : ℕ) (stop : Bool) (d : Option ℕ)
    → a ≤ b
    → stop ≡ true
    → TimedBy a stop d
    → TimedBy b true d
weaken_bound a b true (some d) h s t = ground arith
weaken_bound a b true none h s t = elim t [ ]
weaken_bound a b false d h s t = cc

stop-Ends :
    (hc : Bool) (grace : ℕ) (status : ℤ) (before : List Quiet) (k : Quiet) (middle : List Quiet)
    (l : Quiet) (after : List Round) (w : Watch)
    → All (λ q. q.now ≤ k.now) before
    → (k.stop_before || k.stop_after) ≡ true
    → k.now + grace ≤ l.now
    → TimedBy (k.now + grace) w.stop w.deadline
    → Ends (
        supervise hc grace status
          (map timed_out before ++ (timed_out k ∷ (map timed_out middle ++ (timed_out l ∷ after))))
          w)
stop-Ends hc grace status [] k middle l after w m s h t =
    let next = (quiet_round hc grace k w).0 in
    let stopped : next.stop ≡ true =
      quiet_round-stop hc grace k w ∙ or_true w.stop k.stop_before k.stop_after s in
    let timed : TimedBy (k.now + grace) next.stop next.deadline =
      quiet_round-TimedBy (k.now + grace) hc grace k w (omega arith) t in
    round-Ends hc grace status k _ w (
      timed-Ends hc grace status middle l after next stopped
        (weaken_bound (k.now + grace) l.now next.stop next.deadline h stopped timed))
stop-Ends hc grace status (q ∷ before) k middle l after w m s h t =
    let rounds =
      map timed_out before ++ (timed_out k ∷ (map timed_out middle ++ (timed_out l ∷ after))) in
    let earlier = m.0 in
    round-Ends hc grace status q rounds w (
      stop-Ends hc grace status before k middle l after (quiet_round hc grace q w).0 m.1 s h
        (quiet_round-TimedBy (k.now + grace) hc grace q w (omega arith) t))

-- Once a stop is asked for, supervise returns: in the first round at the latest whose clock is the
-- grace period behind the round that noticed the stop, although the child goes on, where the clock
-- does not run backwards before the stop.
pub supervise-Ends :
    (hc : Bool) (grace : ℕ) (status : ℤ) (before : List Quiet) (k : Quiet) (middle : List Quiet)
    (l : Quiet) (after : List Round)
    → All (λ q. q.now ≤ k.now) before
    → (k.stop_before || k.stop_after) ≡ true
    → k.now + grace ≤ l.now
    → Ends (
        supervise hc grace status
          (map timed_out before ++ (timed_out k ∷ (map timed_out middle ++ (timed_out l ∷ after))))
          start_watching)
supervise-Ends hc grace status before k middle l after m s h =
    stop-Ends hc grace status before k middle l after start_watching m s h tt

-- How often the callback ran.
abbrev pub reconciles : List Deed → ℕ
reconciles [] = 0
reconciles (reconciled ∷ deeds) = suc (reconciles deeds)
reconciles (killed t ∷ deeds) = reconciles deeds

reload_step-reconciles :
    (hc : Bool) (q : Quiet) (w : Watch)
    → w.stop ≡ true
    → reconciles (reload_step hc q w).deeds ≡ reconciles w.deeds
unfolding reload_step
reload_step-reconciles hc q w s =
    let idle : (w.reload && hc && not w.stop) ≡ false = ground arith in rw idle refl

escalated-reconciles :
    (now : ℕ) (e : Option ℕ × Bool) (w : Watch)
    → reconciles (escalated now e w).deeds ≡ reconciles w.deeds
escalated-reconciles now (d, true) w = refl
escalated-reconciles now (d, false) w = refl

quiet_round-reconciles :
    (hc : Bool) (grace : ℕ) (q : Quiet) (w : Watch)
    → (w.stop || q.stop_before) ≡ true
    → reconciles (quiet_round hc grace q w).0.deeds ≡ reconciles w.deeds
unfolding quiet_round
quiet_round-reconciles hc grace q w s =
    escalated-reconciles q.now
      (escalate grace q.now (reload_step hc q (heard q w)).stop
        (reload_step hc q (heard q w)).deadline)
      (reload_step hc q (heard q w))
    ∙ reload_step-reconciles hc q (heard q w) s

round-reconciles :
    (hc : Bool) (grace : ℕ) (status : ℤ) (q : Quiet) (rounds : List Round) (w : Watch)
    → (w.stop || q.stop_before) ≡ true
    → reconciles (watch_of (supervise hc grace status rounds (quiet_round hc grace q w).0)).deeds
      ≡ reconciles (quiet_round hc grace q w).0.deeds
    → reconciles (watch_of (supervise hc grace status (timed_out q ∷ rounds) w)).deeds
      ≡ reconciles w.deeds
unfolding supervise
round-reconciles hc grace status q rounds w s rest =
    elim (Bool-cases (quiet_round hc grace q w).1) [
      | inl e ↦ rw e (quiet_round-reconciles hc grace q w s)
      | inr e ↦ rw e (rest ∙ quiet_round-reconciles hc grace q w s)
    ]

stopped-reconciles :
    (hc : Bool) (grace : ℕ) (status : ℤ) (rounds : List Round) (w : Watch)
    → w.stop ≡ true
    → reconciles (watch_of (supervise hc grace status rounds w)).deeds ≡ reconciles w.deeds
unfolding supervise
stopped-reconciles hc grace status [] w s = refl
stopped-reconciles hc grace status (ended stopped code ∷ rounds) w s = refl
stopped-reconciles hc grace status (timed_out q ∷ rounds) w s =
    round-reconciles hc grace status q rounds w (rw s refl) (
      stopped-reconciles hc grace status rounds (quiet_round hc grace q w).0
        (quiet_round-stop hc grace q w ∙ rw s refl))

-- supervise starts no reconcile behind a stop: not in the round whose tests see it, and in no later
-- one.
pub supervise-reconciles :
    (hc : Bool) (grace : ℕ) (status : ℤ) (q : Quiet) (rounds : List Round) (w : Watch)
    → (w.stop || q.stop_before) ≡ true
    → reconciles (watch_of (supervise hc grace status (timed_out q ∷ rounds) w)).deeds
      ≡ reconciles w.deeds
supervise-reconciles hc grace status q rounds w s = round-reconciles hc grace status q rounds w s (
    stopped-reconciles hc grace status rounds (quiet_round hc grace q w).0
      (quiet_round-stop hc grace q w ∙ rw s refl))
