-- ===== src/Session/Ready.antt =====
-- The exit contract of `run_session` of src/oscmix_desk/session.py under Type=notify.
use oscmix_autostart.Base.{
  ℕ, ◌≡◌, refl, sym, ◌∙◌, Bool, true, false, not, ◌&&◌, inl, inr, ◌⊎◌, Option, none, some, List, [],
  ◌∷◌, arith, if◌then◌else◌,
}
use oscmix_autostart.Base.Int.{ℤ, pos, eq_ℤ}
use oscmix_autostart.Base.Float.{Floating}
use oscmix_autostart.Config.Defs.{Config}
use oscmix_autostart.Reconcile.Desired.{Entry, desired}
use oscmix_autostart.Routing.Apply.{Effect, apply_routing}
use oscmix_autostart.Routing.Trace.{interrupted}
use oscmix_autostart.Session.Supervise.{
  Watch, Supervision, returned, running, start_watching, supervise,
}
use oscmix_autostart.Session.Run.{
  exit_ok, exit_failure, Deed, ready, supervised, awaited, Machine, Ending, exits, raises, goes_on,
  exit_code_for, after_supervise, supervised_session, applied_or_raised, apply_and_verify,
  apply_declared, session_with, start_session, run_session,
}

eq_of_not : (b : Bool) → not b ≡ true → b ≡ false
eq_of_not false h = refl
eq_of_not true h = cc

module _ {F : Type 0} where
  -- `READY=1` was sent.
  abbrev pub has_ready : List (Deed F) → Bool
  has_ready [] = false
  has_ready (ready ∷ deeds) = true
  has_ready (d ∷ deeds) = has_ready deeds

  -- The backend ended by itself, with another status than 0.
  abbrev pub crashed : List (Deed F) → Bool
  crashed [] = false
  crashed (supervised (returned code w) ∷ deeds) = not w.stop && not (eq_ℤ code (pos 0))
  crashed (d ∷ deeds) = crashed deeds

  -- What a failure is: the device is there and its sequencer client is not, the binaries are
  -- missing, or the backend ended by itself with a status other than 0 and the device is there.
  abbrev pub faulty : Machine F → List (Deed F) → Bool
  faulty m deeds = elim m.client [
    | none ↦ m.present
    | some client ↦ if m.binaries then m.present_after && crashed deeds else true
  ]

  -- A session without a fault ends cleanly and was signalled to systemd, and one with a fault fails.
  abbrev pub Contract : Machine F → Ending F → Type 0
  Contract m (exits code deeds) =
      ((faulty m deeds ≡ false) × (code ≡ exit_ok) × (has_ready deeds ≡ true))
      ⊎ ((faulty m deeds ≡ true) × (code ≡ exit_failure))
  Contract m (raises deeds) = Unit
  Contract m (goes_on deeds) = Unit

  -- The backend was started.
  abbrev Launched : Machine F → ℕ → Type 0
  Launched m client = (m.client ≡ some client) × (m.binaries ≡ true)

  if-Contract :
      (m : Machine F) (b : Bool) (x y : Ending F)
      → (b ≡ true → Contract m x)
      → (b ≡ false → Contract m y)
      → Contract m (if b then x else y)
  if-Contract m true x y h k = h refl
  if-Contract m false x y h k = k refl

  exit_code_for-Contract :
      (m : Machine F) (n : ℕ) (code : ℤ) (w : Watch) (deeds : List (Deed F))
      → Launched m n
      → Contract m (
          exit_code_for code w.stop m.present_after
            (awaited ∷ supervised (returned code w) ∷ deeds))
  unfolding exit_code_for
  exit_code_for-Contract m n code w deeds l =
      if-Contract m w.stop _ _ (λ s. inl (rw (l.0, l.1, s) (ground arith), refl, refl))
        (λ s.
          if-Contract m (not m.present_after) _ _
            (λ p. inl (rw (l.0, l.1, eq_of_not m.present_after p) refl, refl, refl))
            (λ p.
              if-Contract m (eq_ℤ code (pos 0)) _ _
                (λ e. inl (rw (l.0, l.1, s, e) (ground arith), refl, refl))
                (λ e. inr (rw (l.0, l.1, s, e) (ground arith), refl))))

  supervised-Contract :
      (m : Machine F) (n : ℕ) (deeds : List (Deed F))
      → Launched m n
      → Contract m (supervised_session m deeds)
  unfolding supervised_session
  supervised-Contract m n deeds l = ended (supervise true m.grace m.status m.rounds start_watching)
    where
      ended : (s : Supervision) → Contract m (after_supervise m deeds s)
      ended (running w) = tt
      ended (returned code w) = exit_code_for-Contract m n code w deeds l

  applied_or_raised-Contract :
      (m : Machine F) (n : ℕ) (deeds : List (Deed F)) (fx : Option (List (Effect F)))
      → Launched m n
      → Contract m (applied_or_raised m deeds fx)
  applied_or_raised-Contract m n deeds none l = tt
  applied_or_raised-Contract m n deeds (some fx) l =
      if-Contract m (interrupted fx) _ _ (λ e. tt) (λ e. supervised-Contract m n _ l)

module _ {F : Type 0} ⦃fl : Floating F⦄ where
  apply_declared-Contract :
      (m : Machine F) (n : ℕ) (c : Config F) (deeds : List (Deed F)) (es : Option (List (Entry F)))
      → Launched m n
      → Contract m (apply_declared m c deeds es)
  apply_declared-Contract m n c deeds none l = tt
  apply_declared-Contract m n c deeds (some []) l = supervised-Contract m n _ l
  apply_declared-Contract m n c deeds (some (e ∷ es)) l =
      applied_or_raised-Contract m n deeds (apply_routing c [] m.echo) l

  start_session-Contract :
      (m : Machine F) (n : ℕ) (c : Config F) → m.client ≡ some n → Contract m (start_session m c)
  unfolding start_session apply_and_verify
  start_session-Contract m n c e =
      if-Contract m (not m.binaries) _ _
        (λ missing. inr (rw (e, eq_of_not m.binaries missing) refl, refl))
        (λ b.
          let l : Launched m n = (e, ground arith) in
          if-Contract m m.alive _ _ (λ a. apply_declared-Contract m n c _ (desired c) l)
            (λ a. supervised-Contract m n _ l))

  session_with-Contract :
      (m : Machine F) (c : Config F) (client : Option ℕ)
      → m.client ≡ client
      → m.dry_run ≡ false
      → Contract m (session_with m c client)
  session_with-Contract m c none e d =
      if-Contract m (not m.present) _ _ (λ p. inl (rw e (eq_of_not m.present p), refl, refl))
        (λ p. inr (rw e (ground arith), refl))
  session_with-Contract m c (some client) e d =
      if-Contract m m.dry_run _ _ (λ t. absurd (cc (sym t ∙ d)))
        (λ t. start_session-Contract m client c e)

  -- Where run_session returns an exit status and is no dry run: without a fault it is EXIT_OK and
  -- READY=1 was sent, and with a fault it is EXIT_FAILURE. A fault is that the device is there and
  -- its sequencer client is not, that a binary is missing, or that the backend ended without a stop
  -- and with a status other than 0 while the device was there.
  pub run_session-Contract :
      (m : Machine F) (c : Config F) → m.dry_run ≡ false → Contract m (run_session m c)
  unfolding run_session
  run_session-Contract m c d = session_with-Contract m c m.client refl d
