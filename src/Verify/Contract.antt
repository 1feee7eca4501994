-- ===== src/Verify/Contract.antt =====
-- The stop contract of the verifier: no routing is written but right behind a question to the stop
-- check, which answered "do not stop".
use oscmix_autostart.Base.{
  ℕ, zero, suc, ◌≡◌, refl, Bool, true, false, Option, none, some, List, [], ◌∷◌, if◌then◌else◌,
  extend_all,
}
use oscmix_autostart.Base.Text.{Text}
use oscmix_autostart.Base.Int.{ℤ, eq_ℤ}
use oscmix_autostart.Base.Float.{Floating, IntOf, value, value_error, overflow_error}
use oscmix_autostart.Base.Dict.{Dict, get, remove}
use oscmix_autostart.Base.Equality.{text_eq}
use oscmix_autostart.Config.Defs.{Value, Config}
use oscmix_autostart.Config.Convert.{int_of_value}
use oscmix_autostart.Reconcile.Messages.{Message, mix_messages}
use oscmix_autostart.Routing.Apply.{Effect, apply_routing}
use oscmix_autostart.Routing.Trace.{interrupted}
use oscmix_autostart.Verify.Session.{
  Act, asked, requested, mixed, applied, Environment, Session, Run, Step, on, off, then_do, give,
  lift, act, ask, wait_unless_stopped, send_mix, blind_reapply_mix, reapply, release, link_sync,
}

module _ {F : Type 0} where
  -- The answer of the stop check, where asking it was the last act; behind anything else (a write, a
  -- request, a report) nothing may be written.
  abbrev pub answer_before : List (Act F) → Bool
  answer_before (asked b ∷ acts) = b
  answer_before acts = true

module _ {F : Type 0} (env : Environment F) where
  -- Every answer is one of the environment's stop check, and every write of routing has a question of
  -- its own, which was answered "do not stop", with nothing written, requested or received between the
  -- two.
  abbrev pub Guarded : List (Act F) → Type 0
  Guarded [] = Unit
  Guarded (asked b ∷ acts) = ((n : ℕ) × (env.stop n ≡ b)) × Guarded acts
  Guarded (mixed ms ∷ acts) = (answer_before acts ≡ false) × Guarded acts
  Guarded (applied kept fx ∷ acts) = (answer_before acts ≡ false) × Guarded acts
  Guarded (a ∷ acts) = Guarded acts

  abbrev pub Safe : Session F → Type 0
  Safe s = Guarded s.acts

  -- The stop check was asked last, and answered `b` if it was "do not stop".
  abbrev pub After : Bool → Session F → Type 0
  After b s = (answer_before s.acts ≡ b) × Guarded s.acts

  -- What holds where a step returns; a step that raises is safe.
  abbrev pub Keeps : {A : Type 0} → (A → Session F → Type 0) → Run F A → Type 0
  Keeps Q (on a s) = Q a s
  Keeps Q (off s) = Safe s

  abbrev pub Kept : {A : Type 0} → Run F A → Type 0
  Kept = Keeps (λ a s. Safe s)

  pub then-Keeps :
      {A B : Type 0} (P : A → Session F → Type 0) (Q : B → Session F → Type 0) (m : Run F A)
      (f : A → Step F B)
      → Keeps P m
      → ((a : A) (s : Session F) → P a s → Keeps Q (f a s))
      → Keeps Q (then_do m f)
  then-Keeps P Q (on a s) f p k = k a s p
  then-Keeps P Q (off s) f p k = p

  -- A step that ends with an answer of the stop check, and what is done either way.
  pub test-Keeps :
      {A : Type 0} (Q : A → Session F → Type 0) (m : Run F Bool) (halt go : Step F A)
      → Keeps After m
      → ((s : Session F) → After true s → Keeps Q (halt s))
      → ((s : Session F) → After false s → Keeps Q (go s))
      → Keeps Q (then_do m (λ b. if b then halt else go))
  test-Keeps Q (on true s) halt go p y n = y s p
  test-Keeps Q (on false s) halt go p y n = n s p
  test-Keeps Q (off s) halt go p y n = p

  pub ask-Keeps : (s : Session F) → Safe s → Keeps After (ask env s)
  unfolding ask
  ask-Keeps s g = (refl, ((s.questions, refl), g))

  pub wait-Keeps : (n : ℕ) (s : Session F) → Safe s → Keeps After (wait_unless_stopped env n s)
  unfolding wait_unless_stopped
  wait-Keeps zero s g = ask-Keeps s g
  wait-Keeps (suc n) s g =
      test-Keeps After (ask env s) (give true) (wait_unless_stopped env n) (ask-Keeps s g)
        (λ s' a. a) (λ s' a. wait-Keeps n s' a.1)

module _ {F : Type 0} ⦃fl : Floating F⦄ where
  sent-Keeps :
      (env : Environment F) (o : Option (List (Message F))) (s : Session F)
      → After env false s
      → Kept env (then_do (lift o s) (λ ms. act (mixed ms)))
  unfolding act
  sent-Keeps env none s a = a.1
  sent-Keeps env (some ms) s a = a

  pub send_mix-Kept :
      (env : Environment F) (c : Config F) (s : Session F)
      → After env false s
      → Kept env (send_mix c s)
  unfolding send_mix
  send_mix-Kept env c s a = sent-Keeps env (extend_all mix_messages c.routes) s a

  pub blind-Keeps :
      (env : Environment F) (c : Config F) (s : Session F)
      → Safe env s
      → Kept env (blind_reapply_mix env c s)
  unfolding blind_reapply_mix act
  blind-Keeps env c s g =
      test-Keeps env (λ a s'. Safe env s') (ask env s) (give tt) _ (ask-Keeps env s g) (λ s' a. a.1)
        (λ s' a.
          test-Keeps env (λ b s''. Safe env s'')
            (wait_unless_stopped env env.sleeps (record s' { acts = requested ∷ s'.acts }))
            (give tt) (send_mix c)
            (wait-Keeps env env.sleeps (record s' { acts = requested ∷ s'.acts }) a.1)
            (λ s'' b. b.1) (λ s'' b. send_mix-Kept env c s'' b))

  reapplied-Keeps :
      (env : Environment F) (o : Option (List (Effect F))) (kept : List Text) (s : Session F)
      → After env false s
      → Kept env (
          then_do (lift o s) (λ fx. λ s'.
            then_do (act (applied kept fx) s') (λ x. if interrupted fx then off else give tt)))
  unfolding act
  reapplied-Keeps env none kept s a = a.1
  reapplied-Keeps env (some fx) kept s a =
      elim (interrupted fx)
        as (λ b.
          Kept env ((if b then off else give tt) (record s { acts = applied kept fx ∷ s.acts }))) [
            | true ↦ a
            | false ↦ a
          ]

  pub reapply-Keeps :
      (env : Environment F) (c : Config F) (kept : List Text) (s : Session F)
      → After env false s
      → Kept env (reapply env c kept s)
  unfolding reapply
  reapply-Keeps env c kept s a = reapplied-Keeps env (apply_routing c kept env.echo) kept s a

  release-Keeps :
      (env : Environment F) (c : Config F) (s : Session F) → Safe env s → Kept env (release env c s)
  unfolding release
  release-Keeps env c s g = by_pending s.pending
    where
      by_done :
          (b : Bool)
          → Kept env (
              if b
              then on tt s
              else then_do (ask env s) (λ stopped.
                if stopped then give tt else (λ s'. send_mix c (record s' { done = true }))))
      by_done true = g
      by_done false =
          test-Keeps env (λ a s'. Safe env s') (ask env s) (give tt)
            (λ s'. send_mix c (record s' { done = true })) (ask-Keeps env s g) (λ s' a. a.1)
            (λ s' a. send_mix-Kept env c (record s' { done = true }) a)

      by_pending :
          (ps : Dict Text ℤ)
          → Kept env (elim ps [
            | p ∷ ps ↦ on tt s
            | [] ↦
                if s.done
                then on tt s
                else then_do (ask env s) (λ stopped.
                  if stopped then give tt else (λ s'. send_mix c (record s' { done = true })))
          ])
      by_pending [] = by_done s.done
      by_pending (p ∷ ps) = g

  pub link_sync-Keeps :
      (env : Environment F) (c : Config F) (path : Text) (vs : List (Value F)) (s : Session F)
      → Safe env s
      → Kept env (link_sync env c path vs s)
  unfolding link_sync
  link_sync-Keeps env c path [] s g = release-Keeps env c s g
  link_sync-Keeps env c path (v ∷ vs) s g = by_wanted (get path s.pending)
    where
      by_test :
          (b : Bool)
          → Kept env
              (if b then release env c (record s { pending = remove path s.pending }) else on tt s)
      by_test true = release-Keeps env c (record s { pending = remove path s.pending }) g
      by_test false = g

      by_int :
          (wanted : ℤ) (i : IntOf)
          → Kept env (elim i [
            | value_error ↦ on tt s
            | overflow_error ↦ off s
            | value reported ↦
                if eq_ℤ reported wanted
                then release env c (record s { pending = remove path s.pending })
                else on tt s
          ])
      by_int wanted value_error = g
      by_int wanted overflow_error = g
      by_int wanted (value n) = by_test (eq_ℤ n wanted)

      by_wanted :
          (o : Option ℤ)
          → Kept env (elim o [
            | none ↦ release env c s
            | some wanted ↦ elim (int_of_value v) [
              | value_error ↦ on tt s
              | overflow_error ↦ off s
              | value reported ↦
                  if eq_ℤ reported wanted
                  then release env c (record s { pending = remove path s.pending })
                  else on tt s
            ]
          ])
      by_wanted none = release-Keeps env c s g
      by_wanted (some w) = by_int w (int_of_value v)
