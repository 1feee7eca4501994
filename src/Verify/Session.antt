-- ===== src/Verify/Session.antt =====
-- The verifier as steps on its state: what it asks, hears and sends, newest first. The answers of
-- the stop check, of the receive port and of the clock are the environment's.
use oscmix_autostart.Base.{
  ℕ, zero, suc, Bool, true, Option, none, some, List, [], ◌∷◌, if◌then◌else◌, extend_all,
}
use oscmix_autostart.Base.Text.{Text}
use oscmix_autostart.Base.Int.{ℤ, eq_ℤ}
use oscmix_autostart.Base.Float.{Floating, value, value_error, overflow_error}
use oscmix_autostart.Base.Dict.{Dict, get, remove}
use oscmix_autostart.Base.Equality.{text_eq}
use oscmix_autostart.Config.Defs.{Value, Config}
use oscmix_autostart.Config.Convert.{int_of_value}
use oscmix_autostart.Reconcile.Messages.{Message, mix_messages}
use oscmix_autostart.Routing.Apply.{Effect, apply_routing}
use oscmix_autostart.Routing.Trace.{interrupted}

pub data Act (F : Type 0) : Type 0 where
  -- An answer of `should_stop`.
  asked : Bool → Act F
  -- A report that the listener hands over.
  received : Text → Act F
  -- `request_dump`
  requested : Act F
  -- `send_mix`
  mixed : List (Message F) → Act F
  -- `apply_routing`, and the registers that it left alone.
  applied : List Text → List (Effect F) → Act F

pub record Environment (F : Type 0) : Type 0 where
  -- The answer of the n-th question to `should_stop`.
  pub stop : ℕ → Bool
  -- What the n-th listener hears, a list for each call of `messages`; `none` if the port is held.
  pub dump : ℕ → Option (List (List (Message F)))
  -- What the listener of the link barrier hears.
  pub echo : Option (List (List (Message F)))
  -- How often a wait sleeps before its deadline.
  pub sleeps : ℕ

-- What the verifier keeps: the questions and the listeners so far, the links that it waits for,
-- `reapplied["done"]`, and what it has done.
pub record Session (F : Type 0) : Type 0 where
  pub questions : ℕ
  pub listeners : ℕ
  pub pending : Dict Text ℤ
  pub done : Bool
  pub acts : List (Act F)

-- A step returns, or raises an exception that nothing catches.
pub data Run (F : Type 0) (A : Type 0) : Type 0 where
  on : A → Session F → Run F A
  off : Session F → Run F A

abbrev pub Step : Type 0 → Type 0 → Type 0
Step F A = Session F → Run F A

module _ {F : Type 0} where
  abbrev pub then_do : {A B : Type 0} → Run F A → (A → Step F B) → Run F B
  then_do (on a s) f = f a s
  then_do (off s) f = off s

  infixl 5 ◌>>=◌
  abbrev pub ◌>>=◌ : {A B : Type 0} → Step F A → (A → Step F B) → Step F B
  (m >>= f) s = then_do (m s) f

  abbrev pub give : {A : Type 0} → A → Step F A
  give a s = on a s

  -- A value that may be an exception.
  abbrev pub lift : {A : Type 0} → Option A → Step F A
  lift none s = off s
  lift (some a) s = on a s

  unfoldable pub act : Act F → Step F Unit
  act a s = on tt (record s { acts = a ∷ s.acts })

  -- `should_stop()`
  unfoldable pub ask : Environment F → Step F Bool
  ask env s =
      on (env.stop s.questions)
        (record s { questions = suc s.questions; acts = asked (env.stop s.questions) ∷ s.acts })

  -- `device.listen()`
  unfoldable pub listen : Environment F → Step F (Option (List (List (Message F))))
  listen env s = on (env.dump s.listeners) (record s { listeners = suc s.listeners })

  -- `wait_unless_stopped`: whether a stop was asked for.
  unfoldable pub wait_unless_stopped : Environment F → ℕ → Step F Bool
  wait_unless_stopped env zero = ask env
  wait_unless_stopped env (suc n) = do
    stopped ← ask env
    let rest = wait_unless_stopped env n
    if stopped then give true else rest

module _ {F : Type 0} ⦃fl : Floating F⦄ where
  unfoldable pub send_mix : Config F → Step F Unit
  send_mix c = do ms ← lift (extend_all mix_messages c.routes); act (mixed ms)

  -- `blind_reapply_mix`
  unfoldable pub blind_reapply_mix : Environment F → Config F → Step F Unit
  blind_reapply_mix env c = do
    stopped ← ask env
    if stopped then give tt else (do
      _ ← act requested
      late ← wait_unless_stopped env env.sleeps
      if late then give tt else send_mix c)

  -- `apply_routing`: an exception in the wait for the link echo goes through.
  unfoldable pub reapply : Environment F → Config F → List Text → Step F Unit
  reapply env c kept = do
    fx ← lift (apply_routing c kept env.echo)
    _ ← act (applied kept fx)
    if interrupted fx then off else give tt

  -- The second half of `on_observed`: write 1, once nothing is pending.
  unfoldable pub release : Environment F → Config F → Step F Unit
  release env c s = elim s.pending [
    | p ∷ ps ↦ on tt s
    | [] ↦
        if s.done
        then on tt s
        else then_do (ask env s)
            (λ stopped. if stopped then give tt else (λ s'. send_mix c (record s' { done = true })))
  ]

  -- `_link_sync_observer`'s `on_observed`.
  unfoldable pub link_sync : Environment F → Config F → Text → List (Value F) → Step F Unit
  link_sync env c path [] s = release env c s
  link_sync env c path (v ∷ vs) s = elim (get path s.pending) [
    | none ↦ release env c s
    | some wanted ↦ elim (int_of_value v) [
      | value_error ↦ on tt s
      | overflow_error ↦ off s
      | value reported ↦
          if eq_ℤ reported wanted
          then release env c (record s { pending = remove path s.pending })
          else on tt s
    ]
  ]

  -- `_reapply_without_confirmation`: write 2.
  unfoldable pub reapply_without_confirmation : Config F → Step F Unit
  reapply_without_confirmation c s = send_mix c (record s { done = true })
