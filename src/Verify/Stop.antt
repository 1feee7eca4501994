-- ===== src/Verify/Stop.antt =====
-- The stop contract of whole runs of the verifier.
use oscmix_autostart.Base.{
  suc, ◌≡◌, subst, Bool, true, false, Option, none, some, List, [], ◌∷◌, if◌then◌else◌,
}
use mathlib.Core.Option.{some-injective}
use oscmix_autostart.Base.Text.{Text}
use oscmix_autostart.Base.Int.{ℤ}
use oscmix_autostart.Base.Float.{Floating}
use oscmix_autostart.Base.Dict.{Dict}
use oscmix_autostart.Registers.Defs.{Device}
use oscmix_autostart.Registers.Lookup.{device_for_name}
use oscmix_autostart.Config.Defs.{Value, Config}
use oscmix_autostart.Reconcile.Messages.{Message}
use oscmix_autostart.Routing.Sequence.{output_link_state}
use oscmix_autostart.Verify.Reported.{Expected, expected_registers}
use oscmix_autostart.Verify.Observe.{
  VerifyResult, Seen, nothing_seen, absorb, prompt_set, window_may_close, result_of,
}
use oscmix_autostart.Verify.Judge.{unconfirmed, kept_by_the_device}
use oscmix_autostart.Verify.Session.{
  Act, received, requested, Environment, Session, Run, Step, on, off, then_do, give, lift, act, ask,
  listen, wait_unless_stopped, blind_reapply_mix, reapply, link_sync, reapply_without_confirmation,
}
use oscmix_autostart.Verify.Repair.{
  Hook, no_hook, absorb_all, observe, hear_dump, verify_routing, ensure_mix, judge, attempt, repair,
  next_round, verify_rounds, reconcile, verify_and_repair, reconcile_now,
}
use oscmix_autostart.Verify.Contract.{
  Guarded, Safe, After, Kept, then-Keeps, test-Keeps, ask-Keeps, wait-Keeps, blind-Keeps,
  reapply-Keeps, link_sync-Keeps, send_mix-Kept,
}

module _ {F : Type 0} ⦃fl : Floating F⦄ where
  -- What is called on each report does not write without a question.
  abbrev HookKeeps : Environment F → Hook F → Type 0
  HookKeeps env hook =
      (path : Text) (vs : List (Value F)) (s : Session F) → Safe env s → Kept env (hook path vs s)

  lifted-Keeps :
      {A B : Type 0} (env : Environment F) (o : Option A) (f : A → Step F B) (s : Session F)
      → Safe env s
      → ((a : A) → Kept env (f a s))
      → Kept env (then_do (lift o s) f)
  lifted-Keeps env none f s g k = g
  lifted-Keeps env (some a) f s g k = k a

  absorb_all-Keeps :
      (env : Environment F) (hook : Hook F) (registers : Expected F) (ms : List (Message F))
      (seen : Seen) (s : Session F)
      → HookKeeps env hook
      → Safe env s
      → Kept env (absorb_all hook registers ms seen s)
  unfolding absorb_all act
  absorb_all-Keeps env hook registers [] seen s h g = g
  absorb_all-Keeps env hook registers ((path, tags, args) ∷ ms) seen s h g =
      then-Keeps env (λ a s'. Safe env s') (λ a s'. Safe env s')
        (hook path args (record s { acts = received path ∷ s.acts })) _
        (h path args (record s { acts = received path ∷ s.acts }) g)
        (λ a s' g'.
          lifted-Keeps env (absorb (path, tags, args) registers seen) (absorb_all hook registers ms)
            s' g' (λ seen'. absorb_all-Keeps env hook registers ms seen' s' h g'))

  observe-Keeps :
      (env : Environment F) (hook : Hook F) (registers : Expected F) (prompt : List Text)
      (rounds : List (List (Message F))) (seen : Seen) (s : Session F)
      → HookKeeps env hook
      → Safe env s
      → Kept env (observe env hook registers prompt rounds seen s)
  unfolding observe
  observe-Keeps env hook registers prompt [] seen s h g = g
  observe-Keeps env hook registers prompt (ms ∷ rounds) seen s h g =
      test-Keeps env (λ a s'. Safe env s') (ask env s) (give seen) _ (ask-Keeps env s g)
        (λ s' a. a.1)
        (λ s' a. open_window (window_may_close registers prompt seen) s' a.1 (
          then-Keeps env (λ b s''. Safe env s'') (λ b s''. Safe env s'')
            (absorb_all hook registers ms seen s') (observe env hook registers prompt rounds)
            (absorb_all-Keeps env hook registers ms seen s' h a.1)
            (λ seen' s'' g'. observe-Keeps env hook registers prompt rounds seen' s'' h g')))
    where
      open_window :
          (b : Bool) (s' : Session F)
          → Safe env s'
          → Kept env (
              then_do
                (absorb_all hook registers ms seen s')
                (observe env hook registers prompt rounds))
          → Kept env (
              (if b then give seen else (λ t.
                  then_do
                    (absorb_all hook registers ms seen t)
                    (observe env hook registers prompt rounds)))
                s')
      open_window true s' g' k = g'
      open_window false s' g' k = k

  hear_dump-Keeps :
      (env : Environment F) (hook : Hook F) (registers : Expected F) (device : Option (Device F))
      (heard : Option (List (List (Message F)))) (s : Session F)
      → HookKeeps env hook
      → Safe env s
      → Kept env (hear_dump env hook registers device heard s)
  unfolding hear_dump act
  hear_dump-Keeps env hook registers device none s h g = g
  hear_dump-Keeps env hook registers device (some rounds) s h g =
      then-Keeps env (λ a s'. Safe env s') (λ a s'. Safe env s')
        (observe env hook registers (prompt_set registers device) rounds nothing_seen
          (record s { acts = requested ∷ s.acts }))
        (λ seen. give (some (result_of registers seen)))
        (observe-Keeps env hook registers (prompt_set registers device) rounds nothing_seen
          (record s { acts = requested ∷ s.acts }) h g)
        (λ seen s' k. k)

  verify_routing-Keeps :
      (env : Environment F) (hook : Hook F) (registers : Expected F) (device : Option (Device F))
      (s : Session F)
      → HookKeeps env hook
      → Safe env s
      → Kept env (verify_routing env hook registers device s)
  unfolding verify_routing listen
  verify_routing-Keeps env hook registers device s h g =
      hear_dump-Keeps env hook registers device (env.dump s.listeners)
        (record s { listeners = suc s.listeners }) h g

  ensured-Keeps :
      (env : Environment F) (b : Bool) (c : Config F) (s : Session F)
      → After env false s
      → Kept env (if b then on tt s else reapply_without_confirmation c s)
  unfolding reapply_without_confirmation
  ensured-Keeps env true c s a = a.1
  ensured-Keeps env false c s a = send_mix-Kept env c (record s { done = true }) a

  judge-Keeps :
      (env : Environment F) (c : Config F) (device : Option (Device F))
      (result : Option VerifyResult) (s : Session F)
      → After env false s
      → Kept env (judge env c device result s)
  unfolding judge ensure_mix
  judge-Keeps env c device none s a =
      then-Keeps env (λ x s'. Safe env s') (λ x s'. Safe env s') (blind_reapply_mix env c s)
        (λ x. give none) (blind-Keeps env c s a.1) (λ x s' g. g)
  judge-Keeps env c device (some r) s a =
      then-Keeps env (λ x s'. Safe env s') (λ x s'. Safe env s') (ensure_mix c s) _
        (ensured-Keeps env s.done c s a)
        (λ x s' g. lifted-Keeps env (unconfirmed r device c.policies) _ s' g (λ ps. g))

  attempt-Keeps :
      (env : Environment F) (c : Config F) (registers : Expected F) (device : Option (Device F))
      (s : Session F)
      → Safe env s
      → Kept env (attempt env c registers device s)
  unfolding attempt
  attempt-Keeps env c registers device s g =
      test-Keeps env (λ a s'. Safe env s') (ask env s) (give none) _ (ask-Keeps env s g)
        (λ s' a. a.1)
        (λ s' a.
          then-Keeps env (λ r s''. Safe env s'') (λ r s''. Safe env s'')
            (verify_routing env (link_sync env c) registers device s') _
            (verify_routing-Keeps env (link_sync env c) registers device s' (link_sync-Keeps env c)
              a.1)
            (λ result t g'.
              test-Keeps env (λ a s'. Safe env s') (ask env t) (give none)
                (judge env c device result) (ask-Keeps env t g') (λ t' b. b.1)
                (judge-Keeps env c device result)))

  repair-Keeps :
      (env : Environment F) (c : Config F) (registers : Expected F) (device : Option (Device F))
      (kept : List Text) (s : Session F)
      → Safe env s
      → Kept env (repair env c registers device kept s)
  unfolding repair
  repair-Keeps env c registers device kept s g =
      test-Keeps env (λ a s'. Safe env s') (ask env s) (give tt) _ (ask-Keeps env s g) (λ s' a. a.1)
        (λ s' a.
          then-Keeps env (λ x s''. Safe env s'') (λ x s''. Safe env s'') (reapply env c kept s') _
            (reapply-Keeps env c kept s' a)
            (λ x t g'.
              test-Keeps env (λ x s''. Safe env s'') (wait_unless_stopped env env.sleeps t)
                (give tt) _ (wait-Keeps env env.sleeps t g') (λ t' b. b.1)
                (λ t' b.
                  then-Keeps env (λ x s''. Safe env s'') (λ x s''. Safe env s'')
                    (attempt env c registers device t') _
                    (attempt-Keeps env c registers device t' b.1) (λ x t'' k. k))))

  next-Keeps :
      (env : Environment F) (c : Config F) (registers : Expected F) (device : Option (Device F))
      (found : Option (List Text × List Text)) (s : Session F)
      → Safe env s
      → Kept env (next_round env c registers device found s)
  unfolding next_round
  next-Keeps env c registers device none s g = g
  next-Keeps env c registers device (some (problems, kept)) s g =
      repair-Keeps env c registers device kept s g

  rounds-Keeps :
      (env : Environment F) (c : Config F) (registers : Expected F) (device : Option (Device F))
      (s : Session F)
      → Safe env s
      → Kept env (verify_rounds env c registers device s)
  unfolding verify_rounds
  rounds-Keeps env c registers device s g =
      then-Keeps env (λ x s'. Safe env s') (λ x s'. Safe env s') (attempt env c registers device s)
        (next_round env c registers device) (attempt-Keeps env c registers device s g)
        (λ found s'. next-Keeps env c registers device found s')

  reconcile-Keeps :
      (env : Environment F) (c : Config F) (device : Option (Device F))
      (result : Option VerifyResult) (s : Session F)
      → After env false s
      → Kept env (reconcile env c device result s)
  unfolding reconcile
  reconcile-Keeps env c device none s a = a.1
  reconcile-Keeps env c device (some r) s a =
      lifted-Keeps env (unconfirmed r device c.policies) _ s a.1 (λ ps.
        then-Keeps env (λ x s'. Safe env s') (λ x s'. Safe env s')
          (reapply env c (kept_by_the_device r device c.policies) s) (λ x. give true)
          (reapply-Keeps env c (kept_by_the_device r device c.policies) s a) (λ x s' g. g))

  -- What a run did, newest first, whether it returned or raised.
  abbrev pub acts_of : {A : Type 0} → Run F A → List (Act F)
  acts_of (on a s) = s.acts
  acts_of (off s) = s.acts

  acts_of-Kept :
      {A : Type 0} (env : Environment F) (r : Run F A) → Kept env r → Guarded env (acts_of r)
  acts_of-Kept env (on a s) g = g
  acts_of-Kept env (off s) g = g

  -- Each write of routing that the verifier makes stands right behind a question of its own to the
  -- stop check, answered "do not stop", with no write, request or report in between: whatever the
  -- device reports, and whether the run returns or raises. Every answer is one that the stop check of
  -- the caller gives.
  pub verify_and_repair-Guarded :
      (env : Environment F) (c : Config F) (r : Run F Unit)
      → verify_and_repair env c ≡ some r
      → Guarded env (acts_of r)
  unfolding verify_and_repair
  verify_and_repair-Guarded env c r h = expecting (expected_registers c) h
    where
      start : Dict Text ℤ → Session F
      start links = record {
        questions = 0;
        listeners = 0;
        pending = links;
        done = elim links [ [] ↦ true | x ∷ xs ↦ false ];
        acts = [];
      }

      run : Expected F → Dict Text ℤ → Run F Unit
      run registers links =
          verify_rounds env c registers (device_for_name c.device_name) (start links)

      linking :
          (registers : Expected F) (o : Option (Dict Text ℤ))
          → elim o [ none ↦ none | some links ↦ some (run registers links) ] ≡ some r
          → Guarded env (acts_of r)
      linking registers none k = absurd (cc k)
      linking registers (some links) k =
          subst (λ q. Guarded env (acts_of q)) (some-injective _ _ k)
            (acts_of-Kept env (run registers links)
              (rounds-Keeps env c registers (device_for_name c.device_name) (start links) tt))

      expecting :
          (o : Option (Expected F))
          → elim o [
            | none ↦ none
            | some registers ↦ elim (output_link_state c.routes) [
              | none ↦ none
              | some links ↦ some (run registers links)
            ]
          ]
            ≡ some r
          → Guarded env (acts_of r)
      expecting none k = absurd (cc k)
      expecting (some registers) k = linking registers (output_link_state c.routes) k

  -- A triggered reconcile leaves every write right behind a question of its own to the stop check,
  -- answered "do not stop", with no write, request or report in between, and every answer one that the
  -- stop check of the caller gives, where that held before.
  pub reconcile_now-Guarded :
      (env : Environment F) (c : Config F) (s : Session F)
      → Guarded env s.acts
      → Guarded env (acts_of (reconcile_now env c s))
  unfolding reconcile_now
  reconcile_now-Guarded env c s g = acts_of-Kept env (reconcile_now env c s) (
      lifted-Keeps env (expected_registers c) _ s g (λ registers.
        then-Keeps env (λ x s'. Safe env s') (λ x s'. Safe env s')
          (verify_routing env no_hook registers (device_for_name c.device_name) s) _
          (verify_routing-Keeps env no_hook registers (device_for_name c.device_name) s
            (λ path vs t k. k) g)
          (λ result t k.
            test-Keeps env (λ x s'. Safe env s') (ask env t) (give false) _ (ask-Keeps env t k)
              (λ t' b. b.1) (reconcile-Keeps env c (device_for_name c.device_name) result))))
