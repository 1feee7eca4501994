-- ===== src/Verify/Confirmed.antt =====
-- A register is confirmed only by a report that matches.
use oscmix_autostart.Base.{
  suc, ◌≡◌, refl, sym, ◌∙◌, subst, Bool, true, false, Option, none, some, List, [], ◌∷◌,
  if◌then◌else◌, All, Bool-cases, inl, inr, arith,
}
use mathlib.Core.Option.{some-injective}
use oscmix_autostart.Base.Text.{Text, same}
use oscmix_autostart.Base.Float.{Floating}
use oscmix_autostart.Base.Dict.{get, elem, elem-add_key}
use oscmix_autostart.Base.Equality.{text_eq}
use oscmix_autostart.Base.Sort.{text_le}
use oscmix_autostart.Registers.Defs.{Device}
use oscmix_autostart.Config.Defs.{Value}
use oscmix_autostart.Reconcile.Messages.{Message}
use oscmix_autostart.Reconcile.Compare.{matches}
use oscmix_autostart.Routing.Apply.{default_tolerance}
use oscmix_autostart.Verify.Reported.{Expected}
use oscmix_autostart.Verify.Observe.{
  VerifyResult, Seen, nothing_seen, confirm, mismatch, absorb, prompt_set, window_may_close,
  result_of,
}
use oscmix_autostart.Verify.Session.{
  Environment, Session, on, then_do, give, ask, listen, act, requested, received,
}
use oscmix_autostart.Verify.Repair.{Hook, absorb_all, observe, hear_dump, verify_routing}
use oscmix_autostart.Verify.Partition.{Returns, then-Returns, any_run, lift-Returns, elem-sort}

module _ {F : Type 0} ⦃fl : Floating F⦄ where
  -- A report of the register, among those of which `R` holds, that has its expected value.
  pub record Satisfied (R : Message F → Type 0) (registers : Expected F) (p : Text) : Type 0 where
    pub report : Message F
    pub tags : Text
    pub args : List (Value F)
    pub heard : R report
    pub about : report.0 ≡ p
    pub expected : get p registers ≡ some (tags, args)
    pub agrees : matches default_tolerance tags args report.2 ≡ some true

  module _ (R : Message F → Type 0) (registers : Expected F) where
    abbrev Backed : Seen → Type 0
    Backed s = (p : Text) → elem p s.confirmed ≡ true → Satisfied R registers p

    confirm-Backed :
        (path : Text) (s : Seen) → Satisfied R registers path → Backed s → Backed (confirm path s)
    confirm-Backed path s r h p e = elim (Bool-cases (same path p)) [
      | inl t ↦ subst (Satisfied R registers) ((text_eq.eqb_iff path p).0 t) r
      | inr n ↦ h p (ground (arith, elem-add_key path p s.confirmed))
    ]

    absorb-Backed :
        (m : Message F) (s s' : Seen) → R m → absorb m registers s ≡ some s' → Backed s → Backed s'
    unfolding absorb
    absorb-Backed (path, tags, args) s s' r e h = expected (get path registers) refl e
      where
        judged :
            (want : Text) (wanted : List (Value F)) (o : Option Bool)
            → get path registers ≡ some (want, wanted)
            → matches default_tolerance want wanted args ≡ o
            → elim o [
              | none ↦ none
              | some true ↦ some (confirm path s)
              | some false ↦ some (mismatch path s)
            ]
              ≡ some s'
            → Backed s'
        judged want wanted none g a q = absurd (cc q)
        judged want wanted (some true) g a q = subst Backed (some-injective _ _ q) (
            confirm-Backed path s
              (record {
                report = (path, tags, args);
                tags = want;
                args = wanted;
                heard = r;
                about = refl;
                expected = g;
                agrees = a;
              })
              h)
        judged want wanted (some false) g a q = subst Backed (some-injective _ _ q) h

        fresh :
            (b : Bool) (want : Text) (wanted : List (Value F))
            → get path registers ≡ some (want, wanted)
            → (if b then some s else elim (matches default_tolerance want wanted args) [
              | none ↦ none
              | some true ↦ some (confirm path s)
              | some false ↦ some (mismatch path s)
            ])
              ≡ some s'
            → Backed s'
        fresh true want wanted g q = subst Backed (some-injective _ _ q) h
        fresh false want wanted g q =
            judged want wanted (matches default_tolerance want wanted args) g refl q

        expected :
            (o : Option (Text × List (Value F)))
            → get path registers ≡ o
            → elim o [
              | none ↦ some s
              | some (want, wanted) ↦
                  if elem path s.confirmed
                  then some s
                  else elim (matches default_tolerance want wanted args) [
                    | none ↦ none
                    | some true ↦ some (confirm path s)
                    | some false ↦ some (mismatch path s)
                  ]
            ]
              ≡ some s'
            → Backed s'
        expected none g q = subst Backed (some-injective _ _ q) h
        expected (some (want, wanted)) g q = fresh (elem path s.confirmed) want wanted g q

    absorb_all-Backed :
        (hook : Hook F) (ms : List (Message F)) (seen : Seen) (s : Session F)
        → All R ms
        → Backed seen
        → Returns Backed (absorb_all hook registers ms seen s)
    unfolding absorb_all act
    absorb_all-Backed hook [] seen s r h = h
    absorb_all-Backed hook ((path, tags, args) ∷ ms) seen s r h =
        then-Returns (λ x. Unit) Backed
          (hook path args (record s { acts = received path ∷ s.acts })) _ (any_run _)
          (λ x s' u.
            lift-Returns Backed (absorb (path, tags, args) registers seen)
              (absorb_all hook registers ms) s'
              (λ seen' e.
                absorb_all-Backed hook ms seen' s' r.1
                  (absorb-Backed (path, tags, args) seen seen' r.0 e h)))

    observe-Backed :
        (env : Environment F) (hook : Hook F) (prompt : List Text)
        (rounds : List (List (Message F))) (seen : Seen) (s : Session F)
        → All (All R) rounds
        → Backed seen
        → Returns Backed (observe env hook registers prompt rounds seen s)
    unfolding observe ask
    observe-Backed env hook prompt [] seen s r h = h
    observe-Backed env hook prompt (ms ∷ rounds) seen s r h =
        window (env.stop s.questions) (window_may_close registers prompt seen) _ (λ s'.
          then-Returns Backed Backed (absorb_all hook registers ms seen s')
            (observe env hook registers prompt rounds) (absorb_all-Backed hook ms seen s' r.0 h)
            (λ seen' s''. observe-Backed env hook prompt rounds seen' s'' r.1))
      where
        window :
            (a b : Bool) (s' : Session F)
            → ((t : Session F)
                → Returns Backed (
                    then_do
                      (absorb_all hook registers ms seen t)
                      (observe env hook registers prompt rounds)))
            → Returns Backed (
                (if a
                    then give seen
                    else (if b then give seen else (λ t.
                        then_do
                          (absorb_all hook registers ms seen t)
                          (observe env hook registers prompt rounds))))
                  s')
        window true b s' k = h
        window false true s' k = h
        window false false s' k = k s'

    abbrev Reported : Option (List (List (Message F))) → Type 0
    Reported none = Unit
    Reported (some rounds) = All (All R) rounds

    abbrev BackedResult : Option VerifyResult → Type 0
    BackedResult none = Unit
    BackedResult (some r) = (p : Text) → elem p r.confirmed ≡ true → Satisfied R registers p

    hear_dump-BackedResult :
        (env : Environment F) (hook : Hook F) (device : Option (Device F))
        (o : Option (List (List (Message F)))) (t : Session F)
        → Reported o
        → Returns BackedResult (hear_dump env hook registers device o t)
    unfolding hear_dump act elem result_of
    hear_dump-BackedResult env hook device none t r = tt
    hear_dump-BackedResult env hook device (some rounds) t r =
        then-Returns Backed BackedResult
          (observe env hook registers (prompt_set registers device) rounds nothing_seen
            (record t { acts = requested ∷ t.acts }))
          (λ seen. give (some (result_of registers seen)))
          (observe-Backed env hook (prompt_set registers device) rounds nothing_seen
            (record t { acts = requested ∷ t.acts }) r (λ p e. absurd (cc e)))
          (λ seen s' h p e. h p (sym (elem-sort text_le p seen.confirmed) ∙ e))

    -- Every register that a read-back confirms was reported in its dump with arguments that match
    -- the expected ones: whatever holds of all reports of the dump holds of that report.
    pub verify_routing-confirmed :
        (env : Environment F) (hook : Hook F) (device : Option (Device F)) (s s' : Session F)
        (r : VerifyResult)
        → Reported (env.dump s.listeners)
        → verify_routing env hook registers device s ≡ on (some r) s'
        → (p : Text) → elem p r.confirmed ≡ true
        → Satisfied R registers p
    unfolding verify_routing listen
    verify_routing-confirmed env hook device s s' r h e = subst (Returns BackedResult) e (
        hear_dump-BackedResult env hook device (env.dump s.listeners)
          (record s { listeners = suc s.listeners }) h)
