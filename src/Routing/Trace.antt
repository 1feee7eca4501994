-- ===== src/Routing/Trace.antt =====
-- What `apply_routing` sends, in order, and what it waits for in between.
use oscmix_autostart.Base.{
  ℕ, ◌≡◌, refl, sym, ap, ◌∙◌, leb, ◌==◌, Bool, true, false, Option, none, some, List, [], ◌∷◌, ◌++◌,
  map, All, All-append, All-keep, subst, keep, >>=-eq-some, arith,
}
use mathlib.Core.Option.{some-injective}
use mathlib.Core.List.{append-nil}
use oscmix_autostart.Base.Text.{Text}
use oscmix_autostart.Base.Float.{Floating}
use oscmix_autostart.Base.Dict.{elem}
use oscmix_autostart.Base.Equality.{text_eq}
use oscmix_autostart.Config.Defs.{Config}
use oscmix_autostart.Reconcile.Messages.{Message}
use oscmix_autostart.Reconcile.Desired.{Entry, phase_link, phase_mix, phase_channel, desired}
use oscmix_autostart.Reconcile.Plan.{
  unconditional, Write, Plan, message, write, in_phase, plan, by_phase,
}
use oscmix_autostart.Reconcile.SendOrder.{Ascending, sort-Ascending}
use oscmix_autostart.Reconcile.Phases.{ByPhase, desired-ByPhase}
use oscmix_autostart.Reconcile.Order.{
  phase_le, ByPhase-Ascending, keep-ByPhase, of_phase, of_phase-split,
}
use oscmix_autostart.Routing.Sequence.{output_link_state}
use oscmix_autostart.Routing.Echo.{Echo, arrived, timed_out, unobservable, raised, await_link_echo}
use oscmix_autostart.Routing.Apply.{
  Effect, sent, barrier, settled, default_tolerance, kept_entries, after_barrier, apply_routing,
}

module _ {F : Type 0} where
  abbrev pub message_of : Entry F → Message F
  message_of e = (e.path, e.tags, e.args)

  -- The messages that are sent, in order.
  abbrev pub datagrams : List (Effect F) → List (Message F)
  datagrams [] = []
  datagrams (sent ms ∷ fx) = ms ++ datagrams fx
  datagrams (barrier e ∷ fx) = datagrams fx
  datagrams (settled ∷ fx) = datagrams fx

  -- Those that are sent before the wait for the link echo.
  abbrev pub before_wait : List (Effect F) → List (Message F)
  before_wait [] = []
  before_wait (sent ms ∷ fx) = ms ++ before_wait fx
  before_wait (barrier e ∷ fx) = []
  before_wait (settled ∷ fx) = before_wait fx

  -- The wait ended with an exception.
  abbrev pub interrupted : List (Effect F) → Bool
  interrupted [] = false
  interrupted (barrier raised ∷ fx) = true
  interrupted (f ∷ fx) = interrupted fx

  -- What a plan without an observation writes.
  blind : List (Entry F) → List (Write F)
  blind es = map (write unconditional) es

  blind-Ascending :
      (es : List (Entry F))
      → Ascending phase_le es
      → Ascending (λ (a b : Write F). leb a.phase b.phase) (blind es)
  unfolding blind
  blind-Ascending [] h = tt
  blind-Ascending (e ∷ []) h = tt
  blind-Ascending (e ∷ e' ∷ es) h = (h.0, blind-Ascending (e' ∷ es) h.1)

  blind-of_phase :
      (n : ℕ) (es : List (Entry F))
      → map message (keep (λ (w : Write F). w.phase == n) (blind es))
        ≡ map message_of (of_phase n es)
  unfolding blind keep
  blind-of_phase n [] = refl
  blind-of_phase n (e ∷ es) = ground (arith, blind-of_phase n es)

  map-append_entries :
      (xs ys : List (Entry F)) → map message_of (xs ++ ys) ≡ map message_of xs ++ map message_of ys
  map-append_entries [] ys = refl
  map-append_entries (x ∷ xs) ys = ap (λ l. message_of x ∷ l) (map-append_entries xs ys)

  abbrev LacksElem : List Text → Entry F → Type 0
  LacksElem skip e = elem e.path skip ≡ false

  All-map_message :
      (P : Text → Type 0) (es : List (Entry F))
      → All (λ (e : Entry F). P e.path) es
      → All (λ (m : Message F). P m.0) (map message_of es)
  All-map_message P [] h = tt
  All-map_message P (e ∷ es) h = (h.0, All-map_message P es h.1)

module _ {F : Type 0} ⦃fl : Floating F⦄ where
  kept_entries-Lacks :
      (skip : List Text) (es : List (Entry F)) → All (LacksElem skip) (kept_entries skip es)
  unfolding kept_entries keep
  kept_entries-Lacks skip [] = tt
  kept_entries-Lacks skip (e ∷ es) = ground (arith, kept_entries-Lacks skip es)

  -- The messages of one phase of what a state writes without an observation.
  abbrev burst : ℕ → List (Entry F) → List (Message F)
  burst n es = map message_of (of_phase n es)

  -- What `apply_routing` does, from what `desired` asks for.
  abbrev then_what : Echo → List (Entry F) → List (Effect F)
  then_what raised es = []
  then_what unobservable es =
      settled ∷ sent (burst phase_mix es) ∷ sent (burst phase_channel es) ∷ []
  then_what echo es = sent (burst phase_mix es) ∷ sent (burst phase_channel es) ∷ []

  abbrev trace : Echo → List (Entry F) → List (Effect F)
  trace echo es = sent (burst phase_link es) ∷ barrier echo ∷ then_what echo es

  blind-plan :
      (es : List (Entry F)) (p : Plan F)
      → ByPhase es
      → plan es none none default_tolerance ≡ some p
      → (n : ℕ) → map message (in_phase n p) ≡ burst n es
  unfolding plan by_phase in_phase blind
  blind-plan es p b h n =
      ap (λ (q : Plan F). map message (in_phase n q)) (sym (some-injective _ _ h))
      ∙ ap (λ ws. map message (keep (λ w. w.phase == n) ws))
          (sort-Ascending _ (blind es) (blind-Ascending es (ByPhase-Ascending es b)))
      ∙ blind-of_phase n es

  after-then_what :
      (echo : Echo) (es : List (Entry F)) (p : Plan F)
      → ((n : ℕ) → map message (in_phase n p) ≡ burst n es)
      → after_barrier echo p ≡ then_what echo es
  unfolding after_barrier
  after-then_what arrived es p h = cc (h phase_mix, h phase_channel)
  after-then_what timed_out es p h = cc (h phase_mix, h phase_channel)
  after-then_what unobservable es p h = cc (h phase_mix, h phase_channel)
  after-then_what raised es p h = refl

  apply-trace :
      (c : Config F) (skip : List Text) (l : Option (List (List (Message F)))) (es : List (Entry F))
      (fx : List (Effect F))
      → desired c ≡ some es
      → apply_routing c skip l ≡ some fx
      → (echo : Echo) × (fx ≡ trace echo (kept_entries skip es))
  unfolding apply_routing kept_entries
  apply-trace c skip l es fx d h =
      let (es', d', h1) = >>=-eq-some (desired c) _ h in
      let (p, pl, h2) =
        >>=-eq-some (plan (kept_entries skip es') none none default_tolerance) _ h1 in
      let (st, s, h3) = >>=-eq-some (output_link_state c.routes) _ h2 in
      let e : es' ≡ es = some-injective _ _ (sym d' ∙ d) in
      let b : ByPhase (kept_entries skip es') = keep-ByPhase _ es' (desired-ByPhase c es' d') in
      let k = blind-plan (kept_entries skip es') p b pl in
      (
        await_link_echo st l,
        sym (some-injective _ _ h3)
            ∙ cc (
              k phase_link,
              after-then_what (await_link_echo st l) (kept_entries skip es') p k,
              e,
            ),
      )

  -- Where `desired` and the apply raise nothing, what is sent before the wait for the link echo is
  -- exactly the link entries of `desired` whose registers are not left alone, in its order.
  pub apply_routing-before_wait :
      (c : Config F) (skip : List Text) (l : Option (List (List (Message F)))) (es : List (Entry F))
      (fx : List (Effect F))
      → desired c ≡ some es
      → apply_routing c skip l ≡ some fx
      → before_wait fx ≡ map message_of (of_phase phase_link (kept_entries skip es))
  apply_routing-before_wait c skip l es fx d h =
      let (echo, e) = apply-trace c skip l es fx d h in ap before_wait e ∙ append-nil _

  trace-datagrams :
      (echo : Echo) (es : List (Entry F))
      → interrupted (trace echo es) ≡ false
      → datagrams (trace echo es)
        ≡ burst phase_link es ++ (burst phase_mix es ++ (burst phase_channel es))
  trace-datagrams arrived es h =
      ap (λ l. burst phase_link es ++ (burst phase_mix es ++ l)) (append-nil _)
  trace-datagrams timed_out es h =
      ap (λ l. burst phase_link es ++ (burst phase_mix es ++ l)) (append-nil _)
  trace-datagrams unobservable es h =
      ap (λ l. burst phase_link es ++ (burst phase_mix es ++ l)) (append-nil _)
  trace-datagrams raised es h = absurd (cc h)

  -- Where `desired` and the apply raise nothing and the wait for the link echo is not interrupted by
  -- an exception, an apply sends exactly the entries of `desired` whose registers are not left alone,
  -- in the order of `desired`.
  pub apply_routing-datagrams :
      (c : Config F) (skip : List Text) (l : Option (List (List (Message F)))) (es : List (Entry F))
      (fx : List (Effect F))
      → desired c ≡ some es
      → apply_routing c skip l ≡ some fx
      → interrupted fx ≡ false
      → datagrams fx ≡ map message_of (kept_entries skip es)
  unfolding kept_entries
  apply_routing-datagrams c skip l es fx d h i =
      let (echo, e) = apply-trace c skip l es fx d h in
      let ks = kept_entries skip es in
      ap datagrams e
      ∙ trace-datagrams echo ks (sym (ap interrupted e) ∙ i)
      ∙ sym (
          ap (map message_of) (of_phase-split ks (keep-ByPhase _ es (desired-ByPhase c es d)))
          ∙ map-append_entries (of_phase phase_link ks) _
          ∙ ap (λ m. burst phase_link ks ++ m) (map-append_entries (of_phase phase_mix ks) _))

  abbrev Untouched : List Text → Message F → Type 0
  Untouched skip m = elem m.0 skip ≡ false

  burst-Untouched :
      (skip : List Text) (n : ℕ) (es : List (Entry F))
      → All (Untouched skip) (burst n (kept_entries skip es))
  burst-Untouched skip n es =
      All-map_message (λ t. elem t skip ≡ false) _ (All-keep _ _ _ (kept_entries-Lacks skip es))

  trace-Untouched :
      (echo : Echo) (skip : List Text) (es : List (Entry F))
      → All (Untouched skip) (datagrams (trace echo (kept_entries skip es)))
  trace-Untouched echo skip es =
      All-append _ (burst phase_link (kept_entries skip es)) _ (burst-Untouched skip phase_link es)
        (after echo)
    where
      after :
          (echo : Echo) → All (Untouched skip) (datagrams (then_what echo (kept_entries skip es)))
      after arrived =
          All-append _ _ _ (burst-Untouched skip phase_mix es)
            (All-append _ _ _ (burst-Untouched skip phase_channel es) tt)
      after timed_out =
          All-append _ _ _ (burst-Untouched skip phase_mix es)
            (All-append _ _ _ (burst-Untouched skip phase_channel es) tt)
      after unobservable =
          All-append _ _ _ (burst-Untouched skip phase_mix es)
            (All-append _ _ _ (burst-Untouched skip phase_channel es) tt)
      after raised = tt

  -- However the wait ends, an apply writes no register that is left alone.
  pub apply_routing-leave_alone :
      (c : Config F) (skip : List Text) (l : Option (List (List (Message F))))
      (fx : List (Effect F))
      → apply_routing c skip l ≡ some fx
      → All (λ (m : Message F). elem m.0 skip ≡ false) (datagrams fx)
  unfolding apply_routing
  apply_routing-leave_alone c skip l fx h =
      let (es, d, rest) = >>=-eq-some (desired c) _ h in
      let (echo, e) = apply-trace c skip l es fx d h in
      subst (λ (f : List (Effect F)). All (Untouched skip) (datagrams f)) (sym e)
        (trace-Untouched echo skip es)
