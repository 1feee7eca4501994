-- ===== src/Verify/Partition.antt =====
-- A read-back classifies every expected register once.
use oscmix_autostart.Base.{
  ℕ, ◌+◌, suc, ◌≡◌, refl, sym, ap, ◌∙◌, subst, Bool, true, false, not, ◌&&◌, Option, none, some,
  List, [], ◌∷◌, if◌then◌else◌, keep, Bool-cases, inl, inr, arith,
}
use mathlib.Core.Option.{some-injective}
use oscmix_autostart.Base.Text.{Text, same}
use oscmix_autostart.Base.Float.{Floating}
use oscmix_autostart.Base.Dict.{keys, get, elem, elem-add_key, elem-keys}
use oscmix_autostart.Base.Equality.{text_eq}
use oscmix_autostart.Base.Sort.{insert, sort, text_le}
use oscmix_autostart.Registers.Defs.{Device}
use oscmix_autostart.Config.Defs.{Value}
use oscmix_autostart.Reconcile.Messages.{Message}
use oscmix_autostart.Reconcile.Compare.{matches}
use oscmix_autostart.Routing.Apply.{default_tolerance}
use oscmix_autostart.Verify.Reported.{Expected}
use oscmix_autostart.Verify.Observe.{
  VerifyResult, Seen, nothing_seen, discard, confirm, mismatch, absorb, prompt_set,
  window_may_close, result_of,
}
use oscmix_autostart.Verify.Session.{
  Environment, Session, Run, Step, on, off, then_do, give, lift, ask, listen, act, requested,
  received,
}
use oscmix_autostart.Verify.Repair.{Hook, absorb_all, observe, hear_dump, verify_routing}

elem-insert :
    (le : Text → Text → Bool) (p q : Text) (qs : List Text)
    → elem p (insert le q qs) ≡ elem p (q ∷ qs)
unfolding insert elem
elem-insert le p q [] = refl
elem-insert le p q (r ∷ qs) = ground (arith, elem-insert le p q qs)

pub elem-sort :
    (le : Text → Text → Bool) (p : Text) (qs : List Text) → elem p (sort le qs) ≡ elem p qs
unfolding sort elem
elem-sort le p [] = refl
elem-sort le p (q ∷ qs) =
    elem-insert le p q (sort le qs) ∙ ap (λ b. if same q p then true else b) (elem-sort le p qs)

elem-keep : (f : Text → Bool) (p : Text) (qs : List Text) → elem p (keep f qs) ≡ (elem p qs && f p)
unfolding keep elem
elem-keep f p [] = refl
elem-keep f p (q ∷ qs) = elim (Bool-cases (same q p)) [
  | inl t ↦ ground (arith, ap f ((text_eq.eqb_iff q p).0 t), elem-keep f p qs)
  | inr n ↦ ground (arith, elem-keep f p qs)
]

elem-discard :
    (p q : Text) (qs : List Text) → elem q (discard p qs) ≡ (elem q qs && not (text_eq.eqb q p))
unfolding discard
elem-discard p q qs = elem-keep (λ r. not (text_eq.eqb r p)) q qs

module _ {F : Type 0} where
  -- No register is both, and each is expected.
  abbrev Consistent : Expected F → Seen → Type 0
  Consistent registers s =
      (p : Text)
      → ((elem p s.confirmed && elem p s.mismatched) ≡ false)
        × ((elem p s.confirmed ≡ true) → (elem p (keys registers) ≡ true))
        × ((elem p s.mismatched ≡ true) → (elem p (keys registers) ≡ true))

  confirm-Consistent :
      (registers : Expected F) (p : Text) (s : Seen)
      → elem p (keys registers) ≡ true
      → Consistent registers s
      → Consistent registers (confirm p s)
  confirm-Consistent registers p s k h q =
      let (a, b, c) = h q in
      elim (Bool-cases (same p q)) [
        | inl t ↦
            let e : p ≡ q = (text_eq.eqb_iff p q).0 t in
            let k' : elem q (keys registers) ≡ true =
              ap (λ r. elem r (keys registers)) (sym e) ∙ k in
            let t' : same q p ≡ true = (text_eq.eqb_iff q p).1 (sym e) in
            ground (arith, elem-add_key p q s.confirmed, elem-discard p q s.mismatched)
        | inr n ↦ ground (arith, elem-add_key p q s.confirmed, elem-discard p q s.mismatched)
      ]

  mismatch-Consistent :
      (registers : Expected F) (p : Text) (s : Seen)
      → elem p (keys registers) ≡ true
      → elem p s.confirmed ≡ false
      → Consistent registers s
      → Consistent registers (mismatch p s)
  mismatch-Consistent registers p s k d h q =
      let (a, b, c) = h q in
      elim (Bool-cases (same p q)) [
        | inl t ↦
            let e : p ≡ q = (text_eq.eqb_iff p q).0 t in
            let k' : elem q (keys registers) ≡ true =
              ap (λ r. elem r (keys registers)) (sym e) ∙ k in
            let d' : elem q s.confirmed ≡ false = ap (λ r. elem r s.confirmed) (sym e) ∙ d in
            ground (arith, elem-add_key p q s.mismatched)
        | inr n ↦ ground (arith, elem-add_key p q s.mismatched)
      ]

abbrev pub count : Bool → ℕ
count true = 1
count false = 0

-- How many of the three lists hold a register.
abbrev pub classes : Text → VerifyResult → ℕ
classes p r = count (elem p r.confirmed) + count (elem p r.mismatched) + count (elem p r.unobserved)

module _ {F : Type 0} ⦃fl : Floating F⦄ where
  absorb-Consistent :
      (registers : Expected F) (m : Message F) (s s' : Seen)
      → absorb m registers s ≡ some s'
      → Consistent registers s
      → Consistent registers s'
  unfolding absorb
  absorb-Consistent registers (path, tags, args) s s' e h = expected (get path registers) refl e
    where
      judged :
          (o : Option Bool)
          → elem path (keys registers) ≡ true
          → elem path s.confirmed ≡ false
          → elim o [
            | none ↦ none
            | some true ↦ some (confirm path s)
            | some false ↦ some (mismatch path s)
          ]
            ≡ some s'
          → Consistent registers s'
      judged none k d q = absurd (cc q)
      judged (some true) k d q =
          subst (Consistent registers) (some-injective _ _ q)
            (confirm-Consistent registers path s k h)
      judged (some false) k d q =
          subst (Consistent registers) (some-injective _ _ q)
            (mismatch-Consistent registers path s k d h)

      fresh :
          (b : Bool) (o : Option Bool)
          → elem path s.confirmed ≡ b
          → elem path (keys registers) ≡ true
          → (if b then some s else elim o [
            | none ↦ none
            | some true ↦ some (confirm path s)
            | some false ↦ some (mismatch path s)
          ])
            ≡ some s'
          → Consistent registers s'
      fresh true o d k q = subst (Consistent registers) (some-injective _ _ q) h
      fresh false o d k q = judged o k d q

      expected :
          (o : Option (Text × List (Value F)))
          → get path registers ≡ o
          → elim o [
            | none ↦ some s
            | some (want, wanted) ↦
                if elem path s.confirmed
                then some s
                else elim (matches default_tolerance want wanted args) [
                  | none ↦ none
                  | some true ↦ some (confirm path s)
                  | some false ↦ some (mismatch path s)
                ]
          ]
            ≡ some s'
          → Consistent registers s'
      expected none g q = subst (Consistent registers) (some-injective _ _ q) h
      expected (some (want, wanted)) g q =
          fresh (elem path s.confirmed) (matches default_tolerance want wanted args) refl
            (elem-keys path registers ∙ rw g) q

  -- What holds of the value that a run returns.
  abbrev pub Returns : {A : Type 0} → (A → Type 0) → Run F A → Type 0
  Returns Q (on a s) = Q a
  Returns Q (off s) = Unit

  pub then-Returns :
      {A B : Type 0} (P : A → Type 0) (Q : B → Type 0) (m : Run F A) (f : A → Step F B)
      → Returns P m
      → ((a : A) (s : Session F) → P a → Returns Q (f a s))
      → Returns Q (then_do m f)
  then-Returns P Q (on a s) f p k = k a s p
  then-Returns P Q (off s) f p k = tt

  pub any_run : {A : Type 0} (m : Run F A) → Returns (λ a. Unit) m
  any_run (on a s) = tt
  any_run (off s) = tt

  pub lift-Returns :
      {A B : Type 0} (Q : B → Type 0) (o : Option A) (f : A → Step F B) (s : Session F)
      → ((a : A) → o ≡ some a → Returns Q (f a s))
      → Returns Q (then_do (lift o s) f)
  lift-Returns Q none f s k = tt
  lift-Returns Q (some a) f s k = k a refl

  absorb_all-Consistent :
      (hook : Hook F) (registers : Expected F) (ms : List (Message F)) (seen : Seen) (s : Session F)
      → Consistent registers seen
      → Returns (Consistent registers) (absorb_all hook registers ms seen s)
  unfolding absorb_all act
  absorb_all-Consistent hook registers [] seen s h = h
  absorb_all-Consistent hook registers ((path, tags, args) ∷ ms) seen s h =
      then-Returns (λ x. Unit) (Consistent registers)
        (hook path args (record s { acts = received path ∷ s.acts })) _ (any_run _)
        (λ x s' u.
          lift-Returns (Consistent registers) (absorb (path, tags, args) registers seen)
            (absorb_all hook registers ms) s'
            (λ seen' e.
              absorb_all-Consistent hook registers ms seen' s'
                (absorb-Consistent registers (path, tags, args) seen seen' e h)))

  observe-Consistent :
      (env : Environment F) (hook : Hook F) (registers : Expected F) (prompt : List Text)
      (rounds : List (List (Message F))) (seen : Seen) (s : Session F)
      → Consistent registers seen
      → Returns (Consistent registers) (observe env hook registers prompt rounds seen s)
  unfolding observe ask
  observe-Consistent env hook registers prompt [] seen s h = h
  observe-Consistent env hook registers prompt (ms ∷ rounds) seen s h =
      window (env.stop s.questions) (window_may_close registers prompt seen) _ (λ s'.
        then-Returns (Consistent registers) (Consistent registers)
          (absorb_all hook registers ms seen s') (observe env hook registers prompt rounds)
          (absorb_all-Consistent hook registers ms seen s' h)
          (λ seen' s''. observe-Consistent env hook registers prompt rounds seen' s''))
    where
      window :
          (a b : Bool) (s' : Session F)
          → ((t : Session F)
              → Returns (Consistent registers) (
                  then_do
                    (absorb_all hook registers ms seen t)
                    (observe env hook registers prompt rounds)))
          → Returns (Consistent registers) (
              (if a
                  then give seen
                  else (if b then give seen else (λ t.
                      then_do
                        (absorb_all hook registers ms seen t)
                        (observe env hook registers prompt rounds))))
                s')
      window true b s' k = h
      window false true s' k = h
      window false false s' k = k s'

  result_of-classes :
      (registers : Expected F) (seen : Seen) (p : Text)
      → Consistent registers seen
      → classes p (result_of registers seen) ≡ (if elem p (keys registers) then 1 else 0)
  unfolding result_of
  result_of-classes registers seen p h = ground (
    arith,
    h p,
    elem-sort text_le p seen.confirmed,
    elem-sort text_le p seen.mismatched,
    elem-sort text_le p
        (keep (λ q. not (elem q seen.confirmed) && not (elem q seen.mismatched)) (keys registers)),
    elem-keep (λ q. not (elem q seen.confirmed) && not (elem q seen.mismatched)) p (keys registers),
  )

  abbrev Classified : Expected F → Option VerifyResult → Type 0
  Classified registers none = Unit
  Classified registers (some r) =
      (p : Text) → classes p r ≡ (if elem p (keys registers) then 1 else 0)

  verify_routing-Classified :
      (env : Environment F) (hook : Hook F) (registers : Expected F) (device : Option (Device F))
      (s : Session F)
      → Returns (Classified registers) (verify_routing env hook registers device s)
  unfolding verify_routing listen hear_dump act elem
  verify_routing-Classified env hook registers device s =
      dump (env.dump s.listeners) (record s { listeners = suc s.listeners })
    where
      dump :
          (o : Option (List (List (Message F)))) (t : Session F)
          → Returns (Classified registers) (hear_dump env hook registers device o t)
      dump none t = tt
      dump (some rounds) t =
          then-Returns (Consistent registers) (Classified registers)
            (observe env hook registers (prompt_set registers device) rounds nothing_seen
              (record t { acts = requested ∷ t.acts }))
            (λ seen. give (some (result_of registers seen)))
            (observe-Consistent env hook registers (prompt_set registers device) rounds nothing_seen
              (record t { acts = requested ∷ t.acts })
              (λ p. (refl, (λ e. absurd (cc e)), (λ e. absurd (cc e)))))
            (λ seen s' h p. result_of-classes registers seen p h)

  -- A read-back that returns has every expected register in exactly one of its three lists, and
  -- no other path in any of them.
  pub verify_routing-classes :
      (env : Environment F) (hook : Hook F) (registers : Expected F) (device : Option (Device F))
      (s s' : Session F) (r : VerifyResult)
      → verify_routing env hook registers device s ≡ on (some r) s'
      → (p : Text) → classes p r ≡ (if elem p (keys registers) then 1 else 0)
  verify_routing-classes env hook registers device s s' r e =
      subst (Returns (Classified registers)) e
        (verify_routing-Classified env hook registers device s)
