-- ===== src/Routing/Listening.antt =====
-- What the wait for the link echo has heard when it ends.
use oscmix_autostart.Base.{
  ◌≡◌, sym, ap, ◌∙◌, subst, Bool, true, false, none, some, List, [], ◌∷◌, if◌then◌else◌, ◌⊎◌, inl,
  inr, Option-cases, Bool-cases, arith,
}
use mathlib.Core.Option.{some-injective}
use oscmix_autostart.Base.Text.{Text}
use oscmix_autostart.Base.Int.{ℤ, eq_ℤ, eq_ℤ_iff}
use oscmix_autostart.Base.Float.{Floating, IntOf, value, value_error, overflow_error}
use oscmix_autostart.Base.Dict.{Dict, Distinct, keys, get, remove, get-remove, remove-Distinct}
use oscmix_autostart.Base.Equality.{text_eq}
use oscmix_autostart.Config.Convert.{int_of_value}
use oscmix_autostart.Reconcile.Messages.{Message}
use oscmix_autostart.Routing.Echo.{arrived, hear_one, hear, await_rounds, await_link_echo}

module _ {F : Type 0} ⦃fl : Floating F⦄ where
  -- A report of a register at a value.
  unfoldable pub reports : Text → ℤ → Message F → Bool
  reports p z (path, tags, []) = false
  reports p z (path, tags, v ∷ vs) =
      if text_eq.eqb path p then elim (int_of_value v) [ value n ↦ eq_ℤ n z | _ ↦ false ] else false

  unfoldable pub reported : Text → ℤ → List (Message F) → Bool
  unfolding reports
  reported p z [] = false
  reported p z (m ∷ ms) = if reports p z m then true else reported p z ms

  unfoldable pub reported_in : Text → ℤ → List (List (Message F)) → Bool
  reported_in p z [] = false
  reported_in p z (ms ∷ rounds) = if reported p z ms then true else reported_in p z rounds

  -- A register that one report leaves pending was not reported at its value by it.
  hear_one-get :
      (m : Message F) (d rest : Dict Text ℤ) (p : Text) (z : ℤ)
      → Distinct (keys d)
      → hear_one m d ≡ some rest
      → get p d ≡ some z
      → (reports p z m ≡ true) ⊎ (get p rest ≡ some z)
  unfolding hear_one reports
  hear_one-get (q, t, []) d rest p z u h g = inr (ground arith)
  hear_one-get (q, t, v ∷ vs) d rest p z u h g = elim (Option-cases (get q d)) [
    | inl n ↦ inr (ground arith)
    | inr (w, n) ↦ at_value w (int_of_value v) n (rw (n, hear_one) at h)
  ]
    where
      at_value :
          (w : ℤ) (i : IntOf)
          → get q d ≡ some w
          → elim i [
            | value_error ↦ some d
            | overflow_error ↦ none
            | value r ↦ if eq_ℤ r w then some (remove q d) else some d
          ]
            ≡ some rest
          → ((if text_eq.eqb q p then elim i [ value n ↦ eq_ℤ n z | _ ↦ false ] else false) ≡ true)
            ⊎ (get p rest ≡ some z)
      at_value w (value n) b k = elim (Bool-cases (eq_ℤ n w)) [
        | inl same ↦ elim (Bool-cases (text_eq.eqb q p)) [
          | inl here ↦
              let path : q ≡ p = (text_eq.eqb_iff q p).0 here in
              let wanted : w ≡ z = some-injective _ _ (sym b ∙ ap (λ k. get k d) path ∙ g) in
              inl (rw (here, (eq_ℤ_iff n z).1 ((eq_ℤ_iff n w).0 same ∙ wanted)))
          | inr other ↦ inr (ground (arith, get-remove q p d u))
        ]
        | inr differs ↦ inr (ground arith)
      ]
      at_value w value_error b k = inr (ground arith)
      at_value w overflow_error b k = absurd (cc k)

  hear_one-Distinct :
      (m : Message F) (d rest : Dict Text ℤ)
      → Distinct (keys d)
      → hear_one m d ≡ some rest
      → Distinct (keys rest)
  unfolding hear_one
  hear_one-Distinct (q, t, []) d rest u h = ground arith
  hear_one-Distinct (q, t, v ∷ vs) d rest u h =
      ground (arith, Option-cases (get q d), remove-Distinct q d u)

  hear-Distinct :
      (ms : List (Message F)) (d rest : Dict Text ℤ)
      → Distinct (keys d)
      → hear ms d ≡ some rest
      → Distinct (keys rest)
  unfolding hear
  hear-Distinct [] d rest u h = subst (λ e. Distinct (keys e)) (some-injective _ _ h) u
  hear-Distinct (m ∷ ms) d rest u h = elim (Option-cases (hear_one m d)) [
    | inl n ↦ absurd (ground arith)
    | inr (d', n) ↦ hear-Distinct ms d' rest (hear_one-Distinct m d d' u n) (ground arith)
  ]

  hear-get :
      (ms : List (Message F)) (d rest : Dict Text ℤ) (p : Text) (z : ℤ)
      → Distinct (keys d)
      → hear ms d ≡ some rest
      → get p d ≡ some z
      → (reported p z ms ≡ true) ⊎ (get p rest ≡ some z)
  unfolding hear reported
  hear-get [] d rest p z u h g = inr (subst (λ e. get p e ≡ some z) (some-injective _ _ h) g)
  hear-get (m ∷ ms) d rest p z u h g = elim (Option-cases (hear_one m d)) [
    | inl n ↦ absurd (ground arith)
    | inr (d', n) ↦ elim (hear_one-get m d d' p z u n g) [
      | inl r ↦ inl (rw r)
      | inr g' ↦ elim (hear-get ms d' rest p z (hear_one-Distinct m d d' u n) (ground arith) g') [
        | inl r ↦ inl (ground arith)
        | inr g'' ↦ inr g''
      ]
    ]
  ]

  await_rounds-arrived :
      (rounds : List (List (Message F))) (d : Dict Text ℤ) (p : Text) (z : ℤ)
      → Distinct (keys d)
      → await_rounds rounds d ≡ arrived
      → get p d ≡ some z
      → reported_in p z rounds ≡ true
  unfolding await_rounds reported_in get
  await_rounds-arrived rounds [] p z u h g = absurd (cc g)
  await_rounds-arrived [] (x ∷ d) p z u h g = absurd (cc h)
  await_rounds-arrived ([] ∷ rounds) (x ∷ d) p z u h g = absurd (cc h)
  await_rounds-arrived ((m ∷ ms) ∷ rounds) (x ∷ d) p z u h g =
      elim (Option-cases (hear (m ∷ ms) (x ∷ d))) [
        | inl n ↦ absurd (ground arith)
        | inr (rest, n) ↦ elim (hear-get (m ∷ ms) (x ∷ d) rest p z u n g) [
          | inl r ↦ rw r
          | inr g' ↦
              let r =
                await_rounds-arrived rounds rest p z (hear-Distinct (m ∷ ms) (x ∷ d) rest u n)
                  (ground arith) g' in
              ground arith
        ]
      ]

  -- The wait for the link echo ends as arrived only if every register that it waits for was
  -- reported at the value that it waits for: a stale report of the opposite value does not end it.
  pub await_link_echo-arrived :
      (expected : Dict Text ℤ) (rounds : List (List (Message F))) (p : Text) (z : ℤ)
      → Distinct (keys expected)
      → await_link_echo expected (some rounds) ≡ arrived
      → get p expected ≡ some z
      → reported_in p z rounds ≡ true
  unfolding await_link_echo get
  await_link_echo-arrived [] rounds p z u h g = absurd (cc g)
  await_link_echo-arrived (x ∷ d) rounds p z u h g = await_rounds-arrived rounds (x ∷ d) p z u h g
