-- ===== src/Command/Verdict.antt =====
-- What the exit code of `_diff` of src/oscmix_desk/cli.py says of the device.
use oscmix_autostart.Base.{
  ◌≡◌, refl, sym, ap, ◌∙◌, subst, Bool, true, Option, some, List, [], ◌∷◌, All, Bool-cases, inl,
  inr, ◌>>=◌, >>=-eq-some, keep,
}
use native.Mathlib.Omega.{arith}
use mathlib.Core.Bool.{false≢true}
use mathlib.Core.Logic.{◌↔◌}
use mathlib.Core.Option.{some-injective}
use oscmix_autostart.Base.Float.{Floating}
use oscmix_autostart.Base.Equality.{text_eq}
use oscmix_autostart.Base.Sort.{insert, sort}
use oscmix_autostart.Registers.Defs.{Device}
use oscmix_autostart.Registers.Lookup.{device_for_name}
use oscmix_autostart.Config.Defs.{Config}
use oscmix_autostart.Routing.Apply.{default_tolerance}
use oscmix_autostart.Reconcile.Desired.{Entry, desired}
use oscmix_autostart.Reconcile.Plan.{
  Reason, missing, mismatched, rewrite, unconditional, Write, Plan, plan_seen, by_phase, plan,
}
use oscmix_autostart.Reconcile.Accounting.{
  Goes, rewritten, absent, satisfied, plan_entry-Goes, Settled, plan-Settled,
}
use oscmix_autostart.Command.Read.{Observed}
use oscmix_autostart.Session.Run.{exit_ok}
use oscmix_autostart.Command.Diff.{
  exit_differs, is_rewrite, differing_writes, Diff, code_of, diff_of, diff,
}

module _ {ℓ κ} {A : Type ℓ} (le : A → A → Bool) (P : A → Type κ) where
  insert-All : (x : A) (ys : List A) → All P (insert le x ys) → P x × All P ys
  unfolding insert
  insert-All x [] h = h
  insert-All x (y ∷ ys) h = elim (Bool-cases (le x y)) [
    | inl t ↦ rw t at h
    | inr f ↦
        let h' : P y × All P (insert le x ys) = rw f at h in
        let (p, q) = insert-All x ys h'.1 in (p, (h'.0, q))
  ]

  sort-All : (xs : List A) → All P (sort le xs) → All P xs
  unfolding sort
  sort-All [] h = tt
  sort-All (x ∷ xs) h = let (p, q) = insert-All x (sort le xs) h in (p, sort-All xs q)

is_rewrite_iff : (r : Reason) → is_rewrite r ≡ true → r ≡ rewrite
is_rewrite_iff rewrite h = refl
is_rewrite_iff missing h = cc h
is_rewrite_iff mismatched h = cc h
is_rewrite_iff unconditional h = cc h

missing_not_rewrite : missing ≡ rewrite → ⊥
missing_not_rewrite h = cc h

mismatched_not_rewrite : mismatched ≡ rewrite → ⊥
mismatched_not_rewrite h = cc h

differs_not_ok : exit_differs ≡ exit_ok → ⊥
differs_not_ok h = omega (arith, h)

module _ {F : Type 0} where
  abbrev IsRewrite : Write F → Type 0
  IsRewrite w = w.reason ≡ rewrite

  code_of_ok : (ws : List (Write F)) → code_of (differing_writes ws) ≡ exit_ok → All IsRewrite ws
  unfolding differing_writes keep
  code_of_ok [] h = tt
  code_of_ok (w ∷ ws) h = elim (Bool-cases (is_rewrite w.reason)) [
    | inl t ↦ (is_rewrite_iff w.reason t, code_of_ok ws (rw t at h))
    | inr f ↦ absurd (differs_not_ok (rw f at h))
  ]

  ok_of_rewrites :
      (ws : List (Write F)) → All IsRewrite ws → code_of (differing_writes ws) ≡ exit_ok
  unfolding differing_writes keep
  ok_of_rewrites [] h = refl
  ok_of_rewrites (w ∷ ws) h = rw h.0 (ok_of_rewrites ws h.1)

module _ {F : Type 0} ⦃fl : Floating F⦄ where
  module _ (seen : Observed F) (device : Option (Device F)) (tolerance : F) where
    entry-rewrites :
        (e : Entry F) (rest p : Plan F)
        → Goes seen device tolerance e rest p
        → All IsRewrite p.writes
        → Settled seen device tolerance e × All IsRewrite rest.writes
    entry-rewrites e rest p (rewritten c h) a =
        let a' = subst (λ q. All IsRewrite q.writes) (sym h) a in
        ((λ f. absurd (false≢true (sym f ∙ c))), a'.1)
    entry-rewrites e rest p (absent c g h) a =
        let a' = subst (λ q. All IsRewrite q.writes) (sym h) a in absurd (missing_not_rewrite a'.0)
    entry-rewrites e rest p (satisfied got c g m h) a =
        ((λ f. (got, g, m)), subst (λ q. All IsRewrite q.writes) (sym h) a)
    entry-rewrites e rest p (Goes.differing got c g m h) a =
        let a' = subst (λ q. All IsRewrite q.writes) (sym h) a in
        absurd (mismatched_not_rewrite a'.0)

    seen-rewrites :
        (es : List (Entry F)) (p : Plan F)
        → plan_seen seen device tolerance es ≡ some p
        → All IsRewrite p.writes
        → All (Settled seen device tolerance) es
    unfolding plan_seen
    seen-rewrites [] p h a = tt
    seen-rewrites (e ∷ es) p h a =
        let (rest, r, last) = >>=-eq-some (plan_seen seen device tolerance es) _ h in
        let (s, a') =
          entry-rewrites e rest p (plan_entry-Goes seen device tolerance e rest p last) a in
        (s, seen-rewrites es rest r a')

    plan-rewrites :
        (es : List (Entry F)) (p : Plan F)
        → plan es (some seen) device tolerance ≡ some p
        → All IsRewrite p.writes
        → All (Settled seen device tolerance) es
    unfolding plan by_phase
    plan-rewrites es p h a =
        let (q, r, last) = >>=-eq-some (plan_seen seen device tolerance es) _ h in
        seen-rewrites es q r (
          sort-All _ IsRewrite q.writes
            (subst (λ q'. All IsRewrite q'.writes) (sym (some-injective _ _ last)) a))

  -- Where a diff against what the device reports raises nothing, it exits with EXIT_OK exactly if
  -- every desired register that is not re-established is reported, at a value that matches.
  pub diff-Settled :
      (c : Config F) (seen : Observed F) (es : List (Entry F)) (d : Diff F)
      → desired c ≡ some es
      → diff c (some seen) ≡ some d
      → (d.code ≡ exit_ok) ↔ All (Settled seen (device_for_name c.device_name) default_tolerance) es
  unfolding diff
  diff-Settled c seen es d g h =
      let device = device_for_name c.device_name in
      let h' : (do p ← plan es (some seen) device default_tolerance; some (diff_of seen p))
          ≡ some d =
        rw g at h in
      let (p, q, last) = >>=-eq-some (plan es (some seen) device default_tolerance) _ h' in
      let same : diff_of seen p ≡ d = some-injective _ _ last in
      (
        (λ ok.
            plan-rewrites seen device default_tolerance es p q
              (code_of_ok p.writes (ap (λ x. x.code) same ∙ ok))),
        (λ s.
            sym (ap (λ x. x.code) same)
            ∙ ok_of_rewrites p.writes (plan-Settled seen device default_tolerance es p s q)),
      )
