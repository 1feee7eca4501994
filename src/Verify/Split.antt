-- ===== src/Verify/Split.antt =====
-- Every mismatch is either insisted on or kept by the device, by its policy.
use oscmix_autostart.Base.{
  ◌≡◌, sym, ap, ◌∙◌, subst, Bool, not, Option, some, List, [], ◌∷◌, ◌++◌, keep, Bool-cases, inl,
  inr, >>=-eq-some,
}
use mathlib.Core.Option.{some-injective}
use mathlib.Core.List.{Perm, perm_middle, perm_append_comm}
use mathlib.Core.List.Perm
use oscmix_autostart.Base.Text.{Text}
use oscmix_autostart.Base.Dict.{Dict}
use oscmix_autostart.Base.Sort.{sort, text_le}
use oscmix_autostart.Registers.Defs.{Policy, Device}
use oscmix_autostart.Reconcile.Policy.{policy_for}
use oscmix_autostart.Reconcile.Accounting.{sort-perm}
use oscmix_autostart.Verify.Observe.{VerifyResult}
use oscmix_autostart.Verify.Judge.{is_pin, lost, insisted, unconfirmed, kept_by_the_device}

-- What a test keeps and what it leaves out.
keep-perm : (f : Text → Bool) (ps : List Text) → Perm (keep f ps ++ keep (λ p. not (f p)) ps) ps
unfolding keep
keep-perm f [] = Perm.refl []
keep-perm f (p ∷ ps) = elim (Bool-cases (f p)) [
  | inl t ↦ rw t (Perm.cons p (keep-perm f ps))
  | inr n ↦ rw n (
      Perm.trans (perm_middle (keep f ps) (keep (λ q. not (f q)) ps))
        (Perm.cons p (keep-perm f ps)))
]

append_swap : (xs ys zs : List Text) → Perm ((xs ++ ys) ++ zs) ((xs ++ zs) ++ ys)
append_swap [] ys zs = perm_append_comm ys zs
append_swap (x ∷ xs) ys zs = Perm.cons x (append_swap xs ys zs)

module _ {F : Type 0} where
  -- The problems and what the device keeps are the mismatches and the lost registers, each once:
  -- no mismatch is dropped, and none is both re-sent and left alone.
  pub unconfirmed-perm :
      (r : VerifyResult) (device : Option (Device F)) (overrides : Dict (Text × Text) Policy)
      (gone problems : List Text)
      → lost device r.unobserved ≡ some gone
      → unconfirmed r device overrides ≡ some problems
      → Perm (problems ++ kept_by_the_device r device overrides) (r.mismatched ++ gone)
  unfolding unconfirmed kept_by_the_device insisted
  unconfirmed-perm r device overrides gone problems g h =
      let f : Text → Bool = (λ p. is_pin (policy_for p device overrides)) in
      let out : List Text = keep (λ p. not (f p)) r.mismatched in
      let (gone', g', last) = >>=-eq-some (lost device r.unobserved) _ h in
      let same_gone : gone' ≡ gone = some-injective _ _ (sym g' ∙ g) in
      subst (λ (ps : List Text). Perm (ps ++ sort text_le out) (r.mismatched ++ gone))
        (ap (λ l. sort text_le (keep f r.mismatched ++ l)) (sym same_gone)
          ∙ some-injective _ _ last)
        (Perm.trans
          (Perm.append_right (sort text_le out) (sort-perm text_le (keep f r.mismatched ++ gone)))
          (Perm.trans (Perm.append_left (keep f r.mismatched ++ gone) (sort-perm text_le out)) (
            Perm.trans (append_swap (keep f r.mismatched) gone out)
              (Perm.append_right gone (keep-perm f r.mismatched)))))
