-- ===== src/Profiles/Report.antt =====
-- What the outcome of a switch of src/oscmix_desk/profiles.py says of the registers.
use oscmix_autostart.Base.{
  ℕ, ◌+◌, ◌≡◌, refl, sym, ap, ◌∙◌, false, ◌||◌, Option, none, some, List, [], ◌∷◌, ◌++◌,
  if◌then◌else◌, arith,
}
use oscmix_autostart.Base.Text.{Text}
use oscmix_autostart.Base.Float.{Floating}
use oscmix_autostart.Base.Dict.{keys, elem}
use oscmix_autostart.Base.Equality.{text_eq}
use oscmix_autostart.Base.Sort.{sort, text_le}
use oscmix_autostart.Registers.Defs.{Device}
use oscmix_autostart.Registers.Lookup.{device_for_name}
use oscmix_autostart.Config.Defs.{Config}
use oscmix_autostart.Verify.Reported.{Expected, expected_registers}
use oscmix_autostart.Verify.Observe.{VerifyResult}
use oscmix_autostart.Verify.Partition.{count, elem-sort, verify_routing-classes}
use oscmix_autostart.Verify.Session.{Environment, Session, on}
use oscmix_autostart.Verify.Repair.{verify_routing, no_hook}
use oscmix_autostart.Profiles.Switch.{
  applied_verified, Outcome, patient, short_outcome, outcome_of, check,
}

-- What a read-back confirmed.
abbrev pub confirmed_by : Option VerifyResult → List Text
confirmed_by none = []
confirmed_by (some r) = r.confirmed

-- In how many of the confirmed and the unverified registers a path is.
abbrev pub tally : Text → Option VerifyResult → Outcome → ℕ
tally p result o = count (elem p (confirmed_by result)) + count (elem p o.unverified)

elem-append : (p : Text) (xs ys : List Text) → elem p (xs ++ ys) ≡ (elem p xs || elem p ys)
unfolding elem
elem-append p [] ys = refl
elem-append p (x ∷ xs) ys = ground (arith, elem-append p xs ys)

module _ {F : Type 0} where
  short_outcome-unverified :
      (name : Text) (model : Option (Device F)) (ps : List Text)
      → (short_outcome name model ps).unverified ≡ ps
  short_outcome-unverified name model [] = refl
  short_outcome-unverified name model (p ∷ ps) = refl

  short_outcome-verified :
      (name : Text) (model : Option (Device F)) (ps : List Text)
      → (short_outcome name model ps).state ≡ applied_verified
      → ps ≡ []
  short_outcome-verified name model [] h = refl
  short_outcome-verified name model (p ∷ ps) h = cc h

module _ {F : Type 0} ⦃fl : Floating F⦄ where
  outcome_of-tally :
      (env : Environment F) (name : Text) (registers : Expected F) (model : Option (Device F))
      (s s' : Session F) (result : Option VerifyResult)
      → verify_routing env no_hook registers model s ≡ on result s'
      → (p : Text)
      → tally p result (outcome_of name registers model result)
        ≡ (if elem p (keys registers) then 1 else 0)
  unfolding outcome_of elem
  outcome_of-tally env name registers model s s' none e p =
      ground (arith, elem-sort text_le p (keys registers))
  outcome_of-tally env name registers model s s' (some r) e p =
      rw (short_outcome-unverified name model (sort text_le (r.mismatched ++ r.unobserved))) (
        ground (
          arith,
          elem-sort text_le p (r.mismatched ++ r.unobserved),
          elem-append p r.mismatched r.unobserved,
          verify_routing-classes env no_hook registers model s s' r e p,
        ))

  check-outcome :
      (env : Environment F) (name : Text) (c : Config F) (registers : Expected F)
      (s s' t : Session F) (result : Option VerifyResult) (o : Outcome)
      → expected_registers c ≡ some registers
      → verify_routing (patient env) no_hook registers (device_for_name c.device_name) s
        ≡ on result s'
      → check env name c s ≡ on o t
      → outcome_of name registers (device_for_name c.device_name) result ≡ o
  unfolding check
  check-outcome env name c registers s s' t result o e v h =
      let h' : on (outcome_of name registers (device_for_name {F = F} c.device_name) result) s'
          ≡ on o t =
        rw (e, v) at h in
      cc h'

  -- After a switch with a read-back, every register that the profile expects is either confirmed by
  -- the read-back or in the outcome's list of unverified registers, never in both, and no other path
  -- is in either: the list is exact.
  pub check-tally :
      (env : Environment F) (name : Text) (c : Config F) (registers : Expected F)
      (s s' t : Session F) (result : Option VerifyResult) (o : Outcome) (p : Text)
      → expected_registers c ≡ some registers
      → verify_routing (patient env) no_hook registers (device_for_name c.device_name) s
        ≡ on result s'
      → check env name c s ≡ on o t
      → tally p result o ≡ (if elem p (keys registers) then 1 else 0)
  check-tally env name c registers s s' t result o p e v h =
      ap (tally p result) (sym (check-outcome env name c registers s s' t result o e v h))
      ∙ outcome_of-tally (patient env) name registers (device_for_name c.device_name) s s' result v
          p

  verified-confirmed :
      (name : Text) (registers : Expected F) (model : Option (Device F))
      (result : Option VerifyResult) (p : Text)
      → (outcome_of name registers model result).state ≡ applied_verified
      → elem p (outcome_of name registers model result).unverified ≡ false
  unfolding outcome_of elem
  verified-confirmed name registers model none p h = cc h
  verified-confirmed name registers model (some r) p h =
      let empty =
        short_outcome-verified name model (sort text_le (r.mismatched ++ r.unobserved)) h in
      rw (short_outcome-unverified name model (sort text_le (r.mismatched ++ r.unobserved)), empty)
        refl

  -- A switch reports that it is verified only if the read-back confirmed every register that the
  -- profile expects.
  pub check-verified :
      (env : Environment F) (name : Text) (c : Config F) (registers : Expected F)
      (s s' t : Session F) (result : Option VerifyResult) (o : Outcome) (p : Text)
      → expected_registers c ≡ some registers
      → verify_routing (patient env) no_hook registers (device_for_name c.device_name) s
        ≡ on result s'
      → check env name c s ≡ on o t
      → o.state ≡ applied_verified
      → elem p (confirmed_by result) ≡ elem p (keys registers)
  check-verified env name c registers s s' t result o p e v h verified =
      let same = check-outcome env name c registers s s' t result o e v h in
      let none_left : elem p o.unverified ≡ false =
        ap (λ o. elem p o.unverified) (sym same)
        ∙ verified-confirmed name registers (device_for_name c.device_name) result p
            (ap (λ o. o.state) same ∙ verified) in
      let tallied = check-tally env name c registers s s' t result o p e v h in ground arith
