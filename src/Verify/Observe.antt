-- ===== src/Verify/Observe.antt =====
-- One observation of the device: `_absorb`, `_window_may_close` and the sets of
-- src/oscmix_desk/verify.py. Sets are lists without repeats.
use oscmix_autostart.Base.{
  ◌==◌, Bool, true, false, not, ◌&&◌, Option, none, some, List, [], if◌then◌else◌, length, keep,
  all,
}
use oscmix_autostart.Base.Text.{Text}
use oscmix_autostart.Base.Float.{Floating}
use oscmix_autostart.Base.Dict.{keys, get, elem, add_key}
use oscmix_autostart.Base.Equality.{text_eq}
use oscmix_autostart.Base.Sort.{sort, text_le}
use oscmix_autostart.Registers.Defs.{Device}
use oscmix_autostart.Reconcile.Messages.{Message}
use oscmix_autostart.Reconcile.Compare.{matches}
use oscmix_autostart.Routing.Apply.{default_tolerance}
use oscmix_autostart.Verify.Reported.{Expected, register_ever_reported}

pub record VerifyResult : Type 0 where
  pub confirmed : List Text
  pub mismatched : List Text
  pub unobserved : List Text

-- `confirmed` and `mismatched` while the window is open.
pub record Seen : Type 0 where
  pub confirmed : List Text
  pub mismatched : List Text

abbrev pub nothing_seen : Seen
nothing_seen = record { confirmed = []; mismatched = [] }

-- `s.discard(p)`
unfoldable pub discard : Text → List Text → List Text
unfolding keep
discard p = keep (λ q. not (text_eq.eqb q p))

abbrev pub confirm : Text → Seen → Seen
confirm p s = record { confirmed = add_key p s.confirmed; mismatched = discard p s.mismatched }

abbrev pub mismatch : Text → Seen → Seen
mismatch p s = record s { mismatched = add_key p s.mismatched }

module _ {F : Type 0} ⦃fl : Floating F⦄ where
  -- The judgement of `_absorb`; `none` is an exception of `matches`.
  unfoldable pub absorb : Message F → Expected F → Seen → Option Seen
  absorb (path, tags, args) registers s = elim (get path registers) [
    | none ↦ some s
    | some (want, wanted) ↦
        let judged = matches default_tolerance want wanted args in
        if elem path s.confirmed then some s else elim judged [
          | none ↦ none
          | some true ↦ some (confirm path s)
          | some false ↦ some (mismatch path s)
        ]
  ]

-- `reportable <= confirmed`
unfoldable pub subset : List Text → List Text → Bool
unfolding all elem
subset ps qs = all (λ p. elem p qs) ps

unfoldable pub window_may_close : {F : Type 0} → Expected F → List Text → Seen → Bool
unfolding subset
window_may_close registers reportable s =
    if not (length s.mismatched == 0)
    then false
    else if length s.confirmed == length registers
    then true
    else not (length reportable == 0) && subset reportable s.confirmed

module _ {F : Type 0} where
  unfoldable pub prompt_set : Expected F → Option (Device F) → List Text
  unfolding keep
  prompt_set registers device = keep (λ p. register_ever_reported p device) (keys registers)

  -- What `verify_routing` returns when the window has closed.
  unfoldable pub result_of : Expected F → Seen → VerifyResult
  unfolding keep sort
  result_of registers s = record {
    confirmed = sort text_le s.confirmed;
    mismatched = sort text_le s.mismatched;
    unobserved =
        sort text_le
          (keep (λ p. not (elem p s.confirmed) && not (elem p s.mismatched)) (keys registers));
  }
