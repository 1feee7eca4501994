-- ===== src/Reconcile/Plan.antt =====
-- What to write: `plan` of src/oscmix_desk/reconcile.py.
use oscmix_autostart.Base.{
  ℕ, ◌==◌, leb, Bool, true, false, Option, none, some, List, [], ◌∷◌, map, if◌then◌else◌, ◌>>=◌,
  keep,
}
use oscmix_autostart.Base.Text.{Text}
use oscmix_autostart.Base.Float.{Floating}
use oscmix_autostart.Base.Dict.{Dict, get}
use oscmix_autostart.Base.Equality.{text_eq}
use oscmix_autostart.Base.Sort.{sort}
use oscmix_autostart.Registers.Defs.{Device, VerifyClass, verifiable, reestablished}
use oscmix_autostart.Registers.Lookup.{verify_class}
use oscmix_autostart.Config.Defs.{Value}
use oscmix_autostart.Reconcile.Messages.{Message}
use oscmix_autostart.Reconcile.Desired.{Entry}
use oscmix_autostart.Reconcile.Compare.{matches}

-- `MISSING`, `MISMATCHED`, `REWRITE` and `UNCONDITIONAL`.
pub data Reason : Type 0 where
  missing mismatched rewrite unconditional : Reason

pub record Write (F : Type 0) : Type 0 where
  pub path : Text
  pub tags : Text
  pub args : List (Value F)
  pub phase : ℕ
  pub reason : Reason

pub record Plan (F : Type 0) : Type 0 where
  pub writes : List (Write F)
  pub confirmed : List Text
  pub unverifiable : List Text

module _ {F : Type 0} where
  -- `Write.message`
  abbrev pub message : Write F → Message F
  message w = (w.path, w.tags, w.args)

  abbrev pub write : Reason → Entry F → Write F
  write reason e = record {
    path = e.path;
    tags = e.tags;
    args = e.args;
    phase = e.phase;
    reason = reason;
  }

  -- `Plan.links`, `Plan.mix` and `Plan.channel`
  unfoldable pub in_phase : ℕ → Plan F → List (Write F)
  unfolding keep
  in_phase n p = keep (λ w. w.phase == n) p.writes

  unfoldable pub messages : Plan F → List (Message F)
  messages p = map message p.writes

-- `verify_class(device, entry.path) if device else VERIFIABLE`
unfoldable pub class_of : {F : Type 0} → Option (Device F) → Text → Option VerifyClass
unfolding verify_class
class_of none path = some verifiable
class_of (some d) path = verify_class (some d) path

abbrev pub is_reestablished : Option VerifyClass → Bool
is_reestablished (some reestablished) = true
is_reestablished _ = false

module _ {F : Type 0} where
  abbrev pub no_plan : Plan F
  no_plan = record { writes = []; confirmed = []; unverifiable = [] }

  abbrev pub add_write : Write F → Plan F → Plan F
  add_write w p = record p { writes = w ∷ p.writes }

  abbrev pub add_confirmed : Text → Plan F → Plan F
  add_confirmed t p = record p { confirmed = t ∷ p.confirmed }

  abbrev pub add_unverifiable : Text → Plan F → Plan F
  add_unverifiable t p = record p { unverifiable = t ∷ p.unverifiable }

module _ {F : Type 0} ⦃fl : Floating F⦄ where
  -- What one entry contributes, in front of what the later ones do. `seen` is what was observed.
  unfoldable pub plan_entry :
      Dict Text (List (Value F)) → Option (Device F) → F → Entry F → Plan F → Option (Plan F)
  plan_entry seen device tolerance e rest =
      if is_reestablished (class_of device e.path)
      then some (add_write (write rewrite e) (add_unverifiable e.path rest))
      else elim (get e.path seen) [
        | none ↦ some (add_write (write missing e) rest)
        | some got ↦ (do
          same ← matches tolerance e.tags e.args got
          some (if same then add_confirmed e.path rest else add_write (write mismatched e) rest))
      ]

  unfoldable pub plan_seen :
      Dict Text (List (Value F)) → Option (Device F) → F → List (Entry F) → Option (Plan F)
  plan_seen seen device tolerance [] = some no_plan
  plan_seen seen device tolerance (e ∷ es) = do
    rest ← plan_seen seen device tolerance es
    plan_entry seen device tolerance e rest

  -- `writes.sort(key=lambda w: w.phase)`
  unfoldable pub by_phase : List (Write F) → List (Write F)
  unfolding sort
  by_phase = sort (λ a b. leb a.phase b.phase)

  -- `seen` is `none` where nothing was observed: then every entry is written.
  unfoldable pub plan :
      List (Entry F) → Option (Dict Text (List (Value F))) → Option (Device F) → F → Option (Plan F)
  plan entries none device tolerance =
      some (record no_plan { writes = by_phase (map (write unconditional) entries) })
  plan entries (some seen) device tolerance = do
    p ← plan_seen seen device tolerance entries
    some (record p { writes = by_phase p.writes })
