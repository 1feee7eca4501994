-- ===== src/Profiles/Switch.antt =====
-- `switch_profile` of src/oscmix_desk/profiles.py, over the steps of the verifier's session.
use oscmix_autostart.Base.{
  ℕ, Bool, true, false, not, Option, none, some, List, [], ◌∷◌, ◌++◌, if◌then◌else◌, length, keep,
}
use oscmix_autostart.Base.Text.{Text}
use oscmix_autostart.Base.Float.{Floating}
use oscmix_autostart.Base.Dict.{keys}
use oscmix_autostart.Base.Sort.{sort, text_le}
use oscmix_autostart.Registers.Defs.{Device}
use oscmix_autostart.Registers.Lookup.{device_for_name}
use oscmix_autostart.Config.Defs.{Config}
use oscmix_autostart.Config.Parsed.{Parsed, parsed, refused, raised, Problem}
use oscmix_autostart.Verify.Reported.{Expected, expected_registers, register_ever_reported}
use oscmix_autostart.Verify.Observe.{VerifyResult}
use oscmix_autostart.Verify.Session.{Environment, Step, ◌>>=◌, give, lift, off, reapply}
use oscmix_autostart.Verify.Repair.{verify_routing, no_hook}
use oscmix_autostart.Profiles.Load.{Files, load_profile}

-- `APPLIED_VERIFIED`, `APPLIED_UNVERIFIED` and `REFUSED`
pub data State : Type 0 where
  applied_verified applied_unverified not_applied : State

-- The `reason` of an outcome.
pub data Reason : Type 0 where
  no_reason : Reason
  not_checked : Reason
  port_in_use : Reason
  problem : Problem → Reason
  -- How many registers are unconfirmed, and how many of them are never reported.
  short_of : ℕ → ℕ → Reason

pub record Outcome : Type 0 where
  pub state : State
  pub name : Text
  pub reason : Reason
  pub unverified : List Text
  pub unverifiable : List Text

-- `Outcome.applied`
unfoldable pub is_applied : Outcome → Bool
is_applied o = elim o.state [
  | applied_verified ↦ true
  | applied_unverified ↦ true
  | not_applied ↦ false
]

-- `should_stop=None`
abbrev pub patient : {F : Type 0} → Environment F → Environment F
patient env = record env { stop = λ n. false }

module _ {F : Type 0} where
  -- The outcome of a read-back with unconfirmed registers, and without.
  abbrev pub short_outcome : Text → Option (Device F) → List Text → Outcome
  short_outcome name model [] = record {
    state = applied_verified;
    name = name;
    reason = no_reason;
    unverified = [];
    unverifiable = [];
  }
  short_outcome name model (p ∷ ps) =
      let blind = sort text_le (keep (λ q. not (register_ever_reported q model)) (p ∷ ps)) in
      record {
        state = applied_unverified;
        name = name;
        reason = short_of (length (p ∷ ps)) (length blind);
        unverified = p ∷ ps;
        unverifiable = blind;
      }

  -- What `_check` makes of a read-back; `none`: the receive port is held.
  unfoldable pub outcome_of : Text → Expected F → Option (Device F) → Option VerifyResult → Outcome
  outcome_of name registers model none = record {
    state = applied_unverified;
    name = name;
    reason = port_in_use;
    unverified = sort text_le (keys registers);
    unverifiable = [];
  }
  outcome_of name registers model (some r) =
      short_outcome name model (sort text_le (r.mismatched ++ r.unobserved))

module _ {F : Type 0} ⦃fl : Floating F⦄ where
  unfoldable pub check : Environment F → Text → Config F → Step F Outcome
  check env name c = do
    registers ← lift (expected_registers c)
    result ← verify_routing (patient env) no_hook registers (device_for_name c.device_name)
    give (outcome_of name registers (device_for_name c.device_name) result)

  -- `verify=False`
  abbrev pub unchecked : Text → Config F → Step F Outcome
  unchecked name c = do
    registers ← lift (expected_registers c)
    give (record {
      state = applied_unverified;
      name = name;
      reason = not_checked;
      unverified = sort text_le (keys registers);
      unverifiable = [];
    })

  abbrev pub switch_to : Environment F → Bool → Text → Parsed (Config F) → Step F Outcome
  switch_to env verify name (refused p) = give (record {
    state = not_applied;
    name = name;
    reason = problem p;
    unverified = [];
    unverifiable = [];
  })
  switch_to env verify name raised = off
  switch_to env verify name (parsed c) = do
    _ ← reapply env c []
    if verify then check env name c else unchecked name c

  unfoldable pub switch_profile : Environment F → Bool → Text → Files → Step F Outcome
  switch_profile env verify name files = switch_to env verify name (load_profile name files)
