-- ===== src/Reconcile/Policy.antt =====
-- `policy_for` of src/oscmix_desk/reconcile.py: whether a register is pinned or remembered.
use oscmix_autostart.Base.{Option, none, some, List, [], ◌∷◌}
use oscmix_autostart.Base.Text.{Text, strip_char, split}
use oscmix_autostart.Base.Dict.{Dict, get}
use oscmix_autostart.Base.Equality.{Eq, text_eq, eq_pair, eq_pair_iff}
use oscmix_autostart.Registers.Defs.{Policy, Device}
use oscmix_autostart.Registers.Lookup.{register_policy}

instance abbrev pub option_eq : Eq (Text × Text)
option_eq = record { eqb = eq_pair; eqb_iff = eq_pair_iff }

-- The family and the option of a path of three parts.
unfoldable pub override_for : Dict (Text × Text) Policy → List Text → Option Policy
override_for overrides (family ∷ channel ∷ option ∷ []) = get (family, option) overrides
override_for overrides parts = none

-- Without overrides, or without one for the path, the register table decides.
unfoldable pub policy_for :
    {F : Type 0} → Text → Option (Device F) → Dict (Text × Text) Policy → Policy
unfolding override_for register_policy
policy_for path device overrides =
    elim (override_for overrides (split b'/' (strip_char b'/' path))) [
      | some policy ↦ policy
      | none ↦ register_policy device path
    ]
