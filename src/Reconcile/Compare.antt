-- ===== src/Reconcile/Compare.antt =====
-- Whether a report satisfies a desired value: `matches` of src/oscmix_desk/reconcile.py.
-- `none` is the `OverflowError` of `int` at an infinity, which `matches` does not catch.
use oscmix_autostart.Base.{
  ℕ, ◌==◌, ltb, Bool, true, false, not, ◌&&◌, Option, none, some, List, [], ◌∷◌, if◌then◌else◌,
  length,
}
use oscmix_autostart.Base.Text.{Text}
use oscmix_autostart.Base.Int.{eq_ℤ}
use oscmix_autostart.Base.Float.{Floating, IntOf, value, value_error, overflow_error}
use oscmix_autostart.Registers.Table.{level_min}
use oscmix_autostart.Config.Defs.{Value}
use oscmix_autostart.Config.Convert.{int_of_value, float_of}

-- `int(wanted) != int(reported)` under `except (TypeError, ValueError)`: whether they agree.
unfoldable pub agree_ints : IntOf → IntOf → Option Bool
agree_ints (value a) (value b) = some (eq_ℤ a b)
agree_ints (value a) value_error = some false
agree_ints (value a) overflow_error = none
agree_ints value_error r = some false
agree_ints overflow_error r = none

module _ {F : Type 0} ⦃fl : Floating F⦄ where
  -- `_both_muted`
  unfoldable pub both_muted : F → F → Bool
  both_muted wanted reported = fl.le wanted level_min && fl.eq reported fl.neg_inf

  -- The comparison of a float argument.
  unfoldable pub agree_floats : F → Option F → Option F → Bool
  unfolding both_muted
  agree_floats tolerance none r = false
  agree_floats tolerance (some w) none = false
  agree_floats tolerance (some w) (some r) =
      if both_muted w r then true else not (fl.lt tolerance (fl.abs (fl.sub w r)))

  -- One round of the loop, for the tag `c`.
  unfoldable pub agree : F → ℕ → Value F → Value F → Option Bool
  unfolding agree_ints agree_floats int_of_value float_of
  agree tolerance c w r =
      if c == b'f'
      then some (agree_floats tolerance (float_of w) (float_of r))
      else agree_ints (int_of_value w) (int_of_value r)

  -- `for tag, wanted, reported in zip(tags, want, got)`
  unfoldable pub agree_all : F → Text → List (Value F) → List (Value F) → Option Bool
  unfolding agree
  agree_all tolerance [] want got = some true
  agree_all tolerance (c ∷ cs) [] got = some true
  agree_all tolerance (c ∷ cs) (w ∷ ws) [] = some true
  agree_all tolerance (c ∷ cs) (w ∷ ws) (r ∷ rs) =
      let rest = agree_all tolerance cs ws rs in
      elim (agree tolerance c w r) [ none ↦ none | some false ↦ some false | some true ↦ rest ]

  unfoldable pub matches : F → Text → List (Value F) → List (Value F) → Option Bool
  unfolding agree_all
  matches tolerance tags want got =
      if ltb (length got) (length want) then some false else agree_all tolerance tags want got
