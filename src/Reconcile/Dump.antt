-- ===== src/Reconcile/Dump.antt =====
-- A reported state as the settings of a config, and a setting as a line of a file, of
-- src/oscmix_desk/reconcile.py. `none` is an exception of a path that does not fit.
use oscmix_autostart.Base.{
  ℕ, Bool, true, false, not, ◌&&◌, Option, none, some, List, [], ◌∷◌, ◌++◌, map, if◌then◌else◌,
  ◌>>=◌, extend_all, keep,
}
use oscmix_autostart.Base.Text.{Text, text, one_of}
use oscmix_autostart.Base.Int.{pos, eq_ℤ}
use oscmix_autostart.Base.Float.{Floating}
use oscmix_autostart.Base.Dict.{Dict, get}
use oscmix_autostart.Base.Equality.{text_eq}
use oscmix_autostart.Base.Sort.{sort, text_le}
use oscmix_autostart.Registers.Defs.{
  Register, Device, Domain, bool, enum, pin, remember, reestablished, path, channels_for,
}
use oscmix_autostart.Registers.Lookup.{register_at}
use oscmix_autostart.Registers.Settable.{
  settable_option_rows, nested_families, settable_nested, global_families, settable_globals,
}
use oscmix_autostart.Config.Defs.{Value, int, float, str, flag, ChannelSetting, GlobalSetting}
use oscmix_autostart.Base.Decimal.{show_ℤ}
use oscmix_autostart.Config.Settings.{nested_option}
use oscmix_autostart.Reconcile.Policy.{policy_for}

-- A line: live, or a comment that says that the value has no name or is remembered.
pub data Line : Type 0 where
  live : Text → Text → Line
  nameless : Text → Text → Line
  remembered : Text → Text → Line

abbrev pub truth_word : Bool → Text
truth_word true = text "true"
truth_word false = text "false"

-- `domain == BOOL` and `domain == ENUM`
abbrev pub bool_in : Option Domain → Bool
bool_in (some bool) = true
bool_in d = false

abbrev pub enum_in : Option Domain → Bool
enum_in (some enum) = true
enum_in d = false

module _ {F : Type 0} where
  -- `args[1] if len(args) > 1 else args[0]`
  abbrev name_of : Value F → List (Value F) → Value F
  name_of v [] = v
  name_of v (w ∷ vs) = w

  -- `value not in register.choices`
  abbrev pub not_among : Value F → List Text → Bool
  not_among (str s) choices = not (one_of s choices)
  not_among v choices = true

  -- `_unnameable`
  unfoldable pub unnameable : Register F → Value F → Bool
  unnameable r v = enum_in r.domain && not_among v r.choices

  -- `unrecoverable`
  unfoldable pub unrecoverable : Option (Device F) → List Text
  unfolding keep
  unrecoverable none = []
  unrecoverable (some d) =
      map (λ r. r.template)
        (keep (λ r. elim r.verify [ reestablished ↦ true | v ↦ false ]) d.registers)

module _ {F : Type 0} ⦃fl : Floating F⦄ where
  -- `bool(value)`
  unfoldable pub truth : Value F → Bool
  truth (int z) = not (eq_ℤ z (pos 0))
  truth (float x) = not (fl.eq x (fl.decimal (pos 0) 0))
  truth (str []) = false
  truth (str (c ∷ s)) = true
  truth (flag b) = b

  -- `_config_value`, of the arguments `v ∷ vs`.
  unfoldable pub config_value : Register F → Value F → List (Value F) → Value F
  config_value r v vs =
      if enum_in r.domain then name_of v vs else if bool_in r.domain then flag (truth v) else v

  -- What `_render_value` makes of a value that no Boolean register declares.
  abbrev pub render_plain : Value F → Text
  render_plain (flag b) = truth_word b
  render_plain (float x) = fl.fixed1 x
  render_plain (int z) = show_ℤ z
  render_plain (str s) = s

  -- `_render_value`
  unfoldable pub render_value : Value F → Option (Register F) → Text
  render_value v none = render_plain v
  render_value v (some r) = if bool_in r.domain then truth_word (truth v) else render_plain v

  -- `register is not None and _unnameable(register, value)`
  abbrev pub is_nameless : Option (Register F) → Value F → Bool
  is_nameless none v = false
  is_nameless (some r) v = unnameable r v

  abbrev pub line_for : Text → Value F → Text → Option (Device F) → Option (Register F) → Line
  line_for name v p device r =
      if is_nameless r v then nameless name (render_value v r) else elim (policy_for p device []) [
        | pin ↦ live name (render_value v r)
        | remember ↦ remembered name (render_value v r)
      ]

  -- `_setting_line`
  unfoldable pub setting_line : Text → Value F → Text → Option (Device F) → Option Line
  setting_line name v p device = register_at device p >>= λ r. some (line_for name v p device r)

  -- The setting of a channel, where the register is reported with an argument.
  abbrev pub reported_setting :
      Text → Text → Register F → ℕ → Option (List (Value F)) → List (ChannelSetting F)
  reported_setting family option r n none = []
  reported_setting family option r n (some []) = []
  reported_setting family option r n (some (v ∷ vs)) =
      record { family = family; channel = n; option = option; value = config_value r v vs } ∷ []

  -- The settings of one option, channel by channel.
  unfoldable pub row_settings :
      Device F
      → Dict Text (List (Value F))
      → Text
      → Text × Register F
      → Option (List (ChannelSetting F))
  row_settings d seen family (option, r) =
      extend_all (λ n. path r n >>= λ p. some (reported_setting family option r n (get p seen)))
        (channels_for d r.channels)

  -- The options of a family: the flat ones, and those of its sub-families under their names.
  unfoldable pub dump_rows : Device F → Text → List (Text × Register F)
  dump_rows d family =
      sort (λ a b. text_le a.0 b.0)
        (settable_option_rows (some d) family ++ nested_rows (nested_families (some d) family))
    where
      named : Text → Dict Text (Register F) → List (Text × Register F)
      named sub [] = []
      named sub ((option, r) ∷ rows) = (nested_option sub option, r) ∷ named sub rows

      nested_rows : List Text → List (Text × Register F)
      nested_rows [] = []
      nested_rows (sub ∷ subs) = named sub (settable_nested (some d) sub family) ++ nested_rows subs

  -- `channels_from_observed`
  unfoldable pub channels_from_observed :
      Dict Text (List (Value F)) → Option (Device F) → Option (List (ChannelSetting F))
  channels_from_observed seen none = some []
  channels_from_observed seen (some d) =
      extend_all (λ family. extend_all (row_settings d seen family) (dump_rows d family))
        (text "input" ∷ text "output" ∷ [])

  abbrev pub reported_global :
      Text → Text → Register F → Option (List (Value F)) → List (GlobalSetting F)
  reported_global family option r none = []
  reported_global family option r (some []) = []
  reported_global family option r (some (v ∷ vs)) =
      record { family = family; option = option; value = config_value r v vs } ∷ []

  unfoldable pub family_settings :
      Dict Text (List (Value F)) → Text → List (Text × Register F) → List (GlobalSetting F)
  family_settings seen family [] = []
  family_settings seen family ((option, r) ∷ rows) =
      reported_global family option r (get r.template seen) ++ family_settings seen family rows

  -- `globals_from_observed`
  unfoldable pub globals_from_observed :
      Dict Text (List (Value F)) → Option (Device F) → List (GlobalSetting F)
  globals_from_observed seen none = []
  globals_from_observed seen (some d) = families (global_families (some d))
    where
      families : List Text → List (GlobalSetting F)
      families [] = []
      families (family ∷ rest) =
          family_settings seen family
            (sort (λ a b. text_le a.0 b.0) (settable_globals (some d) family))
          ++ families rest
