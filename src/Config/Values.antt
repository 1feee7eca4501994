-- ===== src/Config/Values.antt =====
-- The values of options: `_parse_channels`, `_parse_db`, `_parse_bool`, `_parse_number` and
-- `_parse_domain` of src/oscmix_desk/config.py.
use oscmix_autostart.Base.{
  ℕ, ◌==◌, leb, Bool, true, false, ◌&&◌, ◌||◌, Option, none, some, List, [], ◌∷◌, map,
  if◌then◌else◌, length, all,
}
use oscmix_autostart.Base.Text.{Text, text, strip, lower, split, one_of}
use oscmix_autostart.Base.Decimal.{int_of}
use oscmix_autostart.Base.Int.{pos, negsuc}
use oscmix_autostart.Base.Float.{Floating}
use oscmix_autostart.Registers.Defs.{Register, Domain, bool, enum, number}
use oscmix_autostart.Registers.Table.{level_min, level_max}
use oscmix_autostart.Config.Defs.{Value, int, float, str}
use oscmix_autostart.Config.Parsed.{Parsed, parsed, refused, in_option, each, ◌>>=◌}

-- `CHANNEL_MIN` and `CHANNEL_MAX`
abbrev pub channel_min : ℕ
channel_min = 1

abbrev pub channel_max : ℕ
channel_max = 64

-- One part of a channel or of a pair.
unfoldable pub parse_channel : Text → Text → Text → Parsed ℕ
unfolding int_of
parse_channel section option part = elim (int_of part) [
  | none ↦ refused (in_option section option)
  | some (negsuc n) ↦ refused (in_option section option)
  | some (pos n) ↦
      if leb channel_min n && leb n channel_max
      then parsed n
      else refused (in_option section option)
]

abbrev is_given : Text → Bool
is_given [] = false
is_given (c ∷ s) = true

unfoldable pub parse_channels : Text → Text → Text → Parsed (List ℕ)
unfolding strip split all each
parse_channels raw section option =
    let parts = map strip (split b'/' raw) in
    if (length parts == 1 || length parts == 2) && all is_given parts
    then each (parse_channel section option) parts
    else refused (in_option section option)

unfoldable pub parse_bool : Text → Text → Text → Parsed Bool
unfolding one_of lower strip
parse_bool raw section option =
    let lowered = lower (strip raw) in
    if one_of lowered (text "1" ∷ text "yes" ∷ text "true" ∷ text "on" ∷ [])
    then parsed true
    else if one_of lowered (text "0" ∷ text "no" ∷ text "false" ∷ text "off" ∷ [])
    then parsed false
    else refused (in_option section option)

module _ {F : Type 0} ⦃fl : Floating F⦄ where
  unfoldable pub parse_db : Text → Text → Text → Parsed F
  parse_db raw section option = elim (fl.parse raw) [
    | none ↦ refused (in_option section option)
    | some v ↦
        if fl.le level_min v && fl.le v level_max
        then parsed v
        else refused (in_option section option)
  ]

  -- `lo is not None and value < lo`, and the same of `hi`.
  abbrev pub below : F → Option F → Bool
  below v none = false
  below v (some lo) = fl.lt v lo

  abbrev pub above : F → Option F → Bool
  above v none = false
  above v (some hi) = fl.lt hi v

  abbrev pub number_in : Option F → Text → Text → Register F → Parsed F
  number_in none section option r = refused (in_option section option)
  number_in (some v) section option r =
      if below v r.lo || above v r.hi then refused (in_option section option) else parsed v

  unfoldable pub parse_number : Text → Text → Text → Register F → Parsed F
  parse_number raw section option r = number_in (fl.parse raw) section option r

  -- A value by the domain of its register.
  abbrev pub value_in : Option Domain → Text → Text → Text → Register F → Parsed (Value F)
  value_in none raw section option r = refused (in_option section option)
  value_in (some bool) raw section option r = do
    b ← parse_bool raw section option
    parsed (int (pos (if b then 1 else 0)))
  value_in (some enum) raw section option r =
      if one_of (strip raw) r.choices
      then parsed (str (strip raw))
      else refused (in_option section option)
  value_in (some number) raw section option r = do
    v ← parse_number raw section option r
    parsed (float v)

  unfoldable pub parse_domain : Text → Text → Text → Register F → Parsed (Value F)
  parse_domain raw section option r = value_in r.domain raw section option r
