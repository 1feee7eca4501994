-- ===== src/Config/Settings.antt =====
-- The sections of channel state and of the families without channels: `_parse_channel_section`,
-- `_parse_nested_section`, `_is_nested_section`, `_has_channel` and `_parse_global_section` of
-- src/oscmix_desk/config.py.
use oscmix_autostart.Base.{
  ℕ, Bool, false, ◌&&◌, Option, none, some, List, [], ◌∷◌, ◌++◌, if◌then◌else◌,
}
use oscmix_autostart.Base.Text.{Text, text, strip, same, split, one_of, is_digit}
use oscmix_autostart.Base.Decimal.{int_of}
use oscmix_autostart.Base.Int.{ℤ, pos, negsuc}
use oscmix_autostart.Base.Float.{Floating}
use oscmix_autostart.Base.Dict.{Dict, get, keys, elem}
use oscmix_autostart.Base.Equality.{text_eq, nat_eq}
use oscmix_autostart.Registers.Defs.{Register, Device, channels_for}
use oscmix_autostart.Registers.Settable.{
  enable_option, settable_options, settable_globals, settable_nested, nested_families,
  option_register, option_channels,
}
use oscmix_autostart.Config.Defs.{Value, ChannelSetting, GlobalSetting}
use oscmix_autostart.Config.Parsed.{
  Parsed, parsed, refused, raised, in_option, in_section, each, ◌>>=◌,
}
use oscmix_autostart.Config.Document.{Section, check_options, behind_colon}
use oscmix_autostart.Config.Values.{parse_domain}

module _ {F : Type 0} where
  abbrev channel_setting : Text → ℕ → Text → Value F → ChannelSetting F
  channel_setting family channel option v = record {
    family = family;
    channel = channel;
    option = option;
    value = v;
  }

  abbrev global_setting : Text → Text → Value F → GlobalSetting F
  global_setting family option v = record { family = family; option = option; value = v }

-- The parts of a nested section's name: the sub-family, the family and the channel as it stands.
abbrev pub NestedName : Type 0
NestedName = Text × Text × Text

unfoldable pub nested_name : Text → Option NestedName
unfolding split
nested_name section = elim (split b':' section) [
  | sub ∷ family ∷ raw ∷ [] ↦ some (sub, family, raw)
  | parts ↦ none
]

-- `option if option != ENABLE_OPTION` else the sub-family's own switch.
unfoldable pub nested_option : Text → Text → Text
nested_option sub option = if same option enable_option then sub else sub ++ (text "/" ++ option)

module _ {F : Type 0} ⦃fl : Floating F⦄ where
  abbrev pub value_of : Section → Text → Text → Option (Register F) → Parsed (Value F)
  value_of s option raw none = raised
  value_of s option raw (some r) = parse_domain raw s.name option r

  -- `known[option]`, and the value that its register admits.
  unfoldable pub known_value : Dict Text (Register F) → Section → Text → Text → Parsed (Value F)
  known_value known s option raw = value_of s option raw (get option known)

  -- The option's setting of a family without channels.
  abbrev pub global_option :
      Dict Text (Register F) → Section → Text × Text → Parsed (GlobalSetting F)
  global_option known s (option, raw) = do
    v ← known_value known s option raw
    parsed (global_setting s.name option v)

  abbrev pub parse_globals : Dict Text (Register F) → Section → Parsed (List (GlobalSetting F))
  parse_globals [] s = parsed []
  parse_globals (k ∷ known) s = do
    _ ← check_options s (keys (k ∷ known))
    each (global_option (k ∷ known) s) s.options

  unfoldable pub parse_global_section :
      Option (Device F) → Section → Parsed (List (GlobalSetting F))
  parse_global_section device s = parse_globals (settable_globals device s.name) s

  abbrev pub nested_at : Option (Device F) → Option NestedName → Bool
  nested_at device none = false
  nested_at device (some (sub, family, raw)) =
      is_digit (strip raw)
      && one_of family (text "input" ∷ text "output" ∷ [])
      && elem sub (nested_families device family)

  unfoldable pub is_nested_section : Option (Device F) → Text → Bool
  is_nested_section device section = nested_at device (nested_name section)

  -- `_has_channel`: the first register decides.
  unfoldable pub has_channel : Device F → Dict Text (Register F) → ℕ → Bool
  has_channel d [] channel = false
  has_channel d ((k, r) ∷ known) channel = elem channel (channels_for d r.channels)

  abbrev pub nested_setting :
      Dict Text (Register F) → Section → Text → Text → ℕ → Text × Text → Parsed (ChannelSetting F)
  nested_setting known s sub family n (option, raw) = do
    v ← known_value known s option raw
    parsed (channel_setting family n (nested_option sub option) v)

  unfoldable pub nested_options :
      Device F
      → Dict Text (Register F)
      → Section
      → Text
      → Text
      → ℤ
      → Parsed (List (ChannelSetting F))
  nested_options d known s sub family (negsuc n) = refused (in_section s.name)
  nested_options d known s sub family (pos n) =
      if has_channel d known n
      then (do
        _ ← check_options s (keys known)
        each (nested_setting known s sub family n) s.options)
      else refused (in_section s.name)

  -- A sub-family that the model has and declares nothing settable in is refused; an unmodelled
  -- device has no opinion.
  abbrev pub parse_nested_known :
      Device F
      → Dict Text (Register F)
      → Section
      → Text
      → Text
      → ℤ
      → Parsed (List (ChannelSetting F))
  parse_nested_known d [] s sub family channel =
      if elem sub (nested_families (some d) family) then refused (in_section s.name) else parsed []
  parse_nested_known d (k ∷ known) s sub family channel =
      nested_options d (k ∷ known) s sub family channel

  abbrev pub parse_nested_named :
      Option (Device F) → Section → Text → Text → ℤ → Parsed (List (ChannelSetting F))
  parse_nested_named none s sub family channel = parsed []
  parse_nested_named (some d) s sub family channel =
      parse_nested_known d (settable_nested (some d) sub family) s sub family channel

  -- The name of a section that is not nested, or a channel that `int` does not read, raises
  -- `ValueError`.
  abbrev pub parse_nested_channel :
      Option (Device F) → Section → Text → Text → Option ℤ → Parsed (List (ChannelSetting F))
  parse_nested_channel device s sub family none = raised
  parse_nested_channel device s sub family (some channel) =
      parse_nested_named device s sub family channel

  abbrev pub parse_nested_parts :
      Option (Device F) → Section → Option NestedName → Parsed (List (ChannelSetting F))
  parse_nested_parts device s none = raised
  parse_nested_parts device s (some (sub, family, raw)) =
      parse_nested_channel device s sub family (int_of raw)

  unfoldable pub parse_nested_section :
      Option (Device F) → Section → Parsed (List (ChannelSetting F))
  parse_nested_section device s = parse_nested_parts device s (nested_name s.name)

  -- The register of a flat option at a channel. Where the device has the option nowhere, the message
  -- of the error raises `ValueError` in `min`.
  unfoldable pub missing_option : Section → Text → List ℕ → Parsed (Register F × ℕ)
  missing_option s option [] = raised
  missing_option s option (c ∷ cs) = refused (in_option s.name option)

  abbrev pub register_or_missing :
      Section → Text → List ℕ → ℕ → Option (Register F) → Parsed (Register F × ℕ)
  register_or_missing s option channels n none = missing_option s option channels
  register_or_missing s option channels n (some r) = parsed (r, n)

  unfoldable pub option_at : Option (Device F) → Section → Text → Text → ℤ → Parsed (Register F × ℕ)
  option_at device s family option (negsuc n) =
      missing_option s option (option_channels device family option)
  option_at device s family option (pos n) =
      register_or_missing s option (option_channels device family option) n
        (option_register device family option n)

  unfoldable pub channel_option :
      Option (Device F) → Section → Text → ℤ → Text × Text → Parsed (ChannelSetting F)
  channel_option device s family channel (option, raw) = do
    (r, n) ← option_at device s family option channel
    v ← parse_domain raw s.name option r
    parsed (channel_setting family n option v)

  abbrev pub channel_options :
      Option (Device F)
      → Section
      → Text
      → ℤ
      → Dict Text (Register F)
      → Parsed (List (ChannelSetting F))
  channel_options device s family channel [] = parsed []
  channel_options device s family channel (k ∷ known) = do
    _ ← check_options s (keys (k ∷ known))
    each (channel_option device s family channel) s.options

  abbrev pub parse_channel_at :
      Option (Device F) → Section → Text → Option ℤ → Parsed (List (ChannelSetting F))
  parse_channel_at device s family none = refused (in_section s.name)
  parse_channel_at device s family (some channel) =
      channel_options device s family channel (settable_options device family)

  unfoldable pub parse_channel_section :
      Option (Device F) → Section → Text → Parsed (List (ChannelSetting F))
  parse_channel_section device s family =
      parse_channel_at device s family (int_of (strip (behind_colon s.name)))
