-- ===== src/Reconcile/Desired.antt =====
-- The register state that a config asks for: `desired` of src/oscmix_desk/reconcile.py.
use oscmix_autostart.Base.{
  ℕ, ◌+◌, leb, Bool, true, false, Option, none, some, List, [], ◌∷◌, ◌++◌, if◌then◌else◌, ◌>>=◌,
  extend_all,
}
use oscmix_autostart.Base.Text.{Text, text, same, starts_with}
use oscmix_autostart.Base.Decimal.{show}
use oscmix_autostart.Base.Int.{ℤ, pos}
use oscmix_autostart.Base.Float.{Floating, value, value_error, overflow_error}
use oscmix_autostart.Base.Dict.{Dict, get, put, values}
use oscmix_autostart.Base.Equality.{text_eq}
use oscmix_autostart.Base.Sort.{sort}
use oscmix_autostart.Registers.Defs.{Register, Device, Domain, enum}
use oscmix_autostart.Registers.Lookup.{device_for_name}
use oscmix_autostart.Registers.Settable.{option_register, settable_globals}
use oscmix_autostart.Config.Defs.{
  Value, int, float, ChannelSetting, GlobalSetting, Config, global_path,
}
use oscmix_autostart.Config.Convert.{str_of, int_of_value, float_of}
use oscmix_autostart.Reconcile.Messages.{Message, link_messages, mix_messages}

-- `PHASE_LINK`, `PHASE_MIX` and `PHASE_CHANNEL`.
abbrev pub phase_link : ℕ
phase_link = 0

abbrev pub phase_mix : ℕ
phase_mix = 1

abbrev pub phase_channel : ℕ
phase_channel = 2

pub record Entry (F : Type 0) : Type 0 where
  pub path : Text
  pub tags : Text
  pub args : List (Value F)
  pub phase : ℕ

module _ {F : Type 0} where
  abbrev pub entry : ℕ → Message F → Entry F
  entry phase (path, tags, args) = record { path = path; tags = tags; args = args; phase = phase }

  -- `entries[path] = Entry(path, tags, args, phase)` for each message.
  unfoldable pub collect : ℕ → List (Message F) → Dict Text (Entry F) → Dict Text (Entry F)
  unfolding put
  collect phase [] entries = entries
  collect phase (m ∷ ms) entries = collect phase ms (put m.0 (entry phase m) entries)

  -- The loop of `_send_order`: the first place of each path, and the places given so far.
  unfoldable pub place : List (Message F) → Dict Text ℕ → ℕ → Dict Text ℕ
  unfolding get put
  place [] positions index = positions
  place ((path, tags, args) ∷ ms) positions index = elim (get path positions) [
    | none ↦ place ms (put path index positions) (index + 1)
    | some _ ↦ place ms positions index
  ]

  -- `position[entry.path]`; every entry has a place (`KeyError` does not occur).
  abbrev pub position : Dict Text ℕ → Entry F → ℕ
  position positions e = elim (get e.path positions) [ some n ↦ n | none ↦ 0 ]

module _ {F : Type 0} where
  -- The registers of the routes: each path once, sorted by where it was produced first.
  unfoldable pub route_entries : List (Message F) → List (Message F) → List (Entry F)
  unfolding collect place sort
  route_entries links mixes =
      let positions = place (links ++ mixes) [] 0 in
      sort (λ a b. leb (position positions a) (position positions b))
        (values (collect phase_mix mixes (collect phase_link links [])))

-- The place of a choice and its wire value: `register.choices.index(...)` may raise.
enum_at : Text → List Text → List ℤ → Bool → ℕ → Option ℤ
unfolding same
enum_at name [] values positional n = none
enum_at name (c ∷ cs) [] positional n =
    let rest = enum_at name cs [] positional (n + 1) in
    if same c name then (if positional then some (pos n) else none) else rest
enum_at name (c ∷ cs) (v ∷ vs) positional n =
    let rest = enum_at name cs vs positional (n + 1) in if same c name then some v else rest

unfoldable pub enum_index : Text → List Text → List ℤ → Option ℤ
unfolding enum_at
enum_index name choices [] = enum_at name choices [] true 0
enum_index name choices (v ∷ vs) = enum_at name choices (v ∷ vs) false 0

-- `register.domain == ENUM`
abbrev pub is_enum : Option Domain → Bool
is_enum (some enum) = true
is_enum _ = false

-- `"/%s/%d/%s" % (setting.family, setting.channel, setting.option)`
unfoldable pub channel_path : Text → ℕ → Text → Text
unfolding show
channel_path family channel option =
    text "/" ++ (family ++ (text "/" ++ (show channel ++ (text "/" ++ option))))

module _ {F : Type 0} ⦃fl : Floating F⦄ where
  -- `_encode`: the declared domain and tag decide the wire type.
  unfoldable pub encode : Text → Register F → Value F → Option (Entry F)
  encode path r v =
      if is_enum r.domain
      then (do
        n ← enum_index (str_of v) r.choices r.values
        some (entry phase_channel (path, text "i", int n ∷ [])))
      else if starts_with (text "f") r.tags
      then (do x ← float_of v; some (entry phase_channel (path, text "f", float x ∷ [])))
      else elim (int_of_value v) [
        | value n ↦ some (entry phase_channel (path, text "i", int n ∷ []))
        | value_error ↦ none
        | overflow_error ↦ none
      ]

  unfoldable pub channel_entry : Option (Device F) → ChannelSetting F → Option (List (Entry F))
  channel_entry d s = elim (option_register d s.family s.option s.channel) [
    | none ↦ some []
    | some r ↦ (do e ← encode (channel_path s.family s.channel s.option) r s.value; some (e ∷ []))
  ]

  unfoldable pub global_entry : Option (Device F) → GlobalSetting F → Option (List (Entry F))
  global_entry d s = elim (get s.option (settable_globals d s.family)) [
    | none ↦ some []
    | some r ↦ (do e ← encode (global_path s) r s.value; some (e ∷ []))
  ]

  -- An unmodelled device has no settings to write.
  unfoldable pub channel_entries_on : Option (Device F) → Config F → Option (List (Entry F))
  channel_entries_on none c = some []
  channel_entries_on (some d) c = extend_all (channel_entry (some d)) c.channels

  unfoldable pub global_entries_on : Option (Device F) → Config F → Option (List (Entry F))
  global_entries_on none c = some []
  global_entries_on (some d) c = extend_all (global_entry (some d)) c.globals

  unfoldable pub channel_entries : Config F → Option (List (Entry F))
  channel_entries c = channel_entries_on (device_for_name c.device_name) c

  unfoldable pub global_entries : Config F → Option (List (Entry F))
  global_entries c = global_entries_on (device_for_name c.device_name) c

  unfoldable pub desired : Config F → Option (List (Entry F))
  desired c = do
    links ← extend_all link_messages c.routes
    mixes ← extend_all mix_messages c.routes
    channels ← channel_entries c
    globals ← global_entries c
    some (route_entries links mixes ++ (channels ++ globals))
