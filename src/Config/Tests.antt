-- ===== src/Config/Tests.antt =====
-- Runs of the parser of routing.conf.
use oscmix_autostart.Base.{◌≡◌, refl, true, none, some, List, [], ◌∷◌}
use oscmix_autostart.Base.Text.{text, is_digit, one_of}
use oscmix_autostart.Base.Int.{pos, negate}
use oscmix_autostart.Base.Deci.{Deci, fin, deci_floats, parse_deci}
use oscmix_autostart.Config.Defs.{int, Config, Route, source}
use oscmix_autostart.Config.Parsed.{Defined, parsed, refused, raised, in_routes, extend}
use oscmix_autostart.Config.Document.{Section, check_options, behind_colon, sections}
use oscmix_autostart.Config.Load.{
  load_config, parse_document, dispatch, dispatch_section, dispatch_route, finish, dispatch_late,
  start_reading, default_config,
}
use oscmix_autostart.Config.Bounds.{Bounded, load_config-Bounded}
use oscmix_autostart.Config.Sendable.{load_config-Defined}
use oscmix_autostart.Config.Checked.{load_config-agree, OnConfigured, load_config-OnConfigured}
use oscmix_autostart.Registers.Lookup.{device_for_name}
use oscmix_autostart.Routing.Sequence.{routing_plan}
use oscmix_autostart.Config.Route.{
  parse_route, required, source_option, check_shape, level_option, volume_option, stereo_option,
  route_name,
}
use oscmix_autostart.Base.Dict.{get, elem}
use oscmix_autostart.Config.Values.{
  parse_channels, parse_channel, parse_db, parse_bool, parse_domain,
}
use oscmix_autostart.Registers.Settable.{
  global_families, nested_families, settable_options, option_register,
}
use oscmix_autostart.Registers.Table.{ucx2}
use oscmix_autostart.Config.Settings.{
  is_nested_section, nested_name, parse_nested_section, parse_channel_section, channel_option,
  option_at,
}
use oscmix_autostart.Config.Machine.{parse_osc}
use oscmix_autostart.Base.Decimal.{show, int_of}
use oscmix_autostart.Config.Checks.{
  check_device_channels, check_on, check_routes, check_route, check_side, check_link_agreement,
  agree_with, note_pair, seen_for, same_channels,
}
use oscmix_autostart.Registers.Defs.{channels_for}

-- `[route:main]`, `[route:aux]` on the same pair, `[output:4]`, `[eq:input:1]`, `[osc]`, and a section
-- that nothing knows.
abbrev main_section : Section
main_section = record {
  name = text "route:main";
  options =
      (text "playback", text "1/2") ∷ (text "output", text "1/2") ∷ (text "volume", text "-6") ∷ [];
}

abbrev aux_section : Section
aux_section = record {
  name = text "route:aux";
  options =
      (text "input", text "3/4")
      ∷ (text "output", text " 1 / 2 ")
      ∷ (text "stereo", text "Yes")
      ∷ [];
}

abbrev document : List Section
document =
    main_section
    ∷ aux_section
    ∷ record { name = text "output:4"; options = (text "mute", text "on") ∷ [] }
    ∷ record { name = text "osc"; options = (text "port", text "9000") ∷ [] }
    ∷ record { name = text "future"; options = (text "x", text "y") ∷ [] }
    ∷ []

abbrev main_route : Route Deci
main_route = record {
  name = text "main";
  output = 1 ∷ 2 ∷ [];
  playback = 1 ∷ 2 ∷ [];
  level = fin (pos 0);
  volume = some (fin (negate 60000));
  stereo = true;
  input = [];
}

abbrev aux_route : Route Deci
aux_route = record {
  name = text "aux";
  output = 1 ∷ 2 ∷ [];
  playback = [];
  level = fin (pos 0);
  volume = none;
  stereo = true;
  input = 3 ∷ 4 ∷ [];
}

abbrev loaded : Config Deci
loaded = record {
  device_name = text "Fireface UCX II";
  usb_id = text "2a39:3fd9";
  osc_port = 9000;
  osc_recv_port = 8222;
  routes = main_route ∷ aux_route ∷ [];
  channels =
      record { family = text "output"; channel = 4; option = text "mute"; value = int (pos 1) }
      ∷ [];
  globals = [];
  policies = [];
}

-- The unknown section is left out, and `[osc]` may stand anywhere.
document-loads : load_config (some (sections document)) ≡ parsed loaded
unfolding load_config parse_document dispatch dispatch_section dispatch_route parse_route
    check_options required get source_option parse_channels parse_channel check_shape level_option
    volume_option parse_db parse_deci stereo_option parse_bool parse_osc show start_reading
    default_config finish extend dispatch_late elem global_families device_for_name ucx2
    is_nested_section nested_name parse_channel_section behind_colon settable_options channel_option
    option_at option_register parse_domain check_device_channels check_on check_routes check_route
    check_side source check_link_agreement agree_with note_pair seen_for same_channels route_name
document-loads = refl

load_config-Bounded_example : Bounded loaded
load_config-Bounded_example =
    load_config-Bounded (refl, refl) (some (sections document)) loaded document-loads

load_config-Defined_example : Defined (routing_plan loaded.routes)
load_config-Defined_example =
    load_config-Defined (refl, refl) (some (sections document)) loaded document-loads

load_config-agree_example : main_route.stereo ≡ aux_route.stereo
load_config-agree_example =
    load_config-agree (some (sections document)) loaded [] [] [] main_route aux_route document-loads
      refl refl refl

load_config-OnConfigured_example : OnConfigured (device_for_name loaded.device_name) loaded.routes
load_config-OnConfigured_example =
    load_config-OnConfigured (some (sections document)) loaded document-loads

-- Sections of channel state, one of them nested.
abbrev settings_document : List Section
settings_document =
    record { name = text "eq:input:1"; options = (text "enabled", text "on") ∷ [] }
    ∷ record { name = text "output:4"; options = (text "mute", text "maybe") ∷ [] }
    ∷ []

-- The other route with `stereo = no`.
abbrev unlinked_aux : Section
unlinked_aux = record {
  name = text "route:mono";
  options =
      (text "input", text "3/4") ∷ (text "output", text "1/2") ∷ (text "stereo", text "no") ∷ [];
}

disagreement :
    parse_document {F = Deci} (main_section ∷ unlinked_aux ∷ [])
    ≡ refused (in_routes (text "main") (text "mono"))
unfolding parse_document dispatch dispatch_section dispatch_route parse_route check_options required
    get source_option parse_channels parse_channel check_shape level_option volume_option parse_db
    parse_deci stereo_option parse_bool finish extend start_reading check_device_channels check_on
    device_for_name ucx2 default_config check_routes check_route check_side channels_for source
    check_link_agreement agree_with note_pair seen_for same_channels route_name
disagreement = refl

-- A superscript digit passes the test of a nested section and is no number.
superscript :
    parse_document {F = Deci} (record { name = text "eq:input:²"; options = [] } ∷ []) ≡ raised
unfolding parse_document dispatch dispatch_section finish extend dispatch_late elem global_families
    device_for_name ucx2 start_reading default_config is_nested_section nested_name is_digit one_of
    nested_families parse_nested_section int_of
superscript = refl
