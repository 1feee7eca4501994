-- ===== src/Config/Load.antt =====
-- `_dispatch` and `load_config` of src/oscmix_desk/config.py, over what `configparser` makes of the
-- file.
use oscmix_autostart.Base.{◌||◌, Option, none, some, List, [], ◌∷◌, ◌++◌, if◌then◌else◌}
use oscmix_autostart.Base.Text.{text, same, starts_with}
use oscmix_autostart.Base.Float.{Floating}
use oscmix_autostart.Base.Dict.{elem}
use oscmix_autostart.Base.Equality.{text_eq}
use oscmix_autostart.Registers.Lookup.{device_for_name}
use oscmix_autostart.Registers.Settable.{before_first, global_families}
use oscmix_autostart.Config.Defs.{Config}
use oscmix_autostart.Config.Parsed.{Parsed, parsed, refused, raised, in_file, extend, ◌>>=◌}
use oscmix_autostart.Config.Document.{Section, File, unreadable, undecodable, malformed, sections}
use oscmix_autostart.Config.Route.{parse_route}
use oscmix_autostart.Config.Machine.{parse_osc, parse_device, parse_pin}
use oscmix_autostart.Config.Settings.{
  parse_global_section, is_nested_section, parse_nested_section, parse_channel_section,
}
use oscmix_autostart.Config.Checks.{check_device_channels, check_link_agreement}

-- The config as read so far, and the sections that wait for the device.
pub record Reading (F : Type 0) : Type 0 where
  pub config : Config F
  pub pending : List Section
  pub pending_globals : List Section
  pub pending_nested : List Section

module _ {F : Type 0} where
  -- `Config()`
  unfoldable pub default_config : Config F
  default_config = record {
    device_name = text "Fireface UCX II";
    usb_id = text "2a39:3fd9";
    osc_port = 7222;
    osc_recv_port = 8222;
    routes = [];
    channels = [];
    globals = [];
    policies = [];
  }

  unfoldable pub start_reading : Reading F
  start_reading = record {
    config = default_config;
    pending = [];
    pending_globals = [];
    pending_nested = [];
  }

module _ {F : Type 0} ⦃fl : Floating F⦄ where
  unfoldable pub dispatch_route : Section → Reading F → Parsed (Reading F)
  dispatch_route s g = do
    r ← parse_route s
    parsed (record g { config = record g.config { routes = g.config.routes ++ (r ∷ []) } })

  -- A section that nothing knows is left out, with a warning.
  unfoldable pub dispatch_late : Section → Reading F → Reading F
  dispatch_late s g =
      if elem s.name (global_families (device_for_name {F = F} g.config.device_name))
      then record g { pending_globals = g.pending_globals ++ (s ∷ []) }
      else if is_nested_section (device_for_name {F = F} g.config.device_name) s.name
      then record g { pending_nested = g.pending_nested ++ (s ∷ []) }
      else g

  unfoldable pub dispatch_section : Section → Reading F → Parsed (Reading F)
  unfolding same starts_with
  dispatch_section s g =
      if same s.name (text "device")
      then (do c ← parse_device s g.config; parsed (record g { config = c }))
      else if same s.name (text "osc")
      then (do c ← parse_osc s g.config; parsed (record g { config = c }))
      else if starts_with (text "route:") s.name
      then dispatch_route s g
      else if starts_with (text "input:") s.name || starts_with (text "output:") s.name
      then parsed (record g { pending = g.pending ++ (s ∷ []) })
      else if same s.name (text "pin")
      then (do c ← parse_pin s g.config; parsed (record g { config = c }))
      else parsed (dispatch_late s g)

  unfoldable pub dispatch : List Section → Reading F → Parsed (Reading F)
  dispatch [] g = parsed g
  dispatch (s ∷ ss) g = do g' ← dispatch_section s g; dispatch ss g'

  -- What follows `_dispatch`.
  unfoldable pub finish : Reading F → Parsed (Config F)
  unfolding before_first
  finish g = do
    let device = device_for_name g.config.device_name
    globals ← extend (parse_global_section device) g.pending_globals
    nested ← extend (parse_nested_section device) g.pending_nested
    flat ← extend (λ s. parse_channel_section device s (before_first b':' s.name)) g.pending
    let c = record g.config {
      globals = g.config.globals ++ globals;
      channels = (g.config.channels ++ nested) ++ flat;
    }
    _ ← check_device_channels c
    _ ← check_link_agreement c.routes
    parsed c

  unfoldable pub parse_document : List Section → Parsed (Config F)
  parse_document document = do g ← dispatch document start_reading; finish g

  -- `load_config`: no path gives the defaults, and a `UnicodeDecodeError` goes through.
  unfoldable pub load_config : Option File → Parsed (Config F)
  load_config none = parsed default_config
  load_config (some unreadable) = refused in_file
  load_config (some undecodable) = raised
  load_config (some malformed) = refused in_file
  load_config (some (sections document)) = parse_document document
