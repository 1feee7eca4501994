-- ===== src/Profiles/Load.antt =====
-- `load_profile` of src/oscmix_desk/profiles.py, and `profile_path` of src/oscmix_desk/config.py.
use oscmix_autostart.Base.{
  ℕ, ◌==◌, leb, Bool, true, false, not, ◌&&◌, ◌||◌, Option, none, some, List, [], ◌∷◌,
  if◌then◌else◌, all,
}
use oscmix_autostart.Base.Text.{Text, text, same, is_decimal}
use oscmix_autostart.Base.Float.{Floating}
use oscmix_autostart.Config.Defs.{Config}
use oscmix_autostart.Config.Parsed.{Parsed, parsed, refused, raised, in_file, in_name, ◌>>=◌}
use oscmix_autostart.Config.Document.{
  Section, has_option, File, unreadable, undecodable, malformed, sections,
}
use oscmix_autostart.Config.Load.{load_config}

-- `[A-Za-z0-9]`
abbrev is_plain : ℕ → Bool
is_plain c = is_decimal c || (leb 65 c && leb c 90) || (leb 97 c && leb c 122)

-- `re.fullmatch(r"[A-Za-z0-9][A-Za-z0-9._-]*", name)`
unfoldable pub is_profile_name : Text → Bool
unfolding all
is_profile_name [] = false
is_profile_name (c ∷ name) =
    is_plain c && all (λ d. is_plain d || d == b'.' || d == b'_' || d == b'-') name

-- `profile_path`, up to the path itself: the name is plain and there is a directory.
unfoldable pub profile_path : Text → Bool → Parsed (Unit {0})
profile_path name directory =
    if not (is_profile_name name)
    then refused (in_name name)
    else if directory
    then parsed tt
    else refused in_file

-- `_states`: the file names the option.
unfoldable pub states : List Section → Text → Text → Bool
unfolding same
states [] section option = false
states (s ∷ ss) section option =
    let rest = states ss section option in if same s.name section then has_option s option else rest

abbrev pub chosen : {A : Type 0} → Bool → A → A → A
chosen true own main = own
chosen false own main = main

module _ {F : Type 0} where
  -- The loop of `_inherit_transport` over `MACHINE_SETTINGS`.
  unfoldable pub inherit_transport : List Section → Config F → Config F → Config F
  inherit_transport document profile main = record profile {
    osc_port = chosen (states document (text "osc") (text "port")) profile.osc_port main.osc_port;
    osc_recv_port =
        chosen (states document (text "osc") (text "recv-port")) profile.osc_recv_port
          main.osc_recv_port;
    device_name =
        chosen (states document (text "device") (text "name")) profile.device_name main.device_name;
    usb_id = chosen (states document (text "device") (text "usb-id")) profile.usb_id main.usb_id;
  }

-- The files of a switch: the directory of profiles is there; the profile's file, if it is one; what
-- comes of `path.read_text()`, which reads it again; and the main config's, if a path was given and is
-- a file.
pub record Files : Type 0 where
  pub directory : Bool
  pub profile : Option File
  pub again : File
  pub main : Option File

module _ {F : Type 0} ⦃fl : Floating F⦄ where
  -- `_inherit_transport`: what `configparser` refuses states no option, and nothing catches what
  -- `read_text` raises.
  abbrev pub inherit_from : File → Config F → Config F → Parsed (Config F)
  inherit_from unreadable profile main = raised
  inherit_from undecodable profile main = raised
  inherit_from malformed profile main = parsed (inherit_transport [] profile main)
  inherit_from (sections document) profile main = parsed (inherit_transport document profile main)

  abbrev pub with_main : File → Config F → Option File → Parsed (Config F)
  with_main again profile none = parsed profile
  with_main again profile (some file) = do
    main ← load_config (some file)
    inherit_from again profile main

  abbrev pub load_file : Text → Option File → File → Option File → Parsed (Config F)
  load_file name main again none = refused (in_name name)
  load_file name main again (some file) = do
    profile ← load_config (some file)
    with_main again profile main

  unfoldable pub load_profile : Text → Files → Parsed (Config F)
  load_profile name files = do
    _ ← profile_path name files.directory
    load_file name files.main files.again files.profile
