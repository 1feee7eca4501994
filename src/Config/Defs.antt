-- ===== src/Config/Defs.antt =====
-- The data of src/oscmix_desk/config.py: `Route`, `ChannelSetting`, `GlobalSetting` and `Config`.
use oscmix_autostart.Base.{ℕ, Bool, Option, List, [], ◌∷◌, ◌++◌, if◌then◌else◌}
use oscmix_autostart.Base.Text.{Text, text, same}
use oscmix_autostart.Base.Int.{ℤ}
use oscmix_autostart.Base.Dict.{Dict}
use oscmix_autostart.Registers.Defs.{Policy}
use oscmix_autostart.Registers.Settable.{enable_option}

-- A Python object of a setting or of an OSC message.
pub data Value (F : Type 0) : Type 0 where
  int : ℤ → Value F
  float : F → Value F
  str : Text → Value F
  flag : Bool → Value F

pub record Route (F : Type 0) : Type 0 where
  pub name : Text
  pub output : List ℕ
  pub playback : List ℕ
  pub level : F
  pub volume : Option F
  pub stereo : Bool
  pub input : List ℕ

pub record ChannelSetting (F : Type 0) : Type 0 where
  pub family : Text
  pub channel : ℕ
  pub option : Text
  pub value : Value F

pub record GlobalSetting (F : Type 0) : Type 0 where
  pub family : Text
  pub option : Text
  pub value : Value F

pub record Config (F : Type 0) : Type 0 where
  pub device_name : Text
  pub usb_id : Text
  pub osc_port : ℕ
  pub osc_recv_port : ℕ
  pub routes : List (Route F)
  pub channels : List (ChannelSetting F)
  pub globals : List (GlobalSetting F)
  pub policies : Dict (Text × Text) Policy

-- `Route.source`, from the input and the playback channels.
abbrev pub source_of : List ℕ → List ℕ → Text × List ℕ
source_of [] playback = (text "playback", playback)
source_of (n ∷ ns) playback = (text "input", n ∷ ns)

module _ {F : Type 0} where
  unfoldable pub source : Route F → Text × List ℕ
  source r = source_of r.input r.playback

  -- `GlobalSetting.path`
  unfoldable pub global_path : GlobalSetting F → Text
  unfolding same
  global_path s =
      if same s.option enable_option
      then text "/" ++ s.family
      else text "/" ++ (s.family ++ (text "/" ++ s.option))
