-- ===== src/Config/Route.antt =====
-- `_parse_route` of src/oscmix_desk/config.py.
use oscmix_autostart.Base.{
  ℕ, ◌==◌, Bool, true, false, Option, none, some, List, [], ◌∷◌, if◌then◌else◌, length,
}
use oscmix_autostart.Base.Text.{Text, text, strip}
use oscmix_autostart.Base.Int.{pos}
use oscmix_autostart.Base.Float.{Floating}
use oscmix_autostart.Config.Defs.{Route}
use oscmix_autostart.Config.Parsed.{Parsed, parsed, refused, in_section, ◌>>=◌}
use oscmix_autostart.Config.Document.{Section, option_of, check_options, behind_colon}
use oscmix_autostart.Config.Values.{parse_channels, parse_db, parse_bool}

abbrev pub route_options : List Text
route_options =
    text "playback"
    ∷ text "input"
    ∷ text "output"
    ∷ text "level"
    ∷ text "volume"
    ∷ text "stereo"
    ∷ []

-- `section.split(":", 1)[1].strip() or section`
unfoldable pub route_name : Text → Text
unfolding behind_colon strip
route_name section = elim (strip (behind_colon section)) [ [] ↦ section | c ∷ s ↦ c ∷ s ]

-- The one source: `true` where it is the inputs, with its text.
unfoldable pub source_option : Section → Parsed (Bool × Text)
source_option s = elim (option_of s (text "playback")) [
  | none ↦ elim (option_of s (text "input")) [
    | none ↦ refused (in_section s.name)
    | some raw ↦ parsed (true, raw)
  ]
  | some raw ↦ elim (option_of s (text "input")) [
    | none ↦ parsed (false, raw)
    | some other ↦ refused (in_section s.name)
  ]
]

unfoldable pub required : Section → Text → Parsed Text
required s option = elim (option_of s option) [
  | none ↦ refused (in_section s.name)
  | some raw ↦ parsed raw
]

abbrev pub kind_of : Bool → Text
kind_of true = text "input"
kind_of false = text "playback"

module _ {F : Type 0} ⦃fl : Floating F⦄ where
  abbrev pub level_of : Text → Option Text → Parsed F
  level_of section none = parsed (fl.decimal (pos 0) 0)
  level_of section (some raw) = parse_db raw section (text "level")

  unfoldable pub level_option : Section → Parsed F
  level_option s = level_of s.name (option_of s (text "level"))

  abbrev pub volume_of : Text → Option Text → Parsed (Option F)
  volume_of section none = parsed none
  volume_of section (some raw) = do v ← parse_db raw section (text "volume"); parsed (some v)

  unfoldable pub volume_option : Section → Parsed (Option F)
  volume_option s = volume_of s.name (option_of s (text "volume"))

abbrev pub stereo_of : Text → Option Text → Parsed Bool
stereo_of section none = parsed true
stereo_of section (some raw) = parse_bool raw section (text "stereo")

unfoldable pub stereo_option : Section → Parsed Bool
stereo_option s = stereo_of s.name (option_of s (text "stereo"))

-- `if len(source) != len(output)`
unfoldable pub check_shape : Section → List ℕ → List ℕ → Parsed (Unit {0})
check_shape s source output =
    if length source == length output then parsed tt else refused (in_section s.name)

module _ {F : Type 0} ⦃fl : Floating F⦄ where
  abbrev pub make_route : Section → Bool → List ℕ → List ℕ → F → Option F → Bool → Route F
  make_route s from_input source output level volume stereo = record {
    name = route_name s.name;
    output = output;
    playback = if from_input then [] else source;
    level = level;
    volume = volume;
    stereo = stereo;
    input = if from_input then source else [];
  }

  unfoldable pub parse_route : Section → Parsed (Route F)
  parse_route s = do
    _ ← check_options s route_options
    output_raw ← required s (text "output")
    kind ← source_option s
    source ← parse_channels kind.1 s.name (kind_of kind.0)
    output ← parse_channels output_raw s.name (text "output")
    _ ← check_shape s source output
    level ← level_option s
    volume ← volume_option s
    stereo ← stereo_option s
    parsed (make_route s kind.0 source output level volume stereo)
