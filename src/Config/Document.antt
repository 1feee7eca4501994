-- ===== src/Config/Document.antt =====
-- What `configparser` makes of routing.conf: the sections in the order of the file, each with its
-- options and their values.
use oscmix_autostart.Base.{
  Bool, true, false, Option, none, some, List, [], ◌∷◌, if◌then◌else◌, ◌==◌,
}
use oscmix_autostart.Base.Text.{Text, one_of}
use oscmix_autostart.Base.Dict.{Dict, get, keys}
use oscmix_autostart.Base.Equality.{text_eq}
use oscmix_autostart.Config.Parsed.{Parsed, parsed, refused, in_section}

pub record Section : Type 0 where
  pub name : Text
  pub options : Dict Text Text

-- What comes of reading a file: an `OSError` (it is not there, or cannot be opened), bytes that are
-- not of the encoding, a text that `configparser` refuses, or its sections.
pub data File : Type 0 where
  unreadable undecodable malformed : File
  sections : List Section → File

-- `parser.get(section, option)`, where the section may lack the option.
abbrev pub option_of : Section → Text → Option Text
option_of s option = get option s.options

-- `parser.has_option(section, option)`
abbrev pub has_option : Section → Text → Bool
has_option s option = elim (get option s.options) [ none ↦ false | some v ↦ true ]

-- `s.split(":", 1)[1]` of a text that has a colon.
unfoldable pub behind_colon : Text → Text
behind_colon [] = []
behind_colon (c ∷ s) = let rest = behind_colon s in if c == b':' then s else rest

-- `set(options) - known` is not empty.
unfoldable pub has_unknown : List Text → List Text → Bool
unfolding one_of
has_unknown [] known = false
has_unknown (o ∷ os) known =
    let rest = has_unknown os known in if one_of o known then rest else true

-- `_check_options`, and the same test of the other sections.
unfoldable pub check_options : Section → List Text → Parsed (Unit {0})
unfolding has_unknown
check_options s known =
    if has_unknown (keys s.options) known then refused (in_section s.name) else parsed tt
