-- ===== src/Registers.antt =====
-- src/oscmix_desk/registers.py: the register model, and the questions that it answers.
-- A template's placeholders have the form `{name}`. `none` of an outer `Option` is an exception.
pub mod Path
pub mod Defs
pub mod Table
pub mod Lookup
pub mod Settable
mod Tests
use oscmix_autostart.Base.{
  ℕ, ◌≡◌, Bool, true, false, ◌&&◌, Option, none, some, List, [], ◌∷◌, if◌then◌else◌, ◌>>=◌, any,
  find,
}
use oscmix_autostart.Base.Text.{Text, text, same, one_of}
use oscmix_autostart.Base.Int.{ℤ, pos, negsuc}
use oscmix_autostart.Base.Dict.{Dict, get, elem}
use oscmix_autostart.Base.Equality.{nat_eq, text_eq}
use Path.{matches, channel_in}
