-- ===== src/Registers/Settable.antt =====
-- What a config may set, in src/oscmix_desk/registers.py: flat, nested and global options.
use oscmix_autostart.Base.{
  ℕ, Bool, true, false, not, ◌&&◌, ◌||◌, map, Option, none, some, List, [], ◌∷◌, ◌++◌,
  if◌then◌else◌, length, keep, find,
}
use oscmix_autostart.Base.Text.{Text, text, same, starts_with, has_char, drop, strip_char}
use oscmix_autostart.Base.Dict.{Dict, elem, put}
use oscmix_autostart.Base.Equality.{nat_eq, text_eq}
use oscmix_autostart.Base.Sort.{text_le, sort, set_of}
use oscmix_autostart.Registers.Defs.{Register, Device, global, channels_for, has}
use mathlib.Core.List.{reverse}
use oscmix_autostart.Base.{◌==◌, leb}

-- `ENABLE_OPTION`
abbrev pub enable_option : Text
enable_option = text "enabled"

-- `s.split(c, 1)[0]`, which is `s` where there is no `c`.
unfoldable pub before_first : ℕ → Text → Text
before_first c [] = []
before_first c (a ∷ s) = let rest = before_first c s in if a == c then [] else a ∷ rest

drop_past_slash : Text → Text
drop_past_slash [] = []
drop_past_slash (a ∷ t) = let rest = drop_past_slash t in if a == b'/' then t else rest

-- `s.rsplit("/", 1)[0]`
unfoldable pub parent_of : Text → Text
unfolding drop_past_slash has_char
parent_of s = if has_char b'/' s then reverse (drop_past_slash (reverse s)) else s

-- `"/%s/{ch}/" % family`, and with an option behind it.
abbrev pub family_prefix : Text → Text
family_prefix family = text "/" ++ (family ++ text "/{ch}/")

abbrev pub option_template : Text → Text → Text
option_template family option = family_prefix family ++ option

-- `template[len(prefix):]`
unfoldable pub behind : Text → Text → Text
unfolding drop
behind prefix template = drop (length prefix) template

-- `template.strip("/").split("/")[0]`
first_segment : Text → Text
unfolding before_first strip_char
first_segment template = before_first b'/' (strip_char b'/' template)

module _ {F : Type 0} where
  -- `register.domain is not None`
  abbrev pub has_domain : Register F → Bool
  has_domain r = elim r.domain [ none ↦ false | some _ ↦ true ]

  globals_in : Text → List (Register F) → Dict Text (Register F) → Dict Text (Register F)
  unfolding same starts_with behind put
  globals_in prefix [] found = found
  globals_in prefix (r ∷ rs) found = globals_in prefix rs (
      if not (same r.channels global) || not (has_domain r)
      then found
      else if same r.template prefix
      then put enable_option r found
      else if starts_with (prefix ++ text "/") r.template
      then put (behind (prefix ++ text "/") r.template) r found
      else found)

  unfoldable pub settable_globals : Option (Device F) → Text → Dict Text (Register F)
  unfolding globals_in
  settable_globals none family = []
  settable_globals (some d) family = globals_in (text "/" ++ family) d.registers []

  unfoldable pub global_families : Option (Device F) → List Text
  unfolding sort text_le set_of keep same first_segment
  global_families none = []
  global_families (some d) = sort text_le (
      set_of (map (λ r. first_segment r.template) (keep (λ r. same r.channels global) d.registers)))

  -- The test of `settable_option_rows`, given the templates that are parents of others.
  unfoldable pub is_flat_option : List Text → Text → Register F → Bool
  unfolding starts_with has_char behind elem
  is_flat_option parents prefix r =
      has_domain r
      && (starts_with prefix r.template
          && (not (has_char b'/' (behind prefix r.template)) && not (elem r.template parents)))

  unfoldable pub settable_option_rows : Option (Device F) → Text → List (Text × Register F)
  unfolding keep is_flat_option parent_of behind
  settable_option_rows none family = []
  settable_option_rows (some d) family =
      let parents = map (λ r. parent_of r.template) d.registers in
      let prefix = family_prefix family in
      map (λ r. (behind prefix r.template, r)) (keep (is_flat_option parents prefix) d.registers)

  -- `dict(rows)`
  dict_of : List (Text × Register F) → Dict Text (Register F) → Dict Text (Register F)
  unfolding put
  dict_of [] found = found
  dict_of ((k, r) ∷ rows) found = dict_of rows (put k r found)

  unfoldable pub settable_options : Option (Device F) → Text → Dict Text (Register F)
  unfolding dict_of settable_option_rows
  settable_options d family = dict_of (settable_option_rows d family) []

  -- The sub-family that a template names behind the prefix of its family.
  unfoldable pub sub_family : Text → Register F → Bool
  unfolding starts_with has_char behind
  sub_family prefix r = starts_with prefix r.template && has_char b'/' (behind prefix r.template)

  unfoldable pub nested_families : Option (Device F) → Text → List Text
  unfolding sort text_le set_of keep sub_family behind before_first
  nested_families none family = []
  nested_families (some d) family =
      let prefix = family_prefix family in
      sort text_le (
        set_of (
          map (λ r. before_first b'/' (behind prefix r.template))
            (keep (sub_family prefix) d.registers)))

  unfoldable pub option_register : Option (Device F) → Text → Text → ℕ → Option (Register F)
  unfolding find same has
  option_register none family option channel = none
  option_register (some d) family option channel =
      find
        (λ r.
          same r.template (option_template family option)
          && (has_domain r && has d r.channels channel))
        d.registers

  channels_of : Device F → Text → List (Register F) → List ℕ
  unfolding same channels_for
  channels_of d template [] = []
  channels_of d template (r ∷ rs) =
      let rest = channels_of d template rs in
      if same r.template template && has_domain r then channels_for d r.channels ++ rest else rest

  unfoldable pub option_channels : Option (Device F) → Text → Text → List ℕ
  unfolding sort set_of channels_of
  option_channels none family option = []
  option_channels (some d) family option =
      sort leb (set_of (channels_of d (option_template family option) d.registers))

  nested_in : Text → List (Register F) → Dict Text (Register F) → Dict Text (Register F)
  unfolding same starts_with behind put
  nested_in prefix [] found = found
  nested_in prefix (r ∷ rs) found = nested_in prefix rs (
      if not (has_domain r)
      then found
      else if same r.template prefix
      then put enable_option r found
      else if starts_with (prefix ++ text "/") r.template
      then put (behind (prefix ++ text "/") r.template) r found
      else found)

  unfoldable pub settable_nested : Option (Device F) → Text → Text → Dict Text (Register F)
  unfolding nested_families nested_in elem
  settable_nested none sub family = []
  settable_nested (some d) sub family =
      if elem sub (nested_families (some d) family)
      then nested_in (option_template family sub) d.registers []
      else []
