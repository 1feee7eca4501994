-- ===== src/Config/Checks.antt =====
-- `_check_device_channels` and `_check_link_agreement` of src/oscmix_desk/config.py.
use oscmix_autostart.Base.{
  ℕ, ◌==◌, Bool, true, false, not, ◌&&◌, Option, none, some, List, [], ◌∷◌, if◌then◌else◌, length,
  all,
}
use oscmix_autostart.Base.Text.{Text, text}
use oscmix_autostart.Base.Float.{Floating}
use oscmix_autostart.Base.Dict.{elem}
use oscmix_autostart.Base.Equality.{nat_eq, text_eq}
use oscmix_autostart.Registers.Defs.{Device, channels_for}
use oscmix_autostart.Registers.Lookup.{device_for_name}
use oscmix_autostart.Config.Defs.{Route, Config, source}
use oscmix_autostart.Config.Parsed.{Parsed, parsed, refused, in_option, in_routes, ◌>>=◌}

-- Equality of the tuples of channels.
unfoldable pub same_channels : List ℕ → List ℕ → Bool
same_channels [] [] = true
same_channels [] (b ∷ ys) = false
same_channels (a ∷ xs) [] = false
same_channels (a ∷ xs) (b ∷ ys) = a == b && same_channels xs ys

abbrev pub same_flag : Bool → Bool → Bool
same_flag true b = b
same_flag false b = not b

-- The channels of one side of a route against those of a capability; a device that declares none has
-- no opinion.
abbrev pub check_against : Text → Text → List ℕ → List ℕ → Parsed (Unit {0})
check_against name option [] channels = parsed tt
check_against name option (n ∷ ns) channels =
    if all (λ c. elem c (n ∷ ns)) channels then parsed tt else refused (in_option name option)

module _ {F : Type 0} where
  unfoldable pub check_side : Device F → Route F → Text → Text → List ℕ → Parsed (Unit {0})
  unfolding all elem
  check_side d r option capability channels =
      check_against r.name option (channels_for d capability) channels

  unfoldable pub check_route : Device F → Route F → Parsed (Unit {0})
  check_route d r = do
    _ ← check_side d r (source r).0 (source r).0 (source r).1
    check_side d r (text "output") (text "output") r.output

  unfoldable pub check_routes : Device F → List (Route F) → Parsed (Unit {0})
  check_routes d [] = parsed tt
  check_routes d (r ∷ rs) = do _ ← check_route d r; check_routes d rs

  unfoldable pub check_on : Option (Device F) → List (Route F) → Parsed (Unit {0})
  check_on none routes = parsed tt
  check_on (some d) routes = check_routes d routes

  -- The route that was seen first for a pair.
  unfoldable pub seen_for : List ℕ → List (Route F) → Option (Route F)
  seen_for pair [] = none
  seen_for pair (r ∷ seen) =
      let rest = seen_for pair seen in if same_channels r.output pair then some r else rest

  -- A route against the route that was seen first for its pair.
  abbrev pub note_against : List (Route F) → Route F → Option (Route F) → Parsed (List (Route F))
  note_against seen r none = parsed (r ∷ seen)
  note_against seen r (some previous) =
      if same_flag previous.stereo r.stereo
      then parsed seen
      else refused (in_routes previous.name r.name)

  -- One route, where `seen` holds the first route of each pair so far.
  unfoldable pub note_pair : List (Route F) → Route F → Parsed (List (Route F))
  note_pair seen r =
      if not (length r.output == 2)
      then parsed seen
      else note_against seen r (seen_for r.output seen)

  unfoldable pub agree_with : List (Route F) → List (Route F) → Parsed (Unit {0})
  agree_with seen [] = parsed tt
  agree_with seen (r ∷ rs) = do seen' ← note_pair seen r; agree_with seen' rs

  unfoldable pub check_link_agreement : List (Route F) → Parsed (Unit {0})
  check_link_agreement routes = agree_with [] routes

module _ {F : Type 0} ⦃fl : Floating F⦄ where
  unfoldable pub check_device_channels : Config F → Parsed (Unit {0})
  check_device_channels c = check_on (device_for_name c.device_name) c.routes
