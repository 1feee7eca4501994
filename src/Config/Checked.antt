-- ===== src/Config/Checked.antt =====
-- The two checks of `load_config` of src/oscmix_desk/config.py, on what it returns.
use oscmix_autostart.Base.{
  ◌≡◌, refl, subst, Bool, true, Option, none, some, List, [], ◌∷◌, ◌++◌, length, all, All, ℕ, arith,
}
use oscmix_autostart.Base.Text.{Text, text}
use oscmix_autostart.Base.Float.{Floating}
use oscmix_autostart.Base.Dict.{elem}
use oscmix_autostart.Base.Equality.{nat_eq}
use oscmix_autostart.Registers.Defs.{Device, channels_for}
use oscmix_autostart.Registers.Lookup.{device_for_name}
use oscmix_autostart.Registers.Settable.{before_first}
use oscmix_autostart.Config.Defs.{Route, Config, source}
use oscmix_autostart.Config.Parsed.{
  parsed, extend, >>=-eq-parsed, guard-eq-parsed, parsed-injective,
}
use oscmix_autostart.Config.Document.{File, unreadable, undecodable, malformed, sections}
use oscmix_autostart.Config.Settings.{
  parse_global_section, parse_nested_section, parse_channel_section,
}
use oscmix_autostart.Config.Checks.{
  check_side, check_against, check_route, check_routes, check_on, check_device_channels,
  check_link_agreement, agree_with,
}
use oscmix_autostart.Config.Load.{
  Reading, default_config, start_reading, dispatch, finish, parse_document, load_config,
}
use oscmix_autostart.Config.Agreement.{agree_with_sound}

-- The device has the channels, or has no opinion on the capability.
abbrev pub Within : List ℕ → List ℕ → Type 0
Within [] channels = Unit
Within (n ∷ ns) channels = All (λ c. elem c (n ∷ ns) ≡ true) channels

all_sound {ℓ} :
    {A : Type ℓ} (p : A → Bool) (xs : List A) → all p xs ≡ true → All (λ x. p x ≡ true) xs
unfolding all
all_sound p [] h = tt
all_sound p (x ∷ xs) h = ground (arith, all_sound p xs)

check_against-Within :
    (name option : Text) (valid channels : List ℕ)
    → check_against name option valid channels ≡ parsed tt
    → Within valid channels
check_against-Within name option [] channels h = tt
check_against-Within name option (n ∷ ns) channels h =
    all_sound _ channels (guard-eq-parsed _ _ _ h).0

module _ {F : Type 0} ⦃fl : Floating F⦄ where
  abbrev pub Checked : Config F → Type 0
  Checked c = (check_device_channels c ≡ parsed tt) × (check_link_agreement c.routes ≡ parsed tt)

  check_on-nil : (d : Option (Device F)) → check_on d [] ≡ parsed tt
  unfolding check_on check_routes
  check_on-nil none = refl
  check_on-nil (some d) = refl

  finish-Checked : (g : Reading F) (c : Config F) → finish g ≡ parsed c → Checked c
  unfolding finish
  finish-Checked g c h =
      let device = device_for_name {F = F} g.config.device_name in
      let (globals, _, h) =
        >>=-eq-parsed (extend (parse_global_section device) g.pending_globals) _ h in
      let (nested, _, h) =
        >>=-eq-parsed (extend (parse_nested_section device) g.pending_nested) _ h in
      let (flat, _, h) =
        >>=-eq-parsed
          (extend (λ s. parse_channel_section device s (before_first b':' s.name)) g.pending) _ h in
      let (_, e, h) = >>=-eq-parsed (check_device_channels _) _ h in
      let (_, e', h) = >>=-eq-parsed (check_link_agreement _) _ h in
      subst Checked (parsed-injective _ c h) (e, e')

  load_config-Checked :
      (file : Option File) (c : Config F) → load_config file ≡ parsed c → Checked c
  unfolding load_config parse_document check_device_channels check_link_agreement default_config
      agree_with
  load_config-Checked none c h =
      subst Checked (parsed-injective default_config c h)
        (check_on-nil (device_for_name {F = F} _), refl)
  load_config-Checked (some unreadable) c h = cc
  load_config-Checked (some undecodable) c h = cc
  load_config-Checked (some malformed) c h = cc
  load_config-Checked (some (sections document)) c h =
      let (g, _, h) = >>=-eq-parsed (dispatch document start_reading) _ h in finish-Checked g c h

  -- In a config that load_config returns, two routes that drive the same pair of outputs agree on
  -- whether it is linked, wherever they stand in the file.
  pub load_config-agree :
      (file : Option File) (c : Config F) (before middle after : List (Route F)) (r q : Route F)
      → load_config file ≡ parsed c
      → c.routes ≡ before ++ (r ∷ (middle ++ (q ∷ after)))
      → length r.output ≡ 2
      → r.output ≡ q.output
      → r.stereo ≡ q.stereo
  unfolding check_link_agreement
  load_config-agree file c before middle after r q h routes two same =
      agree_with_sound before middle after [] r q (rw routes at (load_config-Checked file c h).1)
        two same

  abbrev pub OnDevice : Device F → Route F → Type 0
  OnDevice d r =
      Within (channels_for d (source r).0) (source r).1
      × Within (channels_for d (text "output")) r.output

  abbrev pub OnConfigured : Option (Device F) → List (Route F) → Type 0
  OnConfigured none routes = Unit
  OnConfigured (some d) routes = All (OnDevice d) routes

  check_side-Within :
      (d : Device F) (r : Route F) (option capability : Text) (channels : List ℕ)
      → check_side d r option capability channels ≡ parsed tt
      → Within (channels_for d capability) channels
  unfolding check_side
  check_side-Within d r option capability channels h =
      check_against-Within r.name option (channels_for d capability) channels h

  check_routes-OnDevice :
      (d : Device F) (routes : List (Route F))
      → check_routes d routes ≡ parsed tt
      → All (OnDevice d) routes
  unfolding check_routes check_route
  check_routes-OnDevice d [] h = tt
  check_routes-OnDevice d (r ∷ rs) h =
      let (_, here, rest) = >>=-eq-parsed (check_route d r) _ h in
      let (_, from, to) =
        >>=-eq-parsed (check_side d r (source r).0 (source r).0 (source r).1) _ here in
      (
        (check_side-Within d r _ _ _ from, check_side-Within d r _ _ _ to),
        check_routes-OnDevice d rs rest,
      )

  check_on-OnConfigured :
      (d : Option (Device F)) (routes : List (Route F))
      → check_on d routes ≡ parsed tt
      → OnConfigured d routes
  unfolding check_on
  check_on-OnConfigured none routes h = tt
  check_on-OnConfigured (some d) routes h = check_routes-OnDevice d routes h

  -- In a config that load_config returns, every channel of every route is one that the device has,
  -- where the device is modelled and declares the capability.
  pub load_config-OnConfigured :
      (file : Option File) (c : Config F)
      → load_config file ≡ parsed c
      → OnConfigured (device_for_name c.device_name) c.routes
  unfolding check_device_channels
  load_config-OnConfigured file c h =
      check_on-OnConfigured (device_for_name c.device_name) c.routes
        (load_config-Checked file c h).0
