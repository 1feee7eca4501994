-- ===== src/Config/Steps.antt =====
-- The sections of the machine and the two checks of src/oscmix_desk/config.py end with a value or with
-- a `ConfigError`.
use oscmix_autostart.Base.{ℕ, Option, none, some, List, [], ◌∷◌, arith}
use oscmix_autostart.Base.Text.{Text}
use oscmix_autostart.Base.Float.{Floating}
use oscmix_autostart.Base.Dict.{Dict}
use oscmix_autostart.Base.Equality.{text_eq}
use oscmix_autostart.Registers.Defs.{Device, Register, Policy, channels_for}
use oscmix_autostart.Registers.Lookup.{device_for_name}
use oscmix_autostart.Config.Defs.{Route, Config}
use oscmix_autostart.Config.Parsed.{
  Settles, parsed-Settles, refused-Settles, >>=-Settles, if-Settles,
}
use oscmix_autostart.Config.Document.{Section, check_options}
use oscmix_autostart.Config.Machine.{
  parse_port, parse_osc, parse_device, parse_pin, parse_pin_option, parse_pin_options, pin_key,
  pin_with, pin_known,
}
use oscmix_autostart.Config.Checks.{
  check_against, check_side, check_route, check_routes, check_on, note_against, note_pair,
  agree_with,
}
use oscmix_autostart.Config.Total.{check_options-Settles}

parse_port-Settles : (option raw : Text) → Settles (parse_port option raw)
unfolding parse_port Settles
parse_port-Settles option raw = ground arith

pin_key-Settles : (key : Text) → Settles (pin_key key)
unfolding pin_key Settles
pin_key-Settles key = ground arith

module _ {F : Type 0} ⦃fl : Floating F⦄ where
  pub parse_osc-Settles : (s : Section) (c : Config F) → Settles (parse_osc s c)
  unfolding parse_osc
  parse_osc-Settles s c = >>=-Settles (check_options s _) _ (check_options-Settles s _) (λ _ _.
      >>=-Settles (parse_port _ _) _ (parse_port-Settles _ _) (λ port _.
        >>=-Settles (parse_port _ _) _ (parse_port-Settles _ _) (λ recv_port _. parsed-Settles _)))

  pub parse_device-Settles : (s : Section) (c : Config F) → Settles (parse_device s c)
  unfolding parse_device
  parse_device-Settles s c =
      >>=-Settles (check_options s _) _ (check_options-Settles s _)
        (λ _ _. if-Settles _ _ _ (parsed-Settles _) (refused-Settles _ _))

  pin_known-Settles :
      (key : Text) (at : Text × Text) (policy : Policy) (policies : Dict (Text × Text) Policy)
      (r : Option (Register F))
      → Settles (pin_known key at policy policies r)
  pin_known-Settles key at policy policies none = refused-Settles _ _
  pin_known-Settles key at policy policies (some r) = parsed-Settles _

  pin_with-Settles :
      (device : Option (Device F)) (key : Text) (policies : Dict (Text × Text) Policy)
      (policy : Option Policy)
      → Settles (pin_with device key policies policy)
  pin_with-Settles device key policies none = refused-Settles _ _
  pin_with-Settles device key policies (some policy) =
      >>=-Settles (pin_key key) _ (pin_key-Settles key)
        (λ at _. pin_known-Settles key at policy policies _)

  parse_pin_option-Settles :
      (device : Option (Device F)) (key value : Text) (policies : Dict (Text × Text) Policy)
      → Settles (parse_pin_option device key value policies)
  unfolding parse_pin_option
  parse_pin_option-Settles device key value policies = pin_with-Settles device key policies _

  parse_pin_options-Settles :
      (device : Option (Device F)) (options : Dict Text Text) (policies : Dict (Text × Text) Policy)
      → Settles (parse_pin_options device options policies)
  unfolding parse_pin_options
  parse_pin_options-Settles device [] policies = parsed-Settles _
  parse_pin_options-Settles device ((key, value) ∷ options) policies =
      >>=-Settles (parse_pin_option device key value policies) _
        (parse_pin_option-Settles device key value policies)
        (λ after _. parse_pin_options-Settles device options after)

  pub parse_pin-Settles : (s : Section) (c : Config F) → Settles (parse_pin s c)
  unfolding parse_pin
  parse_pin-Settles s c =
      >>=-Settles (parse_pin_options (device_for_name c.device_name) s.options c.policies) _
        (parse_pin_options-Settles _ _ _) (λ policies _. parsed-Settles _)

check_against-Settles :
    (name option : Text) (valid channels : List ℕ)
    → Settles (check_against name option valid channels)
check_against-Settles name option [] channels = parsed-Settles tt
check_against-Settles name option (n ∷ ns) channels =
    if-Settles _ _ _ (parsed-Settles tt) (refused-Settles _ _)

module _ {F : Type 0} where
  check_side-Settles :
      (d : Device F) (r : Route F) (option capability : Text) (channels : List ℕ)
      → Settles (check_side d r option capability channels)
  unfolding check_side
  check_side-Settles d r option capability channels =
      check_against-Settles r.name option (channels_for d capability) channels

  check_routes-Settles : (d : Device F) (rs : List (Route F)) → Settles (check_routes d rs)
  unfolding check_routes check_route
  check_routes-Settles d [] = parsed-Settles tt
  check_routes-Settles d (r ∷ rs) =
      >>=-Settles (check_route d r) _
        (>>=-Settles (check_side d r _ _ _) _ (check_side-Settles d r _ _ _)
          (λ _ _. check_side-Settles d r _ _ _))
        (λ _ _. check_routes-Settles d rs)

  pub check_on-Settles : (d : Option (Device F)) (rs : List (Route F)) → Settles (check_on d rs)
  unfolding check_on
  check_on-Settles none rs = parsed-Settles tt
  check_on-Settles (some d) rs = check_routes-Settles d rs

  note_against-Settles :
      (seen : List (Route F)) (r : Route F) (first : Option (Route F))
      → Settles (note_against seen r first)
  note_against-Settles seen r none = parsed-Settles _
  note_against-Settles seen r (some previous) =
      if-Settles _ _ _ (parsed-Settles _) (refused-Settles _ _)

  pub agree_with-Settles : (seen rs : List (Route F)) → Settles (agree_with seen rs)
  unfolding agree_with note_pair
  agree_with-Settles seen [] = parsed-Settles tt
  agree_with-Settles seen (r ∷ rs) =
      >>=-Settles (note_pair seen r) _
        (if-Settles _ _ _ (parsed-Settles _) (note_against-Settles seen r _))
        (λ seen' _. agree_with-Settles seen' rs)
