-- ===== src/Config/Bounds.antt =====
-- What `load_config` of src/oscmix_desk/config.py promises of a config: its routes and its ports.
use oscmix_autostart.Base.{
  ℕ, ◌≤◌, ◌≡◌, subst, sym, Option, none, some, List, [], ◌∷◌, All, All-append, arith,
}
use oscmix_autostart.Base.Text.{Text, text}
use oscmix_autostart.Base.Int.{pos}
use oscmix_autostart.Base.Float.{Floating}
use oscmix_autostart.Base.Equality.{text_eq}
use oscmix_autostart.Registers.Lookup.{device_for_name}
use oscmix_autostart.Registers.Settable.{before_first}
use oscmix_autostart.Config.Defs.{Config}
use oscmix_autostart.Config.Parsed.{
  parsed, Yields, parsed-injective, extend, if-Yields, Yields-at, gives, refuses, >>=-Yields,
}
use oscmix_autostart.Config.Document.{
  Section, check_options, File, unreadable, undecodable, malformed, sections,
}
use oscmix_autostart.Config.Route.{parse_route}
use oscmix_autostart.Config.Machine.{
  parse_osc, parse_port, parse_device, parse_pin, parse_pin_options,
}
use oscmix_autostart.Config.Settings.{
  parse_global_section, parse_nested_section, parse_channel_section,
}
use oscmix_autostart.Config.Checks.{check_device_channels, check_link_agreement}
use oscmix_autostart.Config.Load.{
  Reading, default_config, start_reading, dispatch_route, dispatch_late, dispatch_section, dispatch,
  finish, parse_document, load_config,
}
use oscmix_autostart.Config.Shape.{WellFormed, InRange, parse_route-WellFormed}

-- A port of 1..65535.
abbrev pub IsPort : ℕ → Type 0
IsPort n = (1 ≤ n) × (n ≤ 65535)

parse_port-IsPort : (option raw : Text) (n : ℕ) → parse_port option raw ≡ parsed n → IsPort n
unfolding parse_port
parse_port-IsPort option raw n h = ground arith

default_ports : IsPort 7222 × IsPort 8222
default_ports = ground arith

module _ {F : Type 0} ⦃fl : Floating F⦄ where
  abbrev pub Bounded : Config F → Type 0
  Bounded c = All WellFormed c.routes × IsPort c.osc_port × IsPort c.osc_recv_port

  abbrev BoundedReading : Reading F → Type 0
  BoundedReading g = Bounded g.config

  parse_osc-Bounded : (s : Section) (c : Config F) → Bounded c → Yields Bounded (parse_osc s c)
  unfolding parse_osc
  parse_osc-Bounded s c h = >>=-Yields Bounded (check_options s _) _ (λ _ _.
      >>=-Yields Bounded (parse_port (text "port") _) _ (λ port e.
        >>=-Yields Bounded (parse_port (text "recv-port") _) _ (λ recv_port e'.
          gives _ (h.0, parse_port-IsPort _ _ port e, parse_port-IsPort _ _ recv_port e'))))

  parse_device-Bounded :
      (s : Section) (c : Config F) → Bounded c → Yields Bounded (parse_device s c)
  unfolding parse_device
  parse_device-Bounded s c h =
      >>=-Yields Bounded (check_options s _) _
        (λ _ _. if-Yields Bounded _ _ _ (gives _ h) (refuses _))

  parse_pin-Bounded : (s : Section) (c : Config F) → Bounded c → Yields Bounded (parse_pin s c)
  unfolding parse_pin
  parse_pin-Bounded s c h =
      >>=-Yields Bounded (parse_pin_options (device_for_name c.device_name) s.options c.policies) _
        (λ _ _. gives _ h)

  dispatch_late-config : (s : Section) (g : Reading F) → (dispatch_late s g).config ≡ g.config
  unfolding dispatch_late
  dispatch_late-config s g = ground arith

  module _ (zero_ok : InRange (fl.decimal (pos 0) 0)) where
    dispatch_route-Bounded :
        (s : Section) (g : Reading F)
        → BoundedReading g
        → Yields BoundedReading (dispatch_route s g)
    unfolding dispatch_route
    dispatch_route-Bounded s g h = >>=-Yields BoundedReading (parse_route s) _ (λ r e. gives _ (
      All-append WellFormed g.config.routes (r ∷ []) h.0 (parse_route-WellFormed zero_ok s r e, tt),
      h.1,
      h.2,
    ))

    dispatch_section-Bounded :
        (s : Section) (g : Reading F)
        → BoundedReading g
        → Yields BoundedReading (dispatch_section s g)
    unfolding dispatch_section
    dispatch_section-Bounded s g h =
        if-Yields BoundedReading _ _ _
          (>>=-Yields BoundedReading (parse_device s g.config) _
            (λ c e. gives _ (Yields-at Bounded _ c (parse_device-Bounded s g.config h) e)))
          (if-Yields BoundedReading _ _ _
            (>>=-Yields BoundedReading (parse_osc s g.config) _
              (λ c e. gives _ (Yields-at Bounded _ c (parse_osc-Bounded s g.config h) e)))
            (if-Yields BoundedReading _ _ _ (dispatch_route-Bounded s g h) (
              if-Yields BoundedReading _ _ _ (gives _ h) (
                if-Yields BoundedReading _ _ _
                  (>>=-Yields BoundedReading (parse_pin s g.config) _
                    (λ c e. gives _ (Yields-at Bounded _ c (parse_pin-Bounded s g.config h) e)))
                  (gives _ (subst Bounded (sym (dispatch_late-config s g)) h))))))

    dispatch-Bounded :
        (ss : List Section) (g : Reading F)
        → BoundedReading g
        → Yields BoundedReading (dispatch ss g)
    unfolding dispatch
    dispatch-Bounded [] g h = gives _ h
    dispatch-Bounded (s ∷ ss) g h = >>=-Yields BoundedReading (dispatch_section s g) _ (λ g' e.
        dispatch-Bounded ss g' (Yields-at BoundedReading _ g' (dispatch_section-Bounded s g h) e))

    -- `finish` keeps the routes and the ports.
    finish-Bounded : (g : Reading F) → BoundedReading g → Yields Bounded (finish g)
    unfolding finish
    finish-Bounded g h =
        let device = device_for_name {F = F} g.config.device_name in
        >>=-Yields Bounded (extend (parse_global_section device) g.pending_globals) _ (λ globals _.
          >>=-Yields Bounded (extend (parse_nested_section device) g.pending_nested) _ (λ nested _.
            >>=-Yields Bounded
              (extend (λ s. parse_channel_section device s (before_first b':' s.name)) g.pending) _
              (λ flat _.
                >>=-Yields Bounded (check_device_channels _) _
                  (λ _ _. >>=-Yields Bounded (check_link_agreement _) _ (λ _ _. gives _ h)))))

    parse_document-Bounded : (document : List Section) → Yields Bounded (parse_document document)
    unfolding parse_document start_reading default_config
    parse_document-Bounded document = >>=-Yields Bounded (dispatch document start_reading) _ (λ g e.
        finish-Bounded g (
          Yields-at BoundedReading _ g
            (dispatch-Bounded document start_reading (tt, default_ports.0, default_ports.1)) e))

    -- A config that load_config returns has routes of the form that the parser promises (one source of
    -- one or two channels in 1..64, as many outputs in 1..64, gains within LEVEL_MIN..LEVEL_MAX) and
    -- two ports in 1..65535, whatever the sections of the file say, where 0.0 is within
    -- LEVEL_MIN..LEVEL_MAX.
    pub load_config-Bounded :
        (file : Option File) (c : Config F) → load_config file ≡ parsed c → Bounded c
    unfolding load_config default_config
    load_config-Bounded none c e =
        subst Bounded (parsed-injective _ c e) (tt, default_ports.0, default_ports.1)
    load_config-Bounded (some unreadable) c e = cc
    load_config-Bounded (some undecodable) c e = cc
    load_config-Bounded (some malformed) c e = cc
    load_config-Bounded (some (sections document)) c e =
        Yields-at Bounded _ c (parse_document-Bounded document) e
