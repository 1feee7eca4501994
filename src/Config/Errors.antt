-- ===== src/Config/Errors.antt =====
-- Which files make `load_config` of src/oscmix_desk/config.py end in a traceback.
use oscmix_autostart.Base.{
  ==_iff, ◌≡◌, refl, sym, subst, ap, true, false, Bool-cases, inl, inr, ◌⊎◌, Option, none, some,
  List, [], ◌∷◌, ◌++◌, All, All-append, all, arith, ◌||◌,
}
use oscmix_autostart.Base.Text.{Text, text, strip, split, starts_with, is_digit}
use oscmix_autostart.Base.Decimal.{int_of}
use oscmix_autostart.Base.Float.{Floating}
use oscmix_autostart.Base.Dict.{elem}
use oscmix_autostart.Base.Equality.{text_eq}
use oscmix_autostart.Registers.Defs.{Device}
use oscmix_autostart.Registers.Lookup.{device_for_name}
use oscmix_autostart.Registers.Settable.{before_first, settable_options, global_families}
use oscmix_autostart.Config.Parsed.{
  All-Unit, Settles, parsed-Settles, >>=-Settles, if-Settles, extend-Settles, Yields, gives,
  if-Yields, if-Yields-cases, Yields-at, >>=-Yields, Defined, extend,
}
use oscmix_autostart.Config.Document.{Section}
use oscmix_autostart.Config.Route.{parse_route}
use oscmix_autostart.Config.Machine.{parse_osc, parse_device, parse_pin}
use oscmix_autostart.Config.Settings.{
  NestedName, nested_name, nested_at, is_nested_section, parse_global_section, parse_nested_section,
  parse_channel_section,
}
use oscmix_autostart.Config.Checks.{
  check_on, check_device_channels, agree_with, check_link_agreement,
}
use oscmix_autostart.Config.Load.{
  Reading, start_reading, dispatch_route, dispatch_late, dispatch_section, dispatch, finish,
  parse_document,
}
use oscmix_autostart.Config.Reach.{all_reached, Reached, device_for_name-Reached}
use oscmix_autostart.Config.Total.{parse_route-Settles}
use oscmix_autostart.Config.Steps.{
  parse_osc-Settles, parse_device-Settles, parse_pin-Settles, check_on-Settles, agree_with-Settles,
}
use oscmix_autostart.Config.Settled.{
  Channelled, parse_global_section-Settles, parse_nested_section-Settles,
  parse_channel_section-Settles,
}

-- Nothing reads the channel of the section, or `int` reads it: the third part of a name in three is
-- no run of digits, or is a number.
abbrev pub Readable : Option NestedName → Type 0
Readable none = Unit
Readable (some (sub, family, raw)) = (is_digit (strip raw) ≡ false) ⊎ Defined (int_of raw)

-- The family of a flat section.
abbrev Flat : Section → Type 0
Flat s = (before_first b':' s.name ≡ text "input") ⊎ (before_first b':' s.name ≡ text "output")

abbrev Nested : Section → Type 0
Nested s = Channelled (nested_name s.name)

starts_with-append :
    (prefix s : Text) → starts_with prefix s ≡ true → (rest : Text) × (s ≡ prefix ++ rest)
unfolding starts_with
starts_with-append [] s h = (s, refl)
starts_with-append (a ∷ prefix) [] h = cc h
starts_with-append (a ∷ prefix) (b ∷ s) h =
    let (rest, e) = starts_with-append prefix s (ground arith) in
    let same : a ≡ b = ground (arith, ==_iff a b) in (rest, cc)

starts_with-family :
    (name : Text)
    → (starts_with (text "input:") name || starts_with (text "output:") name) ≡ true
    → (before_first b':' name ≡ text "input") ⊎ (before_first b':' name ≡ text "output")
unfolding starts_with before_first
starts_with-family name h = elim (Bool-cases (starts_with (text "input:") name)) [
  | inl e ↦
      let (rest, split) = starts_with-append (text "input:") name e in
      inl (ap (before_first b':') split)
  | inr e ↦
      let (rest, split) = starts_with-append (text "output:") name (ground arith) in
      inr (ap (before_first b':') split)
]

module _ {F : Type 0} ⦃fl : Floating F⦄ where
  nested_at-Channelled :
      (device : Option (Device F)) (name : Option NestedName)
      → nested_at device name ≡ true
      → Readable name
      → Channelled name
  nested_at-Channelled device none h r = cc h
  nested_at-Channelled device (some (sub, family, raw)) h (inl e) = ground arith
  nested_at-Channelled device (some (sub, family, raw)) h (inr d) = d

  abbrev Steady : Reading F → Type 0
  Steady g = All Flat g.pending × All Nested g.pending_nested

  -- What a section adds to the waiting ones.
  dispatch_late-Steady :
      (s : Section) (g : Reading F)
      → Readable (nested_name s.name)
      → Steady g
      → Steady (dispatch_late s g)
  unfolding dispatch_late is_nested_section
  dispatch_late-Steady s g r h =
      elim (Bool-cases
        (elem s.name (global_families (device_for_name {F = F} g.config.device_name)))) [
          | inl e ↦ rw e h
          | inr e ↦
              elim (Bool-cases
                (is_nested_section (device_for_name {F = F} g.config.device_name) s.name)) [
                  | inl n ↦
                      rw (e, n)
                        (
                          h.0,
                          All-append Nested g.pending_nested (s ∷ []) h.1 (
                            nested_at-Channelled (device_for_name {F = F} g.config.device_name)
                                (nested_name s.name) n r,
                            tt,
                          ),
                        )
                  | inr n ↦ rw (e, n) h
                ]
        ]

  dispatch_section-Steady :
      (s : Section) (g : Reading F)
      → Readable (nested_name s.name)
      → Steady g
      → Yields Steady (dispatch_section s g)
  unfolding dispatch_section dispatch_route
  dispatch_section-Steady s g r h =
      if-Yields Steady _ _ _ (>>=-Yields Steady (parse_device s g.config) _ (λ c _. gives _ h)) (
        if-Yields Steady _ _ _ (>>=-Yields Steady (parse_osc s g.config) _ (λ c _. gives _ h)) (
          if-Yields Steady _ _ _ (>>=-Yields Steady (parse_route {F = F} s) _ (λ r _. gives _ h)) (
            if-Yields-cases Steady _ _ _
              (λ e.
                gives _
                  (All-append Flat g.pending (s ∷ []) h.0 (starts_with-family s.name e, tt), h.1))
              (λ _.
                if-Yields Steady _ _ _
                  (>>=-Yields Steady (parse_pin s g.config) _ (λ c _. gives _ h))
                  (gives _ (dispatch_late-Steady s g r h))))))

  dispatch_section-Settles : (s : Section) (g : Reading F) → Settles (dispatch_section s g)
  unfolding dispatch_section dispatch_route
  dispatch_section-Settles s g =
      if-Settles _ _ _
        (>>=-Settles (parse_device s g.config) _ (parse_device-Settles s g.config)
          (λ c _. parsed-Settles _))
        (if-Settles _ _ _
          (>>=-Settles (parse_osc s g.config) _ (parse_osc-Settles s g.config)
            (λ c _. parsed-Settles _))
          (if-Settles _ _ _
            (>>=-Settles (parse_route s) _ (parse_route-Settles F s) (λ r _. parsed-Settles _))
            (if-Settles _ _ _ (parsed-Settles _) (
              if-Settles _ _ _
                (>>=-Settles (parse_pin s g.config) _ (parse_pin-Settles s g.config)
                  (λ c _. parsed-Settles _))
                (parsed-Settles _)))))

  dispatch-Settles : (ss : List Section) (g : Reading F) → Settles (dispatch ss g)
  unfolding dispatch
  dispatch-Settles [] g = parsed-Settles g
  dispatch-Settles (s ∷ ss) g =
      >>=-Settles (dispatch_section s g) _ (dispatch_section-Settles s g)
        (λ g' _. dispatch-Settles ss g')

  dispatch-Steady :
      (ss : List Section) (g : Reading F)
      → All (λ s. Readable (nested_name s.name)) ss
      → Steady g
      → Yields Steady (dispatch ss g)
  unfolding dispatch
  dispatch-Steady [] g r h = gives _ h
  dispatch-Steady (s ∷ ss) g r h = >>=-Yields Steady (dispatch_section s g) _ (λ g' e.
      dispatch-Steady ss g' r.1 (Yields-at Steady _ g' (dispatch_section-Steady s g r.0 h) e))

  device-Reached :
      (name : Text) (device : Option (Device F)) → device_for_name name ≡ device → Reached device
  unfolding all settable_options
  device-Reached name none e = (refl, refl)
  device-Reached name (some d) e = device_for_name-Reached F name d e

Flat-Settles :
    (F : Type 0) ⦃fl : Floating F⦄ (name : Text) (s : Section)
    → Flat s
    → Settles (parse_channel_section (device_for_name {F = F} name) s (before_first b':' s.name))
Flat-Settles F name s (inl e) = parse_channel_section-Settles _ s _ (
    subst (λ f. all_reached (device_for_name {F = F} name) f ≡ true) (sym e)
      (device-Reached name _ refl).0)
Flat-Settles F name s (inr e) = parse_channel_section-Settles _ s _ (
    subst (λ f. all_reached (device_for_name {F = F} name) f ≡ true) (sym e)
      (device-Reached name _ refl).1)

module _ {F : Type 0} ⦃fl : Floating F⦄ where
  finish-Settles : (g : Reading F) → Steady g → Settles (finish g)
  unfolding finish check_device_channels check_link_agreement
  finish-Settles g h =
      let device = device_for_name {F = F} g.config.device_name in
      >>=-Settles (extend (parse_global_section device) g.pending_globals) _
        (extend-Settles (λ s. Unit {0}) _ (λ s _. parse_global_section-Settles device s) _
          (All-Unit _))
        (λ globals _.
          >>=-Settles (extend (parse_nested_section device) g.pending_nested) _
            (extend-Settles Nested _ (λ s n. parse_nested_section-Settles device s n) _ h.1)
            (λ nested _.
              >>=-Settles
                (extend (λ s. parse_channel_section device s (before_first b':' s.name)) g.pending)
                _ (extend-Settles Flat _ (λ s f. Flat-Settles F g.config.device_name s f) _ h.0)
                (λ flat _.
                  >>=-Settles (check_on device g.config.routes) _ (check_on-Settles _ _) (λ _ _.
                    >>=-Settles (agree_with [] g.config.routes) _ (agree_with-Settles _ _)
                      (λ _ _. parsed-Settles _)))))

pub parse_document-Settles :
    (F : Type 0) ⦃fl : Floating F⦄ (document : List Section)
    → All (λ s. Readable (nested_name s.name)) document
    → Settles (parse_document {F = F} document)
unfolding parse_document start_reading
parse_document-Settles F document r =
    >>=-Settles (dispatch document start_reading) _ (dispatch-Settles document start_reading)
      (λ g e.
        finish-Settles g
          (Yields-at Steady _ g (dispatch-Steady document start_reading r (tt, tt)) e))
