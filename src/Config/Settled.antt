-- ===== src/Config/Settled.antt =====
-- The sections of src/oscmix_desk/config.py end with their settings or with a `ConfigError`.
use oscmix_autostart.Base.{
  ℕ, ◌≡◌, sym, subst, Bool, true, Bool-cases, inl, inr, Option, none, some, List, [], ◌∷◌, all,
  arith,
}
use oscmix_autostart.Base.Text.{Text, one_of, same, same_iff}
use oscmix_autostart.Base.Decimal.{int_of}
use oscmix_autostart.Base.Int.{ℤ, pos, negsuc}
use oscmix_autostart.Base.Float.{Floating}
use oscmix_autostart.Base.Dict.{Dict, keys}
use oscmix_autostart.Base.Equality.{text_eq}
use oscmix_autostart.Registers.Defs.{Device, Register}
use oscmix_autostart.Registers.Settable.{
  settable_options, settable_globals, settable_nested, option_channels,
}
use oscmix_autostart.Config.Parsed.{
  Settles, parsed-Settles, refused-Settles, >>=-Settles, if-Settles, each-Settles, Defined,
}
use oscmix_autostart.Config.Document.{Section, check_options}
use oscmix_autostart.Config.Values.{parse_domain}
use oscmix_autostart.Config.Settings.{
  NestedName, nested_name, known_value, value_of, parse_globals, global_option, nested_setting,
  channel_options, parse_channel_at, parse_nested_known, register_or_missing, parse_global_section,
  nested_options, parse_nested_named, parse_nested_channel, parse_nested_parts,
  parse_nested_section, missing_option, option_at, channel_option, parse_channel_section,
}
use oscmix_autostart.Config.Reach.{has_members, all_reached}
use oscmix_autostart.Config.Total.{check_options-Settles, parse_domain-Settles}
use oscmix_autostart.Config.Covered.{one_of-Defined, check_options-All}

-- The name has three parts, of which `int` reads the last.
abbrev pub Channelled : Option NestedName → Type 0
Channelled none = ⊥
Channelled (some (sub, family, raw)) = Defined (int_of raw)

-- What holds of each key holds of a member.
member :
    (p : Text → Bool) (k : Text) (ks : List Text)
    → all p ks ≡ true
    → one_of k ks ≡ true
    → p k ≡ true
unfolding all one_of
member p k [] h m = cc m
member p k (j ∷ ks) h m = elim (Bool-cases (same k j)) [
  | inl e ↦
      let here : p j ≡ true = ground arith in
      subst (λ x. p x ≡ true) (sym ((same_iff k j).0 e)) here
  | inr e ↦ member p k ks (ground arith) (ground arith)
]

missing_option-Settles :
    (F : Type 0) ⦃fl : Floating F⦄ (s : Section) (option : Text) (channels : List ℕ)
    → has_members channels ≡ true
    → Settles (missing_option {F = F} s option channels)
unfolding missing_option
missing_option-Settles F s option [] h = cc h
missing_option-Settles F s option (c ∷ cs) h = refused-Settles _ _

module _ {F : Type 0} ⦃fl : Floating F⦄ where
  known_value-Settles :
      (known : Dict Text (Register F)) (s : Section) (option raw : Text)
      → one_of option (keys known) ≡ true
      → Settles (known_value known s option raw)
  unfolding known_value
  known_value-Settles known s option raw h =
      let (r, e) = one_of-Defined option known h in
      subst (λ m. Settles (value_of s option raw m)) (sym e)
        (parse_domain-Settles raw s.name option r)

  parse_globals-Settles :
      (known : Dict Text (Register F)) (s : Section) → Settles (parse_globals known s)
  parse_globals-Settles [] s = parsed-Settles []
  parse_globals-Settles (k ∷ known) s =
      >>=-Settles (check_options s (keys (k ∷ known))) _ (check_options-Settles s _) (λ _ e.
        each-Settles (λ o. one_of o.0 (keys (k ∷ known)) ≡ true) (global_option (k ∷ known) s)
          (λ o h.
            >>=-Settles (known_value (k ∷ known) s o.0 o.1) _
              (known_value-Settles (k ∷ known) s o.0 o.1 h) (λ v _. parsed-Settles _))
          s.options (check_options-All s _ e))

  pub parse_global_section-Settles :
      (device : Option (Device F)) (s : Section) → Settles (parse_global_section device s)
  unfolding parse_global_section
  parse_global_section-Settles device s = parse_globals-Settles (settable_globals device s.name) s

  nested_options-Settles :
      (d : Device F) (known : Dict Text (Register F)) (s : Section) (sub family : Text)
      (channel : ℤ)
      → Settles (nested_options d known s sub family channel)
  unfolding nested_options
  nested_options-Settles d known s sub family (negsuc n) = refused-Settles _ _
  nested_options-Settles d known s sub family (pos n) =
      if-Settles _ _ _
        (>>=-Settles (check_options s (keys known)) _ (check_options-Settles s _) (λ _ e.
          each-Settles (λ o. one_of o.0 (keys known) ≡ true) (nested_setting known s sub family n)
            (λ o h.
              >>=-Settles (known_value known s o.0 o.1) _ (known_value-Settles known s o.0 o.1 h)
                (λ v _. parsed-Settles _))
            s.options (check_options-All s _ e)))
        (refused-Settles _ _)

  parse_nested_known-Settles :
      (d : Device F) (known : Dict Text (Register F)) (s : Section) (sub family : Text)
      (channel : ℤ)
      → Settles (parse_nested_known d known s sub family channel)
  parse_nested_known-Settles d [] s sub family channel =
      if-Settles _ _ _ (refused-Settles _ _) (parsed-Settles [])
  parse_nested_known-Settles d (k ∷ known) s sub family channel =
      nested_options-Settles d (k ∷ known) s sub family channel

  parse_nested_named-Settles :
      (device : Option (Device F)) (s : Section) (sub family : Text) (channel : ℤ)
      → Settles (parse_nested_named device s sub family channel)
  parse_nested_named-Settles none s sub family channel = parsed-Settles []
  parse_nested_named-Settles (some d) s sub family channel =
      parse_nested_known-Settles d (settable_nested (some d) sub family) s sub family channel

  parse_nested_parts-Settles :
      (device : Option (Device F)) (s : Section) (name : Option NestedName)
      → Channelled name
      → Settles (parse_nested_parts device s name)
  parse_nested_parts-Settles device s none h = elim h [ ]
  parse_nested_parts-Settles device s (some (sub, family, raw)) h =
      subst (λ z. Settles (parse_nested_channel device s sub family z)) (sym h.1)
        (parse_nested_named-Settles device s sub family h.0)

  pub parse_nested_section-Settles :
      (device : Option (Device F)) (s : Section)
      → Channelled (nested_name s.name)
      → Settles (parse_nested_section device s)
  unfolding parse_nested_section
  parse_nested_section-Settles device s h =
      parse_nested_parts-Settles device s (nested_name s.name) h

  register_or_missing-Settles :
      (s : Section) (option : Text) (channels : List ℕ) (n : ℕ) (r : Option (Register F))
      → has_members channels ≡ true
      → Settles (register_or_missing s option channels n r)
  register_or_missing-Settles s option channels n none h =
      missing_option-Settles F s option channels h
  register_or_missing-Settles s option channels n (some r) h = parsed-Settles _

  option_at-Settles :
      (device : Option (Device F)) (s : Section) (family option : Text) (channel : ℤ)
      → has_members (option_channels device family option) ≡ true
      → Settles (option_at device s family option channel)
  unfolding option_at
  option_at-Settles device s family option (negsuc n) h = missing_option-Settles F s option _ h
  option_at-Settles device s family option (pos n) h = register_or_missing-Settles s option _ n _ h

  channel_options-Settles :
      (device : Option (Device F)) (s : Section) (family : Text) (channel : ℤ)
      (known : Dict Text (Register F))
      → all (λ k. has_members (option_channels device family k)) (keys known) ≡ true
      → Settles (channel_options device s family channel known)
  unfolding channel_option
  channel_options-Settles device s family channel [] h = parsed-Settles []
  channel_options-Settles device s family channel (k ∷ known) h =
      >>=-Settles (check_options s (keys (k ∷ known))) _ (check_options-Settles s _) (λ _ e.
        each-Settles (λ o. one_of o.0 (keys (k ∷ known)) ≡ true)
          (channel_option device s family channel)
          (λ o m.
            >>=-Settles (option_at device s family o.0 channel) _
              (option_at-Settles device s family o.0 channel (
                member (λ k. has_members (option_channels device family k)) o.0 (keys (k ∷ known)) h
                  m))
              (λ r _.
                >>=-Settles (parse_domain o.1 s.name o.0 r.0) _
                  (parse_domain-Settles o.1 s.name o.0 r.0) (λ v _. parsed-Settles _)))
          s.options (check_options-All s _ e))

  parse_channel_at-Settles :
      (device : Option (Device F)) (s : Section) (family : Text) (channel : Option ℤ)
      → all_reached device family ≡ true
      → Settles (parse_channel_at device s family channel)
  parse_channel_at-Settles device s family none h = refused-Settles _ _
  parse_channel_at-Settles device s family (some channel) h =
      channel_options-Settles device s family channel (settable_options device family) h

  pub parse_channel_section-Settles :
      (device : Option (Device F)) (s : Section) (family : Text)
      → all_reached device family ≡ true
      → Settles (parse_channel_section device s family)
  unfolding parse_channel_section
  parse_channel_section-Settles device s family h = parse_channel_at-Settles device s family _ h
