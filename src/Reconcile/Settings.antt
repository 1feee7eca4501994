-- ===== src/Reconcile/Settings.antt =====
-- The settings of a config are entries of the last phase.
use oscmix_autostart.Base.{
  ◌≡◌, subst, Option, none, some, List, [], ◌∷◌, All, All-extend_all, ◌>>=◌, >>=-eq-some,
  Option-cases, inl, inr, arith,
}
use mathlib.Core.Option.{some-injective}
use oscmix_autostart.Base.Text.{Text}
use oscmix_autostart.Base.Float.{Floating}
use oscmix_autostart.Base.Dict.{get}
use oscmix_autostart.Base.Equality.{text_eq}
use oscmix_autostart.Config.Defs.{Config, ChannelSetting, GlobalSetting, Value, global_path}
use oscmix_autostart.Registers.Defs.{Device, Register}
use oscmix_autostart.Registers.Lookup.{device_for_name}
use oscmix_autostart.Registers.Settable.{option_register, settable_globals}
use oscmix_autostart.Reconcile.Desired.{
  Entry, phase_channel, encode, channel_path, channel_entry, global_entry, channel_entries_on,
  global_entries_on, channel_entries, global_entries,
}

module _ {F : Type 0} ⦃fl : Floating F⦄ where
  abbrev pub InLast : Entry F → Type 0
  InLast e = e.phase ≡ phase_channel

  -- What is encoded keeps its path and is in the last phase.
  pub encode_shape :
      (path : Text) (r : Register F) (v : Value F) (e : Entry F)
      → encode path r v ≡ some e
      → (e.path ≡ path) × (e.phase ≡ phase_channel)
  unfolding encode
  encode_shape path r v e h = ground arith

  one_entry-InLast :
      (path : Text) (r : Register F) (v : Value F) (es : List (Entry F))
      → (encode path r v >>= λ e. some (e ∷ [])) ≡ some es
      → All InLast es
  one_entry-InLast path r v es h =
      let (e, he, last) = >>=-eq-some (encode path r v) _ h in
      subst (All InLast) (some-injective _ _ last) ((encode_shape path r v e he).1, tt)

  channel_entry-InLast :
      (d : Option (Device F)) (s : ChannelSetting F) (es : List (Entry F))
      → channel_entry d s ≡ some es
      → All InLast es
  unfolding channel_entry
  channel_entry-InLast d s es h =
      elim (Option-cases (option_register d s.family s.option s.channel)) [
        | inl e ↦ subst (All InLast) (some-injective _ _ (rw (e, channel_entry) at h)) tt
        | inr (r, e) ↦
            one_entry-InLast (channel_path s.family s.channel s.option) r s.value es
              (rw (e, channel_entry) at h)
      ]

  global_entry-InLast :
      (d : Option (Device F)) (s : GlobalSetting F) (es : List (Entry F))
      → global_entry d s ≡ some es
      → All InLast es
  unfolding global_entry
  global_entry-InLast d s es h = elim (Option-cases (get s.option (settable_globals d s.family))) [
    | inl e ↦ subst (All InLast) (some-injective _ _ (rw (e, global_entry) at h)) tt
    | inr (r, e) ↦ one_entry-InLast (global_path s) r s.value es (rw (e, global_entry) at h)
  ]

  channel_entries_on-InLast :
      (d : Option (Device F)) (c : Config F) (es : List (Entry F))
      → channel_entries_on d c ≡ some es
      → All InLast es
  unfolding channel_entries_on
  channel_entries_on-InLast none c es h = subst (All InLast) (some-injective _ _ h) tt
  channel_entries_on-InLast (some d) c es h =
      All-extend_all (channel_entry (some d)) (channel_entry-InLast (some d)) c.channels es h

  global_entries_on-InLast :
      (d : Option (Device F)) (c : Config F) (es : List (Entry F))
      → global_entries_on d c ≡ some es
      → All InLast es
  unfolding global_entries_on
  global_entries_on-InLast none c es h = subst (All InLast) (some-injective _ _ h) tt
  global_entries_on-InLast (some d) c es h =
      All-extend_all (global_entry (some d)) (global_entry-InLast (some d)) c.globals es h

  pub channel_entries-InLast :
      (c : Config F) (es : List (Entry F)) → channel_entries c ≡ some es → All InLast es
  unfolding channel_entries
  channel_entries-InLast c es h = channel_entries_on-InLast (device_for_name c.device_name) c es h

  pub global_entries-InLast :
      (c : Config F) (es : List (Entry F)) → global_entries c ≡ some es → All InLast es
  unfolding global_entries
  global_entries-InLast c es h = global_entries_on-InLast (device_for_name c.device_name) c es h
