-- ===== src/Registers/Lookup.antt =====
-- The questions about a name or a concrete path in src/oscmix_desk/registers.py.
-- A missing device has no opinion. `none` of an outer `Option` is an exception of `int`.
use oscmix_autostart.Base.{
  ℕ, Bool, true, false, Option, none, some, List, [], ◌∷◌, ◌++◌, if◌then◌else◌, ◌>>=◌, leb, any,
  find, traverse,
}
use oscmix_autostart.Base.Text.{Text, text, same, strip, lower, contains}
use oscmix_autostart.Base.Int.{ℤ}
use oscmix_autostart.Base.Float.{Floating}
use oscmix_autostart.Registers.Defs.{
  VerifyClass, Policy, remember, Register, Device, per_channel, path, channels_for, has_ℤ,
}
use oscmix_autostart.Registers.Path.{matches, channel_in}
use oscmix_autostart.Registers.Table.{devices}

module _ {F : Type 0} ⦃fl : Floating F⦄ where
  unfoldable pub device_for_name : Text → Option (Device F)
  unfolding find same lower strip
  device_for_name name = find (λ d. same (lower d.name) (lower (strip name))) devices

max_of : List ℕ → Option ℕ
max_of [] = none
max_of (n ∷ ns) = elim (max_of ns) [ none ↦ some n | some m ↦ some (if leb m n then n else m) ]

module _ {F : Type 0} where
  unfoldable pub channel_limit : Option (Device F) → Text → Option ℕ
  unfolding max_of channels_for
  channel_limit none capability = none
  channel_limit (some d) capability = max_of (channels_for d capability)

  -- The first row whose template the path is an instance of.
  unfoldable pub row_at : Device F → Text → Option (Register F)
  unfolding find matches
  row_at d p = find (λ r. matches r.template p) d.registers

  unfoldable pub register_policy : Option (Device F) → Text → Policy
  unfolding row_at
  register_policy none p = remember
  register_policy (some d) p = elim (row_at d p) [ none ↦ remember | some r ↦ r.policy ]

  unfoldable pub verify_class : Option (Device F) → Text → Option VerifyClass
  unfolding row_at
  verify_class none p = none
  verify_class (some d) p = elim (row_at d p) [ none ↦ none | some r ↦ some r.verify ]

  -- `if channel is not None and not device.has(register.channels, channel): continue`
  channel_fits : Device F → Register F → Option ℤ → Bool
  unfolding has_ℤ
  channel_fits d r none = true
  channel_fits d r (some n) = has_ℤ d r.channels n

  register_in : Device F → Text → List (Register F) → Option (Option (Register F))
  unfolding matches channel_in channel_fits
  register_in d p [] = some none
  register_in d p (r ∷ rs) =
      let rest = register_in d p rs in
      let here = (do
        n ← channel_in r.template p
        if channel_fits d r n then some (some r) else rest) in
      if matches r.template p then here else rest

  unfoldable pub register_at : Option (Device F) → Text → Option (Option (Register F))
  unfolding register_in
  register_at none p = some none
  register_at (some d) p = register_in d p d.registers

  unfoldable pub cold_plug_complete : Option (Device F) → Text → Bool
  unfolding any matches
  cold_plug_complete none p = false
  cold_plug_complete (some d) p = any (λ t. matches t p) d.complete_after_cold_plug

  -- The paths of one row, over the channels that the device has for it.
  row_paths : Device F → Register F → Option (List Text)
  unfolding contains per_channel traverse path channels_for
  row_paths d r =
      if contains (text "{out}") r.template
      then some []
      else if per_channel r
      then traverse (path r) (channels_for d r.channels)
      else some (r.template ∷ [])

  paths_of : Device F → List (Register F) → Option (List Text)
  unfolding row_paths
  paths_of d [] = some []
  paths_of d (r ∷ rs) = do ps ← row_paths d r; qs ← paths_of d rs; some (ps ++ qs)

  -- `declared_paths(device)`, with the device's own channels.
  unfoldable pub declared_paths : Device F → Option (List Text)
  unfolding paths_of
  declared_paths d = paths_of d d.registers
