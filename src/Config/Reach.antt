-- ===== src/Config/Reach.antt =====
-- Every flat option of src/oscmix_desk/registers.py has a channel.
use oscmix_autostart.Base.{
  ◌≡◌, refl, Bool, true, false, Option, some, List, [], ◌∷◌, ℕ, all, All-find,
}
use oscmix_autostart.Base.Text.{Text, text, same, lower, strip}
use oscmix_autostart.Base.Float.{Floating}
use oscmix_autostart.Base.Dict.{keys}
use oscmix_autostart.Registers.Defs.{Device}
use oscmix_autostart.Registers.Table.{ucx2, ff802, devices}
use oscmix_autostart.Registers.Lookup.{device_for_name}
use oscmix_autostart.Registers.Settable.{settable_options, option_channels}

abbrev pub has_members : List ℕ → Bool
has_members [] = false
has_members (n ∷ ns) = true

-- Every option of a family has a channel on the device.
abbrev pub all_reached : {F : Type 0} → Option (Device F) → Text → Bool
all_reached device family =
    all (λ k. has_members (option_channels device family k)) (keys (settable_options device family))

abbrev pub Reached : {F : Type 0} → Option (Device F) → Type 0
Reached device =
    (all_reached device (text "input") ≡ true) × (all_reached device (text "output") ≡ true)

ucx2-Reached : (F : Type 0) ⦃fl : Floating F⦄ → Reached (some (ucx2 {F = F}))
unfolding all settable_options option_channels ucx2
ucx2-Reached F = (refl, refl)

ff802-Reached : (F : Type 0) ⦃fl : Floating F⦄ → Reached (some (ff802 {F = F}))
unfolding all settable_options option_channels ff802
ff802-Reached F = (refl, refl)

pub device_for_name-Reached :
    (F : Type 0) ⦃fl : Floating F⦄ (name : Text) (d : Device F)
    → device_for_name name ≡ some d
    → Reached (some d)
unfolding device_for_name
device_for_name-Reached F name d h =
    All-find (λ d. Reached (some d)) (λ d. same (lower d.name) (lower (strip name))) devices d
      (ucx2-Reached F, (ff802-Reached F, tt)) h
