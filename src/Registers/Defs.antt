-- ===== src/Registers/Defs.antt =====
-- The data of src/oscmix_desk/registers.py: `Register` and `Device`.
use oscmix_autostart.Base.{ℕ, Bool, false, Option, none, some, List, [], ◌∷◌}
use oscmix_autostart.Base.Text.{Text, text, contains}
use oscmix_autostart.Base.Int.{ℤ, pos, negsuc}
use oscmix_autostart.Base.Dict.{Dict, get, elem}
use oscmix_autostart.Base.Equality.{nat_eq, text_eq}
use oscmix_autostart.Registers.Path.{format}

-- `VERIFIABLE`, `WRITE_ONLY` and `REESTABLISHED`.
pub data VerifyClass : Type 0 where
  verifiable write_only reestablished : VerifyClass

-- `PIN` and `REMEMBER`.
pub data Policy : Type 0 where
  pin remember : Policy

-- `BOOL`, `ENUM` and `NUMBER`.
pub data Domain : Type 0 where
  bool enum number : Domain

-- The capability of a register with no channel.
abbrev pub global : Text
global = text "global"

pub record Register (F : Type 0) : Type 0 where
  pub template : Text
  pub tags : Text
  pub verify : VerifyClass
  pub channels : Text
  pub domain : Option Domain
  pub choices : List Text
  pub values : List ℤ
  pub lo : Option F
  pub hi : Option F
  pub unit : Text
  pub policy : Policy

pub record Device (F : Type 0) : Type 0 where
  pub key : Text
  pub name : Text
  pub usb_id : Text
  pub channels : Dict Text (List ℕ)
  pub registers : List (Register F)
  pub supported : Bool
  pub complete_after_cold_plug : List Text
  pub evidence : Option Text

module _ {F : Type 0} where
  unfoldable pub per_channel : Register F → Bool
  unfolding contains
  per_channel r = contains (text "{ch}") r.template

  -- `register.path(ch=n)`
  unfoldable pub path : Register F → ℕ → Option Text
  unfolding format
  path r n = format ((text "ch", n) ∷ []) r.template

  -- `device.channels.get(capability, ())`
  unfoldable pub channels_for : Device F → Text → List ℕ
  unfolding get
  channels_for d capability = elim (get capability d.channels) [ some ns ↦ ns | none ↦ [] ]

  unfoldable pub has : Device F → Text → ℕ → Bool
  unfolding channels_for elem
  has d capability n = elem n (channels_for d capability)

  -- `has` at an `int` that a text was read as.
  unfoldable pub has_ℤ : Device F → Text → ℤ → Bool
  unfolding has
  has_ℤ d capability (pos n) = has d capability n
  has_ℤ d capability (negsuc n) = false
