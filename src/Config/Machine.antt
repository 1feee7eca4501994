-- ===== src/Config/Machine.antt =====
-- The sections `[device]`, `[osc]` and `[pin]`: the first branches of `_dispatch`, `_parse_osc` and
-- `_parse_pin` of src/oscmix_desk/config.py.
use oscmix_autostart.Base.{
  ℕ, ◌==◌, leb, Bool, false, ◌&&◌, ◌||◌, Option, none, some, [], ◌∷◌, if◌then◌else◌,
}
use oscmix_autostart.Base.Text.{Text, text, strip, lower, same, split, one_of, is_decimal}
use oscmix_autostart.Base.Decimal.{show, int_of}
use oscmix_autostart.Base.Int.{pos, negsuc}
use oscmix_autostart.Base.Float.{Floating}
use oscmix_autostart.Base.Dict.{Dict, get, put}
use oscmix_autostart.Base.Equality.{text_eq}
use oscmix_autostart.Reconcile.Policy.{option_eq}
use oscmix_autostart.Registers.Defs.{Device, Register, Policy, pin, remember}
use oscmix_autostart.Registers.Lookup.{device_for_name}
use oscmix_autostart.Registers.Settable.{settable_options}
use oscmix_autostart.Config.Defs.{Config}
use oscmix_autostart.Config.Parsed.{Parsed, parsed, refused, in_option, ◌>>=◌}
use oscmix_autostart.Config.Document.{Section, option_of, check_options}

-- `[0-9a-fA-F]`
abbrev pub is_hex : ℕ → Bool
is_hex c = is_decimal c || (leb 97 c && leb c 102) || (leb 65 c && leb c 70)

-- `re.fullmatch(r"[0-9a-fA-F]{4}:[0-9a-fA-F]{4}", s)`
unfoldable pub is_usb_id : Text → Bool
is_usb_id (a ∷ b ∷ c ∷ d ∷ m ∷ e ∷ f ∷ g ∷ h ∷ []) =
    is_hex a
    && is_hex b
    && is_hex c
    && is_hex d
    && m == b':'
    && is_hex e
    && is_hex f
    && is_hex g
    && is_hex h
is_usb_id s = false

abbrev pub or_else : Option Text → Text → Text
or_else none fallback = fallback
or_else (some v) fallback = v

-- A port of 1..65535.
unfoldable pub parse_port : Text → Text → Parsed ℕ
parse_port option raw = elim (int_of raw) [
  | none ↦ refused (in_option (text "osc") option)
  | some (negsuc n) ↦ refused (in_option (text "osc") option)
  | some (pos n) ↦
      if leb 1 n && leb n 65535 then parsed n else refused (in_option (text "osc") option)
]

-- `raw not in POLICIES`
unfoldable pub policy_of : Text → Option Policy
policy_of raw =
    if same raw (text "pin")
    then some pin
    else if same raw (text "remember")
    then some remember
    else none

module _ {F : Type 0} where
  unfoldable pub parse_osc : Section → Config F → Parsed (Config F)
  unfolding parse_port
  parse_osc s c = do
    _ ← check_options s (text "port" ∷ text "recv-port" ∷ [])
    port ← parse_port (text "port") (or_else (option_of s (text "port")) (show c.osc_port))
    recv_port ←
        parse_port (text "recv-port")
          (or_else (option_of s (text "recv-port")) (show c.osc_recv_port))
    parsed (record c { osc_port = port; osc_recv_port = recv_port })

  unfoldable pub parse_device : Section → Config F → Parsed (Config F)
  unfolding is_usb_id
  parse_device s c = do
    _ ← check_options s (text "name" ∷ text "usb-id" ∷ [])
    let usb_id = strip (or_else (option_of s (text "usb-id")) c.usb_id)
    if is_usb_id usb_id
        then parsed (record c {
          device_name = strip (or_else (option_of s (text "name")) c.device_name);
          usb_id = lower usb_id;
        })
        else refused (in_option (text "device") (text "usb-id"))

-- `key.split(".", 1)` of a key with one dot, whose family is one of the two.
unfoldable pub pin_key : Text → Parsed (Text × Text)
pin_key key = elim (split b'.' key) [
  | family ∷ option ∷ [] ↦
      if one_of family (text "input" ∷ text "output" ∷ [])
      then parsed (family, option)
      else refused (in_option (text "pin") key)
  | parts ↦ refused (in_option (text "pin") key)
]

module _ {F : Type 0} ⦃fl : Floating F⦄ where
  abbrev pub pin_known :
      Text
      → Text × Text
      → Policy
      → Dict (Text × Text) Policy
      → Option (Register F)
      → Parsed (Dict (Text × Text) Policy)
  pin_known key at policy policies none = refused (in_option (text "pin") key)
  pin_known key at policy policies (some r) = parsed (put at policy policies)

  abbrev pub pin_with :
      Option (Device F)
      → Text
      → Dict (Text × Text) Policy
      → Option Policy
      → Parsed (Dict (Text × Text) Policy)
  pin_with device key policies none = refused (in_option (text "pin") key)
  pin_with device key policies (some policy) = do
    at ← pin_key key
    pin_known key at policy policies (get at.1 (settable_options device at.0))

  -- One line of `[pin]`.
  unfoldable pub parse_pin_option :
      Option (Device F)
      → Text
      → Text
      → Dict (Text × Text) Policy
      → Parsed (Dict (Text × Text) Policy)
  parse_pin_option device key value policies =
      pin_with device key policies (policy_of (lower (strip value)))

  unfoldable pub parse_pin_options :
      Option (Device F)
      → Dict Text Text
      → Dict (Text × Text) Policy
      → Parsed (Dict (Text × Text) Policy)
  parse_pin_options device [] policies = parsed policies
  parse_pin_options device ((key, value) ∷ options) policies = do
    after ← parse_pin_option device key value policies
    parse_pin_options device options after

  unfoldable pub parse_pin : Section → Config F → Parsed (Config F)
  parse_pin s c = do
    policies ← parse_pin_options (device_for_name c.device_name) s.options c.policies
    parsed (record c { policies = policies })
