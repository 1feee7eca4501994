-- ===== src/Osc/Codec.antt =====
-- `encode_osc` and `decode_osc` of src/oscmix_desk/osc.py. `none` is a `ValueError`, or what `struct`
-- and `str.encode` raise.
use oscmix_autostart.Base.{
  ℕ, ◌+◌, ◌≡◌, ◌==◌, Option, none, some, List, [], ◌∷◌, ◌++◌, if◌then◌else◌, ◌>>=◌, length,
}
use oscmix_autostart.Base.Text.{Text, text, drop, starts_with, Lacks}
use oscmix_autostart.Base.Int.{ℤ}
use oscmix_autostart.Base.Float.{Floating, IntOf, value}
use oscmix_autostart.Config.Defs.{Value, int, float, str}
use oscmix_autostart.Config.Convert.{str_of, int_of_value, float_of}
use oscmix_autostart.Reconcile.Messages.{Message}
use oscmix_autostart.Osc.Strings.{osc_string, decode_string}
use oscmix_autostart.Osc.Numbers.{pack_int, four, unpack_int}

abbrev int_bytes : IntOf → Option (List ℕ)
int_bytes (value z) = pack_int z
int_bytes i = none

module _ {F : Type 0} ⦃fl : Floating F⦄ where
  -- One argument, by its tag.
  unfoldable pub encode_arg : ℕ → Value F → Option (List ℕ)
  encode_arg tag v =
      if tag == b'f'
      then (float_of v >>= λ x. fl.pack x)
      else (if tag == b'i'
          then int_bytes (int_of_value v)
          else (if tag == b's' then osc_string (str_of v) else none))

  -- Different lengths are an error too.
  unfoldable pub encode_args : Text → List (Value F) → Option (List ℕ)
  encode_args [] [] = some []
  encode_args (tag ∷ tags) (v ∷ vs) = do
    bytes ← encode_arg tag v
    rest ← encode_args tags vs
    some (bytes ++ rest)
  encode_args tags vs = none

  unfoldable pub encode_osc : Message F → Option (List ℕ)
  encode_osc (path, tags, args) = do
    p ← osc_string path
    t ← osc_string (b',' ∷ tags)
    a ← encode_args tags args
    some (p ++ (t ++ a))

  -- One argument and the offset behind it.
  unfoldable pub decode_arg : ℕ → List ℕ → ℕ → Option (Value F × ℕ)
  decode_arg tag bytes offset =
      if tag == b'f'
      then (four (drop offset bytes) >>= λ bs. some (float (fl.unpack bs), offset + 4))
      else (if tag == b'i'
          then (unpack_int (drop offset bytes) >>= λ z. some (int z, offset + 4))
          else (if tag == b's'
              then (decode_string bytes offset >>= λ s. some (str s.0, s.1))
              else none))

  unfoldable pub decode_args : Text → List ℕ → ℕ → Option (List (Value F))
  decode_args [] bytes offset = some []
  decode_args (tag ∷ tags) bytes offset =
      decode_arg tag bytes offset >>= λ a. decode_args tags bytes a.1 >>= λ vs. some (a.0 ∷ vs)

  unfoldable pub decode_osc : List ℕ → Option (Message F)
  decode_osc bytes = decode_string bytes 0 >>= λ p. decode_string bytes p.1 >>= λ t.
      if starts_with (text ",") t.0
      then (decode_args (drop 1 t.0) bytes t.1 >>= λ args. some (p.0, drop 1 t.0, args))
      else none

  -- What arrives of an argument, by its tag: the float that four bytes hold, which is the nearest one
  -- of single precision, the integer, or the text, if it has no NUL.
  pub data Carried (v w : Value F) : ℕ → Type 0 where
    carried_float :
        (x : F) (bytes : List ℕ)
        → float_of v ≡ some x
        → fl.pack x ≡ some bytes
        → length bytes ≡ 4
        → float (fl.unpack bytes) ≡ w
        → Carried v w b'f'
    carried_int : (z : ℤ) → int_of_value v ≡ value z → int z ≡ w → Carried v w b'i'
    carried_text : Lacks 0 (str_of v) → str (str_of v) ≡ w → Carried v w b's'

  abbrev pub AllCarried : Text → List (Value F) → List (Value F) → Type 0
  AllCarried [] [] [] = Unit
  AllCarried (tag ∷ tags) (v ∷ vs) (w ∷ ws) = Carried v w tag × AllCarried tags vs ws
  AllCarried tags vs ws = ⊥
