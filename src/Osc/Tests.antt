-- ===== src/Osc/Tests.antt =====
-- A mix write as bytes.
use oscmix_autostart.Base.{ℕ, ◌+◌, ◌≡◌, refl, some, List, [], ◌∷◌, ◌++◌, length, arith}
use oscmix_autostart.Base.Text.{text, Lacks, starts_with, drop}
use oscmix_autostart.Base.Int.{negate}
use oscmix_autostart.Base.Deci.{Deci, fin, deci_floats}
use oscmix_autostart.Config.Defs.{Value, int, float, str}
use oscmix_autostart.Config.Convert.{float_of, int_of_value, str_of}
use oscmix_autostart.Osc.Strings.{osc_string, ascii, zeros, decode_string, decode_string-osc_string}
use oscmix_autostart.Osc.Numbers.{pack_int, big_endian, unpack_int, signed}
use oscmix_autostart.Osc.Codec.{
  encode_osc, encode_args, encode_arg, decode_osc, AllCarried, carried_float, carried_int,
  carried_text,
}
use oscmix_autostart.Osc.RoundTrip.{decode_osc-encode_osc}
use oscmix_autostart.Osc.Bundle.{iter_osc_messages, heard_messages, unwrap, frame_of, take}
use oscmix_autostart.Osc.Framing.{Read, iter_osc_messages-Read}
use oscmix_autostart.Osc.Framed.{Plain, bundle, heard_messages-bundle}
use oscmix_autostart.Desk.{or_nothing}

abbrev mix_args : List (Value Deci)
mix_args = float (fin (negate 30000)) ∷ int (negate 100) ∷ []

abbrev mix_bytes : List ℕ
mix_bytes = or_nothing (encode_osc (text "/mix/1/input/5", text "fi", mix_args))

mix_encoded : encode_osc (text "/mix/1/input/5", text "fi", mix_args) ≡ some mix_bytes
unfolding encode_osc osc_string ascii zeros encode_args encode_arg float_of int_of_value pack_int
    big_endian
mix_encoded = refl

mix_length : length mix_bytes ≡ 28
unfolding encode_osc osc_string ascii zeros encode_args encode_arg float_of int_of_value pack_int
    big_endian
mix_length = refl

-- The gain is an integer that is sent as a float.
abbrev gain_args : List (Value Deci)
gain_args = int (negate 3) ∷ int (negate 100) ∷ str (text "in") ∷ []

abbrev gain_arrived : List (Value Deci)
gain_arrived = float (fin (negate 30000)) ∷ int (negate 100) ∷ str (text "in") ∷ []

abbrev gain_bytes : List ℕ
gain_bytes = or_nothing (encode_osc (text "/mix/1/input/5", text "fis", gain_args))

gain_encoded : encode_osc (text "/mix/1/input/5", text "fis", gain_args) ≡ some gain_bytes
unfolding encode_osc osc_string ascii zeros encode_args encode_arg float_of int_of_value pack_int
    big_endian str_of
gain_encoded = refl

gain_carried : AllCarried (text "fis") gain_args gain_arrived
unfolding float_of int_of_value str_of
gain_carried = (
  carried_float (fin (negate 30000)) (1 ∷ 0 ∷ 117 ∷ 47 ∷ []) refl refl refl refl,
  (carried_int (negate 100) refl refl, (carried_text (ground arith) refl, tt)),
)

mix_carried : AllCarried (text "fi") mix_args mix_args
unfolding float_of int_of_value
mix_carried = (
  carried_float (fin (negate 30000)) (1 ∷ 0 ∷ 117 ∷ 47 ∷ []) refl refl refl refl,
  (carried_int (negate 100) refl refl, tt),
)

mix_path-Lacks : Lacks 0 (text "/mix/1/input/5")
mix_path-Lacks = ground arith

decode_osc-encode_osc_example :
    decode_osc gain_bytes ≡ some (text "/mix/1/input/5", text "fis", gain_arrived)
decode_osc-encode_osc_example =
    decode_osc-encode_osc (text "/mix/1/input/5") (text "fis") gain_args gain_arrived gain_bytes
      mix_path-Lacks gain_carried gain_encoded

abbrev name_bytes : List ℕ
name_bytes = 47 ∷ 97 ∷ 98 ∷ 0 ∷ []

name_encoded : osc_string (text "/ab") ≡ some name_bytes
unfolding osc_string ascii zeros
name_encoded = refl

name-Lacks : Lacks 0 (text "/ab")
name-Lacks = ground arith

decode_string-osc_string_example :
    decode_string (name_bytes ++ (name_bytes ++ (7 ∷ []))) (length name_bytes)
    ≡ some (text "/ab", length name_bytes + length name_bytes)
decode_string-osc_string_example =
    decode_string-osc_string name_bytes (7 ∷ []) (text "/ab") name_bytes refl name-Lacks
      name_encoded

mix-Plain : Plain mix_bytes
unfolding encode_osc osc_string ascii zeros encode_args encode_arg float_of int_of_value pack_int
    big_endian starts_with
mix-Plain = (ground arith, ground arith, refl)

heard_messages-bundle_example :
    heard_messages (bundle (zeros 8) (mix_bytes ∷ mix_bytes ∷ []))
    ≡ some (
        (text "/mix/1/input/5", text "fi", mix_args)
        ∷ (text "/mix/1/input/5", text "fi", mix_args)
        ∷ [])
unfolding zeros
heard_messages-bundle_example =
    heard_messages-bundle (zeros 8)
      ((text "/mix/1/input/5", text "fi", mix_args)
        ∷ (text "/mix/1/input/5", text "fi", mix_args)
        ∷ [])
      (mix_bytes ∷ mix_bytes ∷ []) refl
      (
        (mix_encoded, mix_path-Lacks, mix_carried, mix-Plain),
        ((mix_encoded, mix_path-Lacks, mix_carried, mix-Plain), tt),
      )

-- A bundle in a bundle, whose last size is too large.
abbrev broken : List ℕ
broken = bundle (zeros 8) (bundle (zeros 8) (name_bytes ∷ []) ∷ []) ++ (0 ∷ 0 ∷ 0 ∷ 9 ∷ 1 ∷ [])

broken_read : iter_osc_messages broken ≡ some (name_bytes ∷ [])
unfolding iter_osc_messages unwrap starts_with frame_of unpack_int drop zeros big_endian signed take
broken_read = refl

iter_osc_messages-Read_example : Read (iter_osc_messages broken)
iter_osc_messages-Read_example = iter_osc_messages-Read broken
