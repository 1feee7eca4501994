-- ===== src/Config/Convert.antt =====
-- Python's conversions `str`, `int` and `float` of the values that settings and messages carry.
use oscmix_autostart.Base.{true, false, Option, none, some, if◌then◌else◌}
use oscmix_autostart.Base.Text.{Text, text}
use oscmix_autostart.Base.Decimal.{show_ℤ, int_of}
use oscmix_autostart.Base.Int.{pos}
use oscmix_autostart.Base.Float.{Floating, IntOf, value, value_error}
use oscmix_autostart.Config.Defs.{Value, int, float, str, flag}

module _ {F : Type 0} ⦃fl : Floating F⦄ where
  -- `str(value)` of an int or a text; the parser gives an enum a text.
  unfoldable pub str_of : Value F → Text
  unfolding show_ℤ
  str_of (int z) = show_ℤ z
  str_of (float x) = fl.show x
  str_of (str s) = s
  str_of (flag true) = text "True"
  str_of (flag false) = text "False"

  -- `int(value)`; the other errors of the conversion are `ValueError`s.
  unfoldable pub int_of_value : Value F → IntOf
  unfolding int_of
  int_of_value (int z) = value z
  int_of_value (float x) = fl.trunc x
  int_of_value (str s) = elim (int_of s) [ some z ↦ value z | none ↦ value_error ]
  int_of_value (flag b) = value (pos (if b then 1 else 0))

  -- `float(value)`; `none` is its `ValueError`.
  unfoldable pub float_of : Value F → Option F
  float_of (int z) = some (fl.of_int z)
  float_of (float x) = some x
  float_of (str s) = fl.parse s
  float_of (flag b) = some (fl.of_int (pos (if b then 1 else 0)))
