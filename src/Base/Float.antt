-- ===== src/Base/Float.antt =====
-- Python's `float`, which the language does not have: the operations that the sources use, as an
-- interface, with what IEEE 754 says of them as laws that a theorem may ask for.
use Prim.Native.Nat.{ℕ}
use mathlib.Core.Bool.{Bool, true, false}
use mathlib.Core.Option.{Option}
use mathlib.Core.List.{List}
use oscmix_autostart.Base.Text.{Text}
use oscmix_autostart.Base.Int.{ℤ}

-- `int(x)`: a NaN raises `ValueError`, an infinity raises `OverflowError`.
pub data IntOf : Type 0 where
  value : ℤ → IntOf
  value_error overflow_error : IntOf

pub record Floating (F : Type 0) : Type 0 where
  -- `a <= b`, `a < b` and `a == b`
  pub le : F → F → Bool
  pub lt : F → F → Bool
  pub eq : F → F → Bool
  pub add : F → F → F
  pub sub : F → F → F
  -- `abs(a)`
  pub abs : F → F
  -- The literal `m * 10 ** -k`.
  pub decimal : ℤ → ℕ → F
  pub neg_inf : F
  -- `20.0 * math.log10(2.0)`
  pub log_offset : F
  -- `float(z)` of an int of a wire or of a config, which is never too large.
  pub of_int : ℤ → F
  -- `float(s)`; `none` is its `ValueError`.
  pub parse : Text → Option F
  -- `int(x)`, truncated towards zero.
  pub trunc : F → IntOf
  -- `round(x, 1)` and `"%.1f" % x`
  pub round1 : F → F
  pub fixed1 : F → Text
  -- `str(x)`
  pub show : F → Text
  -- `struct.pack(">f", x)`; `none` is its `OverflowError`.
  pub pack : F → Option (List ℕ)
  -- `struct.unpack(">f", b)` of four bytes.
  pub unpack : List ℕ → F

module _ {F : Type 0} ⦃fl : Floating F⦄ where
  -- `min(a, b)`: the first, unless the second is smaller.
  abbrev pub min_float : F → F → F
  min_float a b = elim (fl.lt b a) [ true ↦ b | false ↦ a ]
