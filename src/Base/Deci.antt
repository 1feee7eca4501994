-- ===== src/Base/Deci.antt =====
-- Floats for the examples: exact multiples of 1/10000, the two infinities and NaN.
use oscmix_autostart.Base.Tests.{◌==◌, leb, ltb, if◌then◌else◌}
use oscmix_autostart.Base.Text.{Text, text, strip, same, split}
use oscmix_autostart.Base.Decimal.{show, int_of}
use oscmix_autostart.Base.Int.{ℤ, pos, negsuc, negate, leb_ℤ, eq_ℤ}
use oscmix_autostart.Base.Float.{Floating, IntOf, value, value_error, overflow_error}
use Prim.Native.Nat.{ℕ, suc, ◌+◌, ◌-◌, ◌*◌, ◌/◌, ◌%◌, ◌^◌}
use mathlib.Core.Bool.{Bool, true, false, not, ◌&&◌}
use mathlib.Core.Option.{Option, none, some}
use mathlib.Core.List.{List, [], ◌∷◌, ◌++◌}

pub data Deci : Type 0 where
  fin : ℤ → Deci
  nan inf minus_inf : Deci

abbrev sub_nat : ℕ → ℕ → ℤ
sub_nat a b = if leb b a then pos (a - b) else negate (b - a)

abbrev plus : ℤ → ℤ → ℤ
plus (pos a) (pos b) = pos (a + b)
plus (pos a) (negsuc b) = sub_nat a (suc b)
plus (negsuc a) (pos b) = sub_nat b (suc a)
plus (negsuc a) (negsuc b) = negsuc (suc (a + b))

abbrev minus : ℤ → ℤ
minus (pos a) = negate a
minus (negsuc a) = pos (suc a)

abbrev le_deci : Deci → Deci → Bool
le_deci nan b = false
le_deci minus_inf nan = false
le_deci minus_inf b = true
le_deci inf inf = true
le_deci inf b = false
le_deci (fin a) (fin b) = leb_ℤ a b
le_deci (fin a) inf = true
le_deci (fin a) b = false

abbrev eq_deci : Deci → Deci → Bool
eq_deci (fin a) (fin b) = eq_ℤ a b
eq_deci inf inf = true
eq_deci minus_inf minus_inf = true
eq_deci a b = false

abbrev neg_deci : Deci → Deci
neg_deci (fin a) = fin (minus a)
neg_deci nan = nan
neg_deci inf = minus_inf
neg_deci minus_inf = inf

abbrev add_deci : Deci → Deci → Deci
add_deci (fin a) (fin b) = fin (plus a b)
add_deci nan b = nan
add_deci a nan = nan
add_deci (fin a) b = b
add_deci a (fin b) = a
add_deci inf inf = inf
add_deci minus_inf minus_inf = minus_inf
add_deci a b = nan

abbrev abs_deci : Deci → Deci
abs_deci (fin (negsuc a)) = fin (pos (suc a))
abs_deci minus_inf = inf
abs_deci a = a

abbrev times : ℤ → ℕ → ℤ
times (pos a) k = pos (a * k)
times (negsuc a) k = negate (suc a * k)

abbrev trunc_deci : Deci → IntOf
trunc_deci (fin (pos a)) = value (pos (a / 10000))
trunc_deci (fin (negsuc a)) = value (negate (suc a / 10000))
trunc_deci nan = value_error
trunc_deci a = overflow_error

abbrev of_int_deci : ℤ → Deci
of_int_deci z = fin (times z 10000)

abbrev with_tenths : ℤ → ℕ → Deci
with_tenths (pos a) d = fin (pos (a * 10000 + (d - 48) * 1000))
with_tenths (negsuc a) d = fin (negate (suc a * 10000 + (d - 48) * 1000))

-- A whole number, or one other than a zero with a digit behind the point.
abbrev of_parts : List Text → Option Deci
of_parts (w ∷ []) = elim (int_of w) [ some z ↦ some (of_int_deci z) | none ↦ none ]
of_parts (w ∷ (d ∷ []) ∷ []) =
    if ltb d 48
    then none
    else if ltb 57 d
    then none
    else elim (int_of w) [ some z ↦ some (with_tenths z d) | none ↦ none ]
of_parts parts = none

-- Whole numbers and tenths, `inf`, `-inf` and `nan`.
unfoldable pub parse_deci : Text → Option Deci
unfolding same strip int_of split
parse_deci s =
    if same (strip s) (text "nan")
    then some nan
    else if same (strip s) (text "inf")
    then some inf
    else if same (strip s) (text "-inf")
    then some minus_inf
    else of_parts (split b'.' (strip s))

abbrev show_tenths : ℕ → Text
show_tenths n = show (n / 10) ++ (46 ∷ show (n % 10))

abbrev fixed_deci : Deci → Text
fixed_deci (fin (pos a)) = show_tenths (a / 1000)
fixed_deci (fin (negsuc a)) = 45 ∷ show_tenths (suc a / 1000)
fixed_deci nan = text "nan"
fixed_deci inf = text "inf"
fixed_deci minus_inf = text "-inf"

abbrev round_deci : Deci → Deci
round_deci (fin (pos a)) = fin (pos (a / 1000 * 1000))
round_deci (fin (negsuc a)) = fin (negate (suc a / 1000 * 1000))
round_deci a = a

-- A float as four bytes: a kind and a magnitude below 2 ^ 24.
abbrev bytes_of : ℕ → ℕ → List ℕ
bytes_of kind n = kind ∷ n / 65536 % 256 ∷ n / 256 % 256 ∷ n % 256 ∷ []

abbrev pack_deci : Deci → Option (List ℕ)
pack_deci (fin (pos n)) = if ltb n 16777216 then some (bytes_of 0 n) else none
pack_deci (fin (negsuc n)) = if ltb n 16777216 then some (bytes_of 1 n) else none
pack_deci inf = some (bytes_of 2 0)
pack_deci minus_inf = some (bytes_of 3 0)
pack_deci nan = some (bytes_of 4 0)

abbrev unpack_deci : List ℕ → Deci
unpack_deci (k ∷ a ∷ b ∷ c ∷ []) =
    let n = a * 65536 + b * 256 + c in
    if k == 0
    then fin (pos n)
    else if k == 1
    then fin (negsuc n)
    else if k == 2
    then inf
    else if k == 3
    then minus_inf
    else nan
unpack_deci bs = nan

instance abbrev pub deci_floats : Floating Deci
deci_floats = record {
  le = le_deci;
  lt = λ a b. le_deci a b && not (eq_deci a b);
  eq = eq_deci;
  add = add_deci;
  sub = λ a b. add_deci a (neg_deci b);
  abs = abs_deci;
  decimal = λ m k. fin (times m (10000 / 10 ^ k));
  neg_inf = minus_inf;
  log_offset = fin (pos 60206);
  of_int = of_int_deci;
  parse = parse_deci;
  trunc = trunc_deci;
  round1 = round_deci;
  fixed1 = fixed_deci;
  show = fixed_deci;
  pack = pack_deci;
  unpack = unpack_deci;
}
