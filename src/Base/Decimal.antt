-- ===== src/Base/Decimal.antt =====
-- `"%d"` of an int, and `int` of a text.
use Prim.Native.Nat.{ℕ, zero, suc, ◌+◌, ◌-◌, ◌*◌, ◌/◌, ◌%◌, ◌≤◌, ◌<◌}
use mathlib.Core.Path.{◌≡◌, refl, sym, ap, ◌∙◌}
use mathlib.Core.Logic.{◌≢◌}
use mathlib.Core.Bool.{Bool, true, false, ◌&&◌}
use mathlib.Core.Option.{Option, none, some}
use mathlib.Core.List.{[], ◌∷◌, ◌++◌}
use native.Mathlib.Omega.{arith}
use oscmix_autostart.Base.Tests.{◌==◌, ltb, if◌then◌else◌, ◌>>=◌}
use oscmix_autostart.Base.Lists.{All, All-append, all}
use oscmix_autostart.Base.Text.{Text, Lacks, is_decimal, is_digit_char, is_digit, strip}
use oscmix_autostart.Base.Int.{ℤ, pos, negsuc, negate}

-- The digits of `n`, given more rounds than it has digits.
digits_of : ℕ → ℕ → Text
digits_of zero n = []
digits_of (suc f) n =
    let rest = digits_of f (n / 10) in
    if ltb n 10 then (48 + n) ∷ [] else rest ++ ((48 + n % 10) ∷ [])

-- `"%d" % n` of a number: it has at most `n + 1` digits.
unfoldable pub show : ℕ → Text
unfolding digits_of
show n = digits_of (suc n) n

-- `"%d" % z`
unfoldable pub show_ℤ : ℤ → Text
unfolding show
show_ℤ (pos n) = show n
show_ℤ (negsuc n) = 45 ∷ show (suc n)

-- The number that a run of decimal digits spells, read after the number `acc`.
unfoldable pub number_from : ℕ → Text → ℕ
number_from acc [] = acc
number_from acc (c ∷ s) = number_from (acc * 10 + (c - 48)) s

number_from-append :
    (acc : ℕ) (s t : Text) → number_from acc (s ++ t) ≡ number_from (number_from acc s) t
unfolding number_from
number_from-append acc [] t = refl
number_from-append acc (c ∷ s) t = number_from-append (acc * 10 + (c - 48)) s t

number_from-digits_of : (f n : ℕ) → n < f → number_from 0 (digits_of f n) ≡ n
unfolding digits_of number_from
number_from-digits_of zero n h = elim h [ ]
number_from-digits_of (suc f) n h = ground (
  arith,
  number_from-append 0 (digits_of f (n / 10)) ((48 + n % 10) ∷ []),
  number_from-digits_of f (n / 10),
)

-- Reading back what `%d` wrote gives the number.
pub number_from-show : (n : ℕ) → number_from 0 (show n) ≡ n
unfolding show
number_from-show n = number_from-digits_of (suc n) n (omega arith)

pub show-injective : (m n : ℕ) → show m ≡ show n → m ≡ n
show-injective m n e = sym (number_from-show m) ∙ ap (number_from 0) e ∙ number_from-show n

abbrev pub IsDecimal : ℕ → Type 0
IsDecimal c = (48 ≤ c) × (c ≤ 57)

digits_of-IsDecimal : (f n : ℕ) → All IsDecimal (digits_of f n)
unfolding digits_of
digits_of-IsDecimal zero n = tt
digits_of-IsDecimal (suc f) n = ground (
  arith,
  digits_of-IsDecimal f (n / 10),
  All-append IsDecimal (digits_of f (n / 10)) ((48 + n % 10) ∷ []),
)

pub show-IsDecimal : (n : ℕ) → All IsDecimal (show n)
unfolding show
show-IsDecimal n = digits_of-IsDecimal (suc n) n

append-ne-nil : (s : Text) (c : ℕ) → s ++ (c ∷ []) ≢ []
append-ne-nil [] c = ground arith
append-ne-nil (a ∷ s) c = ground arith

pub show-ne-nil : (n : ℕ) → show n ≢ []
unfolding show
show-ne-nil n = ground (arith, append-ne-nil (digits_of n (n / 10)) (48 + n % 10))

pub Lacks-of_IsDecimal : (c : ℕ) (s : Text) → c < 48 → All IsDecimal s → Lacks c s
Lacks-of_IsDecimal c [] lt h = tt
Lacks-of_IsDecimal c (a ∷ s) lt h = (omega arith, Lacks-of_IsDecimal c s lt h.1)

pub show-Lacks_slash : (n : ℕ) → Lacks b'/' (show n)
show-Lacks_slash n = Lacks-of_IsDecimal b'/' (show n) (omega arith) (show-IsDecimal n)

all_of_IsDecimal : (s : Text) → All IsDecimal s → all is_digit_char s ≡ true
unfolding all
all_of_IsDecimal [] h = refl
all_of_IsDecimal (c ∷ s) h = ground (arith, all_of_IsDecimal s h.1)

is_digit_of_IsDecimal : (s : Text) → s ≢ [] → All IsDecimal s → is_digit s ≡ true
unfolding is_digit
is_digit_of_IsDecimal [] h d = absurd (h refl)
is_digit_of_IsDecimal (c ∷ s) h d = ground (arith, all_of_IsDecimal s d.1)

pub is_digit-show : (n : ℕ) → is_digit (show n) ≡ true
is_digit-show n = is_digit_of_IsDecimal (show n) (show-ne-nil n) (show-IsDecimal n)

-- Digits with single underscores between them, the first digit still to come.
digit_groups : Bool → ℕ → Text → Option ℕ
digit_groups seen acc [] = if seen then some acc else none
digit_groups seen acc (c ∷ s) =
    let next = digit_groups true (acc * 10 + (c - 48)) s in
    let skip = digit_groups false acc s in
    if is_decimal c then next else if seen && c == 95 then skip else none

-- A sign, then digits.
signed : Text → Option ℤ
unfolding digit_groups
signed [] = none
signed (c ∷ s) =
    if c == 43
    then (do n ← digit_groups false 0 s; some (pos n))
    else if c == 45
    then (do n ← digit_groups false 0 s; some (negate n))
    else (do n ← digit_groups false 0 (c ∷ s); some (pos n))

-- `int(s)` of a Latin-1 text; `none` is its `ValueError`.
unfoldable pub int_of : Text → Option ℤ
unfolding signed strip
int_of s = signed (strip s)

digit_groups-IsDecimal :
    (seen : Bool) (acc : ℕ) (c : ℕ) (s : Text)
    → All IsDecimal (c ∷ s)
    → digit_groups seen acc (c ∷ s) ≡ some (number_from acc (c ∷ s))
unfolding digit_groups number_from
digit_groups-IsDecimal seen acc c [] h = ground arith
digit_groups-IsDecimal seen acc c (d ∷ s) h =
    ground (arith, digit_groups-IsDecimal true (acc * 10 + (c - 48)) d s h.1)
