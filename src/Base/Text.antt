-- ===== src/Base/Text.antt =====
-- Python's `str` as its code points, over Latin-1: equality, the predicates of `str` that the
-- sources use, `split`, `startswith` and `strip`.
use Prim.Native.Char.{code}
use Prim.Native.Nat.{ℕ, zero, suc, ◌+◌}
use Prim.Native.String.{String}
use mathlib.Core.Path.{◌≡◌, refl}
use mathlib.Core.Logic.{◌≢◌, ◌↔◌}
use mathlib.Core.Bool.{Bool, true, false, not, ◌&&◌, ◌||◌}
use mathlib.Core.List.{List, [], ◌∷◌, ◌++◌, reverse}
use native.Mathlib.Omega.{arith}
use oscmix_autostart.Base.Tests.{◌==◌, leb, if◌then◌else◌, ==_iff}
use oscmix_autostart.Base.Lists.{All, all}

abbrev pub Text : Type 0
Text = List ℕ

-- The code points of a literal.
abbrev pub text : String → Text
text String.[] = []
text (String.◌∷◌ c s) = code c ∷ text s

unfoldable pub same : Text → Text → Bool
same [] [] = true
same [] (b ∷ t) = false
same (a ∷ s) [] = false
same (a ∷ s) (b ∷ t) = a == b && same s t

pub same_iff : (s t : Text) → (same s t ≡ true) ↔ (s ≡ t)
unfolding same
same_iff [] [] = ground arith
same_iff [] (b ∷ t) = ground arith
same_iff (a ∷ s) [] = ground arith
same_iff (a ∷ s) (b ∷ t) = ground (arith, same_iff s t, ==_iff a b)

pub same_refl : (s : Text) → same s s ≡ true
same_refl s = (same_iff s s).1 refl

-- `s in ("a", "b", ...)`
unfoldable pub one_of : Text → List Text → Bool
one_of s [] = false
one_of s (t ∷ ts) = same s t || one_of s ts

-- `s.startswith(t)`, the prefix first.
unfoldable pub starts_with : Text → Text → Bool
starts_with [] s = true
starts_with (a ∷ t) [] = false
starts_with (a ∷ t) (b ∷ s) = a == b && starts_with t s

-- `s.endswith(t)`, the suffix first.
unfoldable pub ends_with : Text → Text → Bool
unfolding starts_with
ends_with t s = starts_with (reverse t) (reverse s)

-- `t in s` for a character `t`.
unfoldable pub has_char : ℕ → Text → Bool
has_char c [] = false
has_char c (a ∷ s) = a == c || has_char c s

-- `t in s` for a text `t`, the text looked for first.
unfoldable pub contains : Text → Text → Bool
unfolding starts_with
contains t [] = starts_with t []
contains t (a ∷ s) = starts_with t (a ∷ s) || contains t s

-- `s[n:]`
unfoldable pub drop : ℕ → Text → Text
drop zero s = s
drop (suc n) [] = []
drop (suc n) (a ∷ s) = drop n s

-- `0` to `9`: what `int` reads as a digit.
abbrev pub is_decimal : ℕ → Bool
is_decimal c = leb 48 c && leb c 57

-- What `str.isdigit` accepts in Latin-1: the decimal digits and the superscripts ¹ ² ³.
abbrev pub is_digit_char : ℕ → Bool
is_digit_char c = is_decimal c || c == 178 || c == 179 || c == 185

-- `s.isdigit()`
unfoldable pub is_digit : Text → Bool
unfolding all
is_digit [] = false
is_digit (c ∷ s) = is_digit_char c && all is_digit_char s

-- What `str.strip()` removes in Latin-1.
abbrev pub is_space : ℕ → Bool
is_space c = leb 9 c && leb c 13 || leb 28 c && leb c 32 || c == 133 || c == 160

unfoldable pub lstrip : Text → Text
lstrip [] = []
lstrip (c ∷ s) = let rest = lstrip s in if is_space c then rest else c ∷ s

-- `s.strip()`
unfoldable pub strip : Text → Text
unfolding lstrip
strip s = reverse (lstrip (reverse (lstrip s)))

drop_leading : ℕ → Text → Text
drop_leading c [] = []
drop_leading c (a ∷ s) = let rest = drop_leading c s in if a == c then rest else a ∷ s

-- `s.strip(c)` for one character.
unfoldable pub strip_char : ℕ → Text → Text
unfolding drop_leading
strip_char c s = reverse (drop_leading c (reverse (drop_leading c s)))

-- `c.lower()` of one Latin-1 character.
abbrev pub lower_char : ℕ → ℕ
lower_char c =
    if leb 65 c && leb c 90 || leb 192 c && leb c 222 && not (c == 215) then c + 32 else c

-- `s.lower()`
unfoldable pub lower : Text → Text
lower [] = []
lower (c ∷ s) = lower_char c ∷ lower s

-- One character more in front of the first part.
unfoldable pub push : ℕ → List Text → List Text
push c [] = (c ∷ []) ∷ []
push c (p ∷ ps) = (c ∷ p) ∷ ps

-- `s.split(c)` for a separator of one character: never the empty list.
unfoldable pub split : ℕ → Text → List Text
unfolding push
split c [] = [] ∷ []
split c (a ∷ s) = let rest = split c s in if a == c then [] ∷ rest else push a rest

-- `c` stands nowhere in the text.
abbrev pub Lacks : ℕ → Text → Type 0
Lacks c = All (λ a. a ≢ c)

pub push-split :
    (c : ℕ) (s : Text) → Lacks c s → (t : Text) → split c (s ++ (c ∷ t)) ≡ s ∷ split c t
unfolding split
push-split c [] h t = ground arith
push-split c (a ∷ s) h t = ground (arith, push-split c s h.1 t)

pub split-Lacks : (c : ℕ) (s : Text) → Lacks c s → split c s ≡ s ∷ []
unfolding split
split-Lacks c [] h = refl
split-Lacks c (a ∷ s) h = ground (arith, split-Lacks c s h.1)

pub Lacks-append_eq :
    (c : ℕ) (s s' t t' : Text)
    → Lacks c s
    → Lacks c s'
    → s ++ (c ∷ t) ≡ s' ++ (c ∷ t')
    → (s ≡ s') × (t ≡ t')
Lacks-append_eq c [] [] t t' h h' e = ground arith
Lacks-append_eq c [] (b ∷ s') t t' h h' e = ground arith
Lacks-append_eq c (a ∷ s) [] t t' h h' e = ground arith
Lacks-append_eq c (a ∷ s) (b ∷ s') t t' h h' e =
    ground (arith, Lacks-append_eq c s s' t t' h.1 h'.1)
