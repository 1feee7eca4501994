-- ===== src/Registers/Path.antt =====
-- Templates and concrete paths: `Register.path`, `_matches` and `_channel_in`.
use oscmix_autostart.Base.{
  ℕ, Bool, true, false, ◌&&◌, Option, none, some, List, [], ◌∷◌, ◌++◌, if◌then◌else◌, ◌>>=◌, ◌==◌,
  length,
}
use oscmix_autostart.Base.Text.{Text, text, same, split, is_digit, starts_with, ends_with}
use oscmix_autostart.Base.Decimal.{show, int_of}
use oscmix_autostart.Base.Int.{ℤ}
use oscmix_autostart.Base.Dict.{Dict, get}
use oscmix_autostart.Base.Equality.{text_eq}

-- `template.format(**channels)`: outside a placeholder, or inside one whose name is read so far.
format_at : Dict Text ℕ → Option Text → Text → Option Text
unfolding get show
format_at fields none [] = some []
format_at fields none (c ∷ s) =
    let inside = format_at fields (some []) s in
    let rest = (do r ← format_at fields none s; some (c ∷ r)) in if c == b'{' then inside else rest
format_at fields (some name) [] = none
format_at fields (some name) (c ∷ s) =
    let after = (do n ← get name fields; r ← format_at fields none s; some (show n ++ r)) in
    let inside = format_at fields (some (name ++ (c ∷ []))) s in if c == b'}' then after else inside

-- A missing field raises `KeyError`.
unfoldable pub format : Dict Text ℕ → Text → Option Text
unfolding format_at
format fields template = format_at fields none template

-- A part of a template that stands for a channel.
unfoldable pub is_placeholder : Text → Bool
unfolding starts_with ends_with
is_placeholder part = starts_with (text "{") part && ends_with (text "}") part

unfoldable pub parts_match : List Text → List Text → Bool
unfolding is_placeholder is_digit same
parts_match [] got = true
parts_match (w ∷ ws) [] = true
parts_match (w ∷ ws) (g ∷ gs) =
    if is_placeholder w
    then (if is_digit g then parts_match ws gs else false)
    else (if same w g then parts_match ws gs else false)

unfoldable pub matches : Text → Text → Bool
unfolding parts_match split
matches template path =
    let want = split b'/' template in
    let got = split b'/' path in if length want == length got then parts_match want got else false

-- `int` of the part at the first placeholder: it may raise `ValueError`.
unfoldable pub channel_in_parts : List Text → List Text → Option (Option ℤ)
unfolding is_placeholder int_of
channel_in_parts [] got = some none
channel_in_parts (w ∷ ws) [] = some none
channel_in_parts (w ∷ ws) (g ∷ gs) =
    let rest = channel_in_parts ws gs in
    if is_placeholder w then (do n ← int_of g; some (some n)) else rest

unfoldable pub channel_in : Text → Text → Option (Option ℤ)
unfolding channel_in_parts split
channel_in template path = channel_in_parts (split b'/' template) (split b'/' path)
