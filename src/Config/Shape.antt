-- ===== src/Config/Shape.antt =====
-- What `_parse_route` of src/oscmix_desk/config.py promises of a route.
use oscmix_autostart.Base.{
  ℕ, ◌≤◌, ◌==◌, ◌≡◌, refl, subst, Bool, true, false, ◌&&◌, ◌||◌, Option, none, some, List, [], ◌∷◌,
  length, map, All, arith, sym,
}
use oscmix_autostart.Base.Text.{Text, text, strip, split}
use oscmix_autostart.Base.Int.{pos}
use oscmix_autostart.Base.Float.{Floating}
use oscmix_autostart.Registers.Table.{level_min, level_max}
use oscmix_autostart.Config.Defs.{Route, source}
use oscmix_autostart.Config.Parsed.{
  guard-eq-parsed, parsed, each-All, >>=-eq-parsed, parsed-injective,
}
use oscmix_autostart.Config.Document.{Section, check_options}
use oscmix_autostart.Config.Values.{parse_channel, parse_channels, parse_db}
use oscmix_autostart.Config.Route.{
  parse_route, make_route, check_shape, level_option, volume_option, stereo_option, source_option,
  required, kind_of, level_of, volume_of, route_options,
}

-- A channel of `CHANNEL_MIN..CHANNEL_MAX`.
abbrev pub IsChannel : ℕ → Type 0
IsChannel n = (1 ≤ n) × (n ≤ 64)

-- Two channels or two pairs.
abbrev pub SameShape : List ℕ → List ℕ → Type 0
SameShape source output =
    (1 ≤ length source) × (length source ≤ 2) × (length output ≡ length source)

-- One of the two is empty and the other is not.
abbrev pub OneSource : List ℕ → List ℕ → Type 0
OneSource [] (n ∷ ns) = Unit
OneSource (n ∷ ns) [] = Unit
OneSource playback input = ⊥

parse_channel-IsChannel :
    (section option part : Text) (n : ℕ)
    → parse_channel section option part ≡ parsed n
    → IsChannel n
unfolding parse_channel
parse_channel-IsChannel section option part n h = ground arith

-- One channel or two, each in range.
abbrev AreChannels : List ℕ → Type 0
AreChannels ns = (((length ns == 1) || (length ns == 2)) ≡ true) × All IsChannel ns

first_of_&& : (a b : Bool) → (a && b) ≡ true → a ≡ true
first_of_&& true b h = refl
first_of_&& false b h = cc

parse_channels-AreChannels :
    (raw section option : Text) (ns : List ℕ)
    → parse_channels raw section option ≡ parsed ns
    → AreChannels ns
unfolding parse_channels
parse_channels-AreChannels raw section option ns h =
    let parts = map strip (split b'/' raw) in
    let (shape, h') = guard-eq-parsed _ _ _ h in
    let (a, l) =
      each-All (parse_channel section option) (parse_channel-IsChannel section option) parts ns
        h' in
    (subst (λ k. ((k == 1) || (k == 2)) ≡ true) (sym l) (first_of_&& _ _ shape), a)

SameShape-of_AreChannels :
    (source output : List ℕ)
    → AreChannels source
    → AreChannels output
    → (length source == length output) ≡ true
    → SameShape source output
SameShape-of_AreChannels source output h k e = ground arith

module _ {F : Type 0} ⦃fl : Floating F⦄ where
  -- A gain of `LEVEL_MIN..LEVEL_MAX`.
  abbrev pub InRange : F → Type 0
  InRange v = (fl.le level_min v ≡ true) × (fl.le v level_max ≡ true)

  abbrev pub InRangeIfGiven : Option F → Type 0
  InRangeIfGiven none = Unit
  InRangeIfGiven (some v) = InRange v

  parse_db-InRange :
      (raw section option : Text) (v : F) → parse_db raw section option ≡ parsed v → InRange v
  unfolding parse_db
  parse_db-InRange raw section option v h = ground arith

  level_of-InRange :
      InRange (fl.decimal (pos 0) 0)
      → (section : Text) (raw : Option Text) (v : F) → level_of section raw ≡ parsed v
      → InRange v
  level_of-InRange zero_ok section none v h = subst InRange (parsed-injective _ _ h) zero_ok
  level_of-InRange zero_ok section (some raw) v h = parse_db-InRange raw section (text "level") v h

  volume_of-InRangeIfGiven :
      (section : Text) (raw : Option Text) (v : Option F)
      → volume_of section raw ≡ parsed v
      → InRangeIfGiven v
  volume_of-InRangeIfGiven section none v h = subst InRangeIfGiven (parsed-injective _ _ h) tt
  volume_of-InRangeIfGiven section (some raw) v h =
      let (w, e, last) = >>=-eq-parsed (parse_db raw section (text "volume")) _ h in
      subst InRangeIfGiven (parsed-injective _ _ last)
        (parse_db-InRange raw section (text "volume") w e)

  -- What the parser promises of a route.
  abbrev pub WellFormed : Route F → Type 0
  WellFormed r =
      SameShape (source r).1 r.output
      × All IsChannel (source r).1
      × All IsChannel r.output
      × OneSource r.playback r.input
      × InRange r.level
      × InRangeIfGiven r.volume

  make_route-WellFormed :
      (s : Section) (from_input : Bool) (xs ys : List ℕ) (level : F) (volume : Option F)
      (stereo : Bool)
      → SameShape xs ys
      → All IsChannel xs
      → All IsChannel ys
      → InRange level
      → InRangeIfGiven volume
      → WellFormed (make_route s from_input xs ys level volume stereo)
  unfolding source
  make_route-WellFormed s true [] ys level volume stereo h k l m n = ground arith
  make_route-WellFormed s false [] ys level volume stereo h k l m n = ground arith
  make_route-WellFormed s true (a ∷ xs) ys level volume stereo h k l m n = (h, k, l, tt, m, n)
  make_route-WellFormed s false (a ∷ xs) ys level volume stereo h k l m n = (h, k, l, tt, m, n)

  pub parse_route-WellFormed :
      InRange (fl.decimal (pos 0) 0)
      → (s : Section) (r : Route F) → parse_route s ≡ parsed r
      → WellFormed r
  unfolding parse_route check_shape level_option volume_option
  parse_route-WellFormed zero_ok s r h =
      let (_, _, h) = >>=-eq-parsed (check_options s route_options) _ h in
      let (raw, _, h) = >>=-eq-parsed (required s (text "output")) _ h in
      let (kind, _, h) = >>=-eq-parsed (source_option s) _ h in
      let (xs, xs_eq, h) = >>=-eq-parsed (parse_channels kind.1 s.name (kind_of kind.0)) _ h in
      let (ys, ys_eq, h) = >>=-eq-parsed (parse_channels raw s.name (text "output")) _ h in
      let (_, shape, h) = >>=-eq-parsed (check_shape s xs ys) _ h in
      let (level, level_eq, h) = >>=-eq-parsed (level_option s) _ h in
      let (volume, volume_eq, h) = >>=-eq-parsed (volume_option s) _ h in
      let (stereo, _, h) = >>=-eq-parsed (stereo_option s) _ h in
      let xs_ok = parse_channels-AreChannels kind.1 s.name (kind_of kind.0) xs xs_eq in
      let ys_ok = parse_channels-AreChannels raw s.name (text "output") ys ys_eq in
      subst WellFormed (parsed-injective _ _ h) (
        make_route-WellFormed s kind.0 xs ys level volume stereo
          (SameShape-of_AreChannels xs ys xs_ok ys_ok (guard-eq-parsed _ _ _ shape).0) xs_ok.1
          ys_ok.1 (level_of-InRange zero_ok s.name _ level level_eq)
          (volume_of-InRangeIfGiven s.name _ volume volume_eq))
