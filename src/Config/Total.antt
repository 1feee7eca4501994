-- ===== src/Config/Total.antt =====
-- The steps of the parser of src/oscmix_desk/config.py end with a value or with a `ConfigError`.
use oscmix_autostart.Base.{ℕ, true, Option, none, some, List, arith}
use oscmix_autostart.Base.Text.{Text, text}
use oscmix_autostart.Base.Float.{Floating}
use oscmix_autostart.Base.Equality.{text_eq}
use oscmix_autostart.Registers.Defs.{Register}
use oscmix_autostart.Config.Parsed.{
  All-Unit, Settles, parsed-Settles, refused-Settles, >>=-Settles, if-Settles, each-Settles,
}
use oscmix_autostart.Config.Document.{Section, check_options}
use oscmix_autostart.Config.Values.{
  parse_channel, parse_channels, parse_bool, parse_db, parse_number, parse_domain,
}
use oscmix_autostart.Config.Route.{
  parse_route, route_options, required, source_option, kind_of, check_shape, level_option, level_of,
  volume_option, volume_of, stereo_option, stereo_of,
}

parse_channel-Settles : (section option part : Text) → Settles (parse_channel section option part)
unfolding parse_channel Settles
parse_channel-Settles section option part = ground arith

parse_channels-Settles : (raw section option : Text) → Settles (parse_channels raw section option)
unfolding parse_channels
parse_channels-Settles raw section option =
    if-Settles _ _ _
      (each-Settles (λ p. Unit {0}) (parse_channel section option)
        (λ p _. parse_channel-Settles section option p) _ (All-Unit _))
      (refused-Settles _ _)

parse_bool-Settles : (raw section option : Text) → Settles (parse_bool raw section option)
unfolding parse_bool Settles
parse_bool-Settles raw section option = ground arith

pub check_options-Settles : (s : Section) (known : List Text) → Settles (check_options s known)
unfolding check_options Settles
check_options-Settles s known = ground arith

required-Settles : (s : Section) (option : Text) → Settles (required s option)
unfolding required Settles
required-Settles s option = ground arith

source_option-Settles : (s : Section) → Settles (source_option s)
unfolding source_option Settles
source_option-Settles s = ground arith

stereo_of-Settles : (section : Text) (raw : Option Text) → Settles (stereo_of section raw)
stereo_of-Settles section none = parsed-Settles true
stereo_of-Settles section (some raw) = parse_bool-Settles raw section (text "stereo")

check_shape-Settles : (s : Section) (xs ys : List ℕ) → Settles (check_shape s xs ys)
unfolding check_shape Settles
check_shape-Settles s xs ys = ground arith

parse_db-Settles :
    (F : Type 0) ⦃fl : Floating F⦄ (raw section option : Text)
    → Settles (parse_db {F = F} raw section option)
unfolding parse_db Settles
parse_db-Settles F raw section option = ground arith

level_of-Settles :
    (F : Type 0) ⦃fl : Floating F⦄ (section : Text) (raw : Option Text)
    → Settles (level_of {F = F} section raw)
level_of-Settles F section none = parsed-Settles _
level_of-Settles F section (some raw) = parse_db-Settles F raw section (text "level")

volume_of-Settles :
    (F : Type 0) ⦃fl : Floating F⦄ (section : Text) (raw : Option Text)
    → Settles (volume_of {F = F} section raw)
volume_of-Settles F section none = parsed-Settles none
volume_of-Settles F section (some raw) =
    >>=-Settles (parse_db raw section (text "volume")) _
      (parse_db-Settles F raw section (text "volume")) (λ v e. parsed-Settles (some v))

pub parse_route-Settles :
    (F : Type 0) ⦃fl : Floating F⦄ (s : Section) → Settles (parse_route {F = F} s)
unfolding parse_route level_option volume_option stereo_option
parse_route-Settles F s =
    >>=-Settles (check_options s route_options) _ (check_options-Settles s _) (λ _ _.
      >>=-Settles (required s (text "output")) _ (required-Settles s _) (λ raw _.
        >>=-Settles (source_option s) _ (source_option-Settles s) (λ kind _.
          >>=-Settles (parse_channels kind.1 s.name (kind_of kind.0)) _
            (parse_channels-Settles _ _ _)
            (λ xs _.
              >>=-Settles (parse_channels raw s.name (text "output")) _
                (parse_channels-Settles _ _ _)
                (λ ys _. >>=-Settles (check_shape s xs ys) _ (check_shape-Settles s xs ys) (λ _ _.
                  >>=-Settles (level_option {F = F} s) _ (level_of-Settles F s.name _) (λ level _.
                    >>=-Settles (volume_option {F = F} s) _ (volume_of-Settles F s.name _)
                      (λ volume _.
                        >>=-Settles (stereo_option s) _ (stereo_of-Settles s.name _)
                          (λ stereo _. parsed-Settles _)))))))))

module _ {F : Type 0} ⦃fl : Floating F⦄ where
  parse_number-Settles :
      (raw section option : Text) (r : Register F) → Settles (parse_number raw section option r)
  unfolding parse_number Settles
  parse_number-Settles raw section option r = ground arith

  pub parse_domain-Settles :
      (raw section option : Text) (r : Register F) → Settles (parse_domain raw section option r)
  unfolding parse_domain Settles
  parse_domain-Settles raw section option r =
      ground
        (arith, parse_bool-Settles raw section option, parse_number-Settles raw section option r)
