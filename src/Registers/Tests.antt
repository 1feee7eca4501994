-- ===== src/Registers/Tests.antt =====
-- Runs of the register model on the table of the UCX II.
use oscmix_autostart.Base.{◌≡◌, refl, true, some, [], ◌∷◌, Option, length}
use oscmix_autostart.Base.Text.{text, same}
use oscmix_autostart.Base.Deci.{Deci, deci_floats}
use oscmix_autostart.Base.Dict.{keys}
use oscmix_autostart.Registers.Defs.{Device}
use oscmix_autostart.Registers.Table.{ucx2}
use oscmix_autostart.Registers.Path.{matches}
use oscmix_autostart.Registers.Settable.{settable_options, nested_families, global_families}

abbrev desk : Option (Device Deci)
desk = some ucx2

matches_volume : matches (text "/output/{ch}/volume") (text "/output/12/volume") ≡ true
unfolding matches
matches_volume = refl

rows_of_table : length (ucx2 {F = Deci}).registers ≡ 149
unfolding ucx2
rows_of_table = refl

nested_of_output :
    nested_families desk (text "output")
    ≡ text "autolevel" ∷ text "dynamics" ∷ text "eq" ∷ text "lowcut" ∷ text "roomeq" ∷ []
unfolding ucx2 nested_families same
nested_of_output = refl

globals_of_table :
    global_families desk
    ≡ text "clock" ∷ text "controlroom" ∷ text "echo" ∷ text "hardware" ∷ text "reverb" ∷ []
unfolding ucx2 global_families same
globals_of_table = refl

flat_inputs :
    keys (settable_options desk (text "input"))
    ≡ text "hi-z" ∷ text "gain" ∷ text "reflevel" ∷ text "mute" ∷ text "phase" ∷ []
unfolding ucx2 settable_options same
flat_inputs = refl
