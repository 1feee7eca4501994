-- ===== src/Reconcile/Messages.antt =====
-- The messages of one route: `link_messages` and `mix_messages` of src/oscmix_desk/reconcile.py.
-- `none` is the `IndexError` or `ValueError` of a route whose channels do not fit together.
use oscmix_autostart.Base.{ℕ, Bool, Option, none, some, List, [], ◌∷◌, ◌++◌, if◌then◌else◌}
use oscmix_autostart.Base.Text.{Text, text}
use oscmix_autostart.Base.Decimal.{show}
use oscmix_autostart.Base.Int.{ℤ, pos, negate}
use oscmix_autostart.Base.Float.{Floating, min_float}
use oscmix_autostart.Config.Defs.{Value, int, float, Route, source}

-- A path, its tags and its arguments.
abbrev pub Message : Type 0 → Type 0
Message F = Text × Text × List (Value F)

-- `"/%s/%d/stereo" % (kind, channel)`
unfoldable pub stereo_path : Text → ℕ → Text
unfolding show
stereo_path kind n = text "/" ++ (kind ++ (text "/" ++ (show n ++ text "/stereo")))

-- `"/mix/%d/%s/%d" % (out, kind, pb)`
unfoldable pub mix_path : ℕ → Text → ℕ → Text
unfolding show
mix_path out kind pb = text "/mix/" ++ (show out ++ (text "/" ++ (kind ++ (text "/" ++ show pb))))

-- `"/output/%d/volume" % out`
unfoldable pub volume_path : ℕ → Text
unfolding show
volume_path out = text "/output/" ++ (show out ++ text "/volume")

module _ {F : Type 0} where
  unfoldable pub links_of : Text → List ℕ → List ℕ → Bool → Option (List (Message F))
  links_of kind [] (left ∷ right ∷ []) stereo = none
  links_of kind (s ∷ ss) (left ∷ right ∷ []) stereo = some (
      (stereo_path kind s, text "i", int (pos 1) ∷ [])
      ∷ (stereo_path (text "output") left, text "i", int (pos (if stereo then 1 else 0)) ∷ [])
      ∷ [])
  links_of kind ss output stereo = some []

  unfoldable pub link_messages : Route F → Option (List (Message F))
  unfolding links_of source
  link_messages r = links_of (source r).0 (source r).1 r.output r.stereo

module _ {F : Type 0} ⦃fl : Floating F⦄ where
  -- One `/mix` write, at a gain and a pan.
  abbrev pub mix_message : ℕ → Text → ℕ → F → ℤ → Message F
  mix_message out kind pb level pan = (mix_path out kind pb, text "fi", float level ∷ int pan ∷ [])

  abbrev pub volume_messages : Option F → List ℕ → List (Message F)
  volume_messages none outs = []
  volume_messages (some v) [] = []
  volume_messages (some v) (out ∷ outs) =
      (volume_path out, text "f", float v ∷ []) ∷ volume_messages (some v) outs

  -- `min(route.level, 0.0) + UNLINKED_GAIN_OFFSET`
  unfoldable pub unlinked_level : F → F
  unlinked_level level = fl.add (min_float level (fl.decimal (pos 0) 0)) fl.log_offset

  unfoldable pub mix_of : Text → List ℕ → List ℕ → Route F → Option (List (Message F))
  mix_of kind [] (left ∷ right ∷ []) r = none
  mix_of kind (pb ∷ ss) (left ∷ right ∷ []) r = some (
      (if r.stereo
        then mix_message left kind pb r.level (pos 0) ∷ []
        else mix_message left kind pb (unlinked_level r.level) (negate 100)
          ∷ mix_message right kind pb (unlinked_level r.level) (pos 100)
          ∷ [])
      ++ volume_messages r.volume (left ∷ right ∷ []))
  mix_of kind (pb ∷ []) (out ∷ []) r =
      some (mix_message out kind pb r.level (pos 0) ∷ volume_messages r.volume (out ∷ []))
  mix_of kind ss outs r = none

  unfoldable pub mix_messages : Route F → Option (List (Message F))
  unfolding mix_of source
  mix_messages r = mix_of (source r).0 (source r).1 r.output r
