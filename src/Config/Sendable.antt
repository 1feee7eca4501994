-- ===== src/Config/Sendable.antt =====
-- What src/oscmix_desk/config.py accepts, `link_messages` and `mix_messages` of
-- src/oscmix_desk/reconcile.py can express.
use oscmix_autostart.Base.{◌≡◌, refl, ℕ, Option, List, [], ◌∷◌, Bool, extend_all_total, arith}
use oscmix_autostart.Base.Text.{Text}
use oscmix_autostart.Base.Int.{pos}
use oscmix_autostart.Base.Float.{Floating}
use oscmix_autostart.Config.Defs.{Route, Config, source}
use oscmix_autostart.Config.Parsed.{parsed, Defined}
use oscmix_autostart.Config.Document.{File}
use oscmix_autostart.Config.Load.{load_config}
use oscmix_autostart.Config.Shape.{SameShape, InRange, WellFormed}
use oscmix_autostart.Config.Bounds.{load_config-Bounded}
use oscmix_autostart.Reconcile.Messages.{links_of, link_messages, mix_of, mix_messages}
use oscmix_autostart.Routing.Sequence.{routing_plan}

links_of-Defined :
    (F : Type 0) (kind : Text) (xs ys : List ℕ) (stereo : Bool)
    → SameShape xs ys
    → Defined (links_of {F = F} kind xs ys stereo)
unfolding links_of
links_of-Defined F kind [] ys stereo h = ground arith
links_of-Defined F kind (x ∷ xs) [] stereo h = ([], refl)
links_of-Defined F kind (x ∷ xs) (b ∷ []) stereo h = ([], refl)
links_of-Defined F kind (x ∷ xs) (b ∷ d ∷ []) stereo h = (_, refl)
links_of-Defined F kind (x ∷ xs) (b ∷ d ∷ y ∷ ys) stereo h = ([], refl)

module _ {F : Type 0} ⦃fl : Floating F⦄ where
  mix_of-Defined :
      (kind : Text) (xs ys : List ℕ) (r : Route F) → SameShape xs ys → Defined (mix_of kind xs ys r)
  unfolding mix_of
  mix_of-Defined kind [] ys r h = ground arith
  mix_of-Defined kind (x ∷ []) [] r h = ground arith
  mix_of-Defined kind (x ∷ []) (b ∷ []) r h = (_, refl)
  mix_of-Defined kind (x ∷ xs) (b ∷ d ∷ []) r h = (_, refl)
  mix_of-Defined kind (x ∷ []) (b ∷ d ∷ y ∷ ys) r h = ground arith
  mix_of-Defined kind (x ∷ c ∷ []) [] r h = ground arith
  mix_of-Defined kind (x ∷ c ∷ []) (b ∷ []) r h = ground arith
  mix_of-Defined kind (x ∷ c ∷ []) (b ∷ d ∷ y ∷ ys) r h = ground arith
  mix_of-Defined kind (x ∷ c ∷ z ∷ xs) ys r h = ground arith

  link_messages-Defined : (r : Route F) → WellFormed r → Defined (link_messages r)
  unfolding link_messages
  link_messages-Defined r h = links_of-Defined F (source r).0 (source r).1 r.output r.stereo h.0

  mix_messages-Defined : (r : Route F) → WellFormed r → Defined (mix_messages r)
  unfolding mix_messages
  mix_messages-Defined r h = mix_of-Defined (source r).0 (source r).1 r.output r h.0

  -- The routes of a config that load_config returns can be sent: routing_plan raises neither
  -- IndexError nor ValueError over them, where 0.0 is within LEVEL_MIN..LEVEL_MAX.
  pub load_config-Defined :
      InRange (fl.decimal (pos 0) 0)
      → (file : Option File) (c : Config F) → load_config file ≡ parsed c
      → Defined (routing_plan c.routes)
  unfolding routing_plan
  load_config-Defined zero_ok file c e =
      let bounded = load_config-Bounded zero_ok file c e in
      let (links, links_eq) =
        extend_all_total link_messages link_messages-Defined c.routes bounded.0 in
      let (mix, mix_eq) = extend_all_total mix_messages mix_messages-Defined c.routes bounded.0 in
      (record { links = links; mix = mix }, rw (links_eq, mix_eq))
