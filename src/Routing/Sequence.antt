-- ===== src/Routing/Sequence.antt =====
-- `routing_plan`, `route_messages` and `output_link_state` of src/oscmix_desk/routing.py.
use oscmix_autostart.Base.{
  Option, none, some, List, [], ◌∷◌, ◌++◌, if◌then◌else◌, ◌>>=◌, extend_all,
}
use oscmix_autostart.Base.Text.{Text, text, starts_with}
use oscmix_autostart.Base.Int.{ℤ}
use oscmix_autostart.Base.Float.{Floating, value, value_error, overflow_error}
use oscmix_autostart.Base.Dict.{Dict, put}
use oscmix_autostart.Base.Equality.{text_eq}
use oscmix_autostart.Config.Defs.{Value, Route}
use oscmix_autostart.Config.Convert.{int_of_value}
use oscmix_autostart.Reconcile.Messages.{Message, link_messages, mix_messages}

pub record RoutingPlan (F : Type 0) : Type 0 where
  pub links : List (Message F)
  pub mix : List (Message F)

module _ {F : Type 0} ⦃fl : Floating F⦄ where
  unfoldable pub route_messages : Route F → Option (List (Message F))
  route_messages r = do links ← link_messages r; mix ← mix_messages r; some (links ++ mix)

  -- Every link of every route, then every mix write.
  unfoldable pub routing_plan : List (Route F) → Option (RoutingPlan F)
  routing_plan routes = do
    links ← extend_all link_messages routes
    mix ← extend_all mix_messages routes
    some (record { links = links; mix = mix })

  -- `RoutingPlan.messages`
  abbrev pub plan_messages : RoutingPlan F → List (Message F)
  plan_messages p = p.links ++ p.mix

  -- `int(args[0])`, where nothing catches what it raises.
  unfoldable pub first_int : List (Value F) → Option ℤ
  first_int [] = none
  first_int (v ∷ vs) = elim (int_of_value v) [
    | value z ↦ some z
    | value_error ↦ none
    | overflow_error ↦ none
  ]

  -- `state[path] = int(args[0])` for each message below `/output/`.
  unfoldable pub note_links : List (Message F) → Dict Text ℤ → Option (Dict Text ℤ)
  unfolding starts_with
  note_links [] state = some state
  note_links ((path, tags, args) ∷ ms) state =
      if starts_with (text "/output/") path
      then (first_int args >>= λ z. note_links ms (put path z state))
      else note_links ms state

  -- The value that the device has to report for each output link, the last route's.
  unfoldable pub output_link_state : List (Route F) → Option (Dict Text ℤ)
  output_link_state routes = do links ← extend_all link_messages routes; note_links links []
