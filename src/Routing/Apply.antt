-- ===== src/Routing/Apply.antt =====
-- `apply_routing` and `_cross_the_barrier` of src/oscmix_desk/routing.py, as what they do in order.
-- Logging is left out. `none` is an exception before anything is sent.
use oscmix_autostart.Base.{not, Option, none, some, List, [], ◌∷◌, map, ◌>>=◌, keep}
use oscmix_autostart.Base.Text.{Text}
use oscmix_autostart.Base.Int.{pos}
use oscmix_autostart.Base.Float.{Floating}
use oscmix_autostart.Base.Dict.{elem}
use oscmix_autostart.Base.Equality.{text_eq}
use oscmix_autostart.Config.Defs.{Config}
use oscmix_autostart.Reconcile.Messages.{Message}
use oscmix_autostart.Reconcile.Desired.{Entry, desired, phase_link, phase_mix, phase_channel}
use oscmix_autostart.Reconcile.Plan.{Plan, message, in_phase, plan}
use oscmix_autostart.Routing.Echo.{Echo, raised, unobservable, await_link_echo}
use oscmix_autostart.Routing.Sequence.{output_link_state}

pub data Effect (F : Type 0) : Type 0 where
  -- One burst of `Backend.send`.
  sent : List (Message F) → Effect F
  -- How the wait for the link echo ended.
  barrier : Echo → Effect F
  -- `time.sleep(LINK_SETTLE)`
  settled : Effect F

module _ {F : Type 0} ⦃fl : Floating F⦄ where
  -- `tolerance: float = 0.5`
  abbrev pub default_tolerance : F
  default_tolerance = fl.decimal (pos 5) 1

  -- `[e for e in desired(config) if e.path not in skip]`
  unfoldable pub kept_entries : List Text → List (Entry F) → List (Entry F)
  kept_entries skip = keep (λ e. not (elem e.path skip))

  -- What follows the wait: nothing if it raised, a plain sleep first if nobody could listen.
  unfoldable pub after_barrier : Echo → Plan F → List (Effect F)
  after_barrier raised wanted = []
  after_barrier unobservable wanted =
      settled
      ∷ sent (map message (in_phase phase_mix wanted))
      ∷ sent (map message (in_phase phase_channel wanted))
      ∷ []
  after_barrier echo wanted =
      sent (map message (in_phase phase_mix wanted))
      ∷ sent (map message (in_phase phase_channel wanted))
      ∷ []

  -- `listener` is what the receive port hears during the wait, or `none` where it is held.
  unfoldable pub apply_routing :
      Config F → List Text → Option (List (List (Message F))) → Option (List (Effect F))
  apply_routing c leave_alone listener = do
    es ← desired c
    wanted ← plan (kept_entries leave_alone es) none none default_tolerance
    state ← output_link_state c.routes
    let echo = await_link_echo state listener
    some
        (sent (map message (in_phase phase_link wanted)) ∷ barrier echo ∷ after_barrier echo wanted)
