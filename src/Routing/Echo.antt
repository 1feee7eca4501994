-- ===== src/Routing/Echo.antt =====
-- `await_link_echo` of src/oscmix_desk/routing.py. What the listener hears is a list of rounds, one
-- for each call of `listener.messages`; the list ends where the clock passes the deadline.
use oscmix_autostart.Base.{Option, none, some, List, [], ◌∷◌, if◌then◌else◌}
use oscmix_autostart.Base.Text.{Text}
use oscmix_autostart.Base.Int.{ℤ, eq_ℤ}
use oscmix_autostart.Base.Float.{Floating, value, value_error, overflow_error}
use oscmix_autostart.Base.Dict.{Dict, get, remove}
use oscmix_autostart.Base.Equality.{text_eq}
use oscmix_autostart.Config.Convert.{int_of_value}
use oscmix_autostart.Reconcile.Messages.{Message}

-- `True`, `False` and `None`; `raised` is an `OverflowError` of `int`, which is not caught.
pub data Echo : Type 0 where
  arrived timed_out unobservable raised : Echo

module _ {F : Type 0} ⦃fl : Floating F⦄ where
  -- What one report does to the registers that are waited for; `none` is the exception.
  unfoldable pub hear_one : Message F → Dict Text ℤ → Option (Dict Text ℤ)
  hear_one (path, tags, []) pending = some pending
  hear_one (path, tags, v ∷ vs) pending = elim (get path pending) [
    | none ↦ some pending
    | some wanted ↦ elim (int_of_value v) [
      | value_error ↦ some pending
      | overflow_error ↦ none
      | value reported ↦ if eq_ℤ reported wanted then some (remove path pending) else some pending
    ]
  ]

  unfoldable pub hear : List (Message F) → Dict Text ℤ → Option (Dict Text ℤ)
  hear [] pending = some pending
  hear (m ∷ ms) pending = elim (hear_one m pending) [ none ↦ none | some rest ↦ hear ms rest ]

  -- The loop: it ends when nothing is pending, when the deadline has passed, or when the socket
  -- timed out with something pending.
  unfoldable pub await_rounds : List (List (Message F)) → Dict Text ℤ → Echo
  await_rounds rounds [] = arrived
  await_rounds [] (p ∷ pending) = timed_out
  await_rounds ([] ∷ rounds) (p ∷ pending) = timed_out
  await_rounds ((m ∷ ms) ∷ rounds) (p ∷ pending) = elim (hear (m ∷ ms) (p ∷ pending)) [
    | none ↦ raised
    | some rest ↦ await_rounds rounds rest
  ]

  -- `none` for the listener: the receive port is held.
  unfoldable pub await_link_echo : Dict Text ℤ → Option (List (List (Message F))) → Echo
  await_link_echo [] listener = arrived
  await_link_echo (p ∷ expected) none = unobservable
  await_link_echo (p ∷ expected) (some rounds) = await_rounds rounds (p ∷ expected)
