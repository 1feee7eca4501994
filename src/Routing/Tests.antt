-- ===== src/Routing/Tests.antt =====
-- Runs of the apply on a small config.
use oscmix_autostart.Base.{
  none, ◌≡◌, refl, false, true, some, List, [], ◌∷◌, map, length, All, extend_all, keep,
}
use oscmix_autostart.Base.Text.{Text, text, starts_with, same}
use oscmix_autostart.Base.Int.{ℤ, pos}
use oscmix_autostart.Base.Deci.{Deci, deci_floats}
use oscmix_autostart.Base.Dict.{Dict, elem, get, put, remove}
use oscmix_autostart.Base.Equality.{text_eq}
use oscmix_autostart.Config.Convert.{int_of_value}
use oscmix_autostart.Reconcile.Messages.{
  Message, link_messages, mix_messages, stereo_path, mix_path, volume_path,
}
use oscmix_autostart.Reconcile.Desired.{
  collect, desired, phase_link, route_entries, encode, channel_entry, global_entry,
  channel_entries_on, global_entries_on, channel_entries, global_entries, channel_path,
}
use oscmix_autostart.Reconcile.Order.{of_phase}
use oscmix_autostart.Reconcile.Tests.{desk-desired}
use oscmix_autostart.Routing.Echo.{arrived, await_link_echo, hear, hear_one, await_rounds}
use oscmix_autostart.Routing.Apply.{Effect, kept_entries, apply_routing, after_barrier}
use oscmix_autostart.Routing.Trace.{
  message_of, datagrams, before_wait, interrupted, apply_routing-before_wait,
  apply_routing-datagrams, apply_routing-leave_alone,
}
use oscmix_autostart.Routing.Total.{apply_routing-total}
use oscmix_autostart.Routing.Awaited.{awaited, output_link_state-awaited}
use oscmix_autostart.Routing.Listening.{reported_in, await_link_echo-arrived}
use oscmix_autostart.Desk.{desk, link_echo, or_nothing}
use oscmix_autostart.Registers.Table.{ucx2}
use oscmix_autostart.Registers.Lookup.{device_for_name}
use oscmix_autostart.Registers.Settable.{option_register}
use oscmix_autostart.Reconcile.Plan.{plan, by_phase, in_phase}
use oscmix_autostart.Routing.Sequence.{output_link_state, note_links, first_int}

abbrev skip : List Text
skip = text "/output/1/volume" ∷ []

abbrev effects : List (Effect Deci)
effects = or_nothing (apply_routing desk skip (some link_echo))

desk_applied : apply_routing desk skip (some link_echo) ≡ some effects
unfolding desired route_entries channel_entries global_entries channel_entries_on global_entries_on
    channel_entry global_entry encode option_register device_for_name channel_path extend_all
    link_messages mix_messages ucx2 starts_with int_of_value stereo_path mix_path volume_path
    apply_routing output_link_state note_links first_int kept_entries plan by_phase in_phase
    after_barrier await_link_echo await_rounds hear hear_one get remove put elem keep same
desk_applied = refl

desk_datagrams : length (datagrams effects) ≡ 6
unfolding desired route_entries channel_entries global_entries channel_entries_on global_entries_on
    channel_entry global_entry encode option_register device_for_name channel_path extend_all
    link_messages mix_messages ucx2 starts_with int_of_value stereo_path mix_path volume_path
    apply_routing output_link_state note_links first_int kept_entries plan by_phase in_phase
    after_barrier await_link_echo await_rounds hear hear_one get remove put elem keep same
desk_datagrams = refl

desk_finished : interrupted effects ≡ false
unfolding desired route_entries channel_entries global_entries channel_entries_on global_entries_on
    channel_entry global_entry encode option_register device_for_name channel_path extend_all
    link_messages mix_messages ucx2 starts_with int_of_value stereo_path mix_path volume_path
    apply_routing output_link_state note_links first_int kept_entries plan by_phase in_phase
    after_barrier await_link_echo await_rounds hear hear_one get remove put elem keep same
desk_finished = refl

apply_routing-datagrams_example :
    datagrams effects ≡ map message_of (kept_entries skip (or_nothing (desired desk)))
apply_routing-datagrams_example =
    apply_routing-datagrams desk skip (some link_echo) (or_nothing (desired desk)) effects
      desk-desired desk_applied desk_finished

apply_routing-before_wait_example :
    before_wait effects
    ≡ map message_of (of_phase phase_link (kept_entries skip (or_nothing (desired desk))))
apply_routing-before_wait_example =
    apply_routing-before_wait desk skip (some link_echo) (or_nothing (desired desk)) effects
      desk-desired desk_applied

apply_routing-leave_alone_example :
    All (λ (m : Message Deci). elem m.0 skip ≡ false) (datagrams effects)
apply_routing-leave_alone_example =
    apply_routing-leave_alone desk skip (some link_echo) effects desk_applied

abbrev expected : Dict Text ℤ
expected = (text "/output/1/stereo", pos 1) ∷ []

echo_arrived : await_link_echo expected (some link_echo) ≡ arrived
unfolding await_link_echo await_rounds hear hear_one get same int_of_value remove
echo_arrived = refl

expected_link : get (text "/output/1/stereo") expected ≡ some (pos 1)
unfolding get same
expected_link = refl

await_link_echo-arrived_example : reported_in (text "/output/1/stereo") (pos 1) link_echo ≡ true
await_link_echo-arrived_example =
    await_link_echo-arrived expected link_echo (text "/output/1/stereo") (pos 1) (tt, tt)
      echo_arrived expected_link

apply_routing-total_example : (fx : List (Effect Deci)) × (apply_routing desk skip none ≡ some fx)
apply_routing-total_example =
    apply_routing-total desk skip none (or_nothing (desired desk)) desk-desired

-- The links of the config, of which the first output's is awaited.
abbrev link_list : List (Message Deci)
link_list = or_nothing (extend_all link_messages desk.routes)

desk_links : extend_all link_messages desk.routes ≡ some link_list
unfolding extend_all link_messages
desk_links = refl

desk_awaits : output_link_state desk.routes ≡ some expected
unfolding output_link_state extend_all link_messages note_links first_int starts_with int_of_value
    put stereo_path
desk_awaits = refl

output_link_state-awaited_example :
    get (text "/output/1/stereo") expected
    ≡ awaited
        (text "/output/1/stereo")
        (get (text "/output/1/stereo") (collect phase_link link_list []))
output_link_state-awaited_example =
    output_link_state-awaited desk.routes link_list expected desk_links desk_awaits
      (text "/output/1/stereo")
