-- ===== src/Verify/Tests.antt =====
-- Runs of the verifier on a small config.
use oscmix_autostart.Base.{
  ◌≡◌, refl, ℕ, suc, true, ltb, not, Option, none, some, List, [], ◌∷◌, ◌++◌, if◌then◌else◌,
  extend_all, keep, length,
}
use mathlib.Core.List.{Perm}
use oscmix_autostart.Base.Text.{Text, text, same, starts_with, strip_char}
use oscmix_autostart.Base.Int.{pos, negate}
use oscmix_autostart.Base.Deci.{Deci, fin, deci_floats}
use oscmix_autostart.Base.Dict.{Dict, keys, elem, get, put, remove, add_key}
use oscmix_autostart.Base.Equality.{text_eq}
use oscmix_autostart.Registers.Defs.{Policy, remember}
use oscmix_autostart.Registers.Table.{ucx2}
use oscmix_autostart.Config.Defs.{int, float}
use oscmix_autostart.Reconcile.Messages.{
  link_messages, mix_messages, stereo_path, mix_path, volume_path, Message,
}
use oscmix_autostart.Reconcile.Policy.{policy_for, option_eq}
use oscmix_autostart.Verify.Reported.{
  Expected, register_ever_reported, register_promptly_reported, expected_registers,
}
use oscmix_autostart.Verify.Observe.{
  VerifyResult, window_may_close, prompt_set, absorb, result_of, discard,
}
use oscmix_autostart.Verify.Judge.{lost, unconfirmed, kept_by_the_device, insisted}
use oscmix_autostart.Verify.Session.{
  Environment, Session, Run, on, off, Act, mixed, applied, listen, act, ask, send_mix,
  reapply_without_confirmation, reapply, wait_unless_stopped, blind_reapply_mix, release, link_sync,
}
use oscmix_autostart.Verify.Repair.{
  no_hook, verify_routing, verify_and_repair, reconcile_now, verify_rounds, attempt, hear_dump,
  observe, absorb_all, judge, ensure_mix, next_round, repair, verdict,
}
use oscmix_autostart.Verify.Contract.{Guarded}
use oscmix_autostart.Verify.Stop.{acts_of, verify_and_repair-Guarded, reconcile_now-Guarded}
use oscmix_autostart.Verify.Partition.{classes, verify_routing-classes}
use oscmix_autostart.Verify.Confirmed.{Satisfied, verify_routing-confirmed}
use oscmix_autostart.Verify.Split.{unconfirmed-perm}
use oscmix_autostart.Base.Sort.{text_le}
use oscmix_autostart.Desk.{desk, link_echo}
use oscmix_autostart.Config.Convert.{int_of_value}
use oscmix_autostart.Registers.Lookup.{device_for_name}
use oscmix_autostart.Registers.Settable.{option_register}
use oscmix_autostart.Reconcile.Desired.{
  desired, route_entries, encode, channel_entry, global_entry, channel_entries_on,
  global_entries_on, channel_entries, global_entries, channel_path,
}
use oscmix_autostart.Reconcile.Plan.{plan, by_phase, in_phase}
use oscmix_autostart.Reconcile.Compare.{matches}
use oscmix_autostart.Routing.Sequence.{output_link_state, note_links, first_int}
use oscmix_autostart.Routing.Echo.{await_link_echo, await_rounds, hear, hear_one}
use oscmix_autostart.Routing.Apply.{apply_routing, kept_entries, after_barrier}

-- The stop is asked for at the seventh question; the dump reports the link, one volume at another
-- value, and a mute.
abbrev outside : Environment Deci
outside = record {
  stop = λ n. not (ltb n 6);
  dump = λ n. some (
      ((text "/output/1/stereo", text "i", int (pos 1) ∷ []) ∷ [])
      ∷ ((text "/output/1/volume", text "f", float (fin (negate 90000)) ∷ [])
          ∷ (text "/output/4/mute", text "i", int (pos 1) ∷ [])
          ∷ [])
      ∷ []);
  echo = some link_echo;
  sleeps = 1;
}

abbrev nothing_yet : Session Deci
nothing_yet = record { questions = 0; listeners = 0; pending = []; done = true; acts = [] }

abbrev run_of : Option (Run Deci Unit) → Run Deci Unit
run_of none = off nothing_yet
run_of (some r) = r

abbrev desk_run : Run Deci Unit
desk_run = run_of (verify_and_repair outside desk)

desk_runs : verify_and_repair outside desk ≡ some desk_run
unfolding desired route_entries channel_entries global_entries channel_entries_on global_entries_on
    channel_entry global_entry encode option_register device_for_name channel_path extend_all
    link_messages mix_messages ucx2 starts_with int_of_value stereo_path mix_path volume_path
    apply_routing output_link_state note_links first_int kept_entries plan by_phase in_phase
    after_barrier await_link_echo await_rounds hear hear_one get remove put elem keep same
    verify_and_repair verify_rounds attempt verify_routing listen hear_dump act observe ask
    window_may_close prompt_set register_ever_reported absorb_all absorb matches result_of add_key
    discard judge ensure_mix send_mix reapply_without_confirmation unconfirmed lost
    register_promptly_reported kept_by_the_device policy_for strip_char next_round repair reapply
    wait_unless_stopped blind_reapply_mix release link_sync expected_registers verdict insisted
    text_le
desk_runs = refl

-- The mix is re-applied once, and the routing is applied once.
abbrev writes_in : List (Act Deci) → ℕ
writes_in [] = 0
writes_in (mixed ms ∷ acts) = suc (writes_in acts)
writes_in (applied kept fx ∷ acts) = suc (writes_in acts)
writes_in (a ∷ acts) = writes_in acts

desk_writes : writes_in (acts_of desk_run) ≡ 2
unfolding desired route_entries channel_entries global_entries channel_entries_on global_entries_on
    channel_entry global_entry encode option_register device_for_name channel_path extend_all
    link_messages mix_messages ucx2 starts_with int_of_value stereo_path mix_path volume_path
    apply_routing output_link_state note_links first_int kept_entries plan by_phase in_phase
    after_barrier await_link_echo await_rounds hear hear_one get remove put elem keep same
    verify_and_repair verify_rounds attempt verify_routing listen hear_dump act observe ask
    window_may_close prompt_set register_ever_reported absorb_all absorb matches result_of add_key
    discard judge ensure_mix send_mix reapply_without_confirmation unconfirmed lost
    register_promptly_reported kept_by_the_device policy_for strip_char next_round repair reapply
    wait_unless_stopped blind_reapply_mix release link_sync expected_registers verdict insisted
    text_le
desk_writes = refl

verify_and_repair-Guarded_example : Guarded outside (acts_of desk_run)
verify_and_repair-Guarded_example = verify_and_repair-Guarded outside desk desk_run desk_runs

reconcile_now-Guarded_example : Guarded outside (acts_of (reconcile_now outside desk nothing_yet))
reconcile_now-Guarded_example = reconcile_now-Guarded outside desk nothing_yet tt

abbrev registers : Expected Deci
registers =
    (text "/output/1/volume", (text "f", float (fin (negate 60000)) ∷ []))
    ∷ (text "/output/4/mute", (text "i", int (pos 1) ∷ []))
    ∷ (text "/mix/1/playback/1", (text "fi", float (fin (pos 0)) ∷ int (pos 0) ∷ []))
    ∷ []

abbrev read_back : VerifyResult
read_back = record {
  confirmed = text "/output/4/mute" ∷ [];
  mismatched = text "/output/1/volume" ∷ [];
  unobserved = text "/mix/1/playback/1" ∷ [];
}

abbrev session_of : {A : Type 0} → Run Deci A → Session Deci
session_of (on a s) = s
session_of (off s) = s

abbrev read_run : Run Deci (Option VerifyResult)
read_run = verify_routing outside no_hook registers (some ucx2) nothing_yet

registers_read : read_run ≡ on (some read_back) (session_of read_run)
unfolding verify_routing listen hear_dump act observe ask window_may_close prompt_set
    register_ever_reported ucx2 absorb_all absorb get matches result_of add_key discard elem same
registers_read = refl

verify_routing-classes_example :
    classes (text "/output/1/volume") read_back
    ≡ (if elem (text "/output/1/volume") (keys registers) then 1 else 0)
verify_routing-classes_example =
    verify_routing-classes outside no_hook registers (some ucx2) nothing_yet (session_of read_run)
      read_back registers_read (text "/output/1/volume")

-- The monitor volume is remembered by a config, and pinned without one.
abbrev policies : Dict (Text × Text) Policy
policies = ((text "output", text "volume"), remember) ∷ []

none_lost : lost (some (ucx2 {F = Deci})) read_back.unobserved ≡ some []
unfolding lost register_promptly_reported
none_lost = refl

no_problems : unconfirmed read_back (some (ucx2 {F = Deci})) policies ≡ some []
unfolding unconfirmed register_promptly_reported policy_for strip_char
no_problems = refl

unconfirmed-perm_example :
    Perm
      ([] ++ kept_by_the_device read_back (some (ucx2 {F = Deci})) policies)
      (read_back.mismatched ++ [])
unconfirmed-perm_example =
    unconfirmed-perm read_back (some ucx2) policies [] [] none_lost no_problems

mute_confirmed : elem (text "/output/4/mute") read_back.confirmed ≡ true
unfolding elem same
mute_confirmed = refl

-- Every report of the dump has one argument.
abbrev IsSingle : Message Deci → Type 0
IsSingle m = length m.2 ≡ 1

verify_routing-confirmed_example : Satisfied IsSingle registers (text "/output/4/mute")
verify_routing-confirmed_example =
    verify_routing-confirmed IsSingle registers outside no_hook (some ucx2) nothing_yet
      (session_of read_run) read_back ((refl, tt), ((refl, (refl, tt)), tt)) registers_read
      (text "/output/4/mute") mute_confirmed
