-- ===== src/Profiles/Tests.antt =====
-- Runs of a switch of the profile.
use oscmix_autostart.Base.{
  ◌≡◌, refl, true, none, some, List, [], inr, ◌∷◌, if◌then◌else◌, extend_all,
}
use oscmix_autostart.Base.Text.{text, starts_with}
use oscmix_autostart.Base.Int.{pos}
use oscmix_autostart.Base.Deci.{Deci, deci_floats}
use oscmix_autostart.Base.Dict.{keys, elem, get, add_key}
use oscmix_autostart.Base.Equality.{text_eq}
use oscmix_autostart.Registers.Lookup.{device_for_name}
use oscmix_autostart.Config.Defs.{Config, int}
use oscmix_autostart.Config.Document.{Section, sections}
use oscmix_autostart.Config.Parsed.{Settles, in_name}
use oscmix_autostart.Desk.{desk}
use oscmix_autostart.Verify.Reported.{Expected, expected_registers, register_ever_reported}
use oscmix_autostart.Verify.Observe.{
  VerifyResult, window_may_close, prompt_set, absorb, result_of, discard,
}
use oscmix_autostart.Verify.Session.{Environment, Session, Run, on, off, listen, act, ask}
use oscmix_autostart.Verify.Repair.{verify_routing, no_hook, hear_dump, observe, absorb_all}
use oscmix_autostart.Profiles.Load.{Files, load_profile, profile_path, is_profile_name}
use oscmix_autostart.Profiles.Switch.{
  applied_verified, not_applied, no_reason, problem, Outcome, patient, check, switch_profile,
  outcome_of,
}
use oscmix_autostart.Profiles.Report.{tally, check-tally, check-verified}
use oscmix_autostart.Profiles.Promise.{ReadableFile, switch_profile-refused, load_profile-Settles}
use oscmix_autostart.Reconcile.Desired.{
  desired, channel_entries, channel_entries_on, channel_entry, encode, global_entries,
  global_entries_on, route_entries, channel_path,
}
use oscmix_autostart.Registers.Table.{ucx2}
use oscmix_autostart.Registers.Settable.{option_register}
use oscmix_autostart.Config.Convert.{int_of_value}
use oscmix_autostart.Reconcile.Compare.{matches}
use oscmix_autostart.Config.Settings.{nested_name}
use oscmix_autostart.Base.Decimal.{int_of}

-- A profile of one mute, and a device that reports it.
abbrev muted : Config Deci
muted = record desk { routes = [] }

abbrev pub outside : Environment Deci
outside = record {
  stop = λ n. true;
  dump = λ n. some (((text "/output/4/mute", text "i", int (pos 1) ∷ []) ∷ []) ∷ []);
  echo = none;
  sleeps = 0;
}

abbrev pub fresh : Session Deci
fresh = record { questions = 0; listeners = 0; pending = []; done = true; acts = [] }

abbrev expected : Expected Deci
expected = (text "/output/4/mute", (text "i", int (pos 1) ∷ [])) ∷ []

abbrev confirmed : VerifyResult
confirmed = record { confirmed = text "/output/4/mute" ∷ []; mismatched = []; unobserved = [] }

abbrev session_of : {A : Type 0} → Run Deci A → Session Deci
session_of (on a s) = s
session_of (off s) = s

muted-expected : expected_registers muted ≡ some expected
unfolding expected_registers desired extend_all channel_entries channel_entries_on device_for_name
    ucx2 channel_entry option_register encode starts_with int_of_value global_entries
    global_entries_on route_entries channel_path
muted-expected = refl

muted-read :
    verify_routing (patient outside) no_hook expected (device_for_name muted.device_name) fresh
    ≡ on (some confirmed) (
        session_of (
          verify_routing
            (patient outside)
            no_hook
            expected
            (device_for_name muted.device_name)
            fresh))
unfolding verify_routing listen hear_dump act observe ask window_may_close prompt_set
    register_ever_reported device_for_name ucx2 absorb_all absorb get matches result_of add_key
    discard
muted-read = refl

abbrev verified : Outcome
verified = record {
  state = applied_verified;
  name = text "mute";
  reason = no_reason;
  unverified = [];
  unverifiable = [];
}

muted-checked :
    check outside (text "mute") muted fresh
    ≡ on verified (session_of (check outside (text "mute") muted fresh))
unfolding check expected_registers desired extend_all channel_entries channel_entries_on
    device_for_name ucx2 channel_entry option_register encode starts_with int_of_value
    global_entries global_entries_on verify_routing listen hear_dump act observe ask
    window_may_close route_entries prompt_set register_ever_reported channel_path absorb_all absorb
    matches outcome_of result_of discard add_key
muted-checked = refl

check-tally_example :
    tally (text "/output/4/mute") (some confirmed) verified
    ≡ (if elem (text "/output/4/mute") (keys expected) then 1 else 0)
check-tally_example =
    check-tally outside (text "mute") muted expected fresh
      (session_of (
        verify_routing (patient outside) no_hook expected (device_for_name muted.device_name)
          fresh))
      (session_of (check outside (text "mute") muted fresh)) (some confirmed) verified
      (text "/output/4/mute") muted-expected muted-read muted-checked

check-verified_example :
    elem (text "/output/4/mute") confirmed.confirmed ≡ elem (text "/output/4/mute") (keys expected)
check-verified_example =
    check-verified outside (text "mute") muted expected fresh
      (session_of (
        verify_routing (patient outside) no_hook expected (device_for_name muted.device_name)
          fresh))
      (session_of (check outside (text "mute") muted fresh)) (some confirmed) verified
      (text "/output/4/mute") muted-expected muted-read muted-checked refl

-- A profile with an equalizer, and a main config with a port of its own.
abbrev one_section : List Section
one_section =
    record { name = text "eq:input:1"; options = (text "enabled", text "on") ∷ [] }
    ∷ record { name = text "output:4"; options = (text "mute", text "on") ∷ [] }
    ∷ []

abbrev main_sections : List Section
main_sections = record { name = text "osc"; options = (text "port", text "9000") ∷ [] } ∷ []

sections_readable :
    ReadableFile (some (sections one_section)) × ReadableFile (some (sections main_sections))
unfolding nested_name int_of
sections_readable = ((inr (pos 1, refl), (tt, tt)), (tt, tt))

abbrev pub files : Files
files = record {
  directory = true;
  profile = some (sections one_section);
  again = sections one_section;
  main = some (sections main_sections);
}

-- A profile's name with a path separator is refused.
abbrev refusal : Outcome
refusal = record {
  state = not_applied;
  name = text "../routing";
  reason = problem (in_name (text "../routing"));
  unverified = [];
  unverifiable = [];
}

abbrev escape_run : Run Deci Outcome
escape_run = switch_profile outside true (text "../routing") files fresh

escape-refused :
    switch_profile outside true (text "../routing") files fresh ≡ on refusal (session_of escape_run)
unfolding switch_profile load_profile profile_path is_profile_name
escape-refused = refl

switch_profile-refused_example : session_of escape_run ≡ fresh
switch_profile-refused_example =
    switch_profile-refused outside true (text "../routing") files fresh (session_of escape_run)
      refusal escape-refused refl

load_profile-Settles_example : Settles (load_profile {F = Deci} (text "tracking") files)
load_profile-Settles_example =
    load_profile-Settles Deci (text "tracking") files sections_readable.1 sections_readable.0 tt
