-- ===== src/Command/Tests.antt =====
-- Runs of the commands on a config with one channel setting.
use oscmix_autostart.Base.{◌≡◌, refl, false, some, List, [], ◌∷◌, ◌++◌, All, extend_all, keep}
use mathlib.Core.Logic.{◌↔◌}
use oscmix_autostart.Base.Text.{Text, text, same, starts_with}
use oscmix_autostart.Base.Equality.{text_eq}
use oscmix_autostart.Base.Int.{pos}
use oscmix_autostart.Base.Deci.{Deci, deci_floats}
use oscmix_autostart.Registers.Lookup.{device_for_name}
use oscmix_autostart.Config.Defs.{int, Config}
use oscmix_autostart.Routing.Apply.{default_tolerance}
use oscmix_autostart.Reconcile.Desired.{
  Entry, desired, channel_entries, channel_entries_on, channel_entry, encode, global_entries,
  global_entries_on, route_entries, channel_path,
}
use oscmix_autostart.Reconcile.Plan.{mismatched, plan, plan_seen, plan_entry, class_of, by_phase}
use oscmix_autostart.Reconcile.Accounting.{Settled}
use oscmix_autostart.Command.Read.{
  Observed, Pass, read_device, read_rounds, is_fresh, add_reports, set_default,
}
use oscmix_autostart.Command.Diff.{exit_differs, Diff, diff, differing_writes, phase_of, diff_lines}
use oscmix_autostart.Session.Run.{exit_ok}
use oscmix_autostart.Command.First.{reports, read_device-first}
use oscmix_autostart.Command.Verdict.{diff-Settled}
use oscmix_autostart.Verify.Session.{on}
use oscmix_autostart.Profiles.Tests.{outside, fresh, files}
use oscmix_autostart.Command.Switch.{exit_config, switch_command, switch_command-refused}
use oscmix_autostart.Desk.{desk}
use oscmix_autostart.Base.Dict.{elem, get, put}
use oscmix_autostart.Registers.Table.{ucx2}
use oscmix_autostart.Registers.Settable.{option_register}
use oscmix_autostart.Config.Convert.{int_of_value}
use oscmix_autostart.Reconcile.Compare.{matches}
use oscmix_autostart.Profiles.Switch.{switch_profile}
use oscmix_autostart.Profiles.Load.{load_profile, profile_path, is_profile_name}

abbrev muted : Config Deci
muted = record desk { routes = [] }

-- The mute is reported off, then on: the first report is kept. The dump is quiet before the last
-- round.
abbrev rounds : List (Pass Deci)
rounds =
    record {
      before = 0;
      heard = (text "/output/4/mute", text "i", int (pos 0) ∷ []) ∷ [];
      after = 250;
    }
    ∷ record {
      before = 250;
      heard = (text "/output/4/mute", text "i", int (pos 1) ∷ []) ∷ [];
      after = 1300;
    }
    ∷ record {
      before = 1300;
      heard = (text "/output/1/mute", text "i", int (pos 1) ∷ []) ∷ [];
      after = 1500;
    }
    ∷ []

abbrev unmuted : Observed Deci
unmuted = (text "/output/4/mute", int (pos 0) ∷ []) ∷ []

rounds_read : read_device false 8000 1000 rounds ≡ some unmuted
unfolding read_device read_rounds is_fresh elem add_reports set_default get put same
rounds_read = refl

abbrev one_entry : List (Entry Deci)
one_entry =
    record { path = text "/output/4/mute"; tags = text "i"; args = int (pos 1) ∷ []; phase = 2 }
    ∷ []

abbrev one_differs : Diff Deci
one_differs = record {
  code = exit_differs;
  phases =
      (
        2,
        record {
          path = text "/output/4/mute";
          wants = int (pos 1) ∷ [];
          holds = some (int (pos 0) ∷ []);
          reason = mismatched;
        }
            ∷ [],
      )
      ∷ [];
  rewritten = 0;
}

one_desired : desired muted ≡ some one_entry
unfolding desired extend_all channel_entries channel_entries_on device_for_name ucx2 channel_entry
    option_register encode starts_with int_of_value global_entries global_entries_on route_entries
    channel_path
one_desired = refl

unmuted_differs : diff muted (some unmuted) ≡ some one_differs
unfolding diff desired extend_all channel_entries channel_entries_on device_for_name ucx2
    channel_entry option_register encode starts_with int_of_value global_entries global_entries_on
    plan plan_seen route_entries plan_entry class_of channel_path matches differing_writes phase_of
    keep by_phase diff_lines
unmuted_differs = refl

abbrev as_desired : Observed Deci
as_desired = (text "/output/4/mute", int (pos 1) ∷ []) ∷ []

abbrev nothing_differs : Diff Deci
nothing_differs = record { code = exit_ok; phases = []; rewritten = 0 }

as_desired_matches : diff muted (some as_desired) ≡ some nothing_differs
unfolding diff desired extend_all channel_entries channel_entries_on device_for_name ucx2
    channel_entry option_register encode starts_with int_of_value global_entries global_entries_on
    plan plan_seen route_entries plan_entry class_of channel_path matches differing_writes phase_of
    keep by_phase diff_lines
as_desired_matches = refl

diff-Settled_example :
    (exit_ok ≡ exit_ok)
    ↔ All (Settled as_desired (device_for_name muted.device_name) default_tolerance) one_entry
diff-Settled_example =
    diff-Settled muted as_desired one_entry nothing_differs one_desired as_desired_matches

read_device-first_example :
    (made : List (Pass Deci)) × (left : List (Pass Deci)) × (made ++ left ≡ rounds)
    × ((k : Text) → get k unmuted ≡ get k (reports made))
read_device-first_example = read_device-first false 8000 1000 rounds unmuted rounds_read

-- A profile's name with a path separator is refused.
escape_exits : switch_command outside (text "../routing") files fresh ≡ on exit_config fresh
unfolding switch_command switch_profile load_profile profile_path is_profile_name
escape_exits = refl

switch_command-refused_example : fresh ≡ fresh
switch_command-refused_example =
    switch_command-refused outside (text "../routing") files fresh fresh escape_exits
