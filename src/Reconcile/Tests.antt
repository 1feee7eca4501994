-- ===== src/Reconcile/Tests.antt =====
-- Runs of the reconciler on a small config.
use oscmix_autostart.Base.{◌≡◌, refl, some, List, [], ◌∷◌, ◌++◌, map, length, All, extend_all}
use mathlib.Core.List.{Perm}
use oscmix_autostart.Base.Text.{Text, text}
use oscmix_autostart.Base.Int.{pos, negate}
use oscmix_autostart.Base.Deci.{Deci, fin, deci_floats}
use oscmix_autostart.Base.Dict.{Dict}
use oscmix_autostart.Registers.Table.{ucx2, row, level_min, level_max}
use oscmix_autostart.Registers.Lookup.{device_for_name, register_at}
use oscmix_autostart.Registers.Settable.{option_register}
use oscmix_autostart.Config.Defs.{Value, int, float}
use oscmix_autostart.Reconcile.Messages.{link_messages, mix_messages}
use oscmix_autostart.Reconcile.Desired.{
  Entry, desired, route_entries, encode, channel_entry, global_entry, channel_entries_on,
  global_entries_on, channel_entries, global_entries, channel_path,
}
use oscmix_autostart.Reconcile.Order.{phase_le, desired-Ascending}
use oscmix_autostart.Reconcile.SendOrder.{Ascending}
use oscmix_autostart.Base.Text.{starts_with, same}
use oscmix_autostart.Base.Sort.{set_of}
use oscmix_autostart.Base.Equality.{text_eq}
use oscmix_autostart.Base.Dict.{values, get}
use oscmix_autostart.Config.Convert.{int_of_value}
use oscmix_autostart.Reconcile.Messages.{Message, stereo_path, mix_path, volume_path}
use oscmix_autostart.Reconcile.Compare.{matches}
use oscmix_autostart.Reconcile.Plan.{
  Write, Plan, missing, mismatched, rewrite, plan, plan_entry, plan_seen, class_of, by_phase,
}
use oscmix_autostart.Reconcile.Entries.{path_of, entry_path, route_dict}
use oscmix_autostart.Reconcile.SendOrder.{route_entries_lem}
use oscmix_autostart.Reconcile.LastWrite.{last_message, route_entries-last_message}
use oscmix_autostart.Reconcile.Accounting.{
  write_path, Explained, Settled, plan-perm, plan-Explained, plan-Settled,
}
use oscmix_autostart.Config.Parsed.{parsed}
use oscmix_autostart.Config.Values.{parse_domain}
use oscmix_autostart.Base.Deci.{parse_deci}
use oscmix_autostart.Registers.Defs.{Register, verifiable, number}
use oscmix_autostart.Base.{false}
use oscmix_autostart.Reconcile.Dump.{render_value, unnameable}
use oscmix_autostart.Reconcile.Reread.{parse_domain-render_value}
use oscmix_autostart.Desk.{desk, or_nothing}
use oscmix_autostart.Base.Decimal.{show}

entries_of_desk : length (or_nothing (desired desk)) ≡ 7
unfolding desired route_entries channel_entries global_entries channel_entries_on global_entries_on
    channel_entry global_entry encode option_register device_for_name channel_path extend_all
    link_messages mix_messages ucx2 starts_with int_of_value stereo_path mix_path volume_path
entries_of_desk = refl

pub desk-desired : desired desk ≡ some (or_nothing (desired desk))
unfolding desired route_entries channel_entries global_entries channel_entries_on global_entries_on
    channel_entry global_entry encode option_register device_for_name channel_path extend_all
    link_messages mix_messages ucx2 starts_with int_of_value stereo_path mix_path volume_path
desk-desired = refl

desired-Ascending_example : Ascending phase_le (or_nothing (desired desk))
desired-Ascending_example = desired-Ascending desk (or_nothing (desired desk)) desk-desired

-- The device reports the mute at its value, and the volume of the first output at another.
abbrev reports : Dict Text (List (Value Deci))
reports =
    (text "/output/4/mute", int (pos 1) ∷ [])
    ∷ (text "/output/1/volume", float (fin (negate 90000)) ∷ [])
    ∷ []

-- Three of the registers: missing, differing and confirmed.
abbrev three : List (Entry Deci)
three =
    record { path = text "/playback/1/stereo"; tags = text "i"; args = int (pos 1) ∷ []; phase = 0 }
    ∷ record {
      path = text "/output/1/volume";
      tags = text "f";
      args = float (fin (negate 60000)) ∷ [];
      phase = 1;
    }
    ∷ record { path = text "/output/4/mute"; tags = text "i"; args = int (pos 1) ∷ []; phase = 2 }
    ∷ []

abbrev wanted : Plan Deci
wanted = record {
  writes =
      record {
        path = text "/playback/1/stereo";
        tags = text "i";
        args = int (pos 1) ∷ [];
        phase = 0;
        reason = missing;
      }
      ∷ record {
        path = text "/output/1/volume";
        tags = text "f";
        args = float (fin (negate 60000)) ∷ [];
        phase = 1;
        reason = mismatched;
      }
      ∷ [];
  confirmed = text "/output/4/mute" ∷ [];
  unverifiable = [];
}

abbrev half : Deci
half = fin (pos 5000)

three_planned : plan three (some reports) (some ucx2) half ≡ some wanted
unfolding plan plan_entry plan_seen class_of by_phase get matches same ucx2
three_planned = refl

plan-perm_example : Perm (map write_path wanted.writes ++ wanted.confirmed) (map entry_path three)
plan-perm_example = plan-perm reports (some ucx2) half three wanted three_planned

plan-Explained_example : All (Explained reports (some ucx2) half) wanted.writes
plan-Explained_example = plan-Explained reports (some ucx2) half three wanted three_planned

-- One register that is reported at its value.
abbrev one : List (Entry Deci)
one =
    record { path = text "/output/4/mute"; tags = text "i"; args = int (pos 1) ∷ []; phase = 2 }
    ∷ []

abbrev one_plan : Plan Deci
one_plan = record { writes = []; confirmed = text "/output/4/mute" ∷ []; unverifiable = [] }

one_planned : plan one (some reports) (some ucx2) half ≡ some one_plan
unfolding plan plan_entry plan_seen class_of by_phase get matches same ucx2
one_planned = refl

one-Settled : All (Settled reports (some ucx2) half) one
unfolding get matches same
one-Settled = ((λ c. (int (pos 1) ∷ [], refl, refl)), tt)

plan-Settled_example : All (λ (w : Write Deci). w.reason ≡ rewrite) one_plan.writes
plan-Settled_example = plan-Settled reports (some ucx2) half one one_plan one-Settled one_planned

-- A path that two messages write.
abbrev twice : List (Message Deci)
twice =
    (text "/output/1/stereo", text "i", int (pos 1) ∷ [])
    ∷ (text "/output/1/stereo", text "i", int (pos 0) ∷ [])
    ∷ []

route_entries_lem_example : route_entries twice [] ≡ values (route_dict twice [])
route_entries_lem_example = route_entries_lem twice []

-- Two routes into the same point of the matrix.
abbrev crossing : List (Message Deci)
crossing =
    (text "/mix/1/playback/1", text "fi", float (fin (pos 0)) ∷ int (pos 0) ∷ [])
    ∷ (text "/mix/2/playback/2", text "fi", float (fin (pos 0)) ∷ int (pos 0) ∷ [])
    ∷ (text "/mix/1/playback/1", text "fi", float (fin (negate 60000)) ∷ int (pos 0) ∷ [])
    ∷ []

route_entries-last_message_example :
    (map entry_path (route_entries twice crossing) ≡ set_of (map path_of (twice ++ crossing)))
    × All (λ e. last_message twice crossing e.path ≡ some e) (route_entries twice crossing)
route_entries-last_message_example = route_entries-last_message twice crossing

-- The volume of an output.
abbrev volume : Register Deci
volume = record (row (text "/output/{ch}/volume") (text "f") verifiable (text "output")) {
  domain = some number;
  lo = some (level_min);
  hi = some (level_max);
  unit = text "dB";
}

volume_registered : register_at (some ucx2) (text "/output/1/volume") ≡ some (some volume)
unfolding register_at ucx2
volume_registered = refl

-- -6.04 dB is printed as -6.0.
volume_text :
    deci_floats.parse (deci_floats.fixed1 (fin (negate 60400))) ≡ some (fin (negate 60000))
unfolding parse_deci show
volume_text = refl

volume_named : unnameable volume (float (fin (negate 60400))) ≡ false
unfolding unnameable
volume_named = refl

parse_domain-render_value_example :
    parse_domain
      (render_value (float (fin (negate 60400))) (some volume))
      (text "output:1")
      (text "volume")
      volume
    ≡ parsed (float (fin (negate 60000)))
parse_domain-render_value_example =
    parse_domain-render_value volume (float (fin (negate 60400))) (float (fin (negate 60000)))
      (text "output:1") (text "volume") (volume_text, refl, refl, refl) volume_named
