-- ===== src/Desk.antt =====
-- A small config for the UCX II, for the examples: a stereo route, a mono route, a channel setting
-- and a global setting.
use oscmix_autostart.Base.{true, Option, none, some, List, [], ◌∷◌}
use oscmix_autostart.Base.Text.{text}
use oscmix_autostart.Base.Int.{pos, negate}
use oscmix_autostart.Base.Deci.{Deci, fin}
use oscmix_autostart.Config.Defs.{int, Route, Config}
use oscmix_autostart.Reconcile.Messages.{Message}

abbrev pub stereo_route : Route Deci
stereo_route = record {
  name = text "main";
  output = 1 ∷ 2 ∷ [];
  playback = 1 ∷ 2 ∷ [];
  level = fin (pos 0);
  volume = some (fin (negate 60000));
  stereo = true;
  input = [];
}

abbrev pub mono_route : Route Deci
mono_route = record {
  name = text "talk";
  output = 3 ∷ [];
  playback = [];
  level = fin (negate 30000);
  volume = none;
  stereo = true;
  input = 5 ∷ [];
}

abbrev pub desk : Config Deci
desk = record {
  device_name = text "Fireface UCX II";
  usb_id = text "2a39:3fd9";
  osc_port = 7222;
  osc_recv_port = 8222;
  routes = stereo_route ∷ mono_route ∷ [];
  channels =
      record { family = text "output"; channel = 4; option = text "mute"; value = int (pos 1) }
      ∷ [];
  globals = [];
  policies = [];
}

-- The report of the output link, behind a stale one.
abbrev pub link_echo : List (List (Message Deci))
link_echo =
    ((text "/output/1/stereo", text "i", int (pos 0) ∷ []) ∷ [])
    ∷ ((text "/output/1/stereo", text "i", int (pos 1) ∷ []) ∷ [])
    ∷ []

abbrev pub or_nothing {ℓ} : {A : Type ℓ} → Option (List A) → List A
or_nothing none = []
or_nothing (some xs) = xs
