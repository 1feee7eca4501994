-- ===== src/Registers/Table.antt =====
-- The register table of src/oscmix_desk/registers.py, row by row, and the two devices.
use oscmix_autostart.Base.{
  ℕ, zero, suc, ◌+◌, ◌-◌, true, false, Option, none, some, List, [], ◌∷◌, ◌++◌,
}
use oscmix_autostart.Base.Text.{Text, text}
use oscmix_autostart.Base.Decimal.{show}
use oscmix_autostart.Base.Int.{pos, negsuc}
use oscmix_autostart.Base.Float.{Floating}
use oscmix_autostart.Registers.Defs.{
  VerifyClass, verifiable, write_only, reestablished, pin, remember, bool, enum, number, global,
  Register, Device,
}

count_up : ℕ → ℕ → List ℕ
count_up zero first = []
count_up (suc n) first = first ∷ count_up n (first + 1)

-- `tuple(range(first, last + 1))`
unfoldable pub seq : ℕ → ℕ → List ℕ
unfolding count_up
seq first last = count_up (last + 1 - first) first

module _ {F : Type 0} where
  -- A row with the defaults of the dataclass.
  abbrev pub row : Text → Text → VerifyClass → Text → Register F
  row t g v c = record {
    template = t;
    tags = g;
    verify = v;
    channels = c;
    domain = none;
    choices = [];
    values = [];
    lo = none;
    hi = none;
    unit = [];
    policy = remember;
  }

abbrev pub Bands : Type 0
Bands = List (ℕ × Option (List Text))

abbrev pub eq_bands : Bands
eq_bands =
    (1, some (text "Peak" ∷ text "Low Shelf" ∷ text "High Pass" ∷ text "Low Pass" ∷ []))
    ∷ (2, none)
    ∷ (3, some (text "Peak" ∷ text "High Shelf" ∷ text "Low Pass" ∷ text "High Pass" ∷ []))
    ∷ []

abbrev pub high_shelf : List Text
high_shelf = text "Peak" ∷ text "High Shelf" ∷ text "Low Pass" ∷ text "High Pass" ∷ []

abbrev pub roomeq_bands : Bands
roomeq_bands =
    (1, some (text "Peak" ∷ text "Low Shelf" ∷ text "High Pass" ∷ text "Low Pass" ∷ []))
    ∷ (2, none)
    ∷ (3, none)
    ∷ (4, none)
    ∷ (5, none)
    ∷ (6, none)
    ∷ (7, none)
    ∷ (8, some high_shelf)
    ∷ (9, some high_shelf)
    ∷ []

-- An option of a sub-family: its name, its tags, its bounds and its unit.
abbrev pub Options : Type 0 → Type 0
Options F = List (Text × Text × F × F × Text)

-- `"/%s/{ch}/%s" % (family, sub)`
abbrev sub_prefix : Text → Text → Text
sub_prefix family sub = text "/" ++ (family ++ (text "/{ch}/" ++ sub))

module _ {F : Type 0} ⦃fl : Floating F⦄ where
  -- `LEVEL_MIN` and `LEVEL_MAX`
  abbrev pub level_min : F
  level_min = fl.decimal (negsuc 64) 0

  abbrev pub level_max : F
  level_max = fl.decimal (pos 6) 0

  abbrev pub dynamics_options : Options F
  dynamics_options =
      (text "gain", text "f", fl.decimal (negsuc 29) 0, fl.decimal (pos 30) 0, text "dB")
      ∷ (text "attack", text "i", fl.decimal (pos 0) 0, fl.decimal (pos 200) 0, text "ms")
      ∷ (text "release", text "i", fl.decimal (pos 100) 0, fl.decimal (pos 999) 0, text "ms")
      ∷ (text "compthres", text "f", fl.decimal (negsuc 59) 0, fl.decimal (pos 0) 0, text "dB")
      ∷ (text "compratio", text "f", fl.decimal (pos 1) 0, fl.decimal (pos 10) 0, text ":1")
      ∷ (text "expthres", text "f", fl.decimal (negsuc 98) 0, fl.decimal (pos 20) 0, text "dB")
      ∷ (text "expratio", text "f", fl.decimal (pos 1) 0, fl.decimal (pos 10) 0, text ":1")
      ∷ []

  abbrev pub lowcut_options : Options F
  lowcut_options =
      (text "freq", text "i", fl.decimal (pos 20) 0, fl.decimal (pos 500) 0, text "Hz")
      ∷ (text "slope", text "i", fl.decimal (pos 0) 0, fl.decimal (pos 3) 0, text "index")
      ∷ []

  abbrev pub autolevel_options : Options F
  autolevel_options =
      (text "maxgain", text "f", fl.decimal (pos 0) 0, fl.decimal (pos 18) 0, text "dB")
      ∷ (text "headroom", text "f", fl.decimal (pos 3) 0, fl.decimal (pos 12) 0, text "dB")
      ∷ (text "risetime", text "f", fl.decimal (pos 1) 1, fl.decimal (pos 99) 1, text "s")
      ∷ []

  band_rows : Text → Text → Bands → List (Register F)
  unfolding show
  band_rows family prefix [] = []
  band_rows family prefix ((band, types) ∷ rest) =
      let at = prefix ++ (text "/band" ++ show band) in
      record (row (at ++ text "freq") (text "i") verifiable family) {
        domain = some number;
        lo = some (fl.decimal (pos 20) 0);
        hi = some (fl.decimal (pos 20000) 0);
        unit = text "Hz";
      }
      ∷ record (row (at ++ text "gain") (text "f") verifiable family) {
        domain = some number;
        lo = some (fl.decimal (negsuc 19) 0);
        hi = some (fl.decimal (pos 20) 0);
        unit = text "dB";
      }
      ∷ record (row (at ++ text "q") (text "f") verifiable family) {
        domain = some number;
        lo = some (fl.decimal (pos 4) 1);
        hi = some (fl.decimal (pos 99) 1);
      }
      ∷ (elim types [
        | some names ↦
            record (row (at ++ text "type") (text "is") verifiable family) {
              domain = some enum;
              choices = names;
            }
            ∷ []
        | none ↦ []
      ]
          ++ band_rows family prefix rest)

  unfoldable pub band_registers : Text → Text → Bands → List (Register F)
  unfolding band_rows
  band_registers family sub bands =
      record (row (sub_prefix family sub) (text "i") verifiable family) { domain = some bool }
      ∷ band_rows family (sub_prefix family sub) bands

  unfoldable pub roomeq_registers : List (Register F)
  unfolding band_registers
  roomeq_registers =
      band_registers (text "output") (text "roomeq") roomeq_bands
      ++ (record (row (text "/output/{ch}/roomeq/delay") (text "f") verifiable (text "output")) {
        domain = some number;
        lo = some (fl.decimal (pos 0) 0);
        hi = some (fl.decimal (pos 425) 3);
        unit = text "s";
      }
          ∷ [])

  option_rows : Text → Text → Options F → List (Register F)
  option_rows family prefix [] = []
  option_rows family prefix ((name, tags, lo, hi, unit) ∷ rest) =
      record (row (prefix ++ (text "/" ++ name)) tags verifiable family) {
        domain = some number;
        lo = some lo;
        hi = some hi;
        unit = unit;
      }
      ∷ option_rows family prefix rest

  unfoldable pub sub_registers : Text → Text → Options F → List (Register F)
  unfolding option_rows
  sub_registers family sub options =
      record (row (sub_prefix family sub) (text "i") verifiable family) { domain = some bool }
      ∷ option_rows family (sub_prefix family sub) options

  -- The rows with a channel that are not nested.
  unfoldable pub channel_rows : List (Register F)
  channel_rows =
      (record (row (text "/playback/{ch}/stereo") (text "i") verifiable (text "playback")) {
        policy = pin;
      })
      ∷ (record (row (text "/output/{ch}/stereo") (text "i") verifiable (text "output")) {
        policy = pin;
      })
      ∷ (record (row (text "/output/{ch}/volume") (text "f") verifiable (text "output")) {
        domain = some number;
        lo = some (level_min);
        hi = some (level_max);
        unit = text "dB";
      })
      ∷ (record (row (text "/mix/{out}/playback/{pb}") (text "fi") reestablished (text "output")) {
        policy = pin;
      })
      ∷ (record (row (text "/mix/{out}/input/{in_}") (text "fi") verifiable (text "output")) {
        policy = pin;
      })
      ∷ (record (row (text "/input/{ch}/48v") (text "i") verifiable (text "48v")) { policy = pin })
      ∷ (record (row (text "/input/{ch}/hi-z") (text "i") verifiable (text "hi-z")) {
        domain = some bool;
        policy = pin;
      })
      ∷ (record (row (text "/input/{ch}/gain") (text "f") verifiable (text "input-gain-mic")) {
        domain = some number;
        lo = some (fl.decimal (pos 0) 0);
        hi = some (fl.decimal (pos 75) 0);
        unit = text "dB";
        policy = pin;
      })
      ∷ (record (row (text "/input/{ch}/gain") (text "f") verifiable (text "input-gain-inst")) {
        domain = some number;
        lo = some (fl.decimal (pos 0) 0);
        hi = some (fl.decimal (pos 24) 0);
        unit = text "dB";
        policy = pin;
      })
      ∷ (record (row (text "/input/{ch}/gain") (text "f") verifiable (text "input-gain-line")) {
        domain = some number;
        lo = some (fl.decimal (pos 0) 0);
        hi = some (fl.decimal (pos 24) 0);
        unit = text "dB";
        policy = pin;
      })
      ∷ (record (row (text "/input/{ch}/reflevel") (text "is") verifiable (text "input-reflevel")) {
        domain = some enum;
        choices = text "+13dBu" ∷ text "+19dBu" ∷ [];
        policy = pin;
      })
      ∷ (record (row (text "/input/{ch}/mute") (text "i") verifiable (text "input")) {
        domain = some bool;
      })
      ∷ (record (row (text "/input/{ch}/phase") (text "i") verifiable (text "input")) {
        domain = some bool;
      })
      ∷ (record (row (text "/input/{ch}/stereo") (text "i") verifiable (text "input")) {
        policy = pin;
      })
      ∷ (record (row (text "/output/{ch}/mute") (text "i") verifiable (text "output")) {
        domain = some bool;
      })
      ∷ (record (row (text "/output/{ch}/phase") (text "i") verifiable (text "output")) {
        domain = some bool;
      })
      ∷ (record (row (text "/output/{ch}/reflevel") (text "is") verifiable
          (text "output-reflevel")) {
            domain = some enum;
            choices = text "+4dBu" ∷ text "+13dBu" ∷ text "+19dBu" ∷ [];
            policy = pin;
          })
      ∷ (record (row (text "/output/{ch}/crossfeed") (text "i") verifiable (text "output")) {
        domain = some number;
        lo = some (fl.decimal (pos 0) 0);
        hi = some (fl.decimal (pos 5) 0);
        unit = text "index";
      })
      ∷ []

  -- The rows with no channel.
  unfoldable pub global_rows : List (Register F)
  global_rows =
      (record (row (text "/echo") (text "i") verifiable global) { domain = some bool })
      ∷ (record (row (text "/echo/type") (text "is") verifiable global) {
        domain = some enum;
        choices = text "Stereo Echo" ∷ text "Stereo Cross" ∷ text "Pong Echo" ∷ [];
      })
      ∷ (record (row (text "/echo/delay") (text "f") verifiable global) {
        domain = some number;
        lo = some (fl.decimal (pos 0) 0);
        hi = some (fl.decimal (pos 2) 0);
        unit = text "s";
      })
      ∷ (record (row (text "/echo/feedback") (text "i") verifiable global) { domain = some number })
      ∷ (record (row (text "/echo/highcut") (text "is") verifiable global) {
        domain = some enum;
        choices =
            text "Off" ∷ text "16kHz" ∷ text "12kHz" ∷ text "8kHz" ∷ text "4kHz" ∷ text "2kHz" ∷ [];
      })
      ∷ (record (row (text "/echo/volume") (text "f") verifiable global) {
        domain = some number;
        lo = some (level_min);
        hi = some (level_max);
        unit = text "dB";
      })
      ∷ (record (row (text "/echo/width") (text "f") verifiable global) {
        domain = some number;
        lo = some (fl.decimal (pos 0) 0);
        hi = some (fl.decimal (pos 1) 0);
      })
      ∷ (record (row (text "/controlroom/mainout") (text "is") verifiable global) {
        domain = some enum;
        choices =
            text "1/2"
            ∷ text "3/4"
            ∷ text "5/6"
            ∷ text "7/8"
            ∷ text "9/10"
            ∷ text "11/12"
            ∷ text "13/14"
            ∷ text "15/16"
            ∷ text "17/18"
            ∷ text "19/20"
            ∷ text "None"
            ∷ [];
        values =
            pos 0
            ∷ pos 1
            ∷ pos 2
            ∷ pos 3
            ∷ pos 4
            ∷ pos 5
            ∷ pos 6
            ∷ pos 7
            ∷ pos 8
            ∷ pos 9
            ∷ negsuc 0
            ∷ [];
        policy = pin;
      })
      ∷ (record (row (text "/controlroom/dimreduction") (text "f") verifiable global) {
        domain = some number;
        lo = some (level_min);
        hi = some (fl.decimal (pos 0) 0);
        unit = text "dB";
        policy = pin;
      })
      ∷ (record (row (text "/controlroom/recallvolume") (text "f") verifiable global) {
        domain = some number;
        lo = some (level_min);
        hi = some (fl.decimal (pos 0) 0);
        unit = text "dB";
        policy = pin;
      })
      ∷ (record (row (text "/controlroom/dim") (text "i") verifiable global) { domain = some bool })
      ∷ (record (row (text "/controlroom/mainmono") (text "i") verifiable global) {
        domain = some bool;
      })
      ∷ (record (row (text "/controlroom/muteenable") (text "i") verifiable global) {
        domain = some bool;
      })
      ∷ (record (row (text "/reverb") (text "i") verifiable global) { domain = some bool })
      ∷ (record (row (text "/reverb/type") (text "is") verifiable global) {
        domain = some enum;
        choices =
            text "Small Room"
            ∷ text "Medium Room"
            ∷ text "Large Room"
            ∷ text "Walls"
            ∷ text "Shorty"
            ∷ text "Attack"
            ∷ text "Swagger"
            ∷ text "Old School"
            ∷ text "Echoistic"
            ∷ text "8plus9"
            ∷ text "Grand Wide"
            ∷ text "Thicker"
            ∷ text "Envelope"
            ∷ text "Gated"
            ∷ text "Space"
            ∷ [];
      })
      ∷ (record (row (text "/reverb/predelay") (text "i") verifiable global) {
        domain = some number;
      })
      ∷ (record (row (text "/reverb/lowcut") (text "i") verifiable global) { domain = some number })
      ∷ (record (row (text "/reverb/highcut") (text "i") verifiable global) {
        domain = some number;
      })
      ∷ (record (row (text "/reverb/highdamp") (text "i") verifiable global) {
        domain = some number;
      })
      ∷ (record (row (text "/reverb/attack") (text "i") verifiable global) { domain = some number })
      ∷ (record (row (text "/reverb/hold") (text "i") verifiable global) { domain = some number })
      ∷ (record (row (text "/reverb/release") (text "i") verifiable global) {
        domain = some number;
      })
      ∷ (record (row (text "/reverb/smooth") (text "i") verifiable global) {
        domain = some number;
        lo = some (fl.decimal (pos 0) 0);
        hi = some (fl.decimal (pos 100) 0);
      })
      ∷ (record (row (text "/reverb/roomscale") (text "f") verifiable global) {
        domain = some number;
      })
      ∷ (record (row (text "/reverb/time") (text "f") verifiable global) { domain = some number })
      ∷ (record (row (text "/reverb/volume") (text "f") verifiable global) { domain = some number })
      ∷ (record (row (text "/reverb/width") (text "f") verifiable global) {
        domain = some number;
        lo = some (fl.decimal (pos 0) 0);
        hi = some (fl.decimal (pos 1) 0);
      })
      ∷ (record (row (text "/clock/source") (text "is") verifiable global) {
        domain = some enum;
        choices =
            text "Internal" ∷ text "Word Clock" ∷ text "SPDIF" ∷ text "AES" ∷ text "Optical" ∷ [];
        policy = pin;
      })
      ∷ (row (text "/clock/samplerate") (text "i") verifiable global)
      ∷ (record (row (text "/clock/wckout") (text "i") verifiable global) {
        domain = some bool;
        policy = pin;
      })
      ∷ (record (row (text "/clock/wcksingle") (text "i") verifiable global) {
        domain = some bool;
        policy = pin;
      })
      ∷ (record (row (text "/clock/wckterm") (text "i") verifiable global) {
        domain = some bool;
        policy = pin;
      })
      ∷ (record (row (text "/hardware/opticalout") (text "is") verifiable global) {
        domain = some enum;
        choices = text "ADAT" ∷ text "SPDIF" ∷ [];
        policy = pin;
      })
      ∷ (record (row (text "/hardware/spdifout") (text "is") verifiable global) {
        domain = some enum;
        choices = text "Consumer" ∷ text "Professional" ∷ [];
        policy = pin;
      })
      ∷ (record (row (text "/hardware/ccmix") (text "is") verifiable global) {
        domain = some enum;
        choices = text "TotalMix App" ∷ text "6ch + phones" ∷ text "8ch" ∷ text "20ch" ∷ [];
        policy = pin;
      })
      ∷ (record (row (text "/hardware/standalonearc") (text "is") verifiable global) {
        domain = some enum;
        choices = text "Volume" ∷ text "1s Op" ∷ text "Normal" ∷ [];
        policy = pin;
      })
      ∷ (record (row (text "/hardware/standalonemidi") (text "i") verifiable global) {
        domain = some bool;
        policy = pin;
      })
      ∷ (record (row (text "/hardware/lockkeys") (text "is") verifiable global) {
        domain = some enum;
        choices = text "Off" ∷ text "Keys" ∷ text "All" ∷ [];
        policy = pin;
      })
      ∷ (record (row (text "/hardware/remapkeys") (text "i") verifiable global) {
        domain = some bool;
        policy = pin;
      })
      ∷ (row (text "/hardware/ccmode") (text "i") verifiable global)
      ∷ (row (text "/hardware/dspload") (text "i") verifiable global)
      ∷ (row (text "/hardware/dspvers") (text "i") verifiable global)
      ∷ []

  -- The rows that are accepted and never reported.
  unfoldable pub silent_rows : List (Register F)
  silent_rows =
      (row (text "/input/{ch}/name") (text "s") write_only (text "input"))
      ∷ (row (text "/output/{ch}/name") (text "s") write_only (text "output"))
      ∷ (row (text "/output/{ch}/loopback") (text "i") write_only (text "output"))
      ∷ []

  unfoldable pub ucx2 : Device F
  unfolding seq channel_rows global_rows silent_rows band_registers roomeq_registers sub_registers
  ucx2 = record {
    key = text "ucx2";
    name = text "Fireface UCX II";
    usb_id = text "2a39:3fd9";
    channels =
        (text "input", seq 1 20)
        ∷ (text "output", seq 1 20)
        ∷ (text "playback", seq 1 20)
        ∷ (text "meter", seq 1 22)
        ∷ (text "48v", 1 ∷ 2 ∷ [])
        ∷ (text "hi-z", 3 ∷ 4 ∷ [])
        ∷ (text "input-gain", seq 1 8)
        ∷ (text "input-gain-mic", 1 ∷ 2 ∷ [])
        ∷ (text "input-gain-inst", 3 ∷ 4 ∷ [])
        ∷ (text "input-gain-line", seq 5 8)
        ∷ (text "input-reflevel", seq 3 8)
        ∷ (text "output-reflevel", seq 1 8)
        ∷ [];
    registers =
        channel_rows
        ++ (global_rows
            ++ (band_registers (text "input") (text "eq") eq_bands
                ++ (band_registers (text "output") (text "eq") eq_bands
                    ++ (roomeq_registers
                        ++ (sub_registers (text "input") (text "dynamics") dynamics_options
                            ++ (sub_registers (text "output") (text "dynamics") dynamics_options
                                ++ (sub_registers (text "input") (text "autolevel")
                                      autolevel_options
                                    ++ (sub_registers (text "output") (text "autolevel")
                                          autolevel_options
                                        ++ (sub_registers (text "input") (text "lowcut")
                                              lowcut_options
                                            ++ (sub_registers (text "output") (text "lowcut")
                                                  lowcut_options
                                                ++ silent_rows))))))))));
    supported = true;
    complete_after_cold_plug = text "/output/{ch}/stereo" ∷ text "/playback/{ch}/stereo" ∷ [];
    evidence = some (text "hardware-evidence.json attached to v0.2.0");
  }

  unfoldable pub ff802 : Device F
  unfolding seq
  ff802 = record {
    key = text "ff802";
    name = text "Fireface 802";
    usb_id = text "2a39:3fc0";
    channels =
        (text "input", seq 1 30)
        ∷ (text "output", seq 1 30)
        ∷ (text "playback", seq 1 30)
        ∷ (text "48v", seq 9 12)
        ∷ (text "hi-z", seq 9 12)
        ∷ (text "input-gain", seq 1 8)
        ∷ (text "input-reflevel", seq 1 8)
        ∷ (text "output-reflevel", seq 1 12)
        ∷ [];
    registers = [];
    supported = false;
    complete_after_cold_plug = [];
    evidence = none;
  }

  -- `DEVICES`
  abbrev pub devices : List (Device F)
  devices = ucx2 ∷ ff802 ∷ []
