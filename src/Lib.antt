-- ===== src/Lib.antt =====
-- Models of oscmix-desk: a program that applies the audio routing of a config file to an RME
-- interface through oscmix, over OSC, and keeps it applied.
--
-- The program's parts (paths from the repository's root) and the files that model them:
--
--   src/oscmix_desk/registers.py   Registers: the record of a register row and of a device, the
--       tables of the two devices, and the queries on them (`register_at`, `verify_class`,
--       `settable_options` and the others) under their own names.
--   src/oscmix_desk/config.py      Config: the data (`Route`, `ChannelSetting`, `GlobalSetting`, `Config`)
--       and the parser, from the sections that `configparser` finds to a `Config` (`load_config`), in the
--       functions of the source under their names without the leading underscore.
--   src/oscmix_desk/reconcile.py   Reconcile: the messages of a route, the state that a config asks
--       for (`desired`), the comparison with a report (`matches`) and `plan`; of the dump, the
--       settings that an observation holds (`channels_from_observed`, `globals_from_observed`) and the
--       line of a setting (`setting_line`). The routes of a dump and its text are not modelled.
--   src/oscmix_desk/routing.py     Routing: the order of the messages, the wait for the link echo,
--       and `apply_routing` as the list of what it sends and waits for.
--   src/oscmix_desk/verify.py      Verify: the read-back and its judgement, and `verify_and_repair`
--       and `reconcile_now` as steps on a session that records each question to the stop check and
--       each write.
--   src/oscmix_desk/process.py, src/oscmix_desk/session.py
--                                  Session: `supervise` round by round, `run_session` as the list of
--       what it does with its exit status, and `_reconcile` (`on_hangup`).
--   src/oscmix_desk/profiles.py    Profiles: `load_profile`, `switch_profile` and the outcome that it
--       reports.
--   src/oscmix_desk/cli.py         Command: the read of a running device (`_read_device`), `--diff` with its
--       exit code, and the exit code of `--profile`.
--   src/oscmix_desk/osc.py         Osc: strings and messages as bytes, encoded and decoded, and bundles
--       (`iter_osc_messages`), with what a listener of src/oscmix_desk/backend.py hears of a datagram.
--
-- A config goes through `desired` to entries, `plan` makes writes of them, `apply_routing` sends
-- these in three bursts around the link barrier, and the verifier reads the device back and applies
-- again what the device may not keep.
--
-- Base has what the models share. A Python `str` is a list of code points, over Latin-1. A `dict` is
-- an association list in insertion order, a set a list without repeats. A float is a parameter: an
-- instance of the record `Floating`, of which Base/Deci is a concrete one, in tenths of thousandths,
-- for the examples. `none` of an `Option` that a definition returns is an exception that nothing
-- catches; a comment at the definition says which.
--
-- The parser's steps end in a `Parsed`: a value, a `ConfigError` (`refused`, with what its message names
-- in place of the wording), or an exception of another class (`raised`). What comes of
-- reading a file is the parameter (`File`): an `OSError`, bytes that are not of the encoding, a text that
-- `configparser` refuses, or the sections in order, each with its options. A profile is read twice, since
-- `_inherit_transport` reads it again.
--
-- Sockets, the clock, threads and logging are the environment. What a listener hears is a list of
-- rounds, one for each call of `messages`, which ends where the clock passes the deadline, so every
-- loop is a recursion on what it hears and needs no fuel. The stop check is a function from the number
-- of the question to its answer, and may answer in any pattern. A verifier's session records each answer, request, report and
-- write in order. `wait_unless_stopped` sleeps as often
-- as the environment says before its deadline.
--
-- What `struct` and `str.encode` do is written out for integers and texts; for floats it is a part of
-- `Floating`.
--
-- The clock of `supervise` is a number in some unit, and a round is what the child, the signal handlers
-- and the clock do in it, so the loop is a recursion on its rounds. A session runs on a record of what the
-- machine answers (`Machine`): whether the sequencer client, the device and the binaries are there, and
-- how the child ends. `iter_osc_messages` runs on fuel, one more than the bytes of the datagram, which is
-- enough since a frame is shorter than its bundle.
--
-- Not modelled: the sockets (the rest of src/oscmix_desk/backend.py), the processes, the search of /proc
-- and the threads behind the session (parts of session.py and process.py), the argument parser,
-- `--snapshot`, `--dump-config` and `main` (the rest of cli.py), and the glue to the desktop and the
-- sound server (launcher.py, notify.py, discovery.py, pipewire.py).
pub mod Base
pub mod Registers
pub mod Config
pub mod Reconcile
pub mod Routing
pub mod Verify
pub mod Session
pub mod Profiles
pub mod Command
pub mod Desk
pub mod Osc
