-- ===== src/Lib.antt =====
-- The core of wattlined, the OpenWrt daemon that drives a battery pack over Bluetooth, as a library
-- of definitions and theorems.
--
-- The parts, and how they interact:
--   Proto    internal/proto: the request frames, the check of a reply, the parsers of status frames
--            (Frames, Features, Controls, Schedule, Lifecycle, Telemetry) and the 16-bit floats
--            (Sfloat). Pure functions on lists of bytes; an error is a value of Proto.Error.
--   State    internal/state: the device store. State.Snapshot has its data, State.Pending the map of
--            pending commands, State.Subscriber a channel, and State.Store one function for each
--            method (SetBattery is set_battery, FinishCommand is finish_command). The parsed frames
--            of Proto are what it stores.
--            State.Waiting has Wait, State.Store.Publishing what any publications leave in the channel
--            of a subscriber that does not read meanwhile; its receiving is not modelled.
--   Config   internal/config/config.go: the automation rule and Rule.Validate (Config.Rule).
--            internal/config/uci.go: the tokenizer, the parser (Config.Uci) and the writer
--            (Config.Uci.Writer) of the configuration file, on bytes.
--   Rules    internal/rules/engine.go: conditionTrue and rearmTrue (Rules.Condition), build, SetRules
--            and Tick (Rules.Engine) and Status (Rules.Status), on the snapshots of State and the
--            rules of Config.
--   Actions  internal/actions/actions.go: ValidateAction and the executor of the actions that the
--            rules name.
--   Auth     internal/auth/pairing.go: the PIN (Auth.Pin), the failure windows (Auth.Windows) and
--            the methods of Pairing (Auth.Pairing). internal/auth/store.go: the records and their
--            checks (Auth.Tokens), the file that is replaced in one step (Auth.Files), the methods
--            of Store (Auth.Store) and OpenStore (Auth.Store.Open).
--   Ble      internal/ble: the command transaction of session.go (Ble.Session), and the operations
--            of controls.go and advanced.go (Ble.Controls, Ble.Timers), each a function of the state
--            of a connection. They send the frames of Proto. passkey_prompt.go is Ble.Passkey.
--   Control  internal/control: reconcile, which runs a command against the store of State until the
--            telemetry confirms it (Control), and the requests behind sessionFor
--            (Control.Requests, Control.Timers).
--   Common   numbers, bytes, lists, times and results, and the rules that the proofs share.
--   Tests    runs at concrete inputs.
--
-- A method that runs under a mutex is one function from the state before to the state after and its
-- results. What it reads from the clock or from the random reader is an argument. A pointer that may
-- be nil is an Option, an error a value. A number of w bits is a natural number below 2 ^ w, with
-- the wrap-around written out; an int is an integer. Times count nanoseconds from the zero time.
--
-- Not part of the program, and so parameters: float64 and package math (Common.Float64), the parser
-- and the schedules of the cron package (`parse`, `next`), the random reader, and the connection of
-- a session (`Ble.Session.Transport`), SHA-256, UTF-8 and JSON (`Auth.Tokens.Codec`), and the file
-- system (`Auth.Files.FileSystem`, with what it documents in `Auth.Files.Atomic.IsPosix`). The token
-- store behind the pairing (`Auth.Pairing.Issuer`), the device behind the executor
-- (`Actions.Device`, and `marshal`, which is json.Marshal), and the session and the contexts of the
-- command service (`Control.Surroundings`, `Control.Requests.Session`) are interfaces as well.
--
-- An index behind the end of a frame, at which Go panics, is the error index_out_of_range where the
-- code tests the length for that one byte; elsewhere one test of the length stands before all reads.
--
-- Where goroutines interleave, a call is cut at its blocking points: a Wait of the passkey prompt is
-- two steps of a relation that has every other call between them, and each step of reconcile may
-- find the store changed by others. A channel is a number.
--
-- Loops are recursions on their list, except two. The loop of EncodeSFloat has the ten rounds of its
-- bounds -2 and 7, and encode_from counts them down. The loop of generatePairingPIN, which has no
-- bound, ends here with the list of samples, as a reader that fails.
--
-- The theorems on the hold of a rule are about one rule between two reloads.
--
-- Not modelled: the wall-clock frames CurrentTime and CurrentTimeAt; the options of the configuration
-- file beside the rules; the Bluetooth handshake, lifecycle and transports; the HTTP API and its
-- servers, the service announcements and the daemon's start-up, most of which is input and output.
pub mod Common
pub mod Actions
pub mod Auth
pub mod Ble
pub mod Config
pub mod Control
pub mod Proto
pub mod Rules
pub mod State
pub mod Tests
