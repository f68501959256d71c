-- ===== src/Lib.antt =====
-- wifi-presence: a daemon that watches the control interfaces of hostapd and publishes over MQTT
-- whether the configured WiFi clients are home.
--
-- The parts of the program and the files that model them:
--   * internal/hostapd reads hostapd's messages. event.go (`parseEvent`): Hostapd/Event. mac.go
--     (`isMAC`): Hostapd/Mac. status.go (`Status.parse`, `decodeSSID`): Hostapd/Status. station.go
--     (`Station.parse`): Hostapd/Station. ctrl.go (the commands): Hostapd/Ctrl. client.go: `Stations`
--     in Hostapd/Client, `NewClient`, `Attach` and `Close` in Hostapd/Client/Open. conn.go:
--     Hostapd/Socket. The loop of `attach`: Hostapd/Attach, and the whole of it with `detacher`:
--     Hostapd/Attach/Detach.
--   * internal/hass publishes. topics.go: Hass/Topics. messages.go: Hass/Messages. mqtt.go: Hass/Mqtt,
--     and Hass/Broker for the MQTT client that it calls, Hass/Subscribe for `SubscribeConfig`,
--     Hass/Connection for `NewMQTT` with its connection, and `OnConnectionLost`.
--     vendors.go: Hass/Vendors, with the table in its child modules.
--   * internal/presence ties them together. mac.go: Presence/Mac. debounce.go: Presence/Debounce.
--     daemon.go: the state in Presence/State, `onHostapdEvent` in Presence/Events,
--     `connectedStations` in Presence/Connected, `onConfigChange` in Presence/Config (what it publishes, as a
--     list of messages, in Presence/Config/Publishes), the options and
--     `NewDaemon` in Presence/Construction, the handler's critical sections in Presence/Threads, the
--     goroutines of `Run` in Presence/Program and their end in Presence/Ending.
--   * cmd/wifi-presence puts the program together. main.go: Command, and its flags in
--     Command/Flags, with version.go.
--   * internal/hostapd/hostapdtest is the fake hostapd of the tests: HostapdTest.
--   * Strconv has what the program uses of Go's strconv, encoding/hex and bufio; Base the shared types,
--     tests, texts, maps, times and integers; Tests the runs at concrete inputs.
--
-- A message of hostapd goes through `parse_event` to `on_hostapd_event`, which changes the daemon's
-- map of stations, cancels or enqueues a callback of the debouncer, and publishes through Hass/Mqtt. A
-- configuration goes to `on_config_change`, which also asks the clients of hostapd for the connected
-- stations.
--
-- How state is modelled. `State` is the daemon with what it meets: the broker, with the messages
-- published so far and the outcome of each token, the readings of the clock, and the results of the
-- clients' `Stations`. A function that returns an error is a function of type `State → State ×
-- Result A`; a Go error is a value of `Error`. Text is a list of bytes, a Go map an association list,
-- where the order of an iteration matters a parameter. Durations and `int64` values are integers whose
-- wrap-around is written out; a `time.Time` is a number of nanoseconds since the zero time.
--
-- The debouncer is modelled with its runtime: a timer expires, which starts the goroutine of its
-- function, and the goroutine passes its critical section later, with any calls between the two.
--
-- The handler of an event is modelled twice. Presence/Events has it as one function, with no other
-- goroutine between its calls. Presence/Threads has it as a goroutine that stands before one of its
-- critical sections or calls, each of which is one step; the step relation of Presence/Program
-- interleaves the goroutines of the clients, the timers and the callbacks in any order. There a
-- configuration is handled in one step; in the program its handler holds the daemon's mutex, for which
-- the critical sections wait but not the calls between them.
--
-- `Command.run` takes the calls that it makes of the other parts as a record of functions on a state.
-- `Daemon.Run` is one of them, and ends with an error or none. Presence/Ending says which: its steps are
-- the returns of the goroutines, the errors that callbacks send and the end of the context, on an
-- interface of errgroup's groups with the laws that its documentation states. The client of
-- internal/hostapd and the fake are joined by a record of hypotheses on the connection
-- (HostapdTest/Links): a command and its reply arrive whole where they fit the buffers.
--
-- The sockets of the client stand on a record of the operating system's calls (Hostapd/Socket), with
-- laws on the files and descriptors that each call changes (Hostapd/Socket/Kernel); Tests/Sockets fills
-- them. Go's `path` is modelled in Base/Paths.
--
-- Fuel: the loop of `decodeSSID` consumes a byte or more in each round, and runs on one more than the
-- number of bytes. The loop of `Stations` ends when hostapd says so, and runs on any fuel that exceeds
-- the number of stations that hostapd has; that of `attach`, where every
-- read returns, on any fuel that exceeds the number of messages that come (Hostapd/Client/Open/Returns).
-- The digits of a number n are printed
-- on the fuel n + 1. All other loops are structural.
--
-- Not modelled: the encoding of JSON (a payload is the value that is encoded, and the encoding does not
-- fail), the calls of the MQTT client beyond their outcomes, the reading of a duration's text, the help
-- text, logging, the messages that the fake sends to an attached client, and the programs that only run
-- tests. A configuration is handled in one step of Presence/Program, and the errors of its goroutines
-- are those of Presence/Ending, which has no state of the daemon. A read of a
-- socket that never returns is no value: the runs of `attach` modelled are those in which every read
-- returns, and a cancellation of its context comes after `unsetReadDeadline`. `int` has 64 bits, as on
-- the servers, and not the 32 of mipsle; the rounding of floating-point numbers is left out. The order
-- in which Go visits a map is one function of the map for a whole run. In Hass/Subscribe the context ends
-- when the `select` takes its end.
pub mod Base
pub mod Strconv
pub mod Hostapd
pub mod Hass
pub mod Presence
pub mod HostapdTest
pub mod Command
mod Tests
