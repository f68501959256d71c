-- ===== src/Command.antt =====
-- cmd/wifi-presence/main.go: the arguments, the order in which the program connects and cleans up, and
-- the exit code. The flags are in Command/Flags; the help text and logging are left out.
pub mod Sockets
pub mod Exit
pub mod Arguments
pub mod Order
pub mod Flags
pub mod Resources
pub mod Terminating
use wifi_presence.Base.{
  ℕ, Bool, true, false, Option, none, some, List, [], ◌∷◌, ◌++◌, Bytes, codes, ◌==◌, if◌then◌else◌,
  equal, map,
}
use wifi_presence.Base.Int.{ℤ, pos}
use wifi_presence.Base.Errors.{Error, Result, ok, err, blank, wrapped, is_terminating}
use wifi_presence.Hass.Mqtt.{Mqtt, MqttOpts, is_set}
use wifi_presence.Hostapd.Status.{Status}
use wifi_presence.Presence.State.{Daemon}
use wifi_presence.Presence.Construction.{
  Opt, with_ap_name, with_hass_opt, with_hostapd, with_debounce, with_hass_autodiscovery,
  new_daemon,
}

-- The anonymous struct `args`. A `time.Duration` is an `int64`, which may be negative.
pub record Args : Type 0 where
  pub ap_name : Bytes
  pub sock_dir : Bytes
  pub hostapd_socks : Bytes
  pub mqtt_addr : Bytes
  pub mqtt_id : Bytes
  pub mqtt_prefix : Bytes
  pub mqtt_username : Bytes
  pub mqtt_password : Bytes
  pub hass_autodiscovery : Bool
  pub hass_prefix : Bytes
  pub debounce : ℤ
  pub verbose : Bool
  pub version : Bool
  pub more_help : Bool

-- A file that `filepath.WalkDir` visits: its path and the last element of it, whether it is a socket,
-- or that the visit failed.
pub record Entry : Type 0 where
  pub path : Bytes
  pub base : Bytes
  pub is_socket : Bool
  pub failed : Bool

-- `findUnixSockets`: the callback's error stops the walk.
unfoldable pub find_unix_sockets : List Entry → List Bytes
find_unix_sockets [] = []
find_unix_sockets (e ∷ entries) =
    let rest = find_unix_sockets entries in
    if e.failed
    then []
    else if equal e.base (codes "global")
    then rest
    else if e.is_socket
    then e.path ∷ rest
    else rest

-- `strings.Join(paths, sep)` and `strings.Split(s, sep)` with a one-byte separator, os.PathListSeparator.
abbrev pub separator : ℕ
separator = b':'

unfoldable pub join : List Bytes → Bytes
join [] = []
join (p ∷ []) = p
join (p ∷ q ∷ paths) = p ++ separator ∷ join (q ∷ paths)

unfoldable pub split_from : Bytes → Bytes → List Bytes
split_from part [] = part ∷ []
split_from part (c ∷ cs) =
    let ended = part ∷ split_from [] cs in
    let longer = split_from (part ++ c ∷ []) cs in if c == separator then ended else longer

unfoldable pub split : Bytes → List Bytes
unfolding split_from
split = split_from []

-- The values of the arguments before the flags are parsed.
unfoldable pub default_args : Bytes → Bytes → List Entry → Args
unfolding find_unix_sockets join is_set
default_args host_name temp_dir entries = record {
  ap_name = host_name;
  sock_dir = temp_dir;
  hostapd_socks = join (find_unix_sockets entries);
  mqtt_addr = [];
  mqtt_id = if is_set host_name then codes "wifi-presence." ++ host_name else codes "wifi-presence";
  mqtt_prefix = codes "wifi-presence";
  mqtt_username = [];
  mqtt_password = [];
  hass_autodiscovery = true;
  hass_prefix = codes "homeassistant";
  debounce = pos 10000000000;
  verbose = false;
  version = false;
  more_help = false;
}

-- The checks of the arguments, in order.
unfoldable pub validate : Args → Option Error
validate args =
    if is_set args.ap_name
    then (if is_set args.hostapd_socks
        then (if is_set args.mqtt_addr
            then (if is_set args.mqtt_id
                then (if is_set args.mqtt_prefix
                    then (if args.hass_autodiscovery
                        then (if is_set args.hass_prefix
                            then none
                            else some (blank (codes "hass.prefix")))
                        else none)
                    else some (blank (codes "mqtt.prefix")))
                else some (blank (codes "mqtt.id")))
            else some (blank (codes "mqtt.addr")))
        else some (blank (codes "hostapd.socks")))
    else some (blank (codes "apName"))

unfoldable pub mqtt_opts : Args → MqttOpts
mqtt_opts args = record {
  broker_addr = args.mqtt_addr;
  client_id = args.mqtt_id;
  username = args.mqtt_username;
  password = args.mqtt_password;
  ap_name = args.ap_name;
  topic_prefix = args.mqtt_prefix;
  discovery_prefix = args.hass_prefix;
}

-- The calls of `run`, on what they change. `connect` is `hass.NewMQTT`, `online` and `offline` publish
-- the status, `run_daemon` is the group of `OnConnectionLost` and `Daemon.Run`. `C` is a client of
-- hostapd.
pub record Calls (C W : Type 0) : Type 0 where
  pub connect : MqttOpts → W → W × Result Mqtt
  pub online : Mqtt → W → W × Option Error
  pub offline : Mqtt → W → W × Option Error
  pub close_mqtt : Mqtt → W → W
  pub new_client : Bytes → Bytes → W → W × Result C
  pub close_client : C → W → W
  pub status : C → W → W × Result Status
  pub run_daemon : Mqtt → Daemon → W → W × Option Error

module _ {C W : Type 0} (calls : Calls C W) where
  -- The deferred calls of `Close`, the last client first.
  unfoldable pub close_clients : List C → W → W
  close_clients [] w = w
  close_clients (c ∷ clients) w = calls.close_client c (close_clients clients w)

  -- The loop that connects to each socket: an error, and the clients that are connected by then.
  unfoldable pub connect_clients : Bytes → List Bytes → W → W × List C × Option Error
  connect_clients dir [] w = (w, [], none)
  connect_clients dir (sock ∷ socks) w =
      let (w1, r) = calls.new_client dir sock w in
      let (w2, clients, e) = connect_clients dir socks w1 in
      elim r [
        | err e' ↦ (w1, [], some (wrapped (codes "unable to connect to hostapd control socket") e'))
        | ok c ↦ (w2, c ∷ clients, e)
      ]

  -- `opts`
  unfoldable pub daemon_opts : Args → Mqtt → List C → List (Opt C)
  daemon_opts args mqtt clients =
      with_ap_name args.ap_name
      ∷ with_hass_opt mqtt
      ∷ with_debounce args.debounce
      ∷ with_hass_autodiscovery args.hass_autodiscovery
      ∷ map with_hostapd clients

  abbrev pub run_built : Mqtt → W × Result Daemon → W × Option Error
  run_built mqtt (w, err e) = (w, some e)
  run_built mqtt (w, ok d) = calls.run_daemon mqtt d w

  abbrev pub run_clients : Args → Mqtt → W × List C × Option Error → W × Option Error
  run_clients args mqtt (w, clients, some e) = (close_clients clients w, some e)
  run_clients args mqtt (w, clients, none) =
      let (w', e) = run_built mqtt (new_daemon calls.status (daemon_opts args mqtt clients) w) in
      (close_clients clients w', e)

  -- The deferred function that publishes the status offline: its error is dropped.
  unfoldable pub clean_up : Mqtt → W × Option Error → W × Option Error
  clean_up mqtt (w, e) = (calls.close_mqtt mqtt (calls.offline mqtt w).0, e)

  -- What follows `StatusOnline`.
  abbrev pub run_online : Args → Mqtt → W × Option Error → W × Option Error
  run_online args mqtt (w, some e) = (w, some e)
  run_online args mqtt (w, none) =
      clean_up mqtt
        (run_clients args mqtt (connect_clients args.sock_dir (split args.hostapd_socks) w))

  abbrev pub run_connected : Args → W × Result Mqtt → W × Option Error
  run_connected args (w, err e) = (w, some e)
  run_connected args (w, ok mqtt) = run_online args mqtt (calls.online mqtt w)

  -- `run`, after the flags are parsed.
  unfoldable pub run : Args → W → W × Option Error
  run args w =
      if args.version
      then (w, none)
      else if args.more_help
      then (w, none)
      else elim (validate args) [
        | some e ↦ (w, some e)
        | none ↦ run_connected args (calls.connect (mqtt_opts args) w)
      ]

-- `main`: the exit code.
unfoldable pub exit_code : Option Error → ℕ
unfolding is_terminating
exit_code none = 0
exit_code (some e) = if is_terminating e then 125 else 1
