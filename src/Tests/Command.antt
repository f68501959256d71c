-- ===== src/Tests/Command.antt =====
-- The command line on concrete arguments.
use wifi_presence.Command.Flags.{
  parse_words, read_one, read_long, read_name, split_value, read_defined, read_flag, parse_flags,
  parsed, exits,
}
use wifi_presence.Command.Flags.RoundTrip.{IsInt64, words_of, parse_flags-words_of}
use wifi_presence.Base.{◌∙◌, ◌==◌, if◌then◌else◌, ◌++◌, Option, ℕ, suc, ap}
use wifi_presence.Base.{
  ◌≡◌, ◌≢◌, refl, arith, true, false, none, some, List, [], ◌∷◌, Bytes, codes, equal, All,
}
use wifi_presence.Base.Errors.{err, Result, Error, ok, wrapped, terminating}
use wifi_presence.Hass.Mqtt.{Mqtt, ClientOptions, new_mqtt, is_set}
use wifi_presence.Hostapd.Status.{Status}
use wifi_presence.Presence.Debounce.{new_debouncer}
use wifi_presence.Presence.Construction.{new_daemon}
use wifi_presence.Command.{
  Args, Entry, Calls, find_unix_sockets, split, default_args, validate, mqtt_opts, connect_clients,
  daemon_opts,
}
use wifi_presence.Command.Sockets.{IsPath}
use wifi_presence.Command.Arguments.{
  validated_mqtt, new_daemon-daemon_opts, Connects, all_connected, connected, Answers, all_answered,
  answered,
}
use wifi_presence.Base.Int.{ℤ, pos, negsuc}
use wifi_presence.Strconv.Atoi.{atoi, parse_digits, parse_uint, positive, negative}
use wifi_presence.Strconv.Itoa.{itoa, atoi-itoa}
use wifi_presence.Tests.Fixtures.{hap2, hap1, daemon}

abbrev failure : Error
failure = wrapped (codes "attach") terminating

abbrev entries : List Entry
entries =
    record { path = codes "/s"; base = codes "s"; is_socket = false; failed = false }
    ∷ record { path = codes "/s/wlan0"; base = codes "wlan0"; is_socket = true; failed = false }
    ∷ record { path = codes "/s/global"; base = codes "global"; is_socket = true; failed = false }
    ∷ record { path = codes "/s/wlan1"; base = codes "wlan1"; is_socket = true; failed = false }
    ∷ []

abbrev found : List Bytes
found = codes "/s/wlan0" ∷ codes "/s/wlan1" ∷ []

finds : find_unix_sockets entries ≡ found
unfolding find_unix_sockets equal
finds = refl

two_found : find_unix_sockets entries ≢ []
two_found = rw finds (λ e. cc)

All-paths : All IsPath (find_unix_sockets entries)
All-paths = rw finds (ground arith)

abbrev pub args : Args
args = record {
  ap_name = codes "AP";
  sock_dir = codes "/tmp";
  hostapd_socks = codes "/s/wlan0";
  mqtt_addr = codes "tcp://broker:1883";
  mqtt_id = codes "id";
  mqtt_prefix = codes "presence";
  mqtt_username = [];
  mqtt_password = [];
  hass_autodiscovery = true;
  hass_prefix = codes "hass";
  debounce = pos 1000000000;
  version = false;
  verbose = false;
  more_help = false;
}

args_valid : validate args ≡ none
unfolding validate is_set
args_valid = refl

validated_mqtt_example :
    (client : ClientOptions) × (m : Mqtt) × (new_mqtt (mqtt_opts args) ≡ ok (client, m))
    × (client.client_id ≡ codes "id")
    × (m.topics.name ≡ codes "AP")
    × (m.topics.prefix ≡ codes "presence")
    × (m.topics.hass_prefix ≡ codes "hass")
validated_mqtt_example = validated_mqtt args args_valid refl

-- A client is the status that it gives.
abbrev calls : Calls Status (Unit {0})
calls = record {
  connect = λ opts w. (w, ok daemon.hass);
  online = λ m w. (w, none);
  offline = λ m w. (w, none);
  close_mqtt = λ m w. w;
  new_client = λ dir sock w. (w, ok hap1);
  close_client = λ c w. w;
  status = λ c w. (w, ok c);
  run_daemon = λ m d w. (w, some failure);
}

-- Two sockets, of which each gives a client of its own, and the number of clients that were made.
abbrev two_calls : Calls Status ℕ
two_calls = record {
  connect = λ opts w. (w, ok daemon.hass);
  online = λ m w. (w, none);
  offline = λ m w. (w, none);
  close_mqtt = λ m w. w;
  new_client = λ dir sock w. (suc w, ok (if w == 0 then hap1 else hap2));
  close_client = λ c w. w;
  status = λ c w. (w, ok c);
  run_daemon = λ m d w. (w, some failure);
}

abbrev two_args : Args
two_args = record args { hostapd_socks = codes "/s/a:/s/b" }

connects :
    Connects two_calls two_args.sock_dir (split two_args.hostapd_socks) 0 (hap1 ∷ hap2 ∷ []) 2
unfolding split
connects = connected refl (connected refl all_connected)

asks : Answers two_calls (hap1 ∷ hap2 ∷ []) 2 (hap1 ∷ hap2 ∷ []) 2
asks = answered refl (answered refl all_answered)

new_daemon-daemon_opts_example :
    (connect_clients two_calls two_args.sock_dir (split two_args.hostapd_socks) 0
      ≡ (2, hap1 ∷ hap2 ∷ [], none))
    × (new_daemon two_calls.status (daemon_opts two_calls two_args daemon.hass (hap1 ∷ hap2 ∷ [])) 2
        ≡ (
          2,
          ok (record {
            ap_name = codes "AP";
            hass = daemon.hass;
            haps = hap1 ∷ hap2 ∷ [];
            db = new_debouncer 1000000000;
            hass_auto_disc = true;
            stations = [];
          }),
        ))
new_daemon-daemon_opts_example =
    new_daemon-daemon_opts two_calls two_args daemon.hass 0 connects asks

-- Durations in nanoseconds: an integer and the unit "ns".
abbrev show_ns : ℤ → Bytes
show_ns z = itoa z ++ codes "ns"

abbrev drop_unit : Bytes → Bytes
drop_unit [] = []
drop_unit (a ∷ []) = []
drop_unit (a ∷ b ∷ []) = []
drop_unit (a ∷ b ∷ c ∷ s) = a ∷ drop_unit (b ∷ c ∷ s)

abbrev to_option : Result ℤ → Option ℤ
to_option (ok z) = some z
to_option (err e) = none

abbrev parse_ns : Bytes → Option ℤ
parse_ns s = to_option (atoi (drop_unit s))

drop_unit-ns : (s : Bytes) → drop_unit (s ++ codes "ns") ≡ s
drop_unit-ns [] = refl
drop_unit-ns (a ∷ []) = refl
drop_unit-ns (a ∷ b ∷ []) = refl
drop_unit-ns (a ∷ b ∷ c ∷ s) = ap (λ t. a ∷ t) (drop_unit-ns (b ∷ c ∷ s))

parse_ns-show_ns : (z : ℤ) → IsInt64 z → parse_ns (show_ns z) ≡ some z
parse_ns-show_ns z (p, n) =
    ap (λ t. to_option (atoi t)) (drop_unit-ns (itoa z)) ∙ ap to_option (atoi-itoa z p n)

parse_flags-words_of_example :
    parse_flags parse_ns (words_of show_ns args) (default_args [] [] []) ≡ parsed args
parse_flags-words_of_example =
    parse_flags-words_of parse_ns show_ns parse_ns-show_ns args (default_args [] [] [])
      (omega arith, omega arith)

-- A value in the next word, an alias, and an operand, at which the reading stops.
reads_words :
    parse_flags parse_ns
      (codes "--apName"
        ∷ codes "Loft"
        ∷ codes "-v"
        ∷ codes "-debounce"
        ∷ codes "-3ns"
        ∷ codes "x"
        ∷ codes "-version"
        ∷ [])
      args
    ≡ parsed (record args { ap_name = codes "Loft"; verbose = true; debounce = negsuc 2 })
unfolding parse_flags parse_words read_one read_long read_name split_value read_defined equal
    read_flag atoi parse_digits parse_uint positive negative
reads_words = refl

rejects_words : parse_flags parse_ns (codes "-nothing" ∷ []) args ≡ exits 2
unfolding parse_flags parse_words read_one read_long read_name split_value read_defined equal
    read_flag
rejects_words = refl
