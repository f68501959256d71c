-- ===== src/Tests/Open.antt =====
-- Clients that are opened, attach and are closed, on the small operating system.
use wifi_presence.Command.{validate, mqtt_opts}
use wifi_presence.Hass.Mqtt.{is_set}
use wifi_presence.Base.{ap, ==_iff}
use wifi_presence.Base.Maps.{nat_key, lookup-insert, lookup-erase}
use wifi_presence.Hostapd.Attach.Detach.{
  attach, attach_response, finally_detach, read_attached, detach, send_detach,
}
use wifi_presence.Hostapd.Attach.{attach_loop}
use wifi_presence.Hostapd.Event.{parse_event}
use wifi_presence.Base.Maps.{erase}
use wifi_presence.Hostapd.Socket.{close, unset_read_deadline}
use wifi_presence.Hostapd.Socket.{set_write_deadline}
use wifi_presence.Hostapd.Socket.{set_read_deadline}
use wifi_presence.Hostapd.Socket.{new_unix_socket_conn}
use wifi_presence.Hostapd.Socket.{close}
use wifi_presence.Hostapd.Ctrl.{new_ctrl}
use wifi_presence.Base.Maps.{lookup}
use wifi_presence.Base.Maps.{insert}
use wifi_presence.Base.Maps.{erase}
use wifi_presence.Base.{trim_space}
use wifi_presence.Base.{has_prefix}
use wifi_presence.Base.Int.{pos}
use wifi_presence.Hostapd.Socket.{Socket, conn_of}
use wifi_presence.Base.{
  equal, ◌≡◌, refl, arith, true, false, none, some, [], ◌∷◌, Bytes, Option, codes, ℕ,
}
use wifi_presence.Base.Errors.{Error, ok, err, terminating, external, wrapped}
use wifi_presence.Hostapd.Event.{Event}
use wifi_presence.Hostapd.Client.Open.{
  Platform, Client, new_client, close_client, client_attach, socket_dir, client_path, attach_path,
  is_valid_socket_path,
}
use wifi_presence.Hostapd.Client.Open.Paths.{HasBase}
use wifi_presence.Hostapd.Client.Open.Lifetime.{same_base_refused, close_client-new_client}
use wifi_presence.Hostapd.Client.Open.Attaching.{client_attach_keeps}
use wifi_presence.Hostapd.Socket.Kernel.{Same}
use wifi_presence.Command.{Calls, run}
use wifi_presence.Command.Resources.{with_clients, UsesLink}
use wifi_presence.Command.Resources.Whole.{run_leaks}
use wifi_presence.Tests.Command.{args}
use wifi_presence.Hass.Mqtt.{Mqtt}
use wifi_presence.Hostapd.Status.{no_status}
use wifi_presence.Base.Paths.{
  base, join_path, clean, render, is_rooted, join_segments, clean_segments, segments_from,
  clean_segment, go_up, base_of, last_segment, trim_slashes, cut_slash,
}
use wifi_presence.Tests.Sockets.{Host, host_os, host_files, host-Kernel, bytes_key}

abbrev platform : Platform
platform = record { goos = codes "linux"; temp_dir = codes "/tmp" }

abbrev wlan0 : Bytes
wlan0 = codes "/var/run/hostapd/wlan0"

abbrev other_wlan0 : Bytes
other_wlan0 = codes "/run/hostapd-5g/wlan0/"

paths_clean : join_path (codes "/tmp/./a/../") (codes "wp.wlan0") ≡ codes "/tmp/wp.wlan0"
unfolding join_path clean render is_rooted join_segments clean_segments segments_from clean_segment
    equal go_up
paths_clean = refl

paths_base : base other_wlan0 ≡ codes "wlan0"
unfolding base base_of last_segment trim_slashes cut_slash
paths_base = refl

wlan0-HasBase : HasBase wlan0
unfolding base base_of last_segment trim_slashes cut_slash
wlan0-HasBase e = absurd (ground (arith, e))

abbrev host : Host
host = record {
  files = [];
  opened = [];
  inbox = codes "PONG\n" ∷ codes "PONG\n" ∷ codes "OK\n" ∷ codes "nonsense" ∷ [];
}

abbrev socket : Socket
socket = record { local_sock = codes "/tmp/wp.wlan0"; descriptor = 0 }

abbrev client : Client Host
client = record {
  local_sock_dir = codes "/tmp";
  ctrl_sock = wlan0;
  socket = socket;
  ctrl = record {
    read_timeout = pos 1000000000;
    write_timeout = pos 1000000000;
    conn = conn_of host_os socket;
    buffer = 4096;
  };
}

abbrev host1 : Host
host1 = record {
  files = (codes "/tmp/wp.wlan0", tt) ∷ [];
  opened = (0, tt) ∷ [];
  inbox = codes "PONG\n" ∷ codes "OK\n" ∷ codes "nonsense" ∷ [];
}

opens : new_client host_os platform [] wlan0 host ≡ (host1, ok client)
unfolding new_client client_path join_path clean render is_rooted join_segments clean_segments
    segments_from clean_segment equal go_up base base_of last_segment trim_slashes cut_slash
    is_valid_socket_path new_unix_socket_conn lookup new_ctrl set_write_deadline set_read_deadline
    has_prefix trim_space insert socket_dir
opens = refl

abbrev host2 : Host
host2 = record host1 { inbox = [] }

abbrev ignore : Event → Unit {0} → Unit {0} × Option Error
ignore event u = (u, none)

attaches :
    client_attach host_os 2 platform client (λ n. false) ignore host1 tt
    ≡ some (host2, tt, some (external 11))
unfolding client_attach attach_path client_path join_path clean render is_rooted join_segments
    clean_segments segments_from clean_segment equal go_up base base_of last_segment trim_slashes
    cut_slash is_valid_socket_path new_unix_socket_conn lookup new_ctrl set_write_deadline
    set_read_deadline has_prefix trim_space insert erase close attach attach_response finally_detach
    unset_read_deadline attach_loop read_attached parse_event detach send_detach
attaches = refl

client_attach_keeps_example :
    ((fd : ℕ) → host_files.is_open fd host2 ≡ host_files.is_open fd host1)
    × (host_files.is_open 0 host2 ≡ true)
    × (host_files.exists (codes "/tmp/wp.wlan0") host2 ≡ true)
client_attach_keeps_example =
    client_attach_keeps host_os host_files host-Kernel 2 platform [] wlan0 (λ n. false) ignore host
      tt wlan0-HasBase opens attaches

same_base : base wlan0 ≡ base other_wlan0
unfolding base base_of last_segment trim_slashes cut_slash
same_base = refl

same_base_refused_example :
    (e : Error) × ((new_client host_os platform [] other_wlan0 host1).1 ≡ err e)
same_base_refused_example =
    same_base_refused host_os host_files host-Kernel platform [] wlan0 other_wlan0 host opens
      same_base

abbrev host3 : Host
host3 = record host1 { files = []; opened = [] }

closes : close_client host_os client host1 ≡ (host3, none)
unfolding close_client close lookup equal erase
closes = refl

close_client-new_client_example : Same host_files host host3
close_client-new_client_example =
    close_client-new_client host_os host_files host-Kernel platform [] wlan0 host opens closes

-- hostapd does not answer PING.
abbrev silent : Host
silent = record host { inbox = [] }

silent_fails : new_client host_os platform [] wlan0 silent ≡ (
  silent,
  err (
      wrapped
        (codes "ping error")
        (wrapped (codes "read error from \"PING\" command") (external 11))),
)
unfolding new_client socket_dir client_path join_path clean render is_rooted join_segments
    clean_segments segments_from clean_segment equal go_up base base_of last_segment trim_slashes
    cut_slash is_valid_socket_path new_unix_socket_conn lookup new_ctrl set_write_deadline
    set_read_deadline has_prefix trim_space insert erase close
silent_fails = refl

-- `run` on the client's socket, with a broker at descriptor 7 and a daemon that ends at once.
abbrev broker : Mqtt
broker = record {
  topics = record { name = codes "AP"; prefix = codes "p"; hass_prefix = codes "h" };
  ap_name = codes "AP";
}

abbrev calls : Calls (Client Host) Host
calls = record {
  connect = λ opts s. (record s { opened = insert 7 tt s.opened }, ok broker);
  online = λ m s. (s, none);
  offline = λ m s. (s, none);
  close_mqtt = λ m s. record s { opened = erase 7 s.opened };
  new_client = λ dir sock s. (s, err (external 0));
  close_client = λ c s. s;
  status = λ c s. (s, ok no_status);
  run_daemon = λ m d s. (s, some terminating);
}

closed_before : host_files.is_open 7 host ≡ false
unfolding lookup
closed_before = refl

calls-UsesLink : UsesLink host_os host_files host-Kernel platform calls 7 (mqtt_opts args) host
calls-UsesLink = record {
  was_closed = closed_before;
  not_connected = λ {s1} {e} c. absurd (ground (arith, ap (λ q. q.1) c));
  connect = λ fd ne. ground (arith, lookup-insert 7 fd tt host.opened, ==_iff 7 fd);
  online = λ m s fd ne. refl;
  offline = λ m s fd ne. refl;
  close_mqtt = λ m s fd ne. ground (arith, lookup-erase 7 fd s.opened, ==_iff 7 fd);
  closed = λ m s. ground (arith, lookup-erase 7 7 s.opened, ==_iff 7 7);
  status = λ c s fd ne. refl;
  run_daemon = λ m d s fd ne. refl;
}

-- A broker that takes no message.
abbrev deaf_calls : Calls (Client Host) Host
deaf_calls = record calls { online = λ m s. (s, some terminating) }

abbrev linked : Host
linked = record host { opened = insert 7 tt host.opened }

args_valid : validate args ≡ none
unfolding validate is_set
args_valid = refl

is_linked : host_files.is_open 7 linked ≡ true
unfolding lookup insert
is_linked = refl

deaf-UsesLink : UsesLink host_os host_files host-Kernel platform deaf_calls 7 (mqtt_opts args) host
deaf-UsesLink = record {
  was_closed = closed_before;
  not_connected = λ {s1} {e} c. absurd (ground (arith, ap (λ q. q.1) c));
  connect = calls-UsesLink.connect;
  online = λ m s fd ne. refl;
  offline = calls-UsesLink.offline;
  close_mqtt = calls-UsesLink.close_mqtt;
  closed = calls-UsesLink.closed;
  status = calls-UsesLink.status;
  run_daemon = calls-UsesLink.run_daemon;
}

-- Such a run leaves the connection open.
left_open : host_files.is_open 7 (run (with_clients host_os platform deaf_calls) args host).0 ≡ true
left_open =
    (run_leaks host_os host_files host-Kernel platform deaf_calls args host 7 deaf-UsesLink refl
        refl args_valid).1
      (broker, linked, linked, terminating, refl, refl, is_linked)
