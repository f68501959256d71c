-- ===== src/Presence/Threads/Alone.antt =====
-- A goroutine that no other interrupts does what its handler does.
use wifi_presence.Base.{
  ℕ, zero, suc, ◌≡◌, refl, arith, true, Option, none, some, Bool-cases, Option-cases, inl, inr,
}
use wifi_presence.Base.Errors.{Error, Result, ok, err, Result-cases}
use wifi_presence.Base.Time.{is_zero}
use wifi_presence.Base.Maps.{lookup, insert}
use wifi_presence.Presence.Debounce.{cancel}
use wifi_presence.Hass.Mqtt.{station_home, station_not_home}
use wifi_presence.Hostapd.Event.{
  Event, station_connect, station_disconnect, terminating, unrecognized,
}
use wifi_presence.Hostapd.Status.{Status}
use wifi_presence.Presence.Mac.{Mac, mac_key, decode, to_string}
use wifi_presence.Presence.Events.{
  get_daemon, disconnected_for, disconnected_attrs, publish_connected, should_update, is_latent,
  on_connect, on_disconnect, on_hostapd_event, disconnect_callback,
}
use wifi_presence.Presence.State.{
  ◌>>=◌, Station, Callback, State, with_broker, get_station, put_station, now, db_cancel,
  db_enqueue,
}
use wifi_presence.Presence.Threads.{
  connect_section, disconnect_section, found_section, Thread, connecting, homing, disconnecting,
  calling, exited, handler, section, advance,
}

-- `n` sections of a goroutine with nothing between them.
unfoldable pub run_alone : ℕ → Thread → State → State × Thread
run_alone zero t s = (s, t)
run_alone (suc n) t s = let (s', t') = advance t s in run_alone n t' s'

-- The goroutine of a handler that has returned.
abbrev pub returned : State × Result (Unit {0}) → State × Thread
returned (s, ok _) = (s, exited none)
returned (s, err e) = (s, exited (some e))

run_alone-exited : (n : ℕ) (e : Option Error) (s : State) → run_alone n (exited e) s ≡ (s, exited e)
unfolding run_alone advance section connect_section disconnect_section found_section get_station
    put_station now db_cancel db_enqueue get_daemon disconnected_for disconnected_attrs ◌>>=◌
run_alone-exited zero e s = refl
run_alone-exited (suc n) e s = run_alone-exited n e s

informing_alone :
    (hap : Status) (mac : Mac) (sta : Station) (s : State)
    → run_alone 2 (homing hap mac sta) s ≡ returned (publish_connected hap mac sta s)
unfolding run_alone advance section connect_section disconnect_section found_section get_station
    put_station now db_cancel db_enqueue get_daemon disconnected_for disconnected_attrs
    publish_connected with_broker ◌>>=◌
informing_alone hap mac sta s =
    let h = station_home s.daemon.hass (to_string mac) s.world.broker in
    elim (Option-cases h.1) [
      | inl e ↦ elim (Bool-cases (is_zero sta.disconnected_at)) [
        | inl z ↦ ground arith
        | inr z ↦ ground arith
      ]
      | inr (x, e) ↦ ground arith
    ]

pub connecting_alone :
    (hap : Status) (mac : Mac) (s : State)
    → run_alone 4 (connecting hap mac) s ≡ returned (on_connect hap mac s)
unfolding run_alone advance section connect_section disconnect_section found_section get_station
    put_station now db_cancel db_enqueue get_daemon disconnected_for disconnected_attrs on_connect
    ◌>>=◌
connecting_alone hap mac s = elim (Option-cases (lookup mac s.daemon.stations)) [
  | inl e ↦ ground arith
  | inr (sta, e) ↦
      let w = s.world in
      let d = s.daemon in
      let sta' : Station = record sta {
        bssid = hap.bssid;
        connected = true;
        connected_at = w.clock w.readings;
      } in
      let s' : State = record {
        daemon = record d { stations = insert mac sta' d.stations; db = (cancel mac d.db).0 };
        world = record w { readings = suc w.readings };
      } in
      let r = informing_alone hap mac sta' s' in
      elim (Bool-cases (should_update hap sta)) [ inl u ↦ rw (e, u) r | inr u ↦ rw (e, u) refl ]
]

disconnecting_alone :
    (hap : Status) (mac : Mac) (s : State)
    → run_alone 4 (disconnecting hap mac) s ≡ returned (on_disconnect hap mac s)
unfolding run_alone advance section connect_section disconnect_section found_section get_station
    put_station now db_cancel db_enqueue get_daemon disconnected_for disconnected_attrs
    on_disconnect ◌>>=◌
disconnecting_alone hap mac s = elim (Option-cases (lookup mac s.daemon.stations)) [
  | inl e ↦ rw e refl
  | inr (sta, e) ↦ elim (Bool-cases (is_latent hap sta)) [
    | inl l ↦ rw (e, l) refl
    | inr l ↦ rw (e, l) refl
  ]
]

-- The goroutine that handles an event makes at most four sections, and with no other between them it
-- leaves the state and returns the error of `onHostapdEvent`.
pub handler_alone :
    (hap : Status) (e : Event) (s : State)
    → run_alone 4 (handler hap e) s ≡ returned (on_hostapd_event hap e s)
unfolding handler on_hostapd_event ◌>>=◌
handler_alone hap (station_connect raw text) s = elim (Result-cases (decode text)) [
  | inl (mac, e) ↦ rw e (connecting_alone hap mac s)
  | inr (x, e) ↦ rw e (run_alone-exited 4 (some x) s)
]
handler_alone hap (station_disconnect raw text) s = elim (Result-cases (decode text)) [
  | inl (mac, e) ↦ rw e (disconnecting_alone hap mac s)
  | inr (x, e) ↦ rw e (run_alone-exited 4 (some x) s)
]
handler_alone hap (terminating raw) s = run_alone-exited 4 none s
handler_alone hap (unrecognized raw) s = run_alone-exited 4 none s

-- The same for the callback of a disconnect event, with three sections.
pub callback_alone :
    (cb : Callback) (s : State) → run_alone 3 (calling cb) s ≡ returned (disconnect_callback cb s)
unfolding run_alone advance section connect_section disconnect_section found_section get_station
    put_station now db_cancel db_enqueue get_daemon disconnected_for disconnected_attrs
    disconnect_callback with_broker ◌>>=◌
callback_alone cb s =
    elim (Option-cases (station_not_home s.daemon.hass (to_string cb.mac) s.world.broker).1) [
      | inr (x, e) ↦ ground arith
      | inl e ↦ elim (Option-cases (lookup cb.mac s.daemon.stations)) [
        | inl n ↦ ground arith
        | inr (sta, n) ↦ ground arith
      ]
    ]
