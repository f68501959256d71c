-- ===== src/Presence/State.antt =====
-- internal/presence/daemon.go: the daemon's state, and what it meets outside: the broker, the clock
-- and the replies of the hostapd clients.
use wifi_presence.Base.{ℕ, suc, Bool, true, false, Option, none, some, List, [], Bytes}
use wifi_presence.Base.Errors.{Error, Result, ok, err}
use wifi_presence.Base.Int.{pos_part}
use wifi_presence.Base.Maps.{Map, lookup, insert}
use wifi_presence.Base.Time.{Time, zero_time}
use wifi_presence.Hass.Broker.{Broker}
use wifi_presence.Hass.Mqtt.{Mqtt}
use wifi_presence.Hostapd.Station as HostapdStation
use wifi_presence.Hostapd.Status.{Status}
use wifi_presence.Presence.Mac.{Mac, mac_key}
use wifi_presence.Presence.Debounce.{Debouncer, cancel, enqueue, expire, run_timer}

-- `type station struct`.
pub record Station : Type 0 where
  pub name : Bytes
  pub mac : Mac
  pub connected : Bool
  pub bssid : Bytes
  pub connected_at : Time
  pub disconnected_at : Time

abbrev pub zero_mac : Mac
zero_mac = record { b0 = 0; b1 = 0; b2 = 0; b3 = 0; b4 = 0; b5 = 0 }

-- The zero value, which an index expression of a map gives for a missing key.
abbrev pub zero_station : Station
zero_station = record {
  name = [];
  mac = zero_mac;
  connected = false;
  bssid = [];
  connected_at = zero_time;
  disconnected_at = zero_time;
}

-- The variables that the callback of a disconnect event captures.
pub record Callback : Type 0 where
  pub mac : Mac
  pub hap : Status

-- `type Daemon struct`: the status of each `hap`, and no logger.
pub record Daemon : Type 0 where
  pub ap_name : Bytes
  pub hass : Mqtt
  pub haps : List Status
  pub db : Debouncer Callback
  pub hass_auto_disc : Bool
  pub stations : Map Mac Station

-- `clock n` is the n-th reading of the clock, and `listing n` the n-th result of a client's `Stations`.
pub record World : Type 0 where
  pub broker : Broker
  pub clock : ℕ → Time
  pub readings : ℕ
  pub listing : ℕ → Result (List HostapdStation.Station)
  pub listings : ℕ

pub record State : Type 0 where
  pub daemon : Daemon
  pub world : World

-- Code that changes the state and may return an error.
abbrev pub M : Type 0 → Type 0
M A = State → State × Result A

-- The rest of a computation, after a call that may have failed.
abbrev pub continue : {A B : Type 0} → (A → M B) → State × Result A → State × Result B
continue f (s, ok a) = f a s
continue f (s, err e) = (s, err e)

infixl 5 ◌>>=◌ ◌>>◌
unfoldable pub ◌>>=◌ : {A B : Type 0} → M A → (A → M B) → M B
◌>>=◌ m f s = continue f (m s)

abbrev pub ◌>>◌ : {B : Type 0} → M (Unit {0}) → M B → M B
m >> k = m >>= (λ _. k)

abbrev pub return : {A : Type 0} → A → M A
return a s = (s, ok a)

abbrev pub lift : {A : Type 0} → Result A → M A
lift r s = (s, r)

abbrev pub when : Bool → M (Unit {0}) → M (Unit {0})
when true m = m
when false m = return tt

-- `time.Now()`.
unfoldable pub now : M Time
now s =
    let w = s.world in
    (record s { world = record w { readings = suc w.readings } }, ok (w.clock w.readings))

-- A call of internal/hass.
abbrev pub to_result : Option Error → Result (Unit {0})
to_result none = ok tt
to_result (some e) = err e

unfoldable pub with_broker : (Broker → Broker × Option Error) → M (Unit {0})
with_broker f s =
    let w = s.world in
    let (b, e) = f w.broker in (record s { world = record w { broker = b } }, to_result e)

-- A call of a client's `Stations`.
unfoldable pub list_stations : M (List HostapdStation.Station)
list_stations s =
    let w = s.world in
    (record s { world = record w { listings = suc w.listings } }, w.listing w.listings)

-- `d.stations[mac]`, and the assignment to it.
unfoldable pub get_station : Mac → M (Option Station)
get_station mac s = (s, ok (lookup mac s.daemon.stations))

unfoldable pub put_station : Mac → Station → M (Unit {0})
put_station mac sta s =
    let d = s.daemon in
    (record s { daemon = record d { stations = insert mac sta d.stations } }, ok tt)

-- `d.db.cancel(mac)` and `d.db.enqueue(mac, cb)`. The runtime reads its clock for a timer.
unfoldable pub db_cancel : Mac → M Bool
db_cancel mac s =
    let d = s.daemon in
    let (db, cancelled) = cancel mac d.db in
    (record s { daemon = record d { db = db } }, ok cancelled)

unfoldable pub db_enqueue : Mac → Callback → M Bool
db_enqueue mac cb s =
    let (s', r) = now s in
    elim r [
      | err e ↦ (s', err e)
      | ok t ↦
          let d = s'.daemon in
          let (db, queued) = enqueue (pos_part t) mac (some cb) d.db in
          (record s' { daemon = record d { db = db } }, ok queued)
    ]

-- The two moments of a timer: its function is started, and passes its critical section.
unfoldable pub expire_timer : ℕ → Time → M (Unit {0})
expire_timer t reading s =
    let d = s.daemon in
    (record s { daemon = record d { db = expire (pos_part reading) t d.db } }, ok tt)

unfoldable pub take_callback : ℕ → M (Option Callback)
take_callback t s =
    let d = s.daemon in
    let (db, cb) = run_timer t d.db in (record s { daemon = record d { db = db } }, ok cb)
