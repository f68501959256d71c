-- ===== src/Presence/Threads.antt =====
-- internal/presence/daemon.go: the goroutines of `Run` that handle an event of hostapd or run the
-- callback of a disconnect event, a critical section or a call of internal/hass at a time. Between two
-- sections any other goroutine may run.
pub mod Alone
pub mod Race
use wifi_presence.Base.{Bool, true, false, Option, none, some, if◌then◌else◌}
use wifi_presence.Base.Errors.{Error, Result, ok, err}
use wifi_presence.Base.Int.{pos}
use wifi_presence.Hass.Messages.{Attrs}
use wifi_presence.Hass.Mqtt.{station_home, station_not_home, station_attributes}
use wifi_presence.Hostapd.Event.{
  Event, station_connect, station_disconnect, terminating, unrecognized,
}
use wifi_presence.Hostapd.Status.{Status}
use wifi_presence.Presence.Mac.{Mac, decode, to_string}
use wifi_presence.Presence.Events.{
  get_daemon, disconnected_for, should_update, is_latent, disconnected_attrs,
}
use wifi_presence.Presence.State.{
  Station, Callback, State, M, ◌>>=◌, ◌>>◌, return, now, with_broker, get_station, put_station,
  db_cancel, db_enqueue,
}

-- Where a goroutine stands, with the local variables that it still uses.
pub data Thread : Type 0 where
  connecting : Status → Mac → Thread  -- before the critical section of a connect event
  cancelling : Status → Mac → Station → Bool → Thread  -- before `d.db.cancel`
  homing : Status → Mac → Station → Thread  -- before `StationHome`
  informing : Status → Mac → Station → Thread  -- before the attributes of a connect event
  disconnecting : Status → Mac → Thread  -- before the critical section of a disconnect event
  enqueueing : Status → Mac → Thread  -- before `d.db.enqueue`
  calling : Callback → Thread  -- before `StationNotHome` in the callback
  looking : Callback → Thread  -- before the critical section of the callback
  reporting : Callback → Station → Thread  -- before the attributes of the callback
  exited : Option Error → Thread  -- has returned

-- `if err := mac.Decode(e.MAC); err != nil { return err }`
unfoldable pub decoded : Result Mac → (Mac → Thread) → Thread
decoded (err e) k = exited (some e)
decoded (ok mac) k = k mac

-- The start of `onHostapdEvent`.
unfoldable pub handler : Status → Event → Thread
unfolding decoded
handler hap (station_connect raw text) = decoded (decode text) (connecting hap)
handler hap (station_disconnect raw text) = decoded (decode text) (disconnecting hap)
handler hap (terminating raw) = exited none
handler hap (unrecognized raw) = exited none

unfoldable pub connect_section : Status → Mac → Option Station → M Thread
connect_section hap mac none = return (exited none)
connect_section hap mac (some sta) = do
  t ← now
  let sta' = record sta { bssid = hap.bssid; connected = true; connected_at = t }
  put_station mac sta'
  return (cancelling hap mac sta' (should_update hap sta))

unfoldable pub disconnect_section : Status → Mac → Option Station → M Thread
disconnect_section hap mac none = return (exited none)
disconnect_section hap mac (some sta) = if is_latent hap sta then return (exited none) else do
  t ← now
  put_station mac (record sta { connected = false; disconnected_at = t })
  return (enqueueing hap mac)

unfoldable pub found_section : Callback → Option Station → M Thread
found_section cb none = return (exited none)
found_section cb (some sta) = return (reporting cb sta)

-- The next section of a goroutine.
unfoldable pub section : Thread → M Thread
section (connecting hap mac) = do sta ← get_station mac; connect_section hap mac sta
section (cancelling hap mac sta update) = do
  cancelled ← db_cancel mac
  return (if update then homing hap mac sta else exited none)
section (homing hap mac sta) = do
  d ← get_daemon
  with_broker (station_home d.hass (to_string mac))
  return (informing hap mac sta)
section (informing hap mac sta) = do
  d ← get_daemon
  gone ← disconnected_for sta
  let attrs : Attrs = record {
    name = sta.name;
    mac = to_string sta.mac;
    is_connected = true;
    ap_name = d.ap_name;
    ssid = hap.ssid;
    bssid = hap.bssid;
    connected_at = some sta.connected_at;
    connected_for = pos 0;
    disconnected_at = none;
    disconnected_for = gone;
  }
  with_broker (station_attributes d.hass (to_string mac) attrs)
  return (exited none)
section (disconnecting hap mac) = do sta ← get_station mac; disconnect_section hap mac sta
section (enqueueing hap mac) = do
  queued ← db_enqueue mac (record { mac = mac; hap = hap })
  return (exited none)
section (calling cb) = do
  d ← get_daemon
  with_broker (station_not_home d.hass (to_string cb.mac))
  return (looking cb)
section (looking cb) = do sta ← get_station cb.mac; found_section cb sta
section (reporting cb sta) = do
  d ← get_daemon
  t ← now
  with_broker (station_attributes d.hass (to_string cb.mac) (disconnected_attrs d cb sta t))
  return (exited none)
section (exited e) = return (exited e)

abbrev pub settle : State × Result Thread → State × Thread
settle (s, ok t) = (s, t)
settle (s, err e) = (s, exited (some e))

-- A goroutine makes one section; an error ends it.
unfoldable pub advance : Thread → State → State × Thread
advance t s = settle (section t s)
