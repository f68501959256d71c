-- ===== src/Presence/Events.antt =====
-- internal/presence/daemon.go, `onHostapdEvent` and the callback of a disconnect event. The handler's
-- critical sections run with no other handler between them.
pub mod Branches
pub mod Total
pub mod Absence
use wifi_presence.Base.{
  ℕ, Bool, true, false, not, ◌&&◌, ◌||◌, Option, none, some, Bytes, equal, if◌then◌else◌,
}
use wifi_presence.Base.Errors.{Result, ok, err}
use wifi_presence.Base.Int.{ℤ, pos}
use wifi_presence.Base.Time.{Time, is_zero, sub_time, whole_seconds}
use wifi_presence.Hass.Messages.{Attrs}
use wifi_presence.Hass.Mqtt.{station_home, station_not_home, station_attributes}
use wifi_presence.Hostapd.Status.{Status}
use wifi_presence.Hostapd.Event.{
  Event, station_connect, station_disconnect, terminating, unrecognized,
}
use wifi_presence.Presence.Mac.{Mac, decode, to_string}
use wifi_presence.Presence.State.{
  Station, Callback, Daemon, State, M, ◌>>=◌, ◌>>◌, return, lift, when, now, with_broker,
  get_station, put_station, db_cancel, db_enqueue, expire_timer, take_callback,
}

-- The field `hass` of the daemon, and its other settings.
unfoldable pub get_daemon : M Daemon
get_daemon s = (s, ok s.daemon)

unfoldable pub disconnected_for : Station → M ℤ
disconnected_for sta =
    if is_zero sta.disconnected_at
    then return (pos 0)
    else do t ← now; return (whole_seconds (sub_time t sta.disconnected_at))

-- The messages of a connect event.
unfoldable pub publish_connected : Status → Mac → Station → M (Unit {0})
unfolding get_daemon disconnected_for
publish_connected hap mac sta = do
  d ← get_daemon
  with_broker (station_home d.hass (to_string mac))
  gone ← disconnected_for sta
  let attrs : Attrs = record {
    name = sta.name;
    mac = to_string sta.mac;
    is_connected = true;
    ap_name = d.ap_name;
    ssid = hap.ssid;
    bssid = hap.bssid;
    connected_at = some sta.connected_at;
    connected_for = pos 0;
    disconnected_at = none;
    disconnected_for = gone;
  }
  with_broker (station_attributes d.hass (to_string mac) attrs)

-- `shouldUpdate`.
unfoldable pub should_update : Status → Station → Bool
should_update hap sta = not sta.connected || not (equal sta.bssid hap.bssid)

-- A connect event of a tracked station.
unfoldable pub connect_tracked : Status → Mac → Station → M (Unit {0})
unfolding now put_station db_cancel should_update publish_connected
connect_tracked hap mac sta = do
  t ← now
  let sta' = record sta { bssid = hap.bssid; connected = true; connected_at = t }
  put_station mac sta'
  cancelled ← db_cancel mac
  when (should_update hap sta) (publish_connected hap mac sta')

unfoldable pub on_connect : Status → Mac → M (Unit {0})
unfolding get_station connect_tracked
on_connect hap mac = do
  sta ← get_station mac
  elim sta [ none ↦ return tt | some sta ↦ connect_tracked hap mac sta ]

-- `sta.connected && sta.bssid != hap.status.BSSID`: the event is that of an access point which the
-- station has left.
unfoldable pub is_latent : Status → Station → Bool
is_latent hap sta = sta.connected && not (equal sta.bssid hap.bssid)

-- A disconnect event of a tracked station.
unfoldable pub disconnect_tracked : Status → Mac → Station → M (Unit {0})
unfolding now put_station db_enqueue is_latent
disconnect_tracked hap mac sta = if is_latent hap sta then return tt else do
  t ← now
  put_station mac (record sta { connected = false; disconnected_at = t })
  queued ← db_enqueue mac (record { mac = mac; hap = hap })
  return tt

unfoldable pub on_disconnect : Status → Mac → M (Unit {0})
unfolding get_station disconnect_tracked
on_disconnect hap mac = do
  sta ← get_station mac
  elim sta [ none ↦ return tt | some sta ↦ disconnect_tracked hap mac sta ]

-- `onHostapdEvent`.
unfoldable pub on_hostapd_event : Status → Event → M (Unit {0})
unfolding on_connect on_disconnect
on_hostapd_event hap (station_connect raw text) = do mac ← lift (decode text); on_connect hap mac
on_hostapd_event hap (station_disconnect raw text) = do
  mac ← lift (decode text)
  on_disconnect hap mac
on_hostapd_event hap (terminating raw) = return tt
on_hostapd_event hap (unrecognized raw) = return tt

-- The attributes that the callback publishes.
unfoldable pub disconnected_attrs : Daemon → Callback → Station → Time → Attrs
disconnected_attrs d cb sta t = record {
  name = sta.name;
  mac = to_string sta.mac;
  is_connected = false;
  ap_name = d.ap_name;
  ssid = cb.hap.ssid;
  bssid = cb.hap.bssid;
  connected_at = none;
  connected_for = whole_seconds (sub_time t sta.connected_at);
  disconnected_at = some sta.disconnected_at;
  disconnected_for = pos 0;
}

-- The callback of a disconnect event. Its error is sent to the channel `errs`, which ends `Run`.
unfoldable pub disconnect_callback : Callback → M (Unit {0})
unfolding get_daemon get_station now disconnected_attrs
disconnect_callback cb = do
  d ← get_daemon
  with_broker (station_not_home d.hass (to_string cb.mac))
  found ← get_station cb.mac
  elim found [
    | none ↦ return tt
    | some sta ↦ do
      t ← now
      with_broker (station_attributes d.hass (to_string cb.mac) (disconnected_attrs d cb sta t))
  ]

-- The runtime starts the function of timer `t`, if it is due.
unfoldable pub timer_expires : ℕ → M (Unit {0})
unfolding now expire_timer
timer_expires t = do reading ← now; expire_timer t reading

-- The function of timer `t` passes its critical section, and calls the callback.
unfoldable pub timer_runs : ℕ → M (Unit {0})
unfolding take_callback disconnect_callback
timer_runs t = do
  cb ← take_callback t
  elim cb [ none ↦ return tt | some cb ↦ disconnect_callback cb ]
