-- ===== src/Presence/Events/Branches.antt =====
-- Every branch of `onHostapdEvent`.
use wifi_presence.Base.{
  not, suc, ◌≡◌, ◌≢◌, refl, arith, true, false, none, some, List, [], ◌∷◌, ◌++◌, equal, equal_iff,
  if◌then◌else◌, ◌&&◌, Bool-cases, inl, inr, ap,
}
use wifi_presence.Base.Errors.{ok}
use wifi_presence.Base.Int.{pos, pos_part}
use wifi_presence.Base.Time.{Time, is_zero, sub_time, whole_seconds}
use wifi_presence.Base.Maps.{lookup, insert}
use wifi_presence.Hass.Messages.{Attrs}
use wifi_presence.Hass.Broker.{Message}
use wifi_presence.Hostapd.Status.{Status}
use wifi_presence.Presence.Mac.{Mac, mac_key, to_string}
use wifi_presence.Presence.Debounce.{cancel, enqueue}
use wifi_presence.Presence.Delivery.{
  AllDelivered, sent, home_message, attrs_message, with_broker-station_home,
  with_broker-station_attributes,
}
use wifi_presence.Presence.State.{now, ◌>>=◌, Station, Daemon, State, when}
use wifi_presence.Presence.Events.{
  disconnected_for, publish_connected, should_update, on_connect, is_latent, on_disconnect,
}

-- The attributes that a connect event publishes, at the clock reading `t`.
abbrev pub connected_attrs : Daemon → Status → Station → Time → Attrs
connected_attrs d hap sta t = record {
  name = sta.name;
  mac = to_string sta.mac;
  is_connected = true;
  ap_name = d.ap_name;
  ssid = hap.ssid;
  bssid = hap.bssid;
  connected_at = some sta.connected_at;
  connected_for = pos 0;
  disconnected_at = none;
  disconnected_for =
      if is_zero sta.disconnected_at then pos 0 else whole_seconds (sub_time t sta.disconnected_at);
}

-- The attributes of a station that was connected from `since`, is gone since `left` and was reported by
-- the access point `hap`, at the clock reading `t`.
abbrev pub absent_attrs : Daemon → Status → Station → Time → Time → Time → Attrs
absent_attrs d hap sta since left t = record {
  name = sta.name;
  mac = to_string sta.mac;
  is_connected = false;
  ap_name = d.ap_name;
  ssid = hap.ssid;
  bssid = hap.bssid;
  connected_at = none;
  connected_for = whole_seconds (sub_time t since);
  disconnected_at = some left;
  disconnected_for = pos 0;
}

abbrev pub published : State → List Message
published s = s.world.broker.published

abbrev PublishesConnected : Status → Mac → Station → State → Type 0
PublishesConnected hap mac sta s =
    let (s', r) = publish_connected hap mac sta s in
    let d = s.daemon in
    (r ≡ ok tt)
    × (s'.daemon ≡ d)
    × (published s'
        ≡ (published s ++ home_message d.hass (to_string mac) ∷ [])
          ++ attrs_message d.hass (to_string mac)
              (connected_attrs d hap sta (s.world.clock s.world.readings))
            ∷ [])
    × AllDelivered s'

publish_connected_lem :
    (hap : Status) (mac : Mac) (sta : Station) (s : State)
    → AllDelivered s
    → PublishesConnected hap mac sta s
unfolding publish_connected ◌>>=◌ now disconnected_for
publish_connected_lem hap mac sta s h =
    let d = s.daemon in
    let s' = sent (home_message d.hass (to_string mac)) s in
    let w = s'.world in
    let s'' : State = record s' { world = record w { readings = suc w.readings } } in
    let attrs = connected_attrs d hap sta (w.clock w.readings) in
    elim (Bool-cases (is_zero sta.disconnected_at)) [
      | inl never ↦
          rw
            (
              with_broker-station_home d.hass (to_string mac) s h,
              never,
              with_broker-station_attributes d.hass (to_string mac)
                  (record attrs { disconnected_for = pos 0 }) s' h,
            )
            (refl, refl, refl, h)
      | inr gone ↦
          rw
            (
              with_broker-station_home d.hass (to_string mac) s h,
              gone,
              with_broker-station_attributes d.hass (to_string mac)
                  (record attrs {
                    disconnected_for =
                        whole_seconds (sub_time (w.clock w.readings) sta.disconnected_at);
                  })
                  s'' h,
            )
            (refl, refl, refl, h)
    ]

-- What a connect event makes of a tracked station.
abbrev pub connected_at_hap : Status → Time → Station → Station
connected_at_hap hap t sta = record sta { bssid = hap.bssid; connected = true; connected_at = t }

-- The state of the daemon in the middle of a connect event, before anything is published.
abbrev pub after_connect : Status → Mac → Station → State → State
after_connect hap mac sta s =
    let d = s.daemon in
    let w = s.world in
    record {
      daemon = record d {
        stations = insert mac (connected_at_hap hap (w.clock w.readings) sta) d.stations;
        db = (cancel mac d.db).0;
      };
      world = record w { readings = suc w.readings };
    }

pub on_connect-some :
    (hap : Status) (mac : Mac) (sta : Station) (s : State)
    → lookup mac s.daemon.stations ≡ some sta
    → on_connect hap mac s
      ≡ when
          (should_update hap sta)
          (publish_connected hap mac (connected_at_hap hap (s.world.clock s.world.readings) sta))
          (after_connect hap mac sta s)
unfolding on_connect ◌>>=◌
on_connect-some hap mac sta s e = rw e

should_update-away :
    (hap : Status) (sta : Station)
    → (sta.connected && equal sta.bssid hap.bssid) ≡ false
    → should_update hap sta ≡ true
unfolding should_update
should_update-away hap sta e = ground arith

should_update-there :
    (hap : Status) (sta : Station)
    → (sta.connected && equal sta.bssid hap.bssid) ≡ true
    → should_update hap sta ≡ false
unfolding should_update
should_update-there hap sta e = ground arith

-- A connect event of a tracked station, where the broker completes every message with no error:
-- the handler returns no error, the station is connected to this access point from the time of
-- the clock reading, a queued callback is cancelled, and where the station was disconnected or on
-- another access point, its state "connected" is published and then its attributes; where it was
-- connected to this access point, nothing is.
pub on_connect_tracked :
    (hap : Status) (mac : Mac) (sta : Station) (s : State)
    → AllDelivered s
    → lookup mac s.daemon.stations ≡ some sta
    → let sta' = connected_at_hap hap (s.world.clock s.world.readings) sta in
      let s' = (on_connect hap mac s).0 in
      ((on_connect hap mac s).1 ≡ ok tt)
      × (s'.daemon.stations ≡ insert mac sta' s.daemon.stations)
      × (s'.daemon.db ≡ (cancel mac s.daemon.db).0)
      × (published s' ≡ (
          if sta.connected && equal sta.bssid hap.bssid
          then published s
          else (published s ++ home_message s.daemon.hass (to_string mac) ∷ [])
            ++ attrs_message s.daemon.hass
                (to_string mac)
                (connected_attrs s.daemon hap sta' (s.world.clock (suc s.world.readings)))
              ∷ []))
on_connect_tracked hap mac sta s h e =
    elim (Bool-cases (sta.connected && equal sta.bssid hap.bssid)) [
      | inr away ↦
          let update = should_update-away hap sta away in
          let sta' = connected_at_hap hap (s.world.clock s.world.readings) sta in
          let (r, d, p, _) = publish_connected_lem hap mac sta' (after_connect hap mac sta s) h in
          rw (on_connect-some hap mac sta s e, update, away)
            (r, ap (λ (x : Daemon). x.stations) d, ap (λ (x : Daemon). x.db) d, p)
      | inl there ↦
          let none = should_update-there hap sta there in
          rw (on_connect-some hap mac sta s e, none, there) (refl, refl, refl, refl)
    ]

-- A disconnect event of a tracked station.
abbrev pub disconnected_at : Time → Station → Station
disconnected_at t sta = record sta { connected = false; disconnected_at = t }

-- A station that is not connected, or is connected to this access point.
pub not_latent :
    (hap : Status) (sta : Station)
    → (sta.connected && not (equal sta.bssid hap.bssid)) ≡ false
    → is_latent hap sta ≡ false
unfolding is_latent
not_latent hap sta h = h

-- A connect or disconnect event of a station that is not tracked changes nothing and returns no
-- error.
pub untracked_ignored :
    (hap : Status) (mac : Mac) (s : State)
    → lookup mac s.daemon.stations ≡ none
    → (on_connect hap mac s ≡ (s, ok tt)) × (on_disconnect hap mac s ≡ (s, ok tt))
unfolding on_connect on_disconnect ◌>>=◌
untracked_ignored hap mac s e = (rw e, rw e)

-- A disconnect event from an access point other than the one that a tracked station is connected
-- to changes nothing and returns no error.
pub latent_ignored :
    (hap : Status) (mac : Mac) (sta : Station) (s : State)
    → lookup mac s.daemon.stations ≡ some sta
    → sta.connected ≡ true
    → sta.bssid ≢ hap.bssid
    → on_disconnect hap mac s ≡ (s, ok tt)
unfolding on_disconnect ◌>>=◌
latent_ignored hap mac sta s e c ne =
    let differ : equal sta.bssid hap.bssid ≡ false =
      ground (arith, equal_iff sta.bssid hap.bssid) in
    rw (e, c, differ)

-- A disconnect event of a tracked station, unless it comes from another access point than the one
-- the station is connected to, publishes nothing and returns no error: the station is
-- disconnected from the time of the clock reading, and a callback for it is handed to the
-- debouncer.
pub on_disconnect_tracked :
    (hap : Status) (mac : Mac) (sta : Station) (s : State)
    → lookup mac s.daemon.stations ≡ some sta
    → is_latent hap sta ≡ false
    → let d = s.daemon in
      let w = s.world in
      on_disconnect hap mac s ≡ (
        record {
          daemon = record d {
            stations = insert mac (disconnected_at (w.clock w.readings) sta) d.stations;
            db =
                (enqueue
                  (pos_part (w.clock (suc w.readings)))
                  mac
                  (some (record { mac = mac; hap = hap }))
                  d.db).0;
          };
          world = record w { readings = suc (suc w.readings) };
        },
        ok tt,
      )
unfolding on_disconnect ◌>>=◌
on_disconnect_tracked hap mac sta s e latent = rw (e, latent)
