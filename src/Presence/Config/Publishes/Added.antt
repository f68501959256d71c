-- ===== src/Presence/Config/Publishes/Added.antt =====
-- What the processing of a new station publishes.
use mathlib.Core.List.{append_assoc}
use wifi_presence.Base.{
  ap, ◌∙◌, ℕ, suc, ◌≡◌, ◌≢◌, refl, arith, true, false, none, some, [], ◌∷◌, ◌++◌,
}
use wifi_presence.Base.Maps.{Map, lookup, insert, lookup-insert}
use wifi_presence.Base.Time.{add_neg, sub_time, whole_seconds}
use wifi_presence.Presence.Mac.{Mac, mac_key, to_string}
use wifi_presence.Presence.Connected.{ConnectedStation}
use wifi_presence.Presence.Config.{pos, Attrs, added_absent, added_connected}
use wifi_presence.Presence.Delivery.{
  sent, home_message, not_home_message, attrs_message, with_broker-station_home,
  with_broker-station_not_home, with_broker-station_attributes,
}
use wifi_presence.Presence.Events.{get_daemon}
use wifi_presence.Presence.Events.Branches.{published}
use wifi_presence.Presence.State.{Station, State, ◌>>=◌, now, put_station, db_cancel}
use wifi_presence.Presence.Config.Publishes.{View, added_messages}
use wifi_presence.Presence.Config.Publishes.Each.{Agrees, Publishes}
use wifi_presence.Base.Maps.{Map}
use wifi_presence.Presence.Debounce.{cancel}

lookup-insert_other :
    (k mac : Mac) (sta : Station) (stations : Map Mac Station)
    → k ≢ mac
    → lookup k (insert mac sta stations) ≡ lookup k stations
lookup-insert_other k mac sta stations ne =
    ground (arith, lookup-insert mac k sta stations, mac_key.beq_iff mac k)

pub added_absent_lem :
    (v : View) (mac : Mac) (sta : Station) (s : State)
    → Agrees v s
    → Publishes v mac s.world.readings
        (not_home_message v.hass (to_string mac) ∷ [])
        s
        (added_absent mac sta s)
unfolding added_absent ◌>>=◌ get_daemon put_station
added_absent_lem v mac sta s a =
    let d = s.daemon in
    let s' : State = record s {
      daemon = record d { stations = insert mac (record sta { connected = false }) d.stations };
    } in
    rw (with_broker-station_not_home d.hass (to_string mac) s' a.delivered) record {
      returned = refl;
      agrees = record {
        hass = a.hass;
        ap_name = a.ap_name;
        auto_disc = a.auto_disc;
        clock = a.clock;
        delivered = a.delivered;
      };
      published = ap (λ h. published s ++ not_home_message h (to_string mac) ∷ []) a.hass;
      readings = refl;
      others = λ k ne. lookup-insert_other k mac (record sta { connected = false }) d.stations ne;
    }

pub added_connected_lem :
    (v : View) (mac : Mac) (sta : Station) (cs : ConnectedStation) (n : ℕ) (s : State)
    → Agrees v s
    → s.world.readings ≡ n
    → Publishes v mac
        (suc (suc n))
        (added_messages v n mac sta (some cs))
        s
        (added_connected mac sta cs s)
unfolding added_connected ◌>>=◌ get_daemon put_station now db_cancel
added_connected_lem v mac sta cs n s a r =
    let d = s.daemon in
    let w = s.world in
    let t = w.clock w.readings in
    let new : Station = record sta {
      connected = true;
      connected_at = add_neg t cs.sta.connected;
      bssid = cs.hap_status.bssid;
    } in
    let s' : State = record {
      daemon = record d { db = (cancel mac d.db).0; stations = insert mac new d.stations };
      world = record w { readings = suc (suc w.readings) };
    } in
    let at : (i : ℕ) → w.clock i ≡ v.clock i = λ i. ap (λ c. c i) a.clock in
    let home = home_message d.hass (to_string mac) in
    let shown : Attrs = record {
      name = sta.name;
      mac = to_string sta.mac;
      is_connected = true;
      ap_name = d.ap_name;
      ssid = cs.hap_status.ssid;
      bssid = cs.hap_status.bssid;
      connected_at = some (add_neg t cs.sta.connected);
      connected_for =
          whole_seconds (sub_time (w.clock (suc w.readings)) (add_neg t cs.sta.connected));
      disconnected_at = none;
      disconnected_for = pos 0;
    } in
    rw
      (
        with_broker-station_home d.hass (to_string mac) s' a.delivered,
        with_broker-station_attributes d.hass (to_string mac) shown (sent home s') a.delivered,
      )
      record {
        returned = refl;
        agrees = record {
          hass = a.hass;
          ap_name = a.ap_name;
          auto_disc = a.auto_disc;
          clock = a.clock;
          delivered = a.delivered;
        };
        published =
            append_assoc (published s) (home ∷ []) (attrs_message d.hass (to_string mac) shown ∷ [])
            ∙ simp (a.hass, a.ap_name, at, r);
        readings = ap (λ i. suc (suc i)) r;
        others = λ k ne. lookup-insert_other k mac new d.stations ne;
      }
