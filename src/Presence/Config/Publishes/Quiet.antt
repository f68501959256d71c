-- ===== src/Presence/Config/Publishes/Quiet.antt =====
-- Neither the diff, the removal nor the listing of the connected stations publishes.
use wifi_presence.Base.{
  ◌≡◌, ◌∙◌, refl, Bool, true, List, [], ◌∷◌, Option-cases, inl, inr, if◌then◌else◌,
}
use wifi_presence.Base.Errors.{Result, ok, err, Result-cases}
use wifi_presence.Base.Maps.{Map, lookup, insert, erase}
use wifi_presence.Hass.Messages.{TrackConfig}
use wifi_presence.Hostapd.Status.{Status}
use wifi_presence.Presence.Mac.{Mac, mac_key, decode}
use wifi_presence.Presence.Connected.{
  Connected, add_stations, connected_from, connected_stations, connected_or_none,
}
use wifi_presence.Presence.Config.{
  sta_removed, Changes, classify, is_update, or_zero, diff_devices, remove_missing,
}
use wifi_presence.Presence.Events.{get_daemon}
use wifi_presence.Presence.State.{
  Station, State, M, ◌>>=◌, continue, lift, get_station, put_station, list_stations,
}

-- Nothing is published, and the clock is not read.
pub record Quiet (s s' : State) : Type 0 where
  pub broker : s'.world.broker ≡ s.world.broker
  pub readings : s'.world.readings ≡ s.world.readings

pub Quiet-refl : (s : State) → Quiet s s
Quiet-refl s = record { broker = refl; readings = refl }

pub Quiet-trans : (s s' s'' : State) → Quiet s s' → Quiet s' s'' → Quiet s s''
Quiet-trans s s' s'' a b = record {
  broker = b.broker ∙ a.broker;
  readings = b.readings ∙ a.readings;
}

pub diff_devices-Quiet :
    (devices : List TrackConfig) (changes : Changes) (u : Bool) (s : State)
    → Quiet s (diff_devices devices changes u s).0
unfolding diff_devices ◌>>=◌ get_station put_station
diff_devices-Quiet [] changes u s = Quiet-refl s
diff_devices-Quiet (dev ∷ devices) changes u s = elim (Result-cases (decode dev.mac)) [
  | inr (x, q) ↦ rw (diff_devices, q) (Quiet-refl s)
  | inl (k, q) ↦
      let d = s.daemon in
      let sta = lookup k d.stations in
      let s1 : State = record s {
        daemon = record d {
          stations = insert k (record (or_zero sta) { name = dev.name; mac = k }) d.stations;
        };
      } in
      let c = classify sta dev.name in
      let rest =
        diff_devices-Quiet devices (insert k c changes) (if is_update c then true else u) s1 in
      rw (diff_devices, q) record { broker = rest.broker; readings = rest.readings }
]

pub remove_missing-Quiet :
    (stations : Map Mac Station) (changes : Changes) (s : State)
    → Quiet s (remove_missing stations changes s).0
unfolding remove_missing ◌>>=◌
remove_missing-Quiet [] changes s = Quiet-refl s
remove_missing-Quiet ((k, sta) ∷ stations) changes s =
    let d = s.daemon in
    let s' : State = record s { daemon = record d { stations = erase k d.stations } } in
    elim (Option-cases (lookup k changes)) [
      | inr (c, e) ↦ rw (remove_missing, e) (remove_missing-Quiet stations changes s)
      | inl e ↦
          let rest = remove_missing-Quiet stations (insert k sta_removed changes) s' in
          rw (remove_missing, e) record { broker = rest.broker; readings = rest.readings }
    ]

-- The calls of the clients only list: the daemon stays as it is, too.
pub record Lists (s s' : State) : Type 0 where
  pub daemon : s'.daemon ≡ s.daemon
  pub broker : s'.world.broker ≡ s.world.broker
  pub readings : s'.world.readings ≡ s.world.readings

pub Lists-refl : (s : State) → Lists s s
Lists-refl s = record { daemon = refl; broker = refl; readings = refl }

Lists-trans : (s s' s'' : State) → Lists s s' → Lists s' s'' → Lists s s''
Lists-trans s s' s'' a b = record {
  daemon = b.daemon ∙ a.daemon;
  broker = b.broker ∙ a.broker;
  readings = b.readings ∙ a.readings;
}

continue-Lists :
    {A B : Type 0} (f : A → M B) (s : State) (q : State × Result A)
    → Lists s q.0
    → ((a : A) (s' : State) → Lists s' (f a s').0)
    → Lists s (continue f q).0
continue-Lists f s (s1, err e) h k = h
continue-Lists f s (s1, ok a) h k = Lists-trans s s1 (f a s1).0 h (k a s1)

connected_from-Lists :
    (haps : List Status) (cs : Connected) (s : State) → Lists s (connected_from haps cs s).0
unfolding connected_from ◌>>=◌ list_stations
connected_from-Lists [] cs s = Lists-refl s
connected_from-Lists (hap ∷ haps) cs s =
    continue-Lists
      (λ stations. lift (add_stations hap stations cs) >>= (λ cs'. connected_from haps cs')) s
      (list_stations s) (record { daemon = refl; broker = refl; readings = refl })
      (λ stations s1.
        continue-Lists (λ cs'. connected_from haps cs') s1 (s1, add_stations hap stations cs)
          (Lists-refl s1) (λ cs' s2. connected_from-Lists haps cs' s2))

pub connected_or_none-Lists : (s : State) → Lists s (connected_or_none s).0
unfolding connected_or_none connected_stations ◌>>=◌ get_daemon
connected_or_none-Lists s =
    let listed = connected_from-Lists s.daemon.haps [] s in
    elim (Result-cases (connected_stations s).1) [
      | inl (cs, e) ↦ rw (connected_or_none, e) listed
      | inr (x, e) ↦ rw (connected_or_none, e) listed
    ]
