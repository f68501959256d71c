-- ===== src/Presence/Connected.antt =====
-- internal/presence/daemon.go, `connectedStations`, and what `onConfigChange` makes of its error.
use wifi_presence.Base.{List, [], ◌∷◌, if◌then◌else◌}
use wifi_presence.Base.Errors.{Result, ok, err, as_unknown_cmd}
use wifi_presence.Base.Maps.{Map, insert}
use wifi_presence.Hostapd.Status.{Status}
use wifi_presence.Hostapd.Station as HostapdStation
use wifi_presence.Presence.Mac.{Mac, mac_key, decode}
use wifi_presence.Presence.Events.{get_daemon}
use wifi_presence.Presence.State.{M, ◌>>=◌, return, lift, list_stations}

-- `type connectedStation struct`.
pub record ConnectedStation : Type 0 where
  pub hap_status : Status
  pub sta : HostapdStation.Station

abbrev pub Connected : Type 0
Connected = Map Mac ConnectedStation

-- The inner loop of `connectedStations`, over one client's stations.
unfoldable pub add_stations : Status → List HostapdStation.Station → Connected → Result Connected
add_stations hap [] cs = ok cs
add_stations hap (sta ∷ stations) cs =
    let rest : Result Connected = elim (decode sta.mac) [
      | err e ↦ err e
      | ok mac ↦ add_stations hap stations (insert mac (record { hap_status = hap; sta = sta }) cs)
    ] in
    let skipped = add_stations hap stations cs in if sta.associated then rest else skipped

-- The outer loop, over the clients.
unfoldable pub connected_from : List Status → Connected → M Connected
connected_from [] cs = return cs
connected_from (hap ∷ haps) cs = do
  stations ← list_stations
  cs' ← lift (add_stations hap stations cs)
  connected_from haps cs'

-- `connectedStations`.
unfoldable pub connected_stations : M Connected
connected_stations = do d ← get_daemon; connected_from d.haps []

-- The connected stations, where `hostapd.ErrUnknownCmd` counts as none.
unfoldable pub connected_or_none : M Connected
connected_or_none s =
    let (s', r) = connected_stations s in
    elim r [ ok cs ↦ (s', ok cs) | err e ↦ (s', if as_unknown_cmd e then ok [] else err e) ]
