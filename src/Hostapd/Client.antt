-- ===== src/Hostapd/Client.antt =====
-- internal/hostapd/client.go, `Stations`. The loop over STA-NEXT runs on fuel: hostapd decides how long
-- it goes on.
pub mod Listing
pub mod Open
use wifi_presence.Base.{
  ℕ, zero, suc, ◌<◌, ◌≡◌, refl, arith, Option, none, some, List, [], ◌∷◌, ◌++◌, Bytes, length,
  codes, true,
}
use wifi_presence.Base.Errors.{Error, Result, ok, err, unknown_cmd}
use wifi_presence.Hostapd.Station.{Station}
use wifi_presence.Hostapd.Ctrl.{
  Ctrl, Reply, failed, nothing, bad, got, is_unknown, cmd, station_first, station_next,
}

module _ {S : Type 0} where
  -- The loop: `mac` is that of the last station, `found` the stations so far. `if !ok { break }` comes
  -- before the test of the error.
  unfoldable pub stations_loop :
      ℕ → Ctrl S → Bytes → List Station → S → Option (S × Result (List Station))
  unfolding station_next
  stations_loop zero c mac found s = none
  stations_loop (suc fuel) c mac found s =
      let (s', reply) = station_next c mac s in
      elim reply [
        | failed e ↦ some (s', ok found)
        | nothing ↦ some (s', ok found)
        | bad e ↦ some (s', err e)
        | got sta ↦ stations_loop fuel c sta.mac (found ++ sta ∷ []) s'
      ]

  -- `Stations`.
  unfoldable pub stations : ℕ → Ctrl S → S → Option (S × Result (List Station))
  unfolding station_first stations_loop
  stations fuel c s =
      let (s', reply) = station_first c s in
      elim reply [
        | failed e ↦ some (s', err e)
        | bad e ↦ some (s', err e)
        | nothing ↦ some (s', ok [])
        | got sta ↦ stations_loop fuel c sta.mac (sta ∷ []) s'
      ]
