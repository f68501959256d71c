-- ===== src/Presence/Config/Publishes/Distinct.antt =====
-- The changes of a configuration have distinct MACs.
use wifi_presence.Base.{
  ◌≢◌, arith, Bool, true, List, [], ◌∷◌, All, Bool-cases, Option-cases, inl, inr, if◌then◌else◌,
}
use wifi_presence.Base.Errors.{Result, ok, err, Result-cases}
use wifi_presence.Base.Maps.{Map, lookup, insert, erase}
use wifi_presence.Hass.Messages.{TrackConfig}
use wifi_presence.Presence.Mac.{Mac, mac_key, decode}
use wifi_presence.Presence.Config.{
  StaChange, sta_removed, Changes, classify, is_update, or_zero, diff_devices, remove_missing,
}
use wifi_presence.Presence.State.{Station, State, ◌>>=◌, get_station, put_station}
use wifi_presence.Presence.Config.Publishes.{IsDistinct}

-- The changes have distinct MACs.
abbrev Differs : Mac → Changes → Type 0
Differs mac changes = All (λ (e : Mac × StaChange). e.0 ≢ mac) changes

Differs-insert :
    (mac k : Mac) (c : StaChange) (changes : Changes)
    → k ≢ mac
    → Differs mac changes
    → Differs mac (insert k c changes)
unfolding insert
Differs-insert mac k c [] ne h = (ne, tt)
Differs-insert mac k c ((j, w) ∷ changes) ne (h, hs) = elim (Bool-cases (mac_key.beq j k)) [
  | inl e ↦ rw (insert, e) (h, hs)
  | inr e ↦ rw (insert, e) (h, Differs-insert mac k c changes ne hs)
]

IsDistinct-insert :
    (k : Mac) (c : StaChange) (changes : Changes)
    → IsDistinct changes
    → IsDistinct (insert k c changes)
unfolding insert
IsDistinct-insert k c [] h = (tt, tt)
IsDistinct-insert k c ((j, w) ∷ changes) (h, hs) = elim (Bool-cases (mac_key.beq j k)) [
  | inl e ↦ rw (insert, e) (h, hs)
  | inr e ↦
      rw (insert, e)
        (
          Differs-insert j k c changes (λ same. absurd (ground (arith, mac_key.beq_iff j k))) h,
          IsDistinct-insert k c changes hs,
        )
]

abbrev pub DistinctResult : Result (Changes × Bool) → Type 0
DistinctResult (ok (changes, u)) = IsDistinct changes
DistinctResult (err e) = Unit

pub diff_devices-IsDistinct :
    (devices : List TrackConfig) (changes : Changes) (u : Bool) (s : State)
    → IsDistinct changes
    → DistinctResult (diff_devices devices changes u s).1
unfolding diff_devices ◌>>=◌ get_station put_station
diff_devices-IsDistinct [] changes u s h = h
diff_devices-IsDistinct (dev ∷ devices) changes u s h = elim (Result-cases (decode dev.mac)) [
  | inr (x, q) ↦ rw (diff_devices, q) tt
  | inl (k, q) ↦
      let d = s.daemon in
      let sta = lookup k d.stations in
      let s1 : State = record s {
        daemon = record d {
          stations = insert k (record (or_zero sta) { name = dev.name; mac = k }) d.stations;
        };
      } in
      let c = classify sta dev.name in
      rw (diff_devices, q)
        (diff_devices-IsDistinct devices (insert k c changes) (if is_update c then true else u) s1
          (IsDistinct-insert k c changes h))
]

abbrev pub DistinctChanges : Result Changes → Type 0
DistinctChanges (ok changes) = IsDistinct changes
DistinctChanges (err e) = Unit

pub remove_missing-IsDistinct :
    (stations : Map Mac Station) (changes : Changes) (s : State)
    → IsDistinct changes
    → DistinctChanges (remove_missing stations changes s).1
unfolding remove_missing ◌>>=◌
remove_missing-IsDistinct [] changes s h = h
remove_missing-IsDistinct ((k, sta) ∷ stations) changes s h =
    let d = s.daemon in
    let s' : State = record s { daemon = record d { stations = erase k d.stations } } in
    elim (Option-cases (lookup k changes)) [
      | inr (c, e) ↦ rw (remove_missing, e) (remove_missing-IsDistinct stations changes s h)
      | inl e ↦
          rw (remove_missing, e)
            (remove_missing-IsDistinct stations (insert k sta_removed changes) s'
              (IsDistinct-insert k sta_removed changes h))
    ]
