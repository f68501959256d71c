-- ===== src/Presence/Config/OnlyListed.antt =====
-- What the daemon tracks after the diff of a configuration and the removal.
use wifi_presence.Presence.Events.{get_daemon}
use wifi_presence.Base.{
  ◌≡◌, ◌≢◌, ◌⊎◌, ◌↔◌, refl, arith, Bool, true, false, none, List, [], ◌∷◌, if◌then◌else◌,
  Option-cases, Bool-cases, inl, inr,
}
use wifi_presence.Base.Errors.{ok, Result-cases}
use wifi_presence.Base.Maps.{Map, lookup, insert, erase, lookup-insert, lookup-erase}
use wifi_presence.Hass.Messages.{TrackConfig, Configuration}
use wifi_presence.Presence.Mac.{Mac, mac_key, decode}
use wifi_presence.Presence.State.{◌>>=◌, Station, State, get_station, put_station}
use wifi_presence.Presence.Config.{
  Changes, sta_removed, classify, is_update, or_zero, diff_devices, remove_missing,
  remove_all_missing,
}
use wifi_presence.Presence.Config.Reapply.{Listed}

-- A station that is not tracked stays so in the removal.
remove_missing_absent :
    (stations : Map Mac Station) (changes : Changes) (s : State) (mac : Mac)
    → lookup mac s.daemon.stations ≡ none
    → lookup mac (remove_missing stations changes s).0.daemon.stations ≡ none
unfolding remove_missing ◌>>=◌
remove_missing_absent [] changes s mac h = h
remove_missing_absent ((k, sta) ∷ stations) changes s mac h =
    let d = s.daemon in
    let s' : State = record s { daemon = record d { stations = erase k d.stations } } in
    let kept = remove_missing_absent stations changes s mac h in
    let gone : lookup mac (erase k d.stations) ≡ none =
      ground (arith, lookup-erase k mac d.stations) in
    let kept' = remove_missing_absent stations (insert k sta_removed changes) s' mac gone in
    elim (Option-cases (lookup k changes)) [ inl e ↦ ground arith | inr (c, e) ↦ ground arith ]

-- A station with no change is removed.
remove_missing_removes :
    (stations : Map Mac Station) (changes : Changes) (s : State) (mac : Mac)
    → lookup mac changes ≡ none
    → lookup mac stations ≢ none
    → lookup mac (remove_missing stations changes s).0.daemon.stations ≡ none
unfolding remove_missing lookup ◌>>=◌
remove_missing_removes [] changes s mac n h = absurd (h refl)
remove_missing_removes ((k, sta) ∷ stations) changes s mac n h =
    let d = s.daemon in
    let s' : State = record s { daemon = record d { stations = erase k d.stations } } in
    elim (Option-cases (lookup k changes)) [
      | inl e ↦ elim (Bool-cases (mac_key.beq k mac)) [
        | inl same ↦
            let gone : lookup mac (erase k d.stations) ≡ none =
              ground (arith, lookup-erase k mac d.stations) in
            let r = remove_missing_absent stations (insert k sta_removed changes) s' mac gone in
            ground arith
        | inr other ↦
            let n' : lookup mac (insert k sta_removed changes) ≡ none =
              ground (arith, lookup-insert k mac sta_removed changes) in
            let r = remove_missing_removes stations (insert k sta_removed changes) s' mac n' in
            ground arith
      ]
      | inr (c, e) ↦
          let r = remove_missing_removes stations changes s mac n in
          ground (arith, mac_key.beq_iff k mac)
    ]

-- The changes of the diff are those of listed devices.
diff_devices-Listed :
    (devices : List TrackConfig) (changes : Changes) (u : Bool) (s : State) (mac : Mac) {s' : State}
    {changes' : Changes} {u' : Bool}
    → diff_devices devices changes u s ≡ (s', ok (changes', u'))
    → lookup mac changes' ≢ none
    → Listed mac devices ⊎ (lookup mac changes ≢ none)
unfolding diff_devices ◌>>=◌ get_station put_station classify is_update or_zero
diff_devices-Listed [] changes u s mac e h = inr (ground arith)
diff_devices-Listed (dev ∷ devices) changes u s mac e h = elim (Result-cases (decode dev.mac)) [
  | inr (x, q) ↦ absurd (ground arith)
  | inl (k, q) ↦
      let d = s.daemon in
      let sta = lookup k d.stations in
      let s1 : State = record s {
        daemon = record d {
          stations = insert k (record (or_zero sta) { name = dev.name; mac = k }) d.stations;
        };
      } in
      let c = classify sta dev.name in
      let rest =
        diff_devices-Listed devices (insert k c changes) (if is_update c then true else u) s1 mac
          (rw q at e) h in
      elim rest [
        | inl l ↦ inl (inr l)
        | inr p ↦ elim (Bool-cases (mac_key.beq k mac)) [
          | inl same ↦ inl (inl (ground (arith, mac_key.beq_iff k mac)))
          | inr other ↦ inr (ground (arith, lookup-insert k mac c changes))
        ]
      ]
]

-- A MAC that is tracked and has a change.
abbrev Present : Mac → Changes → State → Type 0
Present mac changes s = (lookup mac changes ≢ none) × (lookup mac s.daemon.stations ≢ none)

-- A station with a change stays tracked in the removal.
remove_missing-Present :
    (stations : Map Mac Station) (changes : Changes) (s : State) (mac : Mac)
    → Present mac changes s
    → lookup mac (remove_missing stations changes s).0.daemon.stations ≢ none
unfolding remove_missing ◌>>=◌
remove_missing-Present [] changes s mac (c, t) = t
remove_missing-Present ((k, sta) ∷ stations) changes s mac (c, t) =
    let d = s.daemon in
    let s' : State = record s { daemon = record d { stations = erase k d.stations } } in
    elim (Option-cases (lookup k changes)) [
      | inl e ↦
          let c' : lookup mac (insert k sta_removed changes) ≢ none =
            ground (arith, lookup-insert k mac sta_removed changes) in
          let t' : lookup mac (erase k d.stations) ≢ none =
            ground (arith, lookup-erase k mac d.stations, mac_key.beq_iff k mac) in
          let r = remove_missing-Present stations (insert k sta_removed changes) s' mac (c', t') in
          ground arith
      | inr (x, e) ↦ let r = remove_missing-Present stations changes s mac (c, t) in ground arith
    ]

-- The diff keeps what is tracked and has a change, and makes every listed device so.
diff_devices-Present :
    (devices : List TrackConfig) (changes : Changes) (u : Bool) (s : State) (mac : Mac) {s' : State}
    {changes' : Changes} {u' : Bool}
    → diff_devices devices changes u s ≡ (s', ok (changes', u'))
    → Listed mac devices ⊎ Present mac changes s
    → Present mac changes' s'
unfolding diff_devices ◌>>=◌ get_station put_station classify is_update or_zero
diff_devices-Present [] changes u s mac e (inl l) = elim l [ ]
diff_devices-Present [] changes u s mac e (inr (c, t)) = (ground arith, ground arith)
diff_devices-Present (dev ∷ devices) changes u s mac e h = elim (Result-cases (decode dev.mac)) [
  | inr (x, q) ↦ absurd (ground arith)
  | inl (k, q) ↦
      let d = s.daemon in
      let sta = lookup k d.stations in
      let new : Station = record (or_zero sta) { name = dev.name; mac = k } in
      let s1 : State = record s { daemon = record d { stations = insert k new d.stations } } in
      let c = classify sta dev.name in
      let there : (k ≡ mac) ⊎ Present mac changes s → Present mac (insert k c changes) s1 = λ p.
        elim p [
          | inl same ↦ (
            ground (arith, lookup-insert k mac c changes, mac_key.beq_iff k mac),
            ground (arith, lookup-insert k mac new d.stations, mac_key.beq_iff k mac),
          )
          | inr (x, y) ↦ (
            ground (arith, lookup-insert k mac c changes),
            ground (arith, lookup-insert k mac new d.stations),
          )
        ] in
      let rest =
        diff_devices-Present devices (insert k c changes) (if is_update c then true else u) s1 mac
          (rw q at e) in
      elim h [
        | inr p ↦ rest (inr (there (inr p)))
        | inl (inr l) ↦ rest (inl l)
        | inl (inl a) ↦ rest (inr (there (inl (ground arith))))
      ]
]

-- Where the diff of a configuration returns no error, after the removal a station is tracked exactly
-- if a device of the configuration has its MAC.
pub tracked_iff_Listed :
    (cfg : Configuration) (s : State) (mac : Mac) {s' : State} {changes : Changes} {u : Bool}
    → diff_devices cfg.devices [] false s ≡ (s', ok (changes, u))
    → (lookup mac (remove_all_missing changes s').0.daemon.stations ≢ none) ↔ Listed mac cfg.devices
unfolding remove_all_missing lookup ◌>>=◌ get_daemon
tracked_iff_Listed cfg s mac {s'} {changes} {u} e = (
  λ h. elim (Option-cases (lookup mac changes)) [
    | inr (c, p) ↦ elim (diff_devices-Listed cfg.devices [] false s mac e (ground arith)) [
      | inl l ↦ l
      | inr q ↦ absurd (q refl)
    ]
    | inl n ↦ elim (Option-cases (lookup mac s'.daemon.stations)) [
      | inl a ↦ absurd (h (remove_missing_absent s'.daemon.stations changes s' mac a))
      | inr (sta, p) ↦
          absurd (h (remove_missing_removes s'.daemon.stations changes s' mac n (ground arith)))
    ]
  ],
  λ l.
      remove_missing-Present s'.daemon.stations changes s' mac
        (diff_devices-Present cfg.devices [] false s mac e (inl l)),
)
