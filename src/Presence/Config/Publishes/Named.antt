-- ===== src/Presence/Config/Publishes/Named.antt =====
-- The devices that are new or renamed have the names that the configuration gives them.
use wifi_presence.Base.{
  ◌⊎◌, ◌≡◌, ◌≢◌, refl, sym, arith, Bool, true, none, List, [], ◌∷◌, All, Bool-cases, Option-cases,
  inl, inr, if◌then◌else◌,
}
use wifi_presence.Base.Errors.{Result, ok, err, Result-cases}
use wifi_presence.Base.Maps.{Map, lookup, insert, erase}
use wifi_presence.Hass.Messages.{TrackConfig}
use wifi_presence.Presence.Mac.{Mac, mac_key, decode}
use wifi_presence.Presence.Config.{
  StaChange, sta_removed, Changes, classify, is_update, or_zero, diff_devices, remove_missing,
}
use wifi_presence.Presence.State.{Station, State, ◌>>=◌, get_station, put_station}
use wifi_presence.Presence.Config.Publishes.Whole.{station_of}
use wifi_presence.Base.Maps.{lookup-insert, lookup-erase}

-- A change that is registered is that of a station with a name.
abbrev pub IsNamed : State → Mac × StaChange → Type 0
IsNamed s e = is_update e.1 ≡ true → (station_of s e.0).name ≢ []

All-insert :
    (P : Mac × StaChange → Type 0) (k : Mac) (c : StaChange) (changes : Changes)
    → ((j : Mac) → j ≡ k → P (j, c))
    → All P changes
    → All P (insert k c changes)
unfolding insert
All-insert P k c [] new h = (new k refl, tt)
All-insert P k c ((j, w) ∷ changes) new (h, hs) = elim (Bool-cases (mac_key.beq j k)) [
  | inl e ↦ rw (insert, e) (new j (ground (arith, mac_key.beq_iff j k)), hs)
  | inr e ↦ rw (insert, e) (h, All-insert P k c changes new hs)
]

pub All-map :
    (P Q : Mac × StaChange → Type 0) (changes : Changes)
    → ((e : Mac × StaChange) → P e → Q e)
    → All P changes
    → All Q changes
All-map P Q [] f h = tt
All-map P Q (e ∷ changes) f (h, hs) = (f e h, All-map P Q changes f hs)

-- The station of `mac` after that of `k` was stored.
name-insert :
    (k mac : Mac) (new : Station) (stations : Map Mac Station)
    → new.name ≢ []
    → ((or_zero (lookup mac stations)).name ≢ []) ⊎ (k ≡ mac)
    → (or_zero (lookup mac (insert k new stations))).name ≢ []
unfolding or_zero
name-insert k mac new stations h o = elim (Bool-cases (mac_key.beq k mac)) [
  | inl e ↦ rw (lookup-insert k mac new stations, e) h
  | inr e ↦ elim o [
    | inl n ↦ rw (lookup-insert k mac new stations, e) n
    | inr same ↦ absurd (ground (arith, mac_key.beq_iff k mac))
  ]
]

abbrev pub NamedResult : State × Result (Changes × Bool) → Type 0
NamedResult (s, ok (changes, u)) = All (IsNamed s) changes
NamedResult (s, err e) = Unit

pub diff_devices-Named :
    (devices : List TrackConfig) (changes : Changes) (u : Bool) (s : State)
    → All (λ (dev : TrackConfig). dev.name ≢ []) devices
    → All (IsNamed s) changes
    → NamedResult (diff_devices devices changes u s)
unfolding diff_devices ◌>>=◌ get_station put_station
diff_devices-Named [] changes u s n h = h
diff_devices-Named (dev ∷ devices) changes u s (n, ns) h = elim (Result-cases (decode dev.mac)) [
  | inr (x, q) ↦ rw (diff_devices, q) tt
  | inl (k, q) ↦
      let d = s.daemon in
      let sta = lookup k d.stations in
      let new : Station = record (or_zero sta) { name = dev.name; mac = k } in
      let s1 : State = record s { daemon = record d { stations = insert k new d.stations } } in
      let c = classify sta dev.name in
      let kept =
        All-map (IsNamed s) (IsNamed s1) changes
          (λ e f v. name-insert k e.0 new d.stations n (inl (f v))) h in
      rw (diff_devices, q)
        (diff_devices-Named devices (insert k c changes) (if is_update c then true else u) s1 ns (
          All-insert (IsNamed s1) k c changes
            (λ j same v. name-insert k j new d.stations n (inr (sym same))) kept))
]

lookup-none :
    (k : Mac) (changes : Changes)
    → lookup k changes ≡ none
    → All (λ (e : Mac × StaChange). e.0 ≢ k) changes
unfolding lookup
lookup-none k [] h = tt
lookup-none k ((j, w) ∷ changes) h = elim (Bool-cases (mac_key.beq j k)) [
  | inl e ↦ absurd (ground arith)
  | inr e ↦
      (λ same. absurd (ground (arith, mac_key.beq_iff j k)), lookup-none k changes (ground arith))
]

name-erase :
    (k mac : Mac) (stations : Map Mac Station)
    → mac ≢ k
    → lookup mac (erase k stations) ≡ lookup mac stations
name-erase k mac stations ne = ground (arith, lookup-erase k mac stations, mac_key.beq_iff k mac)

All-map2 :
    (P Q R : Mac × StaChange → Type 0) (changes : Changes)
    → ((e : Mac × StaChange) → P e → Q e → R e)
    → All P changes
    → All Q changes
    → All R changes
All-map2 P Q R [] f h g = tt
All-map2 P Q R (e ∷ changes) f (h, hs) (g, gs) = (f e h g, All-map2 P Q R changes f hs gs)

abbrev pub NamedChanges : State × Result Changes → Type 0
NamedChanges (s, ok changes) = All (IsNamed s) changes
NamedChanges (s, err e) = Unit

pub remove_missing-Named :
    (stations : Map Mac Station) (changes : Changes) (s : State)
    → All (IsNamed s) changes
    → NamedChanges (remove_missing stations changes s)
unfolding remove_missing ◌>>=◌ is_update
remove_missing-Named [] changes s h = h
remove_missing-Named ((k, sta) ∷ stations) changes s h =
    let d = s.daemon in
    let s' : State = record s { daemon = record d { stations = erase k d.stations } } in
    elim (Option-cases (lookup k changes)) [
      | inr (c, e) ↦ rw (remove_missing, e) (remove_missing-Named stations changes s h)
      | inl e ↦
          let kept =
            All-map2 (IsNamed s) (λ x. x.0 ≢ k) (IsNamed s') changes
              (λ x f ne v. rw (name-erase k x.0 d.stations ne) (f v)) h (lookup-none k changes e) in
          rw (remove_missing, e)
            (remove_missing-Named stations (insert k sta_removed changes) s' (
              All-insert (IsNamed s') k sta_removed changes (λ j same v. absurd (ground (arith, v)))
                kept))
    ]
