-- ===== src/Presence/Config/Reapply.antt =====
-- A configuration that says what the daemon already tracks, and one that names a device twice.
use wifi_presence.Presence.Events.{get_daemon}
use wifi_presence.Base.{
  ◌∙◌, ◌⊎◌, ◌≡◌, ◌≢◌, refl, arith, Bool, true, false, none, some, List, [], ◌∷◌, Bytes, equal,
  equal_refl, equal_iff, if◌then◌else◌, All, Option-cases, inl, inr,
}
use wifi_presence.Base.Errors.{Result, ok}
use wifi_presence.Base.Maps.{Map, lookup, insert, insert_same, lookup-insert, lookup-insert_self}
use wifi_presence.Hass.Messages.{TrackConfig, Configuration}
use wifi_presence.Presence.Mac.{Mac, mac_key, decode}
use wifi_presence.Presence.Connected.{Connected}
use wifi_presence.Presence.State.{◌>>=◌, Station, zero_station, State, get_station, put_station}
use wifi_presence.Presence.Config.{
  put_station, process_change, StaChange, sta_no_change, Changes, diff_devices, remove_missing,
  remove_all_missing, process_changes, apply_changes, on_config_change, classify, is_update,
  or_zero,
}

-- The station that a device of the configuration stands for is tracked under the device's name.
pub record Tracked (s : State) (dev : TrackConfig) : Type 0 where
  pub mac : Mac
  pub sta : Station
  pub decodes : decode dev.mac ≡ ok mac
  pub found : lookup mac s.daemon.stations ≡ some sta
  pub name : sta.name ≡ dev.name
  pub keyed : sta.mac ≡ mac

-- Go's iteration over a map visits entries of the map.
abbrev pub Reorders : (Changes → Changes) → Type 1
Reorders order =
    (P : Mac × StaChange → Type 0) (changes : Changes) → All P changes → All P (order changes)

abbrev IsNoChange : Mac × StaChange → Type 0
IsNoChange (mac, change) = change ≡ sta_no_change

rename_same :
    (sta : Station) (name : Bytes) (mac : Mac)
    → sta.name ≡ name
    → sta.mac ≡ mac
    → record sta { name = name; mac = mac } ≡ sta
rename_same sta name mac n k = rw (← n, ← k)

-- A device that is tracked under its name is no change, and its station is written back as it was.
diff_devices-Tracked :
    (dev : TrackConfig) (devices : List TrackConfig) (changes : Changes) (u : Bool) (s : State)
    (t : Tracked s dev)
    → diff_devices (dev ∷ devices) changes u s
      ≡ diff_devices devices (insert t.mac sta_no_change changes) u s
unfolding diff_devices ◌>>=◌ get_station put_station classify is_update or_zero
diff_devices-Tracked dev devices changes u s t =
    let same : equal t.sta.name dev.name ≡ true = (equal_iff t.sta.name dev.name).1 t.name in
    let r = rename_same t.sta dev.name t.mac t.name t.keyed in
    let back : insert t.mac (record t.sta { name = dev.name; mac = t.mac }) s.daemon.stations
        ≡ s.daemon.stations =
      rw (r, insert_same t.mac t.sta s.daemon.stations t.found) in
    rw (t.decodes, t.found, same, back)

-- A device of the configuration has the MAC.
abbrev pub Listed : Mac → List TrackConfig → Type 0
Listed mac [] = ⊥
Listed mac (dev ∷ devices) = (decode dev.mac ≡ ok mac) ⊎ Listed mac devices

-- What the diff of tracked devices gives.
record Diffed (devices : List TrackConfig) (changes : Changes) (u : Bool) (s : State) : Type 0 where
  result : Changes
  equation : diff_devices devices changes u s ≡ (s, ok (result, u))
  no_change : All IsNoChange result
  kept : (mac : Mac) → lookup mac changes ≢ none → lookup mac result ≢ none
  listed : (mac : Mac) → Listed mac devices → lookup mac result ≢ none

All-insert :
    (mac : Mac) (changes : Changes)
    → All IsNoChange changes
    → All IsNoChange (insert mac sta_no_change changes)
unfolding insert ◌>>=◌
All-insert mac [] h = (refl, tt)
All-insert mac ((j, w) ∷ changes) (h, hs) =
    elim (mac_key.beq j mac)
      as (λ b.
        All IsNoChange
          (if b then (j, sta_no_change) ∷ changes else (j, w) ∷ insert mac sta_no_change changes)) [
            | true ↦ (refl, hs)
            | false ↦ (h, All-insert mac changes hs)
          ]

lookup-insert_kept :
    (k j : Mac) (c : StaChange) (changes : Changes)
    → lookup j changes ≢ none
    → lookup j (insert k c changes) ≢ none
lookup-insert_kept k j c changes h = ground (arith, lookup-insert k j c changes)

lookup-insert_decoded :
    (k j : Mac) (r : Result Mac) (changes : Changes)
    → r ≡ ok k
    → r ≡ ok j
    → lookup j (insert k sta_no_change changes) ≢ none
lookup-insert_decoded k j r changes h h' =
    ground (arith, lookup-insert k j sta_no_change changes, mac_key.beq_iff k j)

diff_devices-All :
    (devices : List TrackConfig) (changes : Changes) (u : Bool) (s : State)
    → All (Tracked s) devices
    → All IsNoChange changes
    → Diffed devices changes u s
unfolding diff_devices ◌>>=◌ get_station put_station classify is_update or_zero
diff_devices-All [] changes u s ts h = record {
  result = changes;
  equation = refl;
  no_change = h;
  kept = λ mac p. p;
  listed = λ mac. elim [ ];
}
diff_devices-All (dev ∷ devices) changes u s (t, ts) h =
    let rest =
      diff_devices-All devices (insert t.mac sta_no_change changes) u s ts
        (All-insert t.mac changes h) in
    record {
      result = rest.result;
      equation = diff_devices-Tracked dev devices changes u s t ∙ rest.equation;
      no_change = rest.no_change;
      kept = λ mac p. rest.kept mac (lookup-insert_kept t.mac mac sta_no_change changes p);
      listed = λ mac l. elim l [
        | inl e ↦
            rest.kept mac (lookup-insert_decoded t.mac mac (decode dev.mac) changes t.decodes e)
        | inr l' ↦ rest.listed mac l'
      ];
    }

-- Stations that all have a change are all left in place.
remove_missing_kept :
    (stations : Map Mac Station) (changes : Changes) (s : State)
    → All (λ (e : Mac × Station). lookup e.0 changes ≢ none) stations
    → remove_missing stations changes s ≡ (s, ok changes)
unfolding remove_missing ◌>>=◌
remove_missing_kept [] changes s h = refl
remove_missing_kept ((mac, sta) ∷ stations) changes s (h, hs) =
    elim (Option-cases (lookup mac changes)) [
      | inl e ↦ absurd (h e)
      | inr (c, e) ↦ ground (arith, remove_missing_kept stations changes s hs)
    ]

process_no_changes :
    (connected : Connected) (changes : Changes) (s : State)
    → All IsNoChange changes
    → process_changes connected changes s ≡ (s, ok tt)
unfolding process_changes process_change ◌>>=◌ get_station or_zero
process_no_changes connected [] s h = refl
process_no_changes connected ((mac, c) ∷ changes) s (h, hs) =
    rw (h, process_no_changes connected changes s hs)

apply_no_changes :
    (order : Changes → Changes) (changes : Changes) (s : State)
    → Reorders order
    → All IsNoChange changes
    → apply_changes order changes false s ≡ (s, ok tt)
unfolding apply_changes ◌>>=◌
apply_no_changes order [] s r h = refl
apply_no_changes order (c ∷ changes) s r h =
    process_no_changes [] (order (c ∷ changes)) s (r IsNoChange (c ∷ changes) h)

All-Listed :
    (devices : List TrackConfig) (result : Changes) (stations : Map Mac Station)
    → ((mac : Mac) → Listed mac devices → lookup mac result ≢ none)
    → All (λ (e : Mac × Station). Listed e.0 devices) stations
    → All (λ (e : Mac × Station). lookup e.0 result ≢ none) stations
All-Listed devices result [] k h = tt
All-Listed devices result (e ∷ stations) k (h, hs) =
    (k e.0 h, All-Listed devices result stations k hs)

-- A configuration of devices that are tracked under their names, which has every tracked station,
-- is silent: `onConfigChange` returns no error and leaves the daemon, the broker, the clock and the
-- clients of hostapd as they were, in whatever order the map of changes is visited.
pub reapply_silent :
    (order : Changes → Changes) (cfg : Configuration) (s : State)
    → Reorders order
    → All (Tracked s) cfg.devices
    → All (λ (e : Mac × Station). Listed e.0 cfg.devices) s.daemon.stations
    → on_config_change order cfg s ≡ (s, ok tt)
unfolding on_config_change remove_all_missing ◌>>=◌ get_daemon
reapply_silent order cfg s r ts ls =
    let d = diff_devices-All cfg.devices [] false s ts tt in
    let stays = All-Listed cfg.devices d.result s.daemon.stations d.listed ls in
    rw (
      d.equation,
      remove_missing_kept s.daemon.stations d.result s stays,
      apply_no_changes order d.result s r d.no_change,
    )

-- A device that the daemon does not track yet and the configuration names twice is tracked at once,
-- and the one change left of it is no change, so that its processing publishes nothing.
pub duplicate_device_lost :
    (dev : TrackConfig) (mac : Mac) (connected : Connected) (s : State)
    → decode dev.mac ≡ ok mac
    → lookup mac s.daemon.stations ≡ none
    → let s' = (put_station mac (record zero_station { name = dev.name; mac = mac }) s).0 in
      (diff_devices (dev ∷ dev ∷ []) [] false s ≡ (s', ok ((mac, sta_no_change) ∷ [], true)))
      × (process_changes connected ((mac, sta_no_change) ∷ []) s' ≡ (s', ok tt))
unfolding diff_devices insert ◌>>=◌ get_station put_station classify is_update or_zero
duplicate_device_lost dev mac connected s d n =
    let sta : Station = record zero_station { name = dev.name; mac = mac } in
    let stations = s.daemon.stations in
    let found = lookup-insert_self mac sta stations in
    let same = insert_same mac sta (insert mac sta stations) found in
    (
      rw (d, n, found, equal_refl dev.name, same, (mac_key.beq_iff mac mac).1 refl),
      process_no_changes connected ((mac, sta_no_change) ∷ []) _ (refl, tt),
    )
