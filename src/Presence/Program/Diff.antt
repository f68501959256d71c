-- ===== src/Presence/Program/Diff.antt =====
-- The diff of a configuration and the whole handler keep the invariant.
use wifi_presence.Base.{
  ◌≡◌, ◌≢◌, inl, inr, refl, arith, Bool, true, false, none, List, [], ◌∷◌, if◌then◌else◌,
  Option-cases, Bool-cases,
}
use wifi_presence.Base.Errors.{Result, ok, err, Result-cases}
use wifi_presence.Base.Maps.{Map, lookup, insert, erase, lookup-insert, lookup-erase}
use wifi_presence.Hass.Messages.{TrackConfig, Configuration}
use wifi_presence.Hass.Mqtt.{Mqtt}
use wifi_presence.Presence.Mac.{Mac, mac_key, decode}
use wifi_presence.Presence.Events.{get_daemon}
use wifi_presence.Presence.State.{◌>>=◌, continue, Station, State, get_station, put_station}
use wifi_presence.Presence.Config.{
  StaChange, sta_added, sta_removed, Changes, classify, is_update, or_zero, diff_devices,
  remove_missing, remove_all_missing, apply_changes, on_config_change,
}
use wifi_presence.Presence.Config.Reapply.{Reorders}
use wifi_presence.Presence.Program.Keeps.{IsSound, OnOk}
use wifi_presence.Presence.Program.Configures.{AllAdded, Keeps-apply_changes}

abbrev pub Nothing : Mac → Type 0
Nothing mac = ⊥

abbrev IsTracked : State → Mac → Type 0
IsTracked s mac = lookup mac s.daemon.stations ≢ none

AllAdded-weaken :
    (K L : Mac → Type 0) (changes : Changes)
    → ((mac : Mac) → K mac → L mac)
    → AllAdded K changes
    → AllAdded L changes
AllAdded-weaken K L [] f h = tt
AllAdded-weaken K L ((mac, c) ∷ changes) f (h, hs) =
    (λ e. f mac (h e), AllAdded-weaken K L changes f hs)

AllAdded-insert :
    (K : Mac → Type 0) (mac : Mac) (c : StaChange) (changes : Changes)
    → (c ≡ sta_added → K mac)
    → AllAdded K changes
    → AllAdded K (insert mac c changes)
unfolding insert
AllAdded-insert K mac c [] h hs = (h, tt)
AllAdded-insert K mac c ((k, d) ∷ changes) h (x, xs) = elim (Bool-cases (mac_key.beq k mac)) [
  | inl e ↦ let same : k ≡ mac = ground (arith, mac_key.beq_iff k mac) in rw e (rw same h, xs)
  | inr e ↦ rw e (x, AllAdded-insert K mac c changes h xs)
]

-- The sound state where nothing is said of what is tracked.
weaken : {m : Mqtt} (K : Mac → Type 0) (s : State) → IsSound m K s → IsSound m Nothing s
weaken K s i = record {
  same_hass = i.same_hass;
  keyed = i.keyed;
  has = λ mac x. absurd x;
  debounced = i.debounced;
  own = i.own;
}

with-IsTracked : {m : Mqtt} (s : State) → IsSound m Nothing s → IsSound m (IsTracked s) s
with-IsTracked s i = record {
  same_hass = i.same_hass;
  keyed = i.keyed;
  has = λ mac x. x;
  debounced = i.debounced;
  own = i.own;
}

-- The invariant, and that what is added is tracked.
abbrev pub IsSoundDiff : Mqtt → State → Changes → Type 0
IsSoundDiff m s changes = IsSound m Nothing s × AllAdded (IsTracked s) changes

-- A listed device is written under its own address, and is tracked from there on.
write-IsSoundDiff :
    {m : Mqtt} (s : State) (mac : Mac) (sta : Station) (c : StaChange) (changes : Changes)
    → sta.mac ≡ mac
    → IsSoundDiff m s changes
    → IsSoundDiff m (put_station mac sta s).0 (insert mac c changes)
unfolding put_station
write-IsSoundDiff {m} s mac sta c changes h (i, a) =
    let d = s.daemon in
    let s' : State = record s { daemon = record d { stations = insert mac sta d.stations } } in
    let kept : (k : Mac) → IsTracked s k → IsTracked s' k =
      λ k t. ground (arith, lookup-insert mac k sta d.stations) in
    (
      record {
        same_hass = i.same_hass;
        keyed = λ k {sta = sta'} p. ground (
          arith,
          lookup-insert mac k sta d.stations,
          mac_key.beq_iff mac k,
          i.keyed k {sta = sta'},
        );
        has = λ k x. absurd x;
        debounced = i.debounced;
        own = i.own;
      },
      AllAdded-insert (IsTracked s') mac c changes
          (λ e. ground (arith, lookup-insert mac mac sta d.stations, mac_key.beq_iff mac mac))
          (AllAdded-weaken (IsTracked s) (IsTracked s') changes kept a),
    )

diff_devices-IsSoundDiff :
    {m : Mqtt} (devices : List TrackConfig) (changes : Changes) (u : Bool) (s : State)
    → IsSoundDiff m s changes
    → let r = diff_devices devices changes u s in
      IsSound m Nothing r.0 × OnOk (λ (d : Changes × Bool). AllAdded (IsTracked r.0) d.0) r.1
unfolding diff_devices ◌>>=◌ get_station put_station
diff_devices-IsSoundDiff [] changes u s h = h
diff_devices-IsSoundDiff {m} (dev ∷ devices) changes u s h = elim (Result-cases (decode dev.mac)) [
  | inr (x, q) ↦ rw q (h.0, tt)
  | inl (k, q) ↦
      let sta = lookup k s.daemon.stations in
      let new : Station = record (or_zero sta) { name = dev.name; mac = k } in
      let c = classify sta dev.name in
      rw q (
        diff_devices-IsSoundDiff devices (insert k c changes) (if is_update c then true else u)
          (put_station k new s).0 (write-IsSoundDiff s k new c changes refl h))
]

-- A station that leaves has no other change.
AllAdded-erase :
    (s : State) (k : Mac) (changes : Changes)
    → lookup k changes ≡ none
    → AllAdded (IsTracked s) changes
    → let d = s.daemon in
      AllAdded
        (IsTracked (record s { daemon = record d { stations = erase k d.stations } }))
        changes
unfolding lookup
AllAdded-erase s k [] n h = tt
AllAdded-erase s k ((mac, c) ∷ changes) n (x, xs) =
    let d = s.daemon in
    (
      λ e p. x e (
          ground
            (arith, lookup-erase k mac d.stations, mac_key.beq_iff mac k, mac_key.beq_iff k mac)),
      AllAdded-erase s k changes (ground arith) xs,
    )

remove_missing-IsSoundDiff :
    {m : Mqtt} (stations : Map Mac Station) (changes : Changes) (s : State)
    → IsSoundDiff m s changes
    → let r = remove_missing stations changes s in
      IsSound m Nothing r.0 × OnOk (AllAdded (IsTracked r.0)) r.1
unfolding remove_missing
remove_missing-IsSoundDiff [] changes s h = h
remove_missing-IsSoundDiff {m} ((k, sta) ∷ stations) changes s (i, a) =
    elim (Option-cases (lookup k changes)) [
      | inr (c, e) ↦ rw (remove_missing, e) (remove_missing-IsSoundDiff stations changes s (i, a))
      | inl e ↦
          let d = s.daemon in
          let s' : State = record s { daemon = record d { stations = erase k d.stations } } in
          let i' : IsSound m Nothing s' = record {
            same_hass = i.same_hass;
            keyed = λ mac {sta = sta'} p.
                i.keyed mac {sta = sta'} (ground (arith, lookup-erase k mac d.stations));
            has = λ mac x. absurd x;
            debounced = i.debounced;
            own = i.own;
          } in
          rw (remove_missing, e)
            (remove_missing-IsSoundDiff stations (insert k sta_removed changes) s' (
              i',
              AllAdded-insert (IsTracked s') k sta_removed changes (λ p. absurd (ground arith))
                  (AllAdded-erase s k changes e a),
            ))
    ]

-- The handler of a configuration keeps the invariant, whatever it returns.
apply-IsSound :
    {m : Mqtt} (order : Changes → Changes) (u : Bool) (s : State) (r : Result Changes)
    → Reorders order
    → IsSound m Nothing s
    → OnOk (AllAdded (IsTracked s)) r
    → IsSound m Nothing (continue (λ cs. apply_changes order cs u) (s, r)).0
apply-IsSound order u s (err e) o i h = i
apply-IsSound order u s (ok changes) o i h =
    weaken (IsTracked s) _
      ((Keeps-apply_changes order changes u o h).holds s (with-IsTracked s i)).0

remove-IsSound :
    {m : Mqtt} (order : Changes → Changes) (s : State) (r : Result (Changes × Bool))
    → Reorders order
    → IsSound m Nothing s
    → OnOk (λ (d : Changes × Bool). AllAdded (IsTracked s) d.0) r
    → IsSound m Nothing
        (continue (λ d. remove_all_missing d.0 >>= (λ cs. apply_changes order cs d.1)) (s, r)).0
unfolding remove_all_missing ◌>>=◌ get_daemon
remove-IsSound order s (err e) o i h = i
remove-IsSound order s (ok (changes, u)) o i h =
    let (i', h') = remove_missing-IsSoundDiff s.daemon.stations changes s (i, h) in
    apply-IsSound order u _ (remove_missing s.daemon.stations changes s).1 o i' h'

pub on_config_change-IsSound :
    {m : Mqtt} (order : Changes → Changes) (cfg : Configuration) (s : State)
    → Reorders order
    → IsSound m Nothing s
    → IsSound m Nothing (on_config_change order cfg s).0
unfolding on_config_change ◌>>=◌
on_config_change-IsSound order cfg s o i =
    let (i', h') = diff_devices-IsSoundDiff cfg.devices [] false s (i, tt) in
    remove-IsSound order _ (diff_devices cfg.devices [] false s).1 o i' h'
