-- ===== src/Presence/Events/Absence.antt =====
-- A disconnect event and what follows it: the timer expires and the callback runs, or the station
-- connects again before.
use wifi_presence.Base.{
  ◌&&◌, not, equal, ℕ, suc, ◌+◌, ◌≤◌, ◌≡◌, ◌≢◌, arith, true, false, Option, none, some, List, [],
  ◌∷◌, ◌++◌, All,
}
use mathlib.Core.Path.{subst}
use wifi_presence.Base.Errors.{ok}
use wifi_presence.Base.Int.{pos_part}
use wifi_presence.Base.Maps.{lookup, insert, lookup-insert_self, nat_key}
use wifi_presence.Hostapd.Status.{Status}
use wifi_presence.Presence.Mac.{Mac, mac_key, to_string}
use wifi_presence.Presence.Debounce.{Debouncer, Timer, fired, cancel, enqueue, expire, run_timer}
use wifi_presence.Presence.Debounce.Cases.{added}
use wifi_presence.Presence.Debounce.Invariant.{Inv, enqueue-Inv}
use wifi_presence.Presence.Debounce.Runs.{Action, Execution, all_executions}
use wifi_presence.Presence.Debounce.Once.{cancel_effective}
use wifi_presence.Presence.Delivery.{
  AllDelivered, sent, not_home_message, attrs_message, with_broker-station_not_home,
  with_broker-station_attributes,
}
use wifi_presence.Presence.State.{◌>>=◌, Station, Callback, State, now, expire_timer, take_callback}
use wifi_presence.Presence.Events.{
  is_latent, on_connect, on_disconnect, disconnected_attrs, disconnect_callback, timer_expires,
  timer_runs,
}
use wifi_presence.Presence.Events.Branches.{
  absent_attrs, published, disconnected_at, on_connect_tracked, on_disconnect_tracked, not_latent,
}

-- The state after a reading of the clock.
abbrev pub read : State → State
read s = let w = s.world in record s { world = record w { readings = suc w.readings } }

-- The callback of a disconnect event, for a station that is tracked, where the broker completes every
-- message with no error: it publishes the state "not_connected" and then the attributes that hold at
-- the reading of the clock, returns no error and changes nothing else.
pub disconnect_callback_tracked :
    (cb : Callback) (sta : Station) (s : State)
    → AllDelivered s
    → lookup cb.mac s.daemon.stations ≡ some sta
    → let d = s.daemon in
      let attrs = disconnected_attrs d cb sta (s.world.clock s.world.readings) in
      disconnect_callback cb s ≡ (
        sent
            (attrs_message d.hass (to_string cb.mac) attrs)
            (read (sent (not_home_message d.hass (to_string cb.mac)) s)),
        ok tt,
      )
unfolding disconnect_callback ◌>>=◌
disconnect_callback_tracked cb sta s h e =
    let d = s.daemon in
    let s' = sent (not_home_message d.hass (to_string cb.mac)) s in
    rw (
      with_broker-station_not_home d.hass (to_string cb.mac) s h,
      e,
      with_broker-station_attributes d.hass (to_string cb.mac)
          (disconnected_attrs d cb sta (s.world.clock s.world.readings)) (read s') h,
    )

module _ {A : Type 0} where
  -- Right after a callback was enqueued for an address with none, `cancel` stops its timer.
  cancel-enqueue :
      (now : ℕ) (mac : Mac) (cb : Option A) (d : Debouncer A)
      → lookup mac d.queue ≡ none
      → let d' = (enqueue now mac cb d).0 in
        ((cancel mac d').1 ≡ true) × (lookup mac d'.queue ≡ some d.created)
  unfolding enqueue cancel ◌>>=◌
  cancel-enqueue now mac cb d e =
      let timer : Timer A = added now mac cb d in
      ground (
        arith,
        lookup-insert_self mac d.created d.queue,
        lookup-insert_self d.created timer d.timers,
      )

-- A tracked station disconnects, with no callback queued for it, and connects again before the timer
-- of the callback expires; the debouncer has its invariant and the broker completes every message
-- with no error. Then the callback is never executed, whatever happens to the debouncer afterwards.
pub reconnect_silences :
    (old new : Status) (mac : Mac) (sta : Station) (s : State) (acts : List (Action Callback))
    → AllDelivered s
    → Inv s.daemon.db
    → lookup mac s.daemon.stations ≡ some sta
    → is_latent old sta ≡ false
    → lookup mac s.daemon.db.queue ≡ none
    → let s' = (on_connect new mac (on_disconnect old mac s).0).0 in
      All
        (λ (x : Execution Callback). x.timer ≢ s.daemon.db.created)
        (all_executions acts s'.daemon.db)
reconnect_silences old new mac sta s acts h v e l q =
    let w = s.world in
    let d = s.daemon in
    let now = pos_part (w.clock (suc w.readings)) in
    let cb : Option Callback = some (record { mac = mac; hap = old }) in
    let sta' = disconnected_at (w.clock w.readings) sta in
    let (stopped, queued) = cancel-enqueue now mac cb d.db q in
    let (t, found, never) =
      cancel_effective mac (enqueue now mac cb d.db).0 (enqueue-Inv now mac cb d.db v) stopped in
    let s1 : State = record {
      daemon = record d { stations = insert mac sta' d.stations; db = (enqueue now mac cb d.db).0 };
      world = record w { readings = suc (suc w.readings) };
    } in
    let (r, stations, db, out) =
      on_connect_tracked new mac sta' s1 h (lookup-insert_self mac sta' d.stations) in
    let same : t ≡ d.db.created = cc in
    rw (on_disconnect_tracked old mac sta s e l, db)
      (subst
        (λ u.
          All (λ (x : Execution Callback). x.timer ≢ u)
            (all_executions acts (cancel mac (enqueue now mac cb d.db).0).0))
        same (never acts))

-- A timer that was enqueued for an address with none and expires when it is due runs its callback.
pub run_timer-expire :
    {A : Type 0} (now later : ℕ) (mac : Mac) (a : A) (d : Debouncer A)
    → lookup mac d.queue ≡ none
    → now + d.debounce ≤ later
    → (run_timer d.created (expire later d.created (enqueue now mac (some a) d).0)).1 ≡ some a
unfolding enqueue expire run_timer ◌>>=◌
run_timer-expire {A} now later mac a d q due =
    let timer : Timer A = added now mac (some a) d in
    let fired' : Timer A = record timer { phase = fired later } in
    ground (
      arith,
      lookup-insert_self mac d.created d.queue,
      lookup-insert_self d.created timer d.timers,
      lookup-insert_self d.created fired' (insert d.created timer d.timers),
    )

-- A tracked station, which is not connected to another access point than the one that reports it,
-- disconnects, with no callback queued for it; its timer is due when it expires, and its function comes
-- next; the broker completes every message with no error. Then the state "not_connected" is published,
-- and attributes that say that the station is not connected, since the disconnect event, and how long
-- before the last reading of the clock it had connected.
pub absence_published :
    (hap : Status) (mac : Mac) (sta : Station) (s : State)
    → AllDelivered s
    → lookup mac s.daemon.stations ≡ some sta
    → (sta.connected && not (equal sta.bssid hap.bssid)) ≡ false
    → lookup mac s.daemon.db.queue ≡ none
    → let clock = s.world.clock in
      let n = s.world.readings in
      pos_part (clock (suc n)) + s.daemon.db.debounce ≤ pos_part (clock (suc (suc n)))
      → let t = s.daemon.db.created in
        let hass = s.daemon.hass in
        let s' = (timer_runs t (timer_expires t (on_disconnect hap mac s).0).0).0 in
        let attrs =
          absent_attrs s.daemon hap sta sta.connected_at (clock n) (clock (suc (suc (suc n)))) in
        published s'
        ≡ (published s ++ not_home_message hass (to_string mac) ∷ [])
          ++ attrs_message hass (to_string mac) attrs ∷ []
unfolding timer_runs timer_expires disconnected_attrs take_callback expire_timer now ◌>>=◌
absence_published hap mac sta s h e l q due =
    let w = s.world in
    let d = s.daemon in
    let cb : Callback = record { mac = mac; hap = hap } in
    let sta' = disconnected_at (w.clock w.readings) sta in
    let n1 = pos_part (w.clock (suc w.readings)) in
    let n2 = pos_part (w.clock (suc (suc w.readings))) in
    let db = (enqueue n1 mac (some cb) d.db).0 in
    let db' = (run_timer d.db.created (expire n2 d.db.created db)).0 in
    let ran = run_timer-expire n1 n2 mac cb d.db q due in
    let s1 : State = record {
      daemon = record d { stations = insert mac sta' d.stations; db = db' };
      world = record w { readings = suc (suc (suc w.readings)) };
    } in
    rw (
      on_disconnect_tracked hap mac sta s e (not_latent hap sta l),
      ran,
      disconnect_callback_tracked cb sta' s1 h (lookup-insert_self mac sta' d.stations),
    )
