-- ===== src/Presence/Threads/Race.antt =====
-- Two goroutines handle the disconnect event of one access point and the connect event of another.
use wifi_presence.Base.{
  equal, not, ◌&&◌, suc, ◌+◌, ◌≤◌, ◌≡◌, refl, arith, true, false, none, some, [], ◌∷◌, ◌++◌,
}
use wifi_presence.Base.Errors.{ok}
use wifi_presence.Base.Int.{pos_part}
use wifi_presence.Base.Maps.{lookup, insert, erase, lookup-insert_self, lookup-erase_self}
use wifi_presence.Base.Time.{is_zero, sub_time, whole_seconds}
use wifi_presence.Hass.Messages.{Attrs}
use wifi_presence.Hostapd.Status.{Status}
use wifi_presence.Presence.Mac.{Mac, mac_key, to_string}
use wifi_presence.Presence.Debounce.{Debouncer, cancel, enqueue, expire, run_timer}
use wifi_presence.Presence.Delivery.{
  AllDelivered, sent, home_message, not_home_message, attrs_message, with_broker-station_home,
  with_broker-station_attributes,
}
use wifi_presence.Presence.State.{
  ◌>>=◌, Station, Callback, State, expire_timer, take_callback, now, get_station, put_station,
  db_cancel, db_enqueue,
}
use wifi_presence.Presence.Events.{
  get_daemon, disconnected_for, publish_connected, is_latent, should_update, disconnected_attrs,
  timer_expires, timer_runs,
}
use wifi_presence.Presence.Events.Branches.{
  not_latent, absent_attrs, published, connected_attrs, connected_at_hap, disconnected_at,
  after_connect, on_connect-some,
}
use wifi_presence.Presence.Events.Absence.{read, disconnect_callback_tracked, run_timer-expire}
use wifi_presence.Presence.Threads.{
  section, connect_section, disconnect_section, found_section, connecting, disconnecting,
  enqueueing, advance,
}
use wifi_presence.Presence.Threads.Alone.{run_alone, connecting_alone}

publish_connected_lem :
    (hap : Status) (mac : Mac) (sta : Station) (s : State)
    → AllDelivered s
    → is_zero sta.disconnected_at ≡ false
    → let d = s.daemon in
      publish_connected hap mac sta s ≡ (
        sent
            (attrs_message d.hass
              (to_string mac)
              (connected_attrs d hap sta (s.world.clock s.world.readings)))
            (read (sent (home_message d.hass (to_string mac)) s)),
        ok tt,
      )
unfolding publish_connected ◌>>=◌ now disconnected_for
publish_connected_lem hap mac sta s h z =
    let d = s.daemon in
    let s' = sent (home_message d.hass (to_string mac)) s in
    let gone = whole_seconds (sub_time (s.world.clock s.world.readings) sta.disconnected_at) in
    let attrs : Attrs = record (connected_attrs d hap sta (s.world.clock s.world.readings)) {
      disconnected_for = gone;
    } in
    rw (
      with_broker-station_home d.hass (to_string mac) s h,
      z,
      with_broker-station_attributes d.hass (to_string mac) attrs (read s') h,
    )

-- The goroutine of `old` leaves its critical section, the goroutine of `new` handles a connect event,
-- and then the goroutine of `old` goes on.
unfoldable pub overlap : Status → Status → Mac → State → State
overlap old new mac s =
    let (s1, t) = advance (disconnecting old mac) s in
    let (s2, u) = run_alone 4 (connecting new mac) s1 in (advance t s2).0

-- The state after the critical section of the disconnect event, and after that of the connect event.
abbrev after_disconnect : Mac → Station → State → State
after_disconnect mac sta s =
    let d = s.daemon in
    let w = s.world in
    record {
      daemon = record d {
        stations = insert mac (disconnected_at (w.clock w.readings) sta) d.stations;
      };
      world = record w { readings = suc w.readings };
    }

disconnecting_lem :
    (old : Status) (mac : Mac) (sta : Station) (s : State)
    → lookup mac s.daemon.stations ≡ some sta
    → is_latent old sta ≡ false
    → advance (disconnecting old mac) s ≡ (after_disconnect mac sta s, enqueueing old mac)
unfolding advance section connect_section disconnect_section found_section get_station put_station
    now db_cancel db_enqueue get_daemon disconnected_for disconnected_attrs ◌>>=◌
disconnecting_lem old mac sta s e l = rw (e, l)

overlap_lem :
    (old new : Status) (mac : Mac) (sta : Station) (s : State)
    → AllDelivered s
    → lookup mac s.daemon.stations ≡ some sta
    → is_latent old sta ≡ false
    → is_zero (s.world.clock s.world.readings) ≡ false
    → let d = s.daemon in
      let w = s.world in
      let n = w.readings in
      let gone = disconnected_at (w.clock n) sta in
      let back = connected_at_hap new (w.clock (suc n)) gone in
      let attrs = connected_attrs d new back (w.clock (suc (suc n))) in
      let s1 : State = record {
        daemon = record d {
          stations = insert mac back (insert mac gone d.stations);
          db = (cancel mac d.db).0;
        };
        world = record w { readings = suc (suc n) };
      } in
      let s2 =
        sent
          (attrs_message d.hass (to_string mac) attrs)
          (read (sent (home_message d.hass (to_string mac)) s1)) in
      overlap old new mac s ≡ (advance (enqueueing old mac) s2).0
unfolding overlap ◌>>=◌
overlap_lem old new mac sta s h e l z =
    let gone = disconnected_at (s.world.clock s.world.readings) sta in
    let s1 = after_disconnect mac sta s in
    let back = connected_at_hap new (s1.world.clock s1.world.readings) gone in
    let update : should_update new gone ≡ true = unfold should_update in refl in
    rw (
      overlap,
      disconnecting_lem old mac sta s e l,
      connecting_alone new mac s1,
      on_connect-some new mac gone s1 (lookup-insert_self mac gone s.daemon.stations),
      update,
      publish_connected_lem new mac back (after_connect new mac gone s1) h z,
    )

cancel-none :
    {A : Type 0} (mac : Mac) (d : Debouncer A)
    → lookup mac d.queue ≡ none
    → cancel mac d ≡ (record d { queue = erase mac d.queue }, false)
unfolding cancel ◌>>=◌
cancel-none mac d e = ground arith

-- A race. The access point `old` reports that a tracked station has left, which is not connected to
-- another one and has no callback queued for it, and `new` that it has connected; the goroutine of
-- `new` handles its event between the critical section and the `enqueue` of the goroutine of `old`,
-- and finds no callback to cancel. The timer of that callback is due when it expires and its
-- function comes next; the broker completes every message with no error, and the first reading of
-- the clock is not the zero time. Then the station is connected to `new`, but after the state
-- "connected" and its attributes the state "not_connected" is published, and attributes that say
-- that the station is not connected since the first event, on the access point `old`.
pub late_disconnect :
    (old new : Status) (mac : Mac) (sta : Station) (s : State)
    → AllDelivered s
    → lookup mac s.daemon.stations ≡ some sta
    → (sta.connected && not (equal sta.bssid old.bssid)) ≡ false
    → lookup mac s.daemon.db.queue ≡ none
    → is_zero (s.world.clock s.world.readings) ≡ false
    → let clock = s.world.clock in
      let n = s.world.readings in
      pos_part (clock (suc (suc (suc n)))) + s.daemon.db.debounce
        ≤ pos_part (clock (suc (suc (suc (suc n)))))
      → let t = s.daemon.db.created in
        let hass = s.daemon.hass in
        let s' = (timer_runs t (timer_expires t (overlap old new mac s)).0).0 in
        let back = connected_at_hap new (clock (suc n)) (disconnected_at (clock n) sta) in
        (lookup mac s'.daemon.stations ≡ some back)
        × (published s'
            ≡ (((published s ++ home_message hass (to_string mac) ∷ [])
                  ++ attrs_message hass
                      (to_string mac)
                      (connected_attrs s.daemon new back (clock (suc (suc n))))
                    ∷ [])
                ++ not_home_message hass (to_string mac) ∷ [])
              ++ attrs_message hass (to_string mac) (
                  absent_attrs s.daemon old sta
                    (clock (suc n))
                    (clock n)
                    (clock (suc (suc (suc (suc (suc n)))))))
                ∷ [])
unfolding timer_runs timer_expires disconnected_attrs take_callback expire_timer now advance section
    db_enqueue ◌>>=◌
late_disconnect old new mac sta s h e l q z due =
    let w = s.world in
    let d = s.daemon in
    let n = w.readings in
    let cb : Callback = record { mac = mac; hap = old } in
    let gone = disconnected_at (w.clock n) sta in
    let back = connected_at_hap new (w.clock (suc n)) gone in
    let stations = insert mac back (insert mac gone d.stations) in
    let n1 = pos_part (w.clock (suc (suc (suc n)))) in
    let n2 = pos_part (w.clock (suc (suc (suc (suc n))))) in
    let db : Debouncer Callback = record d.db { queue = erase mac d.db.queue } in
    let unqueued : lookup mac db.queue ≡ none = lookup-erase_self mac d.db.queue in
    let ran = run_timer-expire n1 n2 mac cb db unqueued due in
    let db' = (run_timer db.created (expire n2 db.created (enqueue n1 mac (some cb) db).0)).0 in
    let s1 : State = record {
      daemon = record d { stations = stations; db = db' };
      world = record w { readings = suc (suc (suc (suc (suc n)))) };
    } in
    let attrs = connected_attrs d new back (w.clock (suc (suc n))) in
    let s2 =
      sent (attrs_message d.hass (to_string mac) attrs)
        (sent (home_message d.hass (to_string mac)) s1) in
    let there = lookup-insert_self mac back (insert mac gone d.stations) in
    rw
      (
        overlap_lem old new mac sta s h e (not_latent old sta l) z,
        cancel-none mac d.db q,
        ran,
        disconnect_callback_tracked cb back s2 h there,
      )
      (there, refl)
