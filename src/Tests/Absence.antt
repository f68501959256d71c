-- ===== src/Tests/Absence.antt =====
-- A disconnect event that is followed by the callback, or by a connect event.
use wifi_presence.Base.{
  not, ◌&&◌, ◌+◌, ◌≡◌, ◌≢◌, ◌≤◌, refl, arith, false, some, none, List, [], ◌∷◌, ◌++◌, All, equal,
}
use wifi_presence.Base.Int.{pos_part}
use wifi_presence.Base.Maps.{lookup}
use wifi_presence.Presence.Mac.{mac_key, mac_eq, to_string}
use wifi_presence.Presence.Debounce.{new_debouncer}
use wifi_presence.Presence.Debounce.Invariant.{new_debouncer-Inv}
use wifi_presence.Presence.Debounce.Runs.{
  Action, enqueues, expires, runs, Execution, all_executions,
}
use wifi_presence.Presence.Delivery.{not_home_message, attrs_message}
use wifi_presence.Presence.State.{Callback, State}
use wifi_presence.Presence.Events.{is_latent, on_connect, on_disconnect, timer_expires, timer_runs}
use wifi_presence.Presence.Events.Branches.{absent_attrs, published}
use wifi_presence.Presence.Events.Absence.{reconnect_silences, absence_published}
use wifi_presence.Tests.Fixtures.{mac1, hap1, hap2, phone, state, daemon}

-- The daemon with a shorter time of debouncing.
abbrev quick : State
quick = record state { daemon = record daemon { db = new_debouncer 500000000 } }

abbrev callback : Callback
callback = record { mac = mac1; hap = hap1 }

quick_has_phone : lookup mac1 quick.daemon.stations ≡ some phone
unfolding lookup mac_eq
quick_has_phone = refl

here : (phone.connected && not (equal phone.bssid hap1.bssid)) ≡ false
unfolding equal
here = refl

same_ap : is_latent hap1 phone ≡ false
unfolding is_latent equal
same_ap = refl

none_queued : lookup mac1 quick.daemon.db.queue ≡ none
unfolding lookup new_debouncer
none_queued = refl

is_due : pos_part (quick.world.clock 1) + quick.daemon.db.debounce ≤ pos_part (quick.world.clock 2)
unfolding new_debouncer
is_due = ground arith

absence_published_example :
    let hass = quick.daemon.hass in
    let t = quick.daemon.db.created in
    let s' = (timer_runs t (timer_expires t (on_disconnect hap1 mac1 quick).0).0).0 in
    let attrs =
      absent_attrs quick.daemon hap1 phone phone.connected_at
        (quick.world.clock 0)
        (quick.world.clock 3) in
    published s'
    ≡ (published quick ++ not_home_message hass (to_string mac1) ∷ [])
      ++ attrs_message hass (to_string mac1) attrs ∷ []
absence_published_example =
    absence_published hap1 mac1 phone quick (λ n. refl) quick_has_phone here none_queued is_due

abbrev later : List (Action Callback)
later = expires 64000000000000000000 0 ∷ enqueues 0 mac1 (some callback) ∷ runs 0 ∷ []

reconnect_silences_example :
    let s' = (on_connect hap2 mac1 (on_disconnect hap1 mac1 quick).0).0 in
    All
      (λ (x : Execution Callback). x.timer ≢ quick.daemon.db.created)
      (all_executions later s'.daemon.db)
reconnect_silences_example =
    reconnect_silences hap1 hap2 mac1 phone quick later (λ n. refl) (new_debouncer-Inv 500000000)
      quick_has_phone same_ap none_queued
