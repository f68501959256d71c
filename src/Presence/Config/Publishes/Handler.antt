-- ===== src/Presence/Config/Publishes/Handler.antt =====
-- What `onConfigChange` as a whole publishes.
use wifi_presence.Base.{
  ◌≡◌, ◌≢◌, ◌++◌, ◌∙◌, refl, ap, Bool, true, false, [], ◌∷◌, All, if◌then◌else◌,
}
use wifi_presence.Base.Errors.{ok}
use wifi_presence.Hass.Messages.{TrackConfig, Configuration}
use wifi_presence.Presence.Mac.{Mac, mac_key}
use wifi_presence.Presence.Connected.{Connected, connected_or_none}
use wifi_presence.Presence.Config.{
  StaChange, Changes, diff_devices, remove_all_missing, process_changes, apply_changes,
  on_config_change,
}
use wifi_presence.Presence.Delivery.{AllDelivered}
use wifi_presence.Presence.Events.{get_daemon}
use wifi_presence.Presence.Events.Branches.{published}
use wifi_presence.Presence.State.{State, M, ◌>>=◌, return}
use wifi_presence.Presence.Config.Publishes.{all_messages, IsDistinct, AllNamed}
use wifi_presence.Presence.Config.Publishes.Whole.{view_of, process_changes_publish}
use wifi_presence.Presence.Config.Publishes.Quiet.{
  Quiet, Quiet-trans, Lists, Lists-refl, diff_devices-Quiet, remove_missing-Quiet,
  connected_or_none-Lists,
}
use wifi_presence.Presence.Config.Reapply.{Reorders}
use wifi_presence.Presence.Config.Publishes.Named.{
  IsNamed, All-map, diff_devices-Named, remove_missing-Named,
}
use wifi_presence.Presence.Config.Publishes.Distinct.{
  diff_devices-IsDistinct, remove_missing-IsDistinct,
}

-- What the handler knows of the connected stations.
abbrev pub connected_if : Bool → M Connected
connected_if has_updates = if has_updates then connected_or_none else return []

connected_if-Lists : (u : Bool) (s : State) → Lists s (connected_if u s).0
connected_if-Lists true s = connected_or_none-Lists s
connected_if-Lists false s = Lists-refl s

AllNamed-IsNamed :
    (s : State) (changes : Changes) → All (IsNamed s) changes → AllNamed (view_of s) changes
AllNamed-IsNamed s [] h = tt
AllNamed-IsNamed s (e ∷ changes) (h, hs) = (h, AllNamed-IsNamed s changes hs)

-- Where every token completes with no error, every device of the configuration has a name, the diff
-- returns no error and there is a change, and the listing of the connected stations (which is asked for
-- only if a device is new or renamed) returns no error: `onConfigChange` returns no error and publishes,
-- change by change in the order of the iteration: for a new device its discovery message, if discovery
-- is on, and then its state "not connected", or its state "connected" and its attributes as of the
-- clock; for a renamed device its discovery message, and for a removed one an empty discovery message,
-- if discovery is on. It publishes nothing else. The iteration visits changes of the map, and no MAC
-- twice.
pub on_config_change_publish :
    (order : Changes → Changes) (cfg : Configuration) (s : State) {s1 s2 s3 : State}
    {diff changes : Changes} {u : Bool} {c : Mac × StaChange} {connected : Connected}
    → AllDelivered s
    → ((changes : Changes) → IsDistinct changes → IsDistinct (order changes))
    → Reorders order
    → All (λ (dev : TrackConfig). dev.name ≢ []) cfg.devices
    → diff_devices cfg.devices [] false s ≡ (s1, ok (diff, u))
    → remove_all_missing diff s1 ≡ (s2, ok (c ∷ changes))
    → connected_if u s2 ≡ (s3, ok connected)
    → ((on_config_change order cfg s).1 ≡ ok tt)
      × (published (on_config_change order cfg s).0
          ≡ published s
            ++ all_messages (view_of s3) connected s.world.readings (order (c ∷ changes)))
unfolding on_config_change apply_changes remove_all_missing ◌>>=◌ get_daemon
on_config_change_publish order cfg s {s1} {s2} {s3} {diff} {changes} {u} {c} {connected} h o visits
      names e1 e2 e3 =
    let q1 : Quiet s s1 = rw e1 at (diff_devices-Quiet cfg.devices [] false s) in
    let q2 : Quiet s1 s2 = rw e2 at (remove_missing-Quiet s1.daemon.stations diff s1) in
    let l3 : Lists s2 s3 = rw e3 at (connected_if-Lists u s2) in
    let q3 : Quiet s2 s3 = record { broker = l3.broker; readings = l3.readings } in
    let q = Quiet-trans s s1 s3 q1 (Quiet-trans s1 s2 s3 q2 q3) in
    let d1 : IsDistinct diff = rw e1 at (diff_devices-IsDistinct cfg.devices [] false s tt) in
    let d2 : IsDistinct (c ∷ changes) =
      rw e2 at (remove_missing-IsDistinct s1.daemon.stations diff s1 d1) in
    let delivered : AllDelivered s3 = λ n. ap (λ b. b.outcome n) q.broker ∙ h n in
    let n1 : All (IsNamed s1) diff =
      rw e1 at (diff_devices-Named cfg.devices [] false s names tt) in
    let n2 : All (IsNamed s2) (c ∷ changes) =
      rw e2 at (remove_missing-Named s1.daemon.stations diff s1 n1) in
    let n3 : All (IsNamed s3) (order (c ∷ changes)) =
      visits (IsNamed s3) (c ∷ changes)
        (All-map (IsNamed s2) (IsNamed s3) (c ∷ changes) (λ e f v. rw l3.daemon (f v)) n2) in
    let done =
      process_changes_publish connected (order (c ∷ changes)) s3 delivered (o (c ∷ changes) d2)
        (AllNamed-IsNamed s3 (order (c ∷ changes)) n3) in
    let same : on_config_change order cfg s ≡ process_changes connected (order (c ∷ changes)) s3 =
      rw (e1, e2, e3) refl in
    rw same (
      done.0,
      done.1
          ∙ ap
              (λ l.
                l ++ all_messages (view_of s3) connected s3.world.readings (order (c ∷ changes)))
              (ap (λ b. b.published) q.broker)
          ∙ ap (λ n. published s ++ all_messages (view_of s3) connected n (order (c ∷ changes)))
              q.readings,
    )
