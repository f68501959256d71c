-- ===== src/Presence/Config/Publishes/Whole.antt =====
-- What the processing of all the changes of a configuration publishes.
use mathlib.Core.List.{append-nil, append_assoc}
use wifi_presence.Base.{
  sym, ap, ℕ, ◌≡◌, ◌≢◌, ◌++◌, ◌∙◌, refl, arith, true, Option, none, some, List, [], ◌∷◌, All,
}
use wifi_presence.Base.Errors.{Result, ok, err}
use wifi_presence.Base.Maps.{lookup}
use wifi_presence.Hass.Broker.{Message}
use wifi_presence.Presence.Mac.{Mac, mac_key}
use wifi_presence.Presence.Connected.{ConnectedStation, Connected}
use wifi_presence.Presence.Config.{
  StaChange, sta_no_change, sta_removed, sta_added, sta_updated, Changes, is_update, register,
  added_absent, added_connected, process_change, process_changes, or_zero,
}
use wifi_presence.Presence.Debounce.{cancel}
use wifi_presence.Presence.Delivery.{AllDelivered}
use wifi_presence.Presence.Events.Branches.{published}
use wifi_presence.Presence.State.{Station, State, M, ◌>>=◌, continue, get_station, db_cancel}
use wifi_presence.Presence.Config.Publishes.{
  View, discovery_message, guarded, added_messages, added_readings, change_messages,
  change_readings, all_messages, all_readings, IsDistinct, AllNamed,
}
use wifi_presence.Presence.Config.Publishes.Each.{
  Agrees, Publishes, Publishes-nothing, Publishes-continue, register_lem, unregister_lem,
}
use wifi_presence.Presence.Config.Publishes.Added.{added_absent_lem, added_connected_lem}

abbrev added : Mac → Station → Option ConnectedStation → M (Unit {0})
added mac sta c = elim c [ none ↦ added_absent mac sta | some cs ↦ added_connected mac sta cs ]

-- The case on the connected stations of a new one.
added_lem :
    (v : View) (mac : Mac) (sta : Station) (c : Option ConnectedStation) (n : ℕ) (s : State)
    → Agrees v s
    → s.world.readings ≡ n
    → Publishes v mac (added_readings n c) (added_messages v n mac sta c) s (added mac sta c s)
added_lem v mac sta none n s a r = rw (← r) (added_absent_lem v mac sta s a)
added_lem v mac sta (some cs) n s a r = added_connected_lem v mac sta cs n s a r

-- A change publishes its messages.
process_change_lem :
    (v : View) (connected : Connected) (mac : Mac) (change : StaChange) (n : ℕ) (s : State)
    → Agrees v s
    → s.world.readings ≡ n
    → (is_update change ≡ true → (v.station mac).name ≢ [])
    → Publishes v mac
        (change_readings connected n mac change)
        (change_messages v connected n mac change)
        s
        (process_change connected mac change (v.station mac) s)
unfolding process_change ◌>>=◌ is_update db_cancel
process_change_lem v connected mac sta_no_change n s a r h = rw (← r) (Publishes-nothing v mac s a)
process_change_lem v connected mac sta_updated n s a r h =
    rw (← r) (register_lem v (v.station mac) mac s a (h refl))
process_change_lem v connected mac sta_removed n s a r h =
    let d = s.daemon in
    let s' : State = record s { daemon = record d { db = (cancel mac d.db).0 } } in
    let p = unregister_lem v mac s' record {
      hass = a.hass;
      ap_name = a.ap_name;
      auto_disc = a.auto_disc;
      clock = a.clock;
      delivered = a.delivered;
    } in
    rw (← r) record {
      returned = p.returned;
      agrees = p.agrees;
      published = p.published;
      readings = p.readings;
      others = p.others;
    }
process_change_lem v connected mac sta_added n s a r h =
    let sta = v.station mac in
    Publishes-continue v mac s.world.readings (added_readings n (lookup mac connected))
      (guarded v.auto_disc (discovery_message v.hass sta))
      (added_messages v n mac sta (lookup mac connected)) s (register sta s)
      (added mac sta (lookup mac connected)) (register_lem v sta mac s a (h refl))
      (λ s' a' r'. added_lem v mac sta (lookup mac connected) n s' a' (r' ∙ r))

-- A station of the daemon, or the zero value.
abbrev pub station_of : State → Mac → Station
station_of s mac = or_zero (lookup mac s.daemon.stations)

-- The changes read the stations of the view.
abbrev pub AllRead : View → Changes → State → Type 0
AllRead v changes s = All (λ (e : Mac × StaChange). station_of s e.0 ≡ v.station e.0) changes

-- What a list of changes does, in one state.
pub record PublishesAll (v : View) (n : ℕ) (msgs : List Message) (s : State)
    (q : State × Result (Unit {0})) : Type 0 where
  pub returned : q.1 ≡ ok tt
  pub agrees : Agrees v q.0
  pub published : published q.0 ≡ published s ++ msgs
  pub readings : q.0.world.readings ≡ n

AllRead-others :
    (v : View) (mac : Mac) (changes : Changes) (s s' : State)
    → All (λ (e : Mac × StaChange). e.0 ≢ mac) changes
    → ((k : Mac) → k ≢ mac → lookup k s'.daemon.stations ≡ lookup k s.daemon.stations)
    → AllRead v changes s
    → AllRead v changes s'
AllRead-others v mac [] s s' ne others h = tt
AllRead-others v mac ((k, c) ∷ changes) s s' (n, ne) others (h, hs) =
    (ap or_zero (others k n) ∙ h, AllRead-others v mac changes s s' ne others hs)

-- The rest of the changes after one of them.
PublishesAll-continue :
    (v : View) (mac : Mac) (n n' : ℕ) (msgs msgs' : List Message) (s : State)
    (q : State × Result (Unit {0})) (m : State → State × Result (Unit {0}))
    → Publishes v mac n msgs s q
    → ((s' : State)
        → Agrees v s'
        → s'.world.readings ≡ n
        → ((k : Mac) → k ≢ mac → lookup k s'.daemon.stations ≡ lookup k s.daemon.stations)
        → PublishesAll v n' msgs' s' (m s'))
    → PublishesAll v n' (msgs ++ msgs') s (continue (λ u. m) q)
PublishesAll-continue v mac n n' msgs msgs' s (s', err e) m p f =
    absurd (ground (arith, p.returned))
PublishesAll-continue v mac n n' msgs msgs' s (s', ok tt) m p f =
    let r = f s' p.agrees p.readings p.others in
    record {
      returned = r.returned;
      agrees = r.agrees;
      published = r.published ∙ rw (p.published, append_assoc (published s) msgs msgs');
      readings = r.readings;
    }

process_changes_lem :
    (v : View) (connected : Connected) (changes : Changes) (n : ℕ) (s : State)
    → Agrees v s
    → s.world.readings ≡ n
    → IsDistinct changes
    → AllNamed v changes
    → AllRead v changes s
    → PublishesAll v
        (all_readings connected n changes)
        (all_messages v connected n changes)
        s
        (process_changes connected changes s)
unfolding process_changes ◌>>=◌ get_station
process_changes_lem v connected [] n s a r d h e = record {
  returned = refl;
  agrees = a;
  published = sym (append-nil (published s));
  readings = r;
}
process_changes_lem v connected ((mac, c) ∷ changes) n s a r (d, ds) (h, hs) (e, es) = rw e (
    PublishesAll-continue v mac (change_readings connected n mac c)
      (all_readings connected (change_readings connected n mac c) changes)
      (change_messages v connected n mac c)
      (all_messages v connected (change_readings connected n mac c) changes) s
      (process_change connected mac c (v.station mac) s) (process_changes connected changes)
      (process_change_lem v connected mac c n s a r h)
      (λ s' a' r' others.
        process_changes_lem v connected changes (change_readings connected n mac c) s' a' r' ds hs
          (AllRead-others v mac changes s s' d others es)))

-- The view of a state.
abbrev pub view_of : State → View
view_of s = record {
  hass = s.daemon.hass;
  ap_name = s.daemon.ap_name;
  auto_disc = s.daemon.hass_auto_disc;
  clock = s.world.clock;
  station = station_of s;
}

AllRead-itself : (changes : Changes) (s : State) → AllRead (view_of s) changes s
AllRead-itself [] s = tt
AllRead-itself ((mac, c) ∷ changes) s = (refl, AllRead-itself changes s)

-- Where every token completes with no error, no two changes have the same MAC and every device that
-- is new or renamed has a name, the processing of the changes returns no error and publishes, change
-- by change in the order given: for a new device its discovery message, if discovery is on, and then
-- its state "not connected", or its state "connected" and its attributes as of the clock; for a
-- renamed device its discovery message, and for a removed one an empty discovery message, if
-- discovery is on; for the others nothing. It publishes nothing else.
pub process_changes_publish :
    (connected : Connected) (changes : Changes) (s : State)
    → AllDelivered s
    → IsDistinct changes
    → AllNamed (view_of s) changes
    → ((process_changes connected changes s).1 ≡ ok tt)
      × (published (process_changes connected changes s).0
          ≡ published s ++ all_messages (view_of s) connected s.world.readings changes)
process_changes_publish connected changes s h d n =
    let r =
      process_changes_lem (view_of s) connected changes s.world.readings s
        record { hass = refl; ap_name = refl; auto_disc = refl; clock = refl; delivered = h } refl d
        n (AllRead-itself changes s) in
    (r.returned, r.published)
