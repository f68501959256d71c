-- ===== src/Presence/Config/Publishes/Each.antt =====
-- What the processing of one change does.
use mathlib.Core.List.{append-nil, append_assoc}
use wifi_presence.Base.{
  ap, sym, ◌∙◌, ℕ, ◌≡◌, ◌≢◌, refl, arith, Bool, true, false, List, [], ◌∷◌, ◌++◌, Bytes, codes,
}
use wifi_presence.Base.Errors.{err, Result, ok}
use wifi_presence.Base.Maps.{lookup}
use wifi_presence.Hass.Broker.{Message}
use wifi_presence.Hass.Mqtt.{Mqtt, register_device_tracker, unregister_device_tracker}
use wifi_presence.Presence.Mac.{Mac, mac_key, to_string}
use wifi_presence.Presence.Config.{when, register, unregister}
use wifi_presence.Presence.Delivery.{AllDelivered, sent, with_broker-publish}
use wifi_presence.Presence.Events.{get_daemon}
use wifi_presence.Presence.Events.Branches.{published}
use wifi_presence.Presence.State.{continue, Station, State, ◌>>=◌, with_broker}
use wifi_presence.Presence.Config.Publishes.{
  View, tracker_message, untracked_message, discovery_message, removal_message, guarded,
}

-- The view that a state gives, but for the stations.
pub record Agrees (v : View) (s : State) : Type 0 where
  pub hass : s.daemon.hass ≡ v.hass
  pub ap_name : s.daemon.ap_name ≡ v.ap_name
  pub auto_disc : s.daemon.hass_auto_disc ≡ v.auto_disc
  pub clock : s.world.clock ≡ v.clock
  pub delivered : AllDelivered s

-- A call returns no error, publishes the messages `msgs`, reads the clock up to `n`, and changes no
-- station but that of `mac`.
pub record Publishes (v : View) (mac : Mac) (n : ℕ) (msgs : List Message) (s : State)
    (q : State × Result (Unit {0})) : Type 0 where
  pub returned : q.1 ≡ ok tt
  pub agrees : Agrees v q.0
  pub published : published q.0 ≡ published s ++ msgs
  pub readings : q.0.world.readings ≡ n
  pub others : (k : Mac) → k ≢ mac → lookup k q.0.daemon.stations ≡ lookup k s.daemon.stations

pub Publishes-nothing :
    (v : View) (mac : Mac) (s : State)
    → Agrees v s
    → Publishes v mac s.world.readings [] s (s, ok tt)
Publishes-nothing v mac s a = record {
  returned = refl;
  agrees = a;
  published = sym (append-nil (published s));
  readings = refl;
  others = λ k ne. refl;
}

Publishes-sent :
    (v : View) (mac : Mac) (msg : Message) (s : State)
    → Agrees v s
    → Publishes v mac s.world.readings (msg ∷ []) s (sent msg s, ok tt)
Publishes-sent v mac msg s a = record {
  returned = refl;
  agrees = record {
    hass = a.hass;
    ap_name = a.ap_name;
    auto_disc = a.auto_disc;
    clock = a.clock;
    delivered = a.delivered;
  };
  published = refl;
  readings = refl;
  others = λ k ne. refl;
}

-- One call after the other.
pub Publishes-continue :
    (v : View) (mac : Mac) (n n' : ℕ) (msgs msgs' : List Message) (s : State)
    (q : State × Result (Unit {0})) (m : State → State × Result (Unit {0}))
    → Publishes v mac n msgs s q
    → ((s' : State) → Agrees v s' → s'.world.readings ≡ n → Publishes v mac n' msgs' s' (m s'))
    → Publishes v mac n' (msgs ++ msgs') s (continue (λ u. m) q)
Publishes-continue v mac n n' msgs msgs' s (s', err e) m p f = absurd (ground (arith, p.returned))
Publishes-continue v mac n n' msgs msgs' s (s', ok tt) m p f =
    let r = f s' p.agrees p.readings in
    record {
      returned = r.returned;
      agrees = r.agrees;
      published = r.published ∙ rw (p.published, append_assoc (published s) msgs msgs');
      readings = r.readings;
      others = λ k ne. r.others k ne ∙ p.others k ne;
    }

to_string-ne : (mac : Mac) → to_string mac ≢ []
unfolding to_string
to_string-ne mac e = absurd (ground (arith, e))

with_broker-register :
    (m : Mqtt) (name mac : Bytes) (s : State)
    → AllDelivered s
    → name ≢ []
    → mac ≢ []
    → with_broker (register_device_tracker m name mac) s
      ≡ (sent (tracker_message m name mac) s, ok tt)
unfolding register_device_tracker
with_broker-register m [] mac s h ne nm = absurd (ne refl)
with_broker-register m (n ∷ name) [] s h ne nm = absurd (nm refl)
with_broker-register m (n ∷ name) (c ∷ mac) s h ne nm =
    with_broker-publish (tracker_message m (n ∷ name) (c ∷ mac)) (codes "publish station discovery")
      s h

with_broker-unregister :
    (m : Mqtt) (mac : Bytes) (s : State)
    → AllDelivered s
    → mac ≢ []
    → with_broker (unregister_device_tracker m mac) s ≡ (sent (untracked_message m mac) s, ok tt)
unfolding unregister_device_tracker
with_broker-unregister m [] s h nm = absurd (nm refl)
with_broker-unregister m (c ∷ mac) s h nm =
    with_broker-publish (untracked_message m (c ∷ mac)) (codes "publish station un-discovery") s h

-- A message that the discovery guards.
Publishes-when :
    (v : View) (mac : Mac) (b b' : Bool) (msg msg' : Message)
    (m : State → State × Result (Unit {0})) (s : State)
    → Agrees v s
    → b ≡ b'
    → msg ≡ msg'
    → m s ≡ (sent msg s, ok tt)
    → Publishes v mac s.world.readings (guarded b' msg') s (when b m s)
Publishes-when v mac true b' msg msg' m s a eb em e =
    rw (← eb, ← em, e) (Publishes-sent v mac msg s a)
Publishes-when v mac false b' msg msg' m s a eb em e = rw (← eb) (Publishes-nothing v mac s a)

pub register_lem :
    (v : View) (sta : Station) (mac : Mac) (s : State)
    → Agrees v s
    → sta.name ≢ []
    → Publishes v mac s.world.readings
        (guarded v.auto_disc (discovery_message v.hass sta))
        s
        (register sta s)
unfolding register ◌>>=◌ get_daemon
register_lem v sta mac s a ne =
    let m = s.daemon.hass in
    Publishes-when v mac s.daemon.hass_auto_disc v.auto_disc (discovery_message m sta)
      (discovery_message v.hass sta)
      (with_broker (register_device_tracker m sta.name (to_string sta.mac))) s a a.auto_disc
      (ap (λ h. discovery_message h sta) a.hass)
      (with_broker-register m sta.name (to_string sta.mac) s a.delivered ne (to_string-ne sta.mac))

pub unregister_lem :
    (v : View) (mac : Mac) (s : State)
    → Agrees v s
    → Publishes v mac s.world.readings
        (guarded v.auto_disc (removal_message v.hass mac))
        s
        (unregister mac s)
unfolding unregister ◌>>=◌ get_daemon
unregister_lem v mac s a =
    let m = s.daemon.hass in
    Publishes-when v mac s.daemon.hass_auto_disc v.auto_disc (removal_message m mac)
      (removal_message v.hass mac) (with_broker (unregister_device_tracker m (to_string mac))) s a
      a.auto_disc (ap (λ h. removal_message h mac) a.hass)
      (with_broker-unregister m (to_string mac) s a.delivered (to_string-ne mac))
