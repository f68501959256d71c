-- ===== src/Command/Arguments.antt =====
-- What the checks of the arguments give to the rest of the program.
use mathlib.Core.List.{append_assoc, append-nil}
use wifi_presence.Base.{
  ◌≡◌, ◌≢◌, refl, ap, ◌∙◌, arith, true, none, some, List, [], ◌∷◌, ◌++◌, ◌||◌, Bytes, codes, inl,
  inr, map,
}
use wifi_presence.Base.Int.{pos_part}
use wifi_presence.Base.Errors.{ok, Result-cases}
use wifi_presence.Hass.Broker.{text}
use wifi_presence.Hass.Topics.{MqttTopics, will_topic}
use wifi_presence.Hass.Mqtt.{
  qos_at_least_once, status_offline, Mqtt, ClientOptions, new_mqtt, or_default, is_set,
}
use wifi_presence.Hostapd.Status.{Status}
use wifi_presence.Presence.Debounce.{new_debouncer}
use wifi_presence.Presence.Construction.{
  Draft, with_hostapd, apply_opt, apply_opts, statuses, with_clients, or_debouncer, new_daemon,
}
use wifi_presence.Command.{Args, Calls, validate, mqtt_opts, connect_clients, daemon_opts, split}
use wifi_presence.Command.Sockets.{split-ne-nil}

-- What the checks require.
pub record IsValid (args : Args) : Type 0 where
  pub ap_name : is_set args.ap_name ≡ true
  pub hostapd_socks : is_set args.hostapd_socks ≡ true
  pub mqtt_addr : is_set args.mqtt_addr ≡ true
  pub mqtt_id : is_set args.mqtt_id ≡ true
  pub mqtt_prefix : is_set args.mqtt_prefix ≡ true

validate-IsValid : (args : Args) → validate args ≡ none → IsValid args
unfolding validate
validate-IsValid args h = record {
  ap_name = ground arith;
  hostapd_socks = ground arith;
  mqtt_addr = ground arith;
  mqtt_id = ground arith;
  mqtt_prefix = ground arith;
}

validate-hass_prefix :
    (args : Args)
    → validate args ≡ none
    → args.hass_autodiscovery ≡ true
    → is_set args.hass_prefix ≡ true
unfolding validate
validate-hass_prefix args h a = ground arith

or_default-set : (v fallback : Bytes) → is_set v ≡ true → or_default v fallback ≡ v
unfolding or_default is_set
or_default-set [] fallback h = absurd (ground arith)
or_default-set (c ∷ v) fallback h = refl

-- For arguments that pass the checks, with autodiscovery on, `NewMQTT` does not refuse its options and
-- replaces none of them by a default: the client has the identifier, and the topics the name and both
-- prefixes, that the arguments say.
pub validated_mqtt :
    (args : Args)
    → validate args ≡ none
    → args.hass_autodiscovery ≡ true
    → (client : ClientOptions) × (m : Mqtt) × (new_mqtt (mqtt_opts args) ≡ ok (client, m))
      × (client.client_id ≡ args.mqtt_id)
      × (m.topics.name ≡ args.ap_name)
      × (m.topics.prefix ≡ args.mqtt_prefix)
      × (m.topics.hass_prefix ≡ args.hass_prefix)
unfolding new_mqtt mqtt_opts
validated_mqtt args h a =
    let v = validate-IsValid args h in
    let topics : MqttTopics = record {
      name = args.ap_name;
      prefix = or_default args.mqtt_prefix (codes "wifi-presence");
      hass_prefix = or_default args.hass_prefix (codes "homeassistant");
    } in
    let client : ClientOptions = record {
      client_id = or_default args.mqtt_id (codes "wifi-presence:" ++ args.ap_name);
      has_credentials = is_set args.mqtt_username || is_set args.mqtt_password;
      will = record {
        topic = will_topic topics;
        qos = qos_at_least_once;
        retained = true;
        payload = text status_offline;
      };
    } in
    (
      client,
      record { topics = topics; ap_name = args.ap_name },
      rw v.ap_name refl,
      or_default-set args.mqtt_id _ v.mqtt_id,
      refl,
      or_default-set args.mqtt_prefix _ v.mqtt_prefix,
      or_default-set args.hass_prefix _ (validate-hass_prefix args h a),
    )

module _ {C W : Type 0} (calls : Calls C W) where
  apply_opts-with_hostapd :
      (clients : List C) (d : Draft C)
      → apply_opts (map with_hostapd clients) d ≡ record d { clients = d.clients ++ clients }
  unfolding apply_opts apply_opt
  apply_opts-with_hostapd [] d = rw (append-nil d.clients) refl
  apply_opts-with_hostapd (c ∷ clients) d =
      apply_opts-with_hostapd clients (apply_opt (with_hostapd c) d)
      ∙ ap (λ t. record d { clients = t }) (append_assoc d.clients (c ∷ []) clients)

  -- `Connects dir socks w clients w'`: one after the other, and in this order, each of these sockets
  -- gives one of these clients.
  pub data Connects (dir : Bytes) : List Bytes → W → List C → W → Type 0 where
    all_connected : {w : W} → Connects dir [] w [] w
    connected :
        {sock : Bytes} {socks : List Bytes} {w w1 w2 : W} {c : C} {clients : List C}
        → calls.new_client dir sock w ≡ (w1, ok c)
        → Connects dir socks w1 clients w2
        → Connects dir (sock ∷ socks) w (c ∷ clients) w2

  -- `Answers clients w haps w'`: one after the other, and in this order, each of these clients gives one
  -- of these statuses.
  pub data Answers : List C → W → List Status → W → Type 0 where
    all_answered : {w : W} → Answers [] w [] w
    answered :
        {c : C} {clients : List C} {w w1 w2 : W} {hap : Status} {haps : List Status}
        → calls.status c w ≡ (w1, ok hap)
        → Answers clients w1 haps w2
        → Answers (c ∷ clients) w (hap ∷ haps) w2

  connect_clients-Connects :
      (dir : Bytes) {socks : List Bytes} {w w' : W} {clients : List C}
      → Connects dir socks w clients w'
      → connect_clients calls dir socks w ≡ (w', clients, none)
  unfolding connect_clients
  connect_clients-Connects dir all_connected = refl
  connect_clients-Connects dir (connected e h) =
      let rest = connect_clients-Connects dir h in ground arith

  statuses-Answers :
      {clients : List C} {w w' : W} {haps : List Status}
      → Answers clients w haps w'
      → statuses calls.status clients w ≡ (w', ok haps)
  unfolding statuses
  statuses-Answers all_answered = refl
  statuses-Answers (answered e h) = let rest = statuses-Answers h in ground arith

  connect_clients-cons :
      (dir : Bytes) (socks : List Bytes) (w : W) {w' : W} {clients : List C}
      → socks ≢ []
      → connect_clients calls dir socks w ≡ (w', clients, none)
      → clients ≢ []
  unfolding connect_clients
  connect_clients-cons dir [] w ne e = absurd (ne refl)
  connect_clients-cons dir (sock ∷ socks) w ne e =
      elim (Result-cases (calls.new_client dir sock w).1) [
        | inl (c, p) ↦ ground arith
        | inr (x, p) ↦ absurd (ground arith)
      ]

  with_clients-ok :
      (d : Draft C) (hass : Mqtt) (clients : List C) (w : W) {w' : W} {haps : List Status}
      → clients ≢ []
      → statuses calls.status clients w ≡ (w', ok haps)
      → with_clients calls.status d hass clients w ≡ (
        w',
        ok (record {
          ap_name = d.ap_name;
          hass = hass;
          haps = haps;
          db = or_debouncer d.db;
          hass_auto_disc = d.hass_auto_disc;
          stations = [];
        }),
      )
  with_clients-ok d hass [] w ne e = absurd (ne refl)
  with_clients-ok d hass (c ∷ clients) w ne e = rw e refl

  -- Where each socket of the arguments gives a client, one after the other, and then each client its
  -- status: `run` connects to all of them with no error and keeps the clients in the order of the
  -- sockets, and the options that it makes are enough for `NewDaemon`, which returns the daemon with
  -- the status of each client in the same order, the time of debouncing and the name that the
  -- arguments say (0 where it is negative), and no station.
  pub new_daemon-daemon_opts :
      (args : Args) (mqtt : Mqtt) (w : W) {w1 w2 : W} {clients : List C} {haps : List Status}
      → Connects args.sock_dir (split args.hostapd_socks) w clients w1
      → Answers clients w1 haps w2
      → (connect_clients calls args.sock_dir (split args.hostapd_socks) w ≡ (w1, clients, none))
        × (new_daemon calls.status (daemon_opts calls args mqtt clients) w1 ≡ (
          w2,
          ok (record {
            ap_name = args.ap_name;
            hass = mqtt;
            haps = haps;
            db = new_debouncer (pos_part args.debounce);
            hass_auto_disc = args.hass_autodiscovery;
            stations = [];
          }),
        ))
  unfolding new_daemon daemon_opts apply_opts apply_opt or_debouncer
  new_daemon-daemon_opts args mqtt w {w1 = w1} {clients = clients} connects answers =
      let c = connect_clients-Connects args.sock_dir connects in
      let s = statuses-Answers answers in
      let d : Draft C = record {
        ap_name = args.ap_name;
        hass = some mqtt;
        clients = [];
        db = some (new_debouncer (pos_part args.debounce));
        hass_auto_disc = args.hass_autodiscovery;
      } in
      let ne =
        connect_clients-cons args.sock_dir (split args.hostapd_socks) w
          (split-ne-nil args.hostapd_socks) c in
      (
        c,
        rw (apply_opts-with_hostapd clients d)
            (with_clients-ok (record d { clients = clients }) mqtt clients w1 ne s),
      )
