-- ===== src/Presence/Program/Keeps.antt =====
-- What a computation on the daemon's state keeps, and the rules for its primitives.
use wifi_presence.Base.{
  ℕ, ◌≡◌, ◌≢◌, ◌⊎◌, refl, arith, Option, none, some, [], ◌∷◌, Bytes, All, All-append,
}
use wifi_presence.Base.Errors.{Error, Result, ok, err}
use wifi_presence.Base.Time.{Time}
use wifi_presence.Presence.Debounce.{Debouncer}
use wifi_presence.Base.Maps.{lookup, lookup-insert}
use wifi_presence.Hass.Broker.{Broker, Message, Payload, text, tracker, attributes, publish}
use wifi_presence.Hass.Topics.{device_state, device_json_attrs, device_discovery}
use wifi_presence.Hass.Mqtt.{Mqtt, payload_home, payload_not_home}
use wifi_presence.Presence.Mac.{Mac, mac_key}
use wifi_presence.Presence.Debounce.Invariant.{
  Inv, cancel-Inv, enqueue-Inv, expire-Inv, run_timer-Inv,
}
use wifi_presence.Presence.Events.{get_daemon}
use wifi_presence.Presence.State.{
  Station, Callback, State, M, continue, ◌>>=◌, return, now, with_broker, list_stations,
  get_station, put_station, db_cancel, db_enqueue, expire_timer, take_callback,
}

-- What a message says belongs to the topic under which it is published.
abbrev pub IsOwnPayload : Mqtt → Bytes → Payload → Type 0
IsOwnPayload m topic (attributes a) = topic ≡ device_json_attrs m.topics a.mac
IsOwnPayload m topic (tracker t) =
    (mac : Bytes) × (topic ≡ device_discovery m.topics mac)
    × (t.state_topic ≡ device_state m.topics mac)
    × (t.json_attributes_topic ≡ device_json_attrs m.topics mac)
IsOwnPayload m topic (text p) =
    (mac : Bytes) × (((topic ≡ device_state m.topics mac)
        × ((p ≡ payload_home) ⊎ (p ≡ payload_not_home)))
      ⊎ ((topic ≡ device_discovery m.topics mac) × (p ≡ [])))

abbrev pub IsOwn : Mqtt → Message → Type 0
IsOwn m msg = IsOwnPayload m msg.topic msg.payload

-- The invariant of the daemon's state. `K` says which addresses are tracked for certain.
pub record IsSound (m : Mqtt) (K : Mac → Type 0) (s : State) : Type 0 where
  pub same_hass : s.daemon.hass ≡ m
  pub keyed : (mac : Mac) {sta : Station} → lookup mac s.daemon.stations ≡ some sta → sta.mac ≡ mac
  pub has : (mac : Mac) → K mac → lookup mac s.daemon.stations ≢ none
  pub debounced : Inv s.daemon.db
  pub own : All (IsOwn m) s.world.broker.published

abbrev pub OnOk : {A : Type 0} → (A → Type 0) → Result A → Type 0
OnOk Q (ok a) = Q a
OnOk Q (err e) = Unit

abbrev pub Whatever : {A : Type 0} → A → Type 0
Whatever a = Unit

OnOk-Whatever : {A : Type 0} (r : Result A) → OnOk Whatever r
OnOk-Whatever (ok a) = tt
OnOk-Whatever (err e) = tt

-- `c` keeps the invariant, and the value that it returns has the property `Q`.
pub record Keeps (m : Mqtt) (K : Mac → Type 0) {A : Type 0} (Q : A → Type 0) (c : M A)
    : Type 0 where
  pub holds : (s : State) → IsSound m K s → IsSound m K (c s).0 × OnOk Q (c s).1

-- What is found in the map of stations.
abbrev pub IsFound : (Mac → Type 0) → Mac → Option Station → Type 0
IsFound K mac none = ¬ K mac
IsFound K mac (some sta) = sta.mac ≡ mac

module _ {m : Mqtt} {K : Mac → Type 0} where
  Keeps-continue :
      {A B : Type 0} (P : A → Type 0) (Q : B → Type 0) (f : A → M B) (r : State × Result A)
      → IsSound m K r.0
      → OnOk P r.1
      → ((a : A) → P a → Keeps m K Q (f a))
      → IsSound m K (continue f r).0 × OnOk Q (continue f r).1
  Keeps-continue P Q f (s, ok a) i p k = (k a p).holds s i
  Keeps-continue P Q f (s, err e) i p k = (i, tt)

  pub Keeps->>= :
      {A B : Type 0} {P : A → Type 0} {Q : B → Type 0} {c : M A} {f : A → M B}
      → Keeps m K P c
      → ((a : A) → P a → Keeps m K Q (f a))
      → Keeps m K Q (c >>= f)
  unfolding ◌>>=◌
  Keeps->>= {P = P} {Q = Q} {c = c} {f = f} h k = record {
    holds = λ s i. let (i', p) = h.holds s i in Keeps-continue P Q f (c s) i' p k;
  }

  pub Keeps-return : {A : Type 0} {Q : A → Type 0} (a : A) → Q a → Keeps m K Q (return a)
  Keeps-return a q = record { holds = λ s i. (i, q) }

  pub Keeps-now : Keeps m K Whatever now
  unfolding now
  Keeps-now = record {
    holds = λ s i. (
      record {
        same_hass = i.same_hass;
        keyed = i.keyed;
        has = i.has;
        debounced = i.debounced;
        own = i.own;
      },
      tt,
    );
  }

  pub Keeps-get_daemon : Keeps m K (λ d. d.hass ≡ m) get_daemon
  unfolding get_daemon
  Keeps-get_daemon = record { holds = λ s i. (i, i.same_hass) }

  IsFound-lookup :
      (mac : Mac) (o : Option Station) (s : State)
      → IsSound m K s
      → lookup mac s.daemon.stations ≡ o
      → IsFound K mac o
  IsFound-lookup mac none s i e = λ k. i.has mac k e
  IsFound-lookup mac (some sta) s i e = i.keyed mac e

  pub Keeps-get_station : (mac : Mac) → Keeps m K (IsFound K mac) (get_station mac)
  unfolding get_station
  Keeps-get_station mac = record {
    holds = λ s i. (i, IsFound-lookup mac (lookup mac s.daemon.stations) s i refl);
  }

  -- A station is written under its own address.
  pub Keeps-put_station :
      (mac : Mac) (sta : Station) → sta.mac ≡ mac → Keeps m K Whatever (put_station mac sta)
  unfolding put_station
  Keeps-put_station mac sta e = record {
    holds = λ s i. (
      record {
        same_hass = i.same_hass;
        keyed = λ k {sta = sta'} p. ground (
          arith,
          lookup-insert mac k sta s.daemon.stations,
          mac_key.beq_iff mac k,
          i.keyed k {sta = sta'},
        );
        has = λ k p. ground (arith, lookup-insert mac k sta s.daemon.stations, i.has k p);
        debounced = i.debounced;
        own = i.own;
      },
      tt,
    );
  }

  with_db :
      (s : State) (db : Debouncer Callback)
      → IsSound m K s
      → Inv db
      → let d = s.daemon in IsSound m K (record s { daemon = record d { db = db } })
  with_db s db i v = record {
    same_hass = i.same_hass;
    keyed = i.keyed;
    has = i.has;
    debounced = v;
    own = i.own;
  }

  pub Keeps-db_cancel : (mac : Mac) → Keeps m K Whatever (db_cancel mac)
  unfolding db_cancel
  Keeps-db_cancel mac = record {
    holds = λ s i. (with_db s _ i (cancel-Inv mac s.daemon.db i.debounced), tt);
  }

  pub Keeps-db_enqueue : (mac : Mac) (cb : Callback) → Keeps m K Whatever (db_enqueue mac cb)
  unfolding db_enqueue now
  Keeps-db_enqueue mac cb = record {
    holds = λ s i.
        let (i', u) = Keeps-now.holds s i in
        (with_db (now s).0 _ i' (enqueue-Inv _ mac (some cb) s.daemon.db i.debounced), tt);
  }

  pub Keeps-expire_timer : (t : ℕ) (reading : Time) → Keeps m K Whatever (expire_timer t reading)
  unfolding expire_timer
  Keeps-expire_timer t reading = record {
    holds = λ s i. (with_db s _ i (expire-Inv _ t s.daemon.db i.debounced), tt);
  }

  pub Keeps-take_callback : (t : ℕ) → Keeps m K Whatever (take_callback t)
  unfolding take_callback
  Keeps-take_callback t = record {
    holds = λ s i. (with_db s _ i (run_timer-Inv t s.daemon.db i.debounced), tt);
  }

  pub Keeps-list_stations : Keeps m K Whatever list_stations
  unfolding list_stations
  Keeps-list_stations = record {
    holds = λ s i. (
      record {
        same_hass = i.same_hass;
        keyed = i.keyed;
        has = i.has;
        debounced = i.debounced;
        own = i.own;
      },
      OnOk-Whatever _,
    );
  }

  -- A message of its own topic is published.
  pub Keeps-with_broker-publish :
      (msg : Message) (description : Bytes)
      → IsOwn m msg
      → Keeps m K Whatever (with_broker (publish msg description))
  unfolding with_broker publish
  Keeps-with_broker-publish msg description o = record {
    holds = λ s i. (
      record {
        same_hass = i.same_hass;
        keyed = i.keyed;
        has = i.has;
        debounced = i.debounced;
        own = All-append (IsOwn m) s.world.broker.published (msg ∷ []) i.own (o, tt);
      },
      OnOk-Whatever _,
    );
  }

  -- A call of internal/hass that returns an error before it publishes.
  pub Keeps-with_broker-fails :
      (f : Broker → Broker × Option Error) (e : Error)
      → ((b : Broker) → f b ≡ (b, some e))
      → Keeps m K Whatever (with_broker f)
  unfolding with_broker
  Keeps-with_broker-fails f e h = record { holds = λ s i. rw (h s.world.broker) (i, tt) }
