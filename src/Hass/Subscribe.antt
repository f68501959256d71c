-- ===== src/Hass/Subscribe.antt =====
-- internal/hass/mqtt.go, `SubscribeConfig` and `OnConnectionLost`. The MQTT client calls the function of
-- the subscription in a goroutine of its own, one message after the other; what happens is a list, in
-- the order of time. The context ends when the `select` takes its end. `decode` is `json.Unmarshal`, `D` what the callback changes.
use wifi_presence.Base.{
  ◌∙◌, ap, ◌≡◌, refl, Bool, Option, none, some, List, [], ◌∷◌, ◌++◌, Bytes, codes,
}
use wifi_presence.Base.Errors.{Error, Result, ok, err, wrapped}
use wifi_presence.Hass.Messages.{Configuration}
use wifi_presence.Hass.Broker.{Outcome, token_wait}

-- What happens to a subscription: a message of the topic, with whether it was retained; the goroutine of
-- `SubscribeConfig` looks at `errs` in its `select`; or it takes the end of the context there.
pub data Signal : Type 0 where
  message : Bool → Bytes → Signal
  selects cancelled : Signal

-- What the callback changes, the error in the channel `errs`, which has room for one, and the error with
-- which the function of the subscription waits for room.
pub record Subscription (D : Type 0) : Type 0 where
  pub state : D
  pub errs : Option Error
  pub blocked : Option Error

module _ {D : Type 0} (decode : Bytes → Result Configuration)
    (cb : Bool → Configuration → D → D × Option Error) where
  -- The function that the subscription calls with a message: the error that it hands to `onError`.
  abbrev pub decoded_message : Bool → Result Configuration → D → D × Option Error
  decoded_message retained (err e) d = (d, some (wrapped (codes "unable to decode message") e))
  decoded_message retained (ok cfg) d = cb retained cfg d

  unfoldable pub receive_message : Bool → Bytes → D → D × Option Error
  receive_message retained payload d = decoded_message retained (decode payload) d

  -- The function of the subscription hands an error to `errs`, which has room for one; with an error in
  -- it already it is blocked until that is received.
  abbrev pub handed_on : D × Option Error → Subscription D → Subscription D
  handed_on (d, none) w = record w { state = d }
  handed_on (d, some e) w = elim w.errs [
    | none ↦ record w { state = d; errs = some e }
    | some _ ↦ record w { state = d; blocked = some e }
  ]

  -- The MQTT client calls the function of the subscription, which it does not while that is blocked.
  unfoldable pub take_message : Bool → Bytes → Subscription D → Subscription D
  unfolding receive_message
  take_message retained payload w = elim w.blocked [
    | some _ ↦ w
    | none ↦ handed_on (receive_message retained payload w.state) w
  ]

  -- The messages that come until `Unsubscribe` has an effect. The other signals have none by then.
  unfoldable pub take_messages : List Signal → Subscription D → Subscription D
  unfolding take_message
  take_messages [] w = w
  take_messages (message retained payload ∷ signals) w =
      take_messages signals (take_message retained payload w)
  take_messages (_ ∷ signals) w = take_messages signals w

  -- `errs` is received from: a blocked function goes on, and its error takes the place.
  abbrev pub received : Subscription D → Subscription D
  received w = record w { errs = w.blocked; blocked = none }

  -- The messages that come between the end of the context and the effect of `Unsubscribe`: no error is
  -- received any more, and no function waits for that.
  unfoldable pub after_end : List Signal → D → D
  unfolding receive_message
  after_end [] d = d
  after_end (message retained payload ∷ signals) d =
      after_end signals (receive_message retained payload d).0
  after_end (_ ∷ signals) d = after_end signals d

  -- The `select`, on the signals in the order of time. `none` means that it still waits. Where it receives
  -- an error, the outcome of `Unsubscribe` is dropped.
  unfoldable pub select_loop : Outcome → List Signal → Subscription D → Option (D × Option Error)
  unfolding take_message take_messages after_end
  select_loop unsubscribed [] w = none
  select_loop unsubscribed (message retained payload ∷ signals) w =
      select_loop unsubscribed signals (take_message retained payload w)
  select_loop unsubscribed (cancelled ∷ signals) w =
      some
        (after_end signals w.state, token_wait unsubscribed (codes "unsubscribe tracking config"))
  select_loop unsubscribed (selects ∷ signals) w =
      let rest = select_loop unsubscribed signals w in
      elim w.errs [
        | none ↦ rest
        | some e ↦ some ((take_messages signals (received w)).state, some e)
      ]

  abbrev pub after_subscribe : Outcome → List Signal → D → Option Error → Option (D × Option Error)
  after_subscribe unsubscribed signals d (some e) = some (d, some e)
  after_subscribe unsubscribed signals d none =
      select_loop unsubscribed signals (record { state = d; errs = none; blocked = none })

  -- `SubscribeConfig`.
  unfoldable pub subscribe_config : Outcome → Outcome → List Signal → D → Option (D × Option Error)
  unfolding select_loop
  subscribe_config subscribed unsubscribed signals d =
      after_subscribe unsubscribed signals d
        (token_wait subscribed (codes "subscribe tracking config"))

  -- `Handles signals d d'`: the callback takes these messages, one after the other, with no error.
  pub data Handles : List Signal → D → D → Type 0 where
    nothing : {d : D} → Handles [] d d
    handled :
        {retained : Bool} {payload : Bytes} {signals : List Signal} {d d1 d2 : D}
        → receive_message retained payload d ≡ (d1, none)
        → Handles signals d1 d2
        → Handles (message retained payload ∷ signals) d d2

  take_message-ok :
      (retained : Bool) (payload : Bytes) (errs : Option Error) (d : D) {d' : D}
      → receive_message retained payload d ≡ (d', none)
      → take_message retained payload (record { state = d; errs = errs; blocked = none })
        ≡ record { state = d'; errs = errs; blocked = none }
  unfolding take_message
  take_message-ok retained payload errs d e = rw (take_message, e) refl

  take_messages-Handles :
      (errs : Option Error) {signals : List Signal} {d d' : D}
      → Handles signals d d'
      → take_messages signals (record { state = d; errs = errs; blocked = none })
        ≡ record { state = d'; errs = errs; blocked = none }
  unfolding take_messages
  take_messages-Handles errs nothing = refl
  take_messages-Handles errs (handled {retained} {payload} {signals} {d} e h) =
      ap (take_messages signals) (take_message-ok retained payload errs d e)
      ∙ take_messages-Handles errs h

  select_loop-Handles :
      (unsubscribed : Outcome) (errs : Option Error) (after : List Signal) {before : List Signal}
      {d d' : D}
      → Handles before d d'
      → select_loop unsubscribed
          (before ++ after)
          (record { state = d; errs = errs; blocked = none })
        ≡ select_loop unsubscribed after (record { state = d'; errs = errs; blocked = none })
  unfolding select_loop
  select_loop-Handles unsubscribed errs after nothing = refl
  select_loop-Handles unsubscribed errs after (handled {retained} {payload} {signals} {d} e h) =
      ap (select_loop unsubscribed (signals ++ after)) (take_message-ok retained payload errs d e)
      ∙ select_loop-Handles unsubscribed errs after h

  select_loop-failed :
      (unsubscribed : Outcome) (retained : Bool) (payload : Bytes) (e : Error) (after : List Signal)
      (d : D) {d' : D}
      → receive_message retained payload d ≡ (d', some e)
      → select_loop unsubscribed
          (message retained payload ∷ after)
          (record { state = d; errs = none; blocked = none })
        ≡ select_loop unsubscribed after (record { state = d'; errs = some e; blocked = none })
  unfolding select_loop take_message
  select_loop-failed unsubscribed retained payload e after d q =
      rw (select_loop, take_message, q) refl

  -- Where an error stands in `errs` and a second message fails, the function waits with its error.
  select_loop-second :
      (unsubscribed : Outcome) (retained : Bool) (payload : Bytes) (e x : Error)
      (after : List Signal) (d : D) {d' d'' : D}
      → receive_message retained payload d ≡ (d', some x)
      → Handles after d' d''
      → select_loop unsubscribed
          (message retained payload ∷ selects ∷ after)
          (record { state = d; errs = some e; blocked = none })
        ≡ some (d'', some e)
  unfolding select_loop take_message
  select_loop-second unsubscribed retained payload e x after d {d'} q h =
      let waits : take_message retained payload
            (record { state = d; errs = some e; blocked = none })
          ≡ record { state = d'; errs = some e; blocked = some x } =
        rw (take_message, q) refl in
      ap (select_loop unsubscribed (selects ∷ after)) waits
      ∙ ap (λ (w : Subscription D). some (w.state, some e)) (take_messages-Handles (some x) h)

  -- Where the subscription is made, some messages are handled with no error, the next one is not, and
  -- neither is a second one, some messages later, before the `select` receives the first error:
  -- `SubscribeConfig` returns the first error. The callback has taken every message once and in order,
  -- those after an error too, until `Unsubscribe` has an effect.
  pub subscribe_config_fails :
      (unsubscribed subscribed : Outcome) (before between after : List Signal)
      (retained again : Bool) (payload second : Bytes) (e x : Error) {d d1 d2 d3 d4 d5 : D}
      → token_wait subscribed (codes "subscribe tracking config") ≡ none
      → Handles before d d1
      → receive_message retained payload d1 ≡ (d2, some e)
      → Handles between d2 d3
      → receive_message again second d3 ≡ (d4, some x)
      → Handles after d4 d5
      → subscribe_config subscribed unsubscribed
          (before ++ message retained payload ∷ (between ++ message again second ∷ selects ∷ after))
          d
        ≡ some (d5, some e)
  unfolding subscribe_config
  subscribe_config_fails unsubscribed subscribed before between after retained again payload second
        e x {d1 = d1} {d3 = d3} t b q h q' a =
      let tail = between ++ message again second ∷ selects ∷ after in
      rw (t, select_loop-Handles unsubscribed none (message retained payload ∷ tail) b)
        (select_loop-failed unsubscribed retained payload e tail d1 q
          ∙ select_loop-Handles unsubscribed (some e) (message again second ∷ selects ∷ after) h
          ∙ select_loop-second unsubscribed again second e x after d3 q' a)
