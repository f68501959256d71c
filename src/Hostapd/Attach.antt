-- ===== src/Hostapd/Attach.antt =====
-- internal/hostapd/ctrl.go, the loop of `attach` that reads and processes unsolicited messages. It runs
-- on fuel: hostapd decides how long it goes on. `detached s` tells whether DETACH was sent.
pub mod Order
pub mod Detach
use wifi_presence.Base.{
  ℕ, zero, suc, Bool, true, false, Option, none, some, [], ◌∷◌, Bytes, codes, equal, trim_space,
  if◌then◌else◌,
}
use wifi_presence.Base.Errors as Errors
use wifi_presence.Base.Errors.{Error, Result, ok, err, unexpected_message}
use wifi_presence.Hostapd.Event.{
  Event, station_connect, station_disconnect, terminating, unrecognized, parse_event,
}
use wifi_presence.Hostapd.Ctrl.{Ctrl}

-- What the loop does with a message: it returns, with an error or none, or calls back.
pub data Step : Type 0 where
  stop : Option Error → Step
  deliver : Event → Step

unfoldable pub of_event : Event → Step
of_event (terminating raw) = stop (some Errors.terminating)
of_event (station_connect raw mac) = deliver (station_connect raw mac)
of_event (station_disconnect raw mac) = deliver (station_disconnect raw mac)
of_event (unrecognized raw) = deliver (unrecognized raw)

unfoldable pub of_parsed : Result Event → Step
unfolding of_event
of_parsed (err e) = stop (some e)
of_parsed (ok event) = of_event event

-- The body of the loop, between the read and the callback.
unfoldable pub receive : Bool → Bytes → Step
unfolding of_parsed
receive detached p =
    let msg = trim_space p in
    if equal msg (codes "OK")
    then stop (if detached then none else some (unexpected_message msg))
    else of_parsed (parse_event msg)

-- The loop. `D` is what the callback changes.
unfoldable pub attach_loop :
    {S D : Type 0}
    → ℕ
    → Ctrl S
    → (S → Bool)
    → (Event → D → D × Option Error)
    → S
    → D
    → Option (S × D × Option Error)
unfolding receive
attach_loop zero c detached events s d = none
attach_loop (suc fuel) c detached events s d =
    let (s', r) = c.conn.read c.buffer s in
    elim r [
      | err e ↦ some (s', d, some e)
      | ok p ↦ elim (receive (detached s') p) [
        | stop e ↦ some (s', d, e)
        | deliver event ↦
            let (d', e) = events event d in
            elim e [
              | some e' ↦ some (s', d', some e')
              | none ↦ attach_loop fuel c detached events s' d'
            ]
      ]
    ]
