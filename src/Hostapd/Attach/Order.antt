-- ===== src/Hostapd/Attach/Order.antt =====
-- What `attach` hands to the callback, by what is read from the connection.
use wifi_presence.Base.{
  ℕ, zero, suc, ◌<◌, ◌≡◌, arith, Bool, Option, none, some, List, [], ◌∷◌, Bytes, length,
}
use wifi_presence.Base.Errors.{Error, ok, err}
use wifi_presence.Hostapd.Event.{Event}
use wifi_presence.Hostapd.Ctrl.{Ctrl}
use wifi_presence.Hostapd.Attach.{stop, deliver, receive, attach_loop}

-- `Reads c detached last s' events s`: what is read from `s` on are messages of the `events` in turn,
-- and then a message or an error that ends the loop with `last` in `s'`.
pub data Reads {S : Type 0} (c : Ctrl S) (detached : S → Bool) (last : Option Error) (s' : S)
    : List Event → S → Type 0 where
  breaks :
      {s : S} {e : Error}
      → last ≡ some e
      → c.conn.read c.buffer s ≡ (s', err e)
      → Reads c detached last s' [] s
  ends :
      {s : S} {p : Bytes}
      → c.conn.read c.buffer s ≡ (s', ok p)
      → receive (detached s') p ≡ stop last
      → Reads c detached last s' [] s
  more :
      {s s1 : S} {p : Bytes} {event : Event} {events : List Event}
      → c.conn.read c.buffer s ≡ (s1, ok p)
      → receive (detached s1) p ≡ deliver event
      → Reads c detached last s' events s1
      → Reads c detached last s' (event ∷ events) s

-- The callback on a list of events, in order.
unfoldable pub all_events : {D : Type 0} → (Event → D → D × Option Error) → List Event → D → D
all_events f [] d = d
all_events f (event ∷ events) d = all_events f events (f event d).0

-- Where the connection gives messages of the events `xs` in turn and then what ends the loop, no call of
-- the callback returns an error, and the fuel exceeds the number of events: `attach` calls back for
-- each event once and in order, and returns what the end of the loop gives.
pub attach_loop-Reads :
    {S D : Type 0} (fuel : ℕ) (c : Ctrl S) (detached : S → Bool) (f : Event → D → D × Option Error)
    (last : Option Error) (xs : List Event) (d : D) (s : S) {s' : S}
    → ((event : Event) (d : D) → (f event d).1 ≡ none)
    → length xs < fuel
    → Reads c detached last s' xs s
    → attach_loop fuel c detached f s d ≡ some (s', all_events f xs d, last)
unfolding attach_loop all_events
attach_loop-Reads zero c detached f last xs d s h l r = absurd (omega arith)
attach_loop-Reads (suc fuel) c detached f last [] d s h l (breaks q p) = ground arith
attach_loop-Reads (suc fuel) c detached f last [] d s h l (ends p q) = ground arith
attach_loop-Reads (suc fuel) c detached f last (event ∷ xs) d s h l (more {s1 = s1} p q r) =
    let rest = attach_loop-Reads fuel c detached f last xs (f event d).0 s1 h (omega arith) r in
    let fine = h event d in ground arith
