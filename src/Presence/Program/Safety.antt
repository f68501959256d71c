-- ===== src/Presence/Program/Safety.antt =====
-- What holds in every state that the program reaches.
use wifi_presence.Base.{ℕ, ◌≡◌, refl, arith, Bool-cases, inl, inr, some, [], All, ◌==◌}
use wifi_presence.Base.Errors.{Result, ok, err}
use wifi_presence.Base.Maps.{lookup}
use wifi_presence.Hass.Mqtt.{Mqtt}
use wifi_presence.Hostapd.Event.{
  Event, station_connect, station_disconnect, terminating, unrecognized,
}
use wifi_presence.Hostapd.Status.{Status}
use wifi_presence.Presence.Mac.{Mac, mac_key, decode}
use wifi_presence.Presence.Debounce.Invariant.{Inv}
use wifi_presence.Presence.Events.{timer_expires}
use wifi_presence.Presence.State.{Station, Daemon, World}
use wifi_presence.Presence.Config.{Changes}
use wifi_presence.Presence.Config.Reapply.{Reorders}
use wifi_presence.Presence.Threads.{decoded, Thread, handler}
use wifi_presence.Presence.Program.{
  Program, update, Step, Reach, start, here, next, event, handles, configures, expires, drops,
  takes, calls,
}
use wifi_presence.Presence.Program.Keeps.{
  IsSound, IsOwn, Keeps->>=, Keeps-now, Keeps-take_callback, Keeps-expire_timer,
}
use wifi_presence.Presence.Program.Invariant.{IsSoundThread, advance-IsSound}
use wifi_presence.Presence.Program.Diff.{Nothing, on_config_change-IsSound}

-- The state and each goroutine are sound.
pub record IsSoundProgram (m : Mqtt) (p : Program) : Type 0 where
  pub state : IsSound m Nothing p.state
  pub haps : (i : ℕ) → IsSoundThread (p.haps i)
  pub callbacks : (t : ℕ) → IsSoundThread (p.callbacks t)

decoded-IsSoundThread :
    (r : Result Mac) (k : Mac → Thread)
    → ((mac : Mac) → IsSoundThread (k mac))
    → IsSoundThread (decoded r k)
unfolding decoded
decoded-IsSoundThread (ok mac) k h = h mac
decoded-IsSoundThread (err e) k h = tt

handler-IsSoundThread : (hap : Status) (e : Event) → IsSoundThread (handler hap e)
unfolding handler
handler-IsSoundThread hap (station_connect raw text) =
    decoded-IsSoundThread (decode text) _ (λ mac. tt)
handler-IsSoundThread hap (station_disconnect raw text) =
    decoded-IsSoundThread (decode text) _ (λ mac. tt)
handler-IsSoundThread hap (terminating raw) = tt
handler-IsSoundThread hap (unrecognized raw) = tt

update-IsSoundThread :
    (f : ℕ → Thread) (i : ℕ) (t : Thread)
    → ((j : ℕ) → IsSoundThread (f j))
    → IsSoundThread t
    → (j : ℕ) → IsSoundThread (update f i t j)
unfolding update
update-IsSoundThread f i t h x j = elim (Bool-cases (i == j)) [
  | inl e ↦ rw e x
  | inr e ↦ rw e (h j)
]

-- Every step keeps the invariant.
step-IsSoundProgram :
    {m : Mqtt} {order : Changes → Changes} {p q : Program}
    → Reorders order
    → IsSoundProgram m p
    → Step order p q
    → IsSoundProgram m q
unfolding timer_expires
step-IsSoundProgram o h (event i hap e n w) = record {
  state = h.state;
  haps = update-IsSoundThread _ i _ h.haps (handler-IsSoundThread hap e);
  callbacks = h.callbacks;
}
step-IsSoundProgram {p = p} o h (handles i) =
    let (s, x) = advance-IsSound (p.haps i) p.state (h.haps i) h.state in
    record { state = s; haps = update-IsSoundThread _ i _ h.haps x; callbacks = h.callbacks }
step-IsSoundProgram {order = order} {p = p} o h (configures cfg) = record {
  state = on_config_change-IsSound order cfg p.state o h.state;
  haps = h.haps;
  callbacks = h.callbacks;
}
step-IsSoundProgram {p = p} o h (expires t) = record {
  state =
      ((Keeps->>= Keeps-now (λ reading u. Keeps-expire_timer t reading)).holds p.state h.state).0;
  haps = h.haps;
  callbacks = h.callbacks;
}
step-IsSoundProgram {p = p} o h (drops t e) = record {
  state = ((Keeps-take_callback t).holds p.state h.state).0;
  haps = h.haps;
  callbacks = h.callbacks;
}
step-IsSoundProgram {p = p} o h (takes t cb e) = record {
  state = ((Keeps-take_callback t).holds p.state h.state).0;
  haps = h.haps;
  callbacks = update-IsSoundThread _ t _ h.callbacks tt;
}
step-IsSoundProgram {p = p} o h (calls t) =
    let (s, x) = advance-IsSound (p.callbacks t) p.state (h.callbacks t) h.state in
    record { state = s; haps = h.haps; callbacks = update-IsSoundThread _ t _ h.callbacks x }

Reach-IsSoundProgram :
    {m : Mqtt} {order : Changes → Changes} {p q : Program}
    → Reorders order
    → IsSoundProgram m p
    → Reach order p q
    → IsSoundProgram m q
Reach-IsSoundProgram o h here = h
Reach-IsSoundProgram o h (next r s) = step-IsSoundProgram o (Reach-IsSoundProgram o h r) s

start-IsSoundProgram :
    (d : Daemon) (w : World)
    → d.stations ≡ []
    → Inv d.db
    → w.broker.published ≡ []
    → IsSoundProgram d.hass (start d w)
unfolding lookup
start-IsSoundProgram d w none_tracked v silent = record {
  state = record {
    same_hass = refl;
    keyed = λ mac {sta = sta} p. ground arith;
    has = λ mac x. absurd x;
    debounced = v;
    own = rw silent tt;
  };
  haps = λ i. tt;
  callbacks = λ t. tt;
}

-- Where the program starts with no station, a debouncer that satisfies its invariant and nothing
-- published, then after any interleaving of events, configurations, timers and sections every message
-- that was published says what belongs to its topic: a state topic carries one of the two state
-- payloads, the attributes of a MAC stand under that MAC, and a discovery topic carries the empty
-- message or a tracker that names the state and attributes topics of the same MAC.
pub published-IsOwn :
    {order : Changes → Changes} (d : Daemon) (w : World) {p : Program}
    → Reorders order
    → d.stations ≡ []
    → Inv d.db
    → w.broker.published ≡ []
    → Reach order (start d w) p
    → All (IsOwn d.hass) p.state.world.broker.published
published-IsOwn d w o n v b r =
    (Reach-IsSoundProgram o (start-IsSoundProgram d w n v b) r).state.own

-- Where the program starts with no station, a debouncer that satisfies its invariant and nothing
-- published, then after any interleaving every station that is found under a MAC has that MAC.
pub stored_keyed :
    {order : Changes → Changes} (d : Daemon) (w : World) (mac : Mac) {p : Program} {sta : Station}
    → Reorders order
    → d.stations ≡ []
    → Inv d.db
    → w.broker.published ≡ []
    → Reach order (start d w) p
    → lookup mac p.state.daemon.stations ≡ some sta
    → sta.mac ≡ mac
stored_keyed d w mac {sta = sta} o n v b r =
    (Reach-IsSoundProgram o (start-IsSoundProgram d w n v b) r).state.keyed mac {sta = sta}
