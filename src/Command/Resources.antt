-- ===== src/Command/Resources.antt =====
-- `run` with the clients of internal/hostapd: what connecting to the sockets and the deferred calls of
-- `Close` leave of descriptors.
pub mod Whole
use mathlib.Core.Path.{subst}
use wifi_presence.Base.{
  false, ℕ, ◌≡◌, ◌≢◌, ◌∙◌, refl, sym, ap, arith, Option, none, some, List, [], ◌∷◌, Bytes,
  Bool-cases, Option-cases, inl, inr, ◌==◌, ==_iff,
}
use wifi_presence.Base.Errors.{Error, Result, ok, err, wrapped, Result-cases}
use wifi_presence.Command.{
  Args, Calls, connect_clients, close_clients, daemon_opts, run_built, run_clients, clean_up,
  run_online, run_connected, run, validate, mqtt_opts, split,
}
use wifi_presence.Hass.Mqtt.{Mqtt, MqttOpts}
use wifi_presence.Presence.State.{Daemon}
use wifi_presence.Hostapd.Status.{Status}
use wifi_presence.Presence.Construction.{
  Draft, statuses, with_statuses, with_hass, new_daemon, apply_opts, empty_draft,
}
use wifi_presence.Hostapd.Client.Open.{
  Platform, Client, socket_dir, client_path, new_client, close_client,
}
use wifi_presence.Hostapd.Client.Open.Resources.{Opened, new_client_lem}
use wifi_presence.Hostapd.Socket.{Os, Socket, close}
use wifi_presence.Hostapd.Socket.Kernel.{Files, Kernel, Opens, SameBut}

-- The calls of `run`, of which those on clients are `NewClient` and `Client.Close`.
abbrev pub with_clients : {S : Type 0} → Os S → Platform → Calls (Client S) S → Calls (Client S) S
with_clients os p calls = record calls {
  new_client = new_client os p;
  close_client = λ c s. (close_client os c s).0;
}

module _ {S : Type 0} (os : Os S) (f : Files S) (k : Kernel f os) (p : Platform)
    (calls : Calls (Client S) S) where
  -- The descriptor `fd` is open after exactly where it was before.
  abbrev pub SameAt : ℕ → S → S → Type 0
  SameAt fd s s' = f.is_open fd s' ≡ f.is_open fd s

  close-open :
      (fd : ℕ) (c : Socket) (path : Bytes) (s s1 x : S)
      → Opens f path c.descriptor s s1
      → SameAt fd s1 x
      → SameAt fd s (close os c x).0
  unfolding close
  close-open fd c path s s1 x o h =
      let closed = k.close c.descriptor x in
      let removed = (k.remove c.local_sock (os.close c.descriptor x).0).descriptors fd in
      elim (Bool-cases (fd == c.descriptor)) [
        | inl e ↦
            let same : fd ≡ c.descriptor = ground arith in
            removed ∙ rw same (closed.is_closed ∙ sym o.was_closed)
        | inr e ↦
            let ne : fd ≢ c.descriptor = ground arith in
            removed ∙ closed.descriptors fd ne ∙ h ∙ o.descriptors fd ne
      ]

  failed :
      (fd : ℕ) (dir sock : Bytes) (s : S) (q : S × Result (Client S)) (e : Error)
      → q.1 ≡ err e
      → Opened os f k (client_path (socket_dir p dir) sock) (socket_dir p dir) sock s q
      → SameAt fd s q.0
  failed fd dir sock s (s1, err e') e r o = o.descriptors fd
  failed fd dir sock s (s1, ok c) e r o = absurd (ground (arith, r))

  ok-Opens :
      (dir sock : Bytes) (s : S) (q : S × Result (Client S)) (c : Client S)
      → q.1 ≡ ok c
      → Opened os f k (client_path (socket_dir p dir) sock) (socket_dir p dir) sock s q
      → Opens f (client_path (socket_dir p dir) sock) c.socket.descriptor s q.0
  ok-Opens dir sock s (s1, err e) c r o = absurd (ground (arith, r))
  ok-Opens dir sock s (s1, ok c') c r o =
      let same : c' ≡ c = ground (arith, r) in
      subst (λ d. Opens f (client_path (socket_dir p dir) sock) d.socket.descriptor s s1) same o.0

  -- However many of the sockets it connects to before one fails: a descriptor that the calls in between
  -- leave as it was is, after the deferred calls of `Close`, as it was before the first socket.
  pub close_clients-connect_clients :
      (fd : ℕ) (dir : Bytes) (socks : List Bytes) (s x : S)
      → SameAt fd (connect_clients (with_clients os p calls) dir socks s).0 x
      → SameAt fd s (
          close_clients
            (with_clients os p calls)
            (connect_clients (with_clients os p calls) dir socks s).1
            x)
  unfolding connect_clients close_clients close_client close
  close_clients-connect_clients fd dir [] s x h = h
  close_clients-connect_clients fd dir (sock ∷ socks) s x h =
      let q = new_client os p dir sock s in
      let o = new_client_lem os f k p dir sock s in
      elim (Result-cases q.1) [
        | inr (e, r) ↦
            let fails = failed fd dir sock s q e r o in
            let h' : SameAt fd q.0 x = rw (connect_clients, r) at h in
            rw (connect_clients, r) (h' ∙ fails)
        | inl (c, r) ↦
            let opens = ok-Opens dir sock s q c r o in
            let h' : SameAt fd (connect_clients (with_clients os p calls) dir socks q.0).0 x =
              rw (connect_clients, r) at h in
            let rest = close_clients-connect_clients fd dir socks q.0 x h' in
            rw (connect_clients, r)
              (close-open fd c.socket (client_path (socket_dir p dir) sock) s q.0 _ opens rest)
      ]

  -- The other calls of `run`, where `link` is the descriptor of the connection to the broker that
  -- `NewMQTT` makes in state `s`: it was closed before; where `NewMQTT` fails, it is closed again. The
  -- calls that use the connection may lose it, and touch no other descriptor; `Close` closes it.
  pub record UsesLink (link : ℕ) (opts : MqttOpts) (s : S) : Type 0 where
    pub was_closed : f.is_open link s ≡ false
    pub not_connected : {s1 : S} {e : Error} → calls.connect opts s ≡ (s1, err e) → SameAt link s s1
    pub connect : (fd : ℕ) → fd ≢ link → SameAt fd s (calls.connect opts s).0
    pub online : (m : Mqtt) (x : S) (fd : ℕ) → fd ≢ link → SameAt fd x (calls.online m x).0
    pub offline : (m : Mqtt) (x : S) (fd : ℕ) → fd ≢ link → SameAt fd x (calls.offline m x).0
    pub close_mqtt : (m : Mqtt) (x : S) (fd : ℕ) → fd ≢ link → SameAt fd x (calls.close_mqtt m x)
    pub closed : (m : Mqtt) (x : S) → f.is_open link (calls.close_mqtt m x) ≡ false
    pub status : (c : Client S) (x : S) (fd : ℕ) → fd ≢ link → SameAt fd x (calls.status c x).0
    pub run_daemon :
        (m : Mqtt) (d : Daemon) (x : S) (fd : ℕ)
        → fd ≢ link
        → SameAt fd x (calls.run_daemon m d x).0
