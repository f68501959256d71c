-- ===== src/HostapdTest/Listener.antt =====
-- internal/hostapd/hostapdtest: the socket of the fake hostapd, and the remaining setters of a handler.
-- The calls of `net` are a parameter.
use wifi_presence.Base.{ℕ, ◌≡◌, refl, Bool, true, false, Option, none, some, ◌++◌, Bytes, codes}
use wifi_presence.Base.Errors.{Error, Result, ok, err, wrapped}
use wifi_presence.HostapdTest.{Handler}

-- `net.ListenUnixgram`, and the methods of the connection that it returns. An address is a path;
-- `net.ResolveUnixAddr` returns no error for the network "unixgram".
pub record Net (S : Type 0) : Type 0 where
  pub listen : Bytes → S → S × Result ℕ
  pub close : ℕ → S → S × Option Error
  pub write_to : ℕ → Bytes → Bytes → S → S × Option Error
  pub read_from : ℕ → ℕ → S → S × Result (Bytes × Bytes)

-- `type HostAPD struct`; `buffer` is the length of `buf`.
pub record Listener : Type 0 where
  pub addr : Bytes
  pub conn : ℕ
  pub buffer : ℕ
  pub closed : Bool

module _ {S : Type 0} (net : Net S) where
  abbrev pub to_listener : Bytes → S × Result ℕ → S × Result Listener
  to_listener path (s, err e) = (s, err e)
  to_listener path (s, ok fd) =
      (s, ok (record { addr = path; conn = fd; buffer = 128; closed = false }))

  -- `NewHostAPD`.
  unfoldable pub new_listener : Bytes → S → S × Result Listener
  new_listener sock_path s = to_listener sock_path (net.listen sock_path s)

  -- `Close`.
  abbrev pub close_open : Bool → Listener → S → (Listener × S) × Option Error
  close_open true h s = ((h, s), none)
  close_open false h s = let (s', e) = net.close h.conn s in ((record h { closed = true }, s'), e)

  unfoldable pub close_listener : Listener → S → (Listener × S) × Option Error
  close_listener h s = close_open h.closed h s

  -- `WriteTo` and `ReadFrom`.
  abbrev pub write_error : Bytes → S × Option Error → S × Option Error
  write_error msg (s, none) = (s, none)
  write_error msg (s, some e) = (s, some (wrapped (codes "WriteTo(\"" ++ msg ++ codes "\") err") e))

  unfoldable pub write_to : Listener → Bytes → Bytes → S → S × Option Error
  write_to h msg addr s = write_error msg (net.write_to h.conn msg addr s)

  unfoldable pub read_from : Listener → S → S × Result (Bytes × Bytes)
  read_from h s = net.read_from h.conn h.buffer s

  close_open-closed :
      (b : Bool) (h : Listener) (s : S) → h.closed ≡ b → (close_open b h s).0.0.closed ≡ true
  close_open-closed true h s e = e
  close_open-closed false h s e = refl

  -- A second `Close` returns no error and calls nothing.
  pub close_listener_twice :
      (h : Listener) (s : S)
      → let (h', s') = (close_listener h s).0 in close_listener h' s' ≡ ((h', s'), none)
  unfolding close_listener
  close_listener_twice h s =
      let (h', s') = (close_open h.closed h s).0 in rw (close_open-closed h.closed h s refl) refl

module _ {H : Type 0} where
  -- `OnMessage`, `OnUndef`, `OnAttach` and `OnDetach` register a callback.
  abbrev pub set_message : (Bytes → H → H) → Handler H → Handler H
  set_message f handler = record handler { on_message = some f }

  abbrev pub set_undef : (Bytes → H → H × Bytes) → Handler H → Handler H
  set_undef f handler = record handler { on_undef = some f }

  abbrev pub set_attach : (H → H × Bool) → Handler H → Handler H
  set_attach f handler = record handler { on_attach = some f }

  abbrev pub set_detach : (H → H) → Handler H → Handler H
  set_detach f handler = record handler { on_detach = some f }
