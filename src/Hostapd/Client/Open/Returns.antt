-- ===== src/Hostapd/Client/Open/Returns.antt =====
-- The fuel of `Client.Attach` is enough where hostapd sends no more than so many messages and every
-- read returns.
use mathlib.Core.Path.{subst}
use wifi_presence.Base.{
  ℕ, suc, ◌≤◌, ◌≡◌, ◌≢◌, refl, sym, ap, arith, Bool, Option, none, some, Bytes,
}
use wifi_presence.Base.Int.{◌+ℤ◌}
use wifi_presence.Base.Time.{Time, zero_time}
use wifi_presence.Base.Errors.{Error, Result, ok, err}
use wifi_presence.Hostapd.Event.{Event}
use wifi_presence.Hostapd.Ctrl.{Ctrl, new_ctrl}
use wifi_presence.Hostapd.Ctrl.Keeps.{new_ctrl-Keeps, new_ctrl-conn}
use wifi_presence.Hostapd.Attach.Detach.{Attached, attach}
use wifi_presence.Hostapd.Attach.Detach.Returns.{Spends, Spends-Keeps, attach-returns}
use wifi_presence.Hostapd.Socket.{
  Os, Socket, to_socket, new_unix_socket_conn, set_read_deadline, set_write_deadline,
  unset_read_deadline, conn_of,
}
use wifi_presence.Hostapd.Client.Open.{
  Platform, Client, second, is_valid_socket_path, attach_path, client_attach, finally_close,
  attach_with, attach_on, attach_checked,
}

-- `b` bounds the messages that the operating system still gives: a read that gives one lowers it, and no
-- call raises it.
pub record Bounds {S : Type 0} (b : S → ℕ) (os : Os S) : Type 0 where
  pub dial : (l r : Bytes) (s : S) → b (os.dial l r s).0 ≤ b s
  pub clock : (s : S) → b (os.clock s).0 ≤ b s
  pub read_deadline : (fd : ℕ) (t : Time) (s : S) → b (os.set_read_deadline fd t s).0 ≤ b s
  pub write_deadline : (fd : ℕ) (t : Time) (s : S) → b (os.set_write_deadline fd t s).0 ≤ b s
  pub write : (fd : ℕ) (p : Bytes) (s : S) → b (os.write fd p s).0 ≤ b s
  pub read : (fd n : ℕ) (s : S) → b (os.read fd n s).0 ≤ b s
  pub read_ok :
      (fd n : ℕ) (s : S) (p : Bytes) → (os.read fd n s).1 ≡ ok p → suc (b (os.read fd n s).0) ≤ b s

module _ {S : Type 0} (b : S → ℕ) (os : Os S) (k : Bounds b os) where
  conn-Spends : (c : Socket) → Spends b (conn_of os c)
  unfolding set_read_deadline set_write_deadline
  conn-Spends c = record {
    write_deadline = λ t s.
        let s1 = (os.clock s).0 in
        let at = (os.clock s).1 +ℤ t in
        omega (arith, k.clock s, k.write_deadline c.descriptor at s1);
    read_deadline = λ t s.
        let s1 = (os.clock s).0 in
        let at = (os.clock s).1 +ℤ t in
        omega (arith, k.clock s, k.read_deadline c.descriptor at s1);
    write = λ p s. k.write c.descriptor p s;
    read = λ n s. k.read c.descriptor n s;
    read_ok = λ n s p e. k.read_ok c.descriptor n s p e;
  }

  finally_close-returns :
      {D : Type 0} (c : Socket) (o : Option (Attached S × D × Option Error))
      → o ≢ none
      → finally_close os c o ≢ none
  finally_close-returns c none h = absurd (h refl)
  finally_close-returns c (some (a, d, e)) h = λ x. cc

  attach_with-returns :
      {D : Type 0} (fuel : ℕ) (c : Socket) (cancelled : ℕ → Bool)
      (events : Event → D → D × Option Error) (d : D) (q : S × Result (Ctrl S))
      → suc (b q.0) ≤ fuel
      → ((ctrl : Ctrl S) → q.1 ≡ ok ctrl → ctrl.conn ≡ conn_of os c)
      → attach_with os fuel c cancelled events d q ≢ none
  unfolding unset_read_deadline
  attach_with-returns fuel c cancelled events d (s, err e) h same = λ x. cc
  attach_with-returns fuel c cancelled events d (s, ok ctrl) h same =
      let spends = subst (Spends b) (sym (same ctrl refl)) (conn-Spends c) in
      finally_close-returns c (attach ctrl fuel (unset_read_deadline os c) cancelled events s d) (
        attach-returns b ctrl (unset_read_deadline os c) spends
          (λ x. k.read_deadline c.descriptor zero_time x) fuel cancelled events s d h)

  attach_on-returns :
      {D : Type 0} (fuel : ℕ) (path : Bytes) (cancelled : ℕ → Bool)
      (events : Event → D → D × Option Error) (d : D) (q : S × Result ℕ)
      → suc (b q.0) ≤ fuel
      → attach_on os fuel cancelled events d (to_socket os path q) ≢ none
  attach_on-returns fuel path cancelled events d (s, err e) h = λ x. cc
  attach_on-returns fuel path cancelled events d (s, ok fd) h =
      let c : Socket = record { local_sock = path; descriptor = fd } in
      let q = new_ctrl (conn_of os c) second second s in
      let kept : b q.0 ≤ b s =
        new_ctrl-Keeps (λ x. b x ≤ b s) (conn_of os c) second second s
          (Spends-Keeps b (conn_of os c) (b s) (conn-Spends c)) (omega arith) in
      attach_with-returns fuel c cancelled events d q (omega (arith, kept, h))
        (λ ctrl e. new_ctrl-conn (conn_of os c) second second s (ap (λ r. (q.0, r)) e))

  attach_checked-returns :
      {D : Type 0} (fuel : ℕ) (client : Client S) (cancelled : ℕ → Bool)
      (events : Event → D → D × Option Error) (d : D) (e : Option Error) (s : S)
      → suc (b s) ≤ fuel
      → attach_checked os fuel client cancelled events d e s ≢ none
  unfolding new_unix_socket_conn
  attach_checked-returns fuel client cancelled events d (some e) s h = λ x. cc
  attach_checked-returns fuel client cancelled events d none s h =
      let path = attach_path client.local_sock_dir client.ctrl_sock in
      attach_on-returns fuel path cancelled events d (os.dial path client.ctrl_sock s)
        (omega (arith, k.dial path client.ctrl_sock s, h))

  -- Where the operating system gives at most `b s` messages, any fuel that exceeds that bound is enough for
  -- `Attach`, whatever the callback does and whenever the context is cancelled. (It does not follow that
  -- the program returns: its reads can wait for ever.)
  pub client_attach-returns :
      {D : Type 0} (fuel : ℕ) (p : Platform) (client : Client S) (cancelled : ℕ → Bool)
      (events : Event → D → D × Option Error) (s : S) (d : D)
      → suc (b s) ≤ fuel
      → client_attach os fuel p client cancelled events s d ≢ none
  unfolding client_attach
  client_attach-returns fuel p client cancelled events s d h =
      attach_checked-returns fuel client cancelled events d
        (is_valid_socket_path p (attach_path client.local_sock_dir client.ctrl_sock)) s h
