-- ===== src/Hostapd/Client/Open/Attaching.antt =====
-- What `Client.Attach` leaves of socket files and descriptors.
use mathlib.Core.Path.{subst}
use wifi_presence.Base.{ℕ, ◌≡◌, ◌≢◌, ◌∙◌, refl, sym, ap, Bool, true, Option, none, some, Bytes}
use wifi_presence.Base.Errors.{Error, Result, ok, err}
use wifi_presence.Hostapd.Event.{Event}
use wifi_presence.Hostapd.Ctrl.{Ctrl, new_ctrl}
use wifi_presence.Hostapd.Ctrl.Keeps.{Keeps, new_ctrl-conn}
use wifi_presence.Hostapd.Socket.{
  Os, Socket, to_socket, new_unix_socket_conn, unset_read_deadline, conn_of,
}
use wifi_presence.Base.Time.{zero_time}
use wifi_presence.Hostapd.Socket.Kernel.{
  Files, Kernel, Same, SameBut, Opens, Same-trans, Same-refl, SameBut-Same, Opens-Same,
}
use wifi_presence.Hostapd.Client.Open.{
  Platform, Client, second, is_valid_socket_path, socket_dir, client_path, attach_path, new_client,
  client_attach, finally_close, attach_with, attach_on, attach_checked,
}
use wifi_presence.Hostapd.Client.Open.Paths.{HasBase, client_path-ne-attach_path}
use wifi_presence.Hostapd.Client.Open.Resources.{conn-Keeps, close-SameBut, new_ctrl-Opens}
use wifi_presence.Hostapd.Client.Open.Lifetime.{opened}
use wifi_presence.Hostapd.Attach.Detach.{Attached, attach}
use wifi_presence.Hostapd.Attach.Detach.Once.{OnEnd}
use wifi_presence.Hostapd.Attach.Detach.Keeps.{attach-Keeps}

module _ {S : Type 0} (os : Os S) (f : Files S) (k : Kernel f os) where
  finally_close-SameBut :
      {D : Type 0} (c : Socket) (s s1 : S) (o : Option (Attached S × D × Option Error))
      → Opens f c.local_sock c.descriptor s s1
      → OnEnd (λ (a : Attached S). Same f s1 a.conn) o
      → OnEnd (SameBut f c.local_sock s) (finally_close os c o)
  finally_close-SameBut c s s1 none a h = tt
  finally_close-SameBut c s s1 (some (x, d, e)) a h =
      close-SameBut os f k c s x.conn (Opens-Same f c.local_sock c.descriptor s s1 x.conn a h)

  unset-Same : (c : Socket) (s s1 : S) → Same f s s1 → Same f s (unset_read_deadline os c s1).0
  unfolding unset_read_deadline
  unset-Same c s s1 a =
      Same-trans f s s1 (unset_read_deadline os c s1).0 a
        (k.read_deadline c.descriptor zero_time s1)

  attach_with-SameBut :
      {D : Type 0} (fuel : ℕ) (c : Socket) (cancelled : ℕ → Bool)
      (events : Event → D → D × Option Error) (d : D) (s : S) (q : S × Result (Ctrl S))
      → Opens f c.local_sock c.descriptor s q.0
      → ((ctrl : Ctrl S) → q.1 ≡ ok ctrl → ctrl.conn ≡ conn_of os c)
      → OnEnd (SameBut f c.local_sock s) (attach_with os fuel c cancelled events d q)
  attach_with-SameBut fuel c cancelled events d s (s1, err e) a h = close-SameBut os f k c s s1 a
  attach_with-SameBut fuel c cancelled events d s (s1, ok ctrl) a h =
      let keeps = subst (Keeps (Same f s1)) (sym (h ctrl refl)) (conn-Keeps os f k s1 c) in
      finally_close-SameBut c s s1
        (attach ctrl fuel (unset_read_deadline os c) cancelled events s1 d) a
        (attach-Keeps (Same f s1) ctrl (unset_read_deadline os c) keeps (unset-Same c s1) fuel
          cancelled events s1 d (Same-refl f s1))

  attach_on-SameBut :
      {D : Type 0} (fuel : ℕ) (path : Bytes) (cancelled : ℕ → Bool)
      (events : Event → D → D × Option Error) (d : D) (s : S) (q : S × Result ℕ)
      → ((fd : ℕ) → q.1 ≡ ok fd → Opens f path fd s q.0)
      → ((e : Error) → q.1 ≡ err e → SameBut f path s q.0)
      → OnEnd (SameBut f path s) (attach_on os fuel cancelled events d (to_socket os path q))
  attach_on-SameBut fuel path cancelled events d s (s1, err e) a b = b e refl
  attach_on-SameBut fuel path cancelled events d s (s1, ok fd) a b =
      let c : Socket = record { local_sock = path; descriptor = fd } in
      let q = new_ctrl (conn_of os c) second second s1 in
      attach_with-SameBut fuel c cancelled events d s q (new_ctrl-Opens os f k c s s1 (a fd refl))
        (λ ctrl e. new_ctrl-conn (conn_of os c) second second s1 (ap (λ r. (q.0, r)) e))

  attach_checked-SameBut :
      {D : Type 0} (fuel : ℕ) (c : Client S) (cancelled : ℕ → Bool)
      (events : Event → D → D × Option Error) (d : D) (e : Option Error) (s : S)
      → OnEnd
          (SameBut f (attach_path c.local_sock_dir c.ctrl_sock) s)
          (attach_checked os fuel c cancelled events d e s)
  unfolding new_unix_socket_conn
  attach_checked-SameBut fuel c cancelled events d (some e) s =
      SameBut-Same f (attach_path c.local_sock_dir c.ctrl_sock) s s (Same-refl f s)
  attach_checked-SameBut fuel c cancelled events d none s =
      let path = attach_path c.local_sock_dir c.ctrl_sock in
      let q = os.dial path c.ctrl_sock s in
      attach_on-SameBut fuel path cancelled events d s q
        (λ fd e. k.dial_ok path c.ctrl_sock s q.0 fd (ap (λ r. (q.0, r)) e))
        (λ x e. k.dial_err path c.ctrl_sock s q.0 x (ap (λ r. (q.0, r)) e))

  -- However `Attach` of an open client ends, every descriptor is afterwards as it was before, that of
  -- the client is open and its socket file exists. The path of the control socket has a part that is
  -- no slash.
  pub client_attach_keeps :
      {D : Type 0} (fuel : ℕ) (p : Platform) (dir sock : Bytes) (cancelled : ℕ → Bool)
      (events : Event → D → D × Option Error) (s : S) (d : D) {s1 s2 : S} {c : Client S} {d' : D}
      {e : Option Error}
      → HasBase sock
      → new_client os p dir sock s ≡ (s1, ok c)
      → client_attach os fuel p c cancelled events s1 d ≡ some (s2, d', e)
      → ((fd : ℕ) → f.is_open fd s2 ≡ f.is_open fd s1)
        × (f.is_open c.socket.descriptor s2 ≡ true)
        × (f.exists c.socket.local_sock s2 ≡ true)
  unfolding client_attach
  client_attach_keeps fuel p dir sock cancelled events s d {s1 = s1} {s2 = s2} {c = c} hb h h' =
      let path = attach_path c.local_sock_dir c.ctrl_sock in
      let o = opened os f k p dir sock s h in
      let kept : SameBut f path s1 s2 =
        rw h' at
          (attach_checked-SameBut fuel c cancelled events d (is_valid_socket_path p path) s1) in
      let differs : client_path (socket_dir p dir) sock ≢ path =
        client_path-ne-attach_path (socket_dir p dir) c.local_sock_dir sock c.ctrl_sock hb
          (subst HasBase (sym o.3) hb) in
      (
        kept.descriptors,
        kept.descriptors c.socket.descriptor ∙ o.0.is_open,
        rw o.1 (kept.files (client_path (socket_dir p dir) sock) differs ∙ o.0.is_present),
      )
