-- ===== src/Hostapd/Client/Open/Resources.antt =====
-- What `NewClient`, `Close` and `Attach` leave of socket files and descriptors.
use wifi_presence.Base.{ℕ, ◌≡◌, refl, ap, Option, none, some, Bytes}
use wifi_presence.Base.Int.{◌+ℤ◌}
use wifi_presence.Base.Errors.{Error, Result, ok, err}
use wifi_presence.Hostapd.Ctrl.{Ctrl, new_ctrl}
use wifi_presence.Hostapd.Ctrl.Keeps.{Keeps, new_ctrl-Keeps, new_ctrl-conn}
use wifi_presence.Hostapd.Socket.{
  Os, Socket, to_socket, new_unix_socket_conn, set_read_deadline, set_write_deadline, close,
  conn_of,
}
use wifi_presence.Hostapd.Socket.Kernel.{
  Files, Kernel, Same, SameBut, Opens, Same-trans, Same-refl, SameBut-Same, Opens-Same,
  SameBut-Opens,
}
use wifi_presence.Hostapd.Client.Open.{
  Platform, Client, second, is_valid_socket_path, socket_dir, client_path, to_client, client_on,
  client_checked, new_client,
}

module _ {S : Type 0} (os : Os S) (f : Files S) (k : Kernel f os) where
  pub conn-Keeps : (s : S) (c : Socket) → Keeps (Same f s) (conn_of os c)
  unfolding set_read_deadline set_write_deadline
  conn-Keeps s c = record {
    write_deadline = λ t s' a.
        let s1 = (os.clock s').0 in
        let at = (os.clock s').1 +ℤ t in
        Same-trans f s s1 (os.set_write_deadline c.descriptor at s1).0
          (Same-trans f s s' s1 a (k.clock s')) (k.write_deadline c.descriptor at s1);
    read_deadline = λ t s' a.
        let s1 = (os.clock s').0 in
        let at = (os.clock s').1 +ℤ t in
        Same-trans f s s1 (os.set_read_deadline c.descriptor at s1).0
          (Same-trans f s s' s1 a (k.clock s')) (k.read_deadline c.descriptor at s1);
    write =
        λ p s' a. Same-trans f s s' (os.write c.descriptor p s').0 a (k.write c.descriptor p s');
    read = λ n s' a. Same-trans f s s' (os.read c.descriptor n s').0 a (k.read c.descriptor n s');
  }

  -- `newCtrl` and `attach` change no file and no descriptor.
  new_ctrl-Same : (c : Socket) (s : S) → Same f s (new_ctrl (conn_of os c) second second s).0
  new_ctrl-Same c s =
      new_ctrl-Keeps (Same f s) (conn_of os c) second second s (conn-Keeps s c) (Same-refl f s)

  -- What a call of `NewClient` for the file `path` does, by its result.
  abbrev pub Opened : Bytes → Bytes → Bytes → S → S × Result (Client S) → Type 0
  Opened path dir sock s (s', err e) = SameBut f path s s'
  Opened path dir sock s (s', ok c) =
      Opens f path c.socket.descriptor s s'
      × (c.socket.local_sock ≡ path)
      × (c.local_sock_dir ≡ dir)
      × (c.ctrl_sock ≡ sock)
      × (c.ctrl.conn ≡ conn_of os c.socket)

  pub close-SameBut :
      (c : Socket) (s s' : S)
      → Opens f c.local_sock c.descriptor s s'
      → SameBut f c.local_sock s (close os c s').0
  unfolding close
  close-SameBut c s s' a = SameBut-Opens f os k c.local_sock c.descriptor s s' a

  to_client-Opened :
      (dir sock : Bytes) (c : Socket) (s : S) (q : S × Result (Ctrl S))
      → Opens f c.local_sock c.descriptor s q.0
      → ((ctrl : Ctrl S) → q.1 ≡ ok ctrl → ctrl.conn ≡ conn_of os c)
      → Opened c.local_sock dir sock s (to_client os dir sock c q)
  to_client-Opened dir sock c s (s', err e) a h = close-SameBut c s s' a
  to_client-Opened dir sock c s (s', ok ctrl) a h = (a, refl, refl, refl, h ctrl refl)

  pub new_ctrl-Opens :
      (c : Socket) (s s1 : S)
      → Opens f c.local_sock c.descriptor s s1
      → Opens f c.local_sock c.descriptor s (new_ctrl (conn_of os c) second second s1).0
  new_ctrl-Opens c s s1 a =
      Opens-Same f c.local_sock c.descriptor s s1 (new_ctrl (conn_of os c) second second s1).0 a
        (new_ctrl-Same c s1)

  client_on-Opened :
      (path dir sock : Bytes) (s : S) (q : S × Result ℕ)
      → ((fd : ℕ) → q.1 ≡ ok fd → Opens f path fd s q.0)
      → ((e : Error) → q.1 ≡ err e → SameBut f path s q.0)
      → Opened path dir sock s (client_on os dir sock (to_socket os path q))
  client_on-Opened path dir sock s (s1, err e) a b = b e refl
  client_on-Opened path dir sock s (s1, ok fd) a b =
      let c : Socket = record { local_sock = path; descriptor = fd } in
      to_client-Opened dir sock c s (new_ctrl (conn_of os c) second second s1)
        (new_ctrl-Opens c s s1 (a fd refl))
        (λ ctrl e.
          new_ctrl-conn (conn_of os c) second second s1
            (ap (λ r. ((new_ctrl (conn_of os c) second second s1).0, r)) e))

  client_checked-Opened :
      (dir sock : Bytes) (e : Option Error) (s : S)
      → Opened (client_path dir sock) dir sock s (client_checked os dir sock e s)
  unfolding new_unix_socket_conn
  client_checked-Opened dir sock (some e) s =
      SameBut-Same f (client_path dir sock) s s (Same-refl f s)
  client_checked-Opened dir sock none s =
      let path = client_path dir sock in
      let q = os.dial path sock s in
      client_on-Opened path dir sock s q
        (λ fd e. k.dial_ok path sock s q.0 fd (ap (λ r. (q.0, r)) e))
        (λ x e. k.dial_err path sock s q.0 x (ap (λ r. (q.0, r)) e))

  pub new_client_lem :
      (p : Platform) (dir sock : Bytes) (s : S)
      → Opened
          (client_path (socket_dir p dir) sock)
          (socket_dir p dir)
          sock
          s
          (new_client os p dir sock s)
  unfolding new_client
  new_client_lem p dir sock s =
      let d = socket_dir p dir in
      client_checked-Opened d sock (is_valid_socket_path p (client_path d sock)) s
