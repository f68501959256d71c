-- ===== src/Hostapd/Client/Open.antt =====
-- internal/hostapd/client.go, `NewClient`, `Close`, `Attach` and `isValidSocketPath`. The loop of
-- `attach` runs on fuel.
pub mod Paths
pub mod Resources
pub mod Lifetime
pub mod Attaching
pub mod Returns
use wifi_presence.Base.{
  ℕ, Bool, true, false, Option, none, some, [], ◌∷◌, ◌++◌, ◌&&◌, Bytes, codes, equal, length, ltb,
  if◌then◌else◌,
}
use wifi_presence.Base.Int.{ℤ, pos}
use wifi_presence.Base.Paths.{base, join_path}
use wifi_presence.Base.Errors.{Error, Result, ok, err, wrapped, path_too_long}
use wifi_presence.Hostapd.Ctrl.{Ctrl, new_ctrl}
use wifi_presence.Hostapd.Event.{Event}
use wifi_presence.Hostapd.Attach.Detach.{Attached, attach}
use wifi_presence.Hostapd.Socket.{
  Os, Socket, new_unix_socket_conn, unset_read_deadline, close, conn_of,
}

-- What the process is started in: `runtime.GOOS` and `os.TempDir()`.
pub record Platform : Type 0 where
  pub goos : Bytes
  pub temp_dir : Bytes

-- `type Client struct`.
pub record Client (S : Type 0) : Type 0 where
  pub local_sock_dir : Bytes
  pub ctrl_sock : Bytes
  pub socket : Socket
  pub ctrl : Ctrl S

-- `time.Second`, in nanoseconds.
abbrev second : ℤ
second = pos 1000000000

unfoldable pub is_valid_socket_path : Platform → Bytes → Option Error
is_valid_socket_path p path =
    if equal p.goos (codes "darwin") && ltb 104 (length path)
    then some (path_too_long path)
    else none

-- The directory of the sockets, and the files of `NewClient` and of `Attach` in it.
unfoldable pub socket_dir : Platform → Bytes → Bytes
socket_dir p [] = p.temp_dir
socket_dir p (c ∷ dir) = c ∷ dir

unfoldable pub client_path : Bytes → Bytes → Bytes
client_path dir ctrl_sock = join_path dir (codes "wp." ++ base ctrl_sock)

unfoldable pub attach_path : Bytes → Bytes → Bytes
attach_path dir ctrl_sock = join_path dir (codes "wp-attach." ++ base ctrl_sock)

module _ {S : Type 0} (os : Os S) where
  -- The calls of `newCtrl`, and what `NewClient` does with the result.
  abbrev pub to_client : Bytes → Bytes → Socket → S × Result (Ctrl S) → S × Result (Client S)
  to_client dir ctrl_sock c (s, err e) = ((close os c s).0, err e)
  to_client dir ctrl_sock c (s, ok ctrl) =
      (s, ok (record { local_sock_dir = dir; ctrl_sock = ctrl_sock; socket = c; ctrl = ctrl }))

  abbrev pub client_on : Bytes → Bytes → S × Result Socket → S × Result (Client S)
  client_on dir ctrl_sock (s, err e) = (s, err e)
  client_on dir ctrl_sock (s, ok c) =
      to_client dir ctrl_sock c (new_ctrl (conn_of os c) second second s)

  abbrev pub client_checked : Bytes → Bytes → Option Error → S → S × Result (Client S)
  client_checked dir ctrl_sock (some e) s = (s, err e)
  client_checked dir ctrl_sock none s =
      client_on dir ctrl_sock (new_unix_socket_conn os (client_path dir ctrl_sock) ctrl_sock s)

  -- `NewClient`.
  unfoldable pub new_client : Platform → Bytes → Bytes → S → S × Result (Client S)
  new_client p local_sock_dir ctrl_sock s =
      let dir = socket_dir p local_sock_dir in
      client_checked dir ctrl_sock (is_valid_socket_path p (client_path dir ctrl_sock)) s

  -- `Client.Close`.
  unfoldable pub close_client : Client S → S → S × Option Error
  close_client client = close os client.socket

  -- `defer conn.Close()`.
  abbrev pub finally_close :
      {D : Type 0} → Socket → Option (Attached S × D × Option Error) → Option (S × D × Option Error)
  finally_close c none = none
  finally_close c (some (a, d, e)) = some ((close os c a.conn).0, d, e)

  abbrev pub attach_with :
      {D : Type 0}
      → ℕ
      → Socket
      → (ℕ → Bool)
      → (Event → D → D × Option Error)
      → D
      → S × Result (Ctrl S)
      → Option (S × D × Option Error)
  attach_with fuel c cancelled events d (s, err e) = some ((close os c s).0, d, some e)
  attach_with fuel c cancelled events d (s, ok ctrl) =
      finally_close c (attach ctrl fuel (unset_read_deadline os c) cancelled events s d)

  abbrev pub attach_on :
      {D : Type 0}
      → ℕ
      → (ℕ → Bool)
      → (Event → D → D × Option Error)
      → D
      → S × Result Socket
      → Option (S × D × Option Error)
  attach_on fuel cancelled events d (s, err e) =
      some (s, d, some (wrapped (codes "unable to create 'attach' socket") e))
  attach_on fuel cancelled events d (s, ok c) =
      attach_with fuel c cancelled events d (new_ctrl (conn_of os c) second second s)

  abbrev pub attach_checked :
      {D : Type 0}
      → ℕ
      → Client S
      → (ℕ → Bool)
      → (Event → D → D × Option Error)
      → D
      → Option Error
      → S
      → Option (S × D × Option Error)
  attach_checked fuel client cancelled events d (some e) s = some (s, d, some e)
  attach_checked fuel client cancelled events d none s = attach_on fuel cancelled events d (
      new_unix_socket_conn os (attach_path client.local_sock_dir client.ctrl_sock) client.ctrl_sock
        s)

  -- `Client.Attach`.
  unfoldable pub client_attach :
      {D : Type 0}
      → ℕ
      → Platform
      → Client S
      → (ℕ → Bool)
      → (Event → D → D × Option Error)
      → S
      → D
      → Option (S × D × Option Error)
  client_attach fuel p client cancelled events s d =
      attach_checked fuel client cancelled events d
        (is_valid_socket_path p (attach_path client.local_sock_dir client.ctrl_sock)) s
