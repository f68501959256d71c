-- ===== src/Hostapd/Socket.antt =====
-- internal/hostapd/conn.go: a connection from a socket file of the program's own. The calls of the
-- operating system are a parameter. `net.ResolveUnixAddr` returns no error for the network
-- "unixgram", and an address whose text is the path.
pub mod Kernel
use wifi_presence.Base.{ℕ, Option, none, some, Bytes, ◌≡◌}
use wifi_presence.Base.Int.{ℤ, ◌+ℤ◌}
use wifi_presence.Base.Time.{Time, zero_time}
use wifi_presence.Base.Errors.{Error, Result, ok, err}
use wifi_presence.Hostapd.Ctrl.{Conn}

-- The calls of `net`, `os` and `time`, on what they change. A descriptor is a number; `dial local remote`
-- is `net.DialUnix`.
pub record Os (S : Type 0) : Type 0 where
  pub dial : Bytes → Bytes → S → S × Result ℕ
  pub close : ℕ → S → S × Option Error
  pub remove : Bytes → S → S × Option Error
  pub clock : S → S × Time
  pub set_read_deadline : ℕ → Time → S → S × Option Error
  pub set_write_deadline : ℕ → Time → S → S × Option Error
  pub write : ℕ → Bytes → S → S × Option Error
  pub read : ℕ → ℕ → S → S × Result Bytes

-- `type conn struct`.
pub record Socket : Type 0 where
  pub local_sock : Bytes
  pub descriptor : ℕ

module _ {S : Type 0} (os : Os S) where
  -- `newUnixSocketConn`.
  abbrev pub to_socket : Bytes → S × Result ℕ → S × Result Socket
  to_socket local_path (s, err e) = (s, err e)
  to_socket local_path (s, ok fd) = (s, ok (record { local_sock = local_path; descriptor = fd }))

  unfoldable pub new_unix_socket_conn : Bytes → Bytes → S → S × Result Socket
  new_unix_socket_conn local_path remote_path s =
      to_socket local_path (os.dial local_path remote_path s)

  -- `setReadDeadline`, `unsetReadDeadline` and `setWriteDeadline`.
  unfoldable pub set_read_deadline : Socket → ℤ → S → S × Option Error
  set_read_deadline c timeout s =
      let (s', t) = os.clock s in os.set_read_deadline c.descriptor (t +ℤ timeout) s'

  unfoldable pub unset_read_deadline : Socket → S → S × Option Error
  unset_read_deadline c = os.set_read_deadline c.descriptor zero_time

  unfoldable pub set_write_deadline : Socket → ℤ → S → S × Option Error
  set_write_deadline c timeout s =
      let (s', t) = os.clock s in os.set_write_deadline c.descriptor (t +ℤ timeout) s'

  -- `Close`: the file is removed also where the connection does not close, and the first of the two
  -- errors is returned.
  abbrev pub first_error : Option Error → Option Error → Option Error
  first_error (some e) f = some e
  first_error none f = f

  unfoldable pub close : Socket → S → S × Option Error
  close c s =
      let (s1, closed) = os.close c.descriptor s in
      let (s2, removed) = os.remove c.local_sock s1 in (s2, first_error closed removed)

  -- The connection as ctrl.go calls it.
  abbrev pub conn_of : Socket → Conn S
  conn_of c = record {
    set_write_deadline = set_write_deadline c;
    set_read_deadline = set_read_deadline c;
    write = os.write c.descriptor;
    read = os.read c.descriptor;
  }
