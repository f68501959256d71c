-- ===== src/Hostapd/Ctrl/Keeps.antt =====
-- What every call of a connection keeps, the commands and `attach` keep too.
use wifi_presence.Base.{
  ℕ, ◌≡◌, ap, arith, inl, inr, Bool, true, false, Option, none, some, Bytes, codes, if◌then◌else◌,
}
use wifi_presence.Base.Int.{ℤ}
use wifi_presence.Base.Errors.{Error, Result, ok, err, Result-cases}
use wifi_presence.Hostapd.Ctrl.{
  Conn, Ctrl, unless_error, respond, cmd, ping, new_ctrl, is_positive, ping_response,
}

module _ {S : Type 0} (P : S → Type 0) where
  pub record Keeps (c : Conn S) : Type 0 where
    pub write_deadline : (t : ℤ) (s : S) → P s → P (c.set_write_deadline t s).0
    pub read_deadline : (t : ℤ) (s : S) → P s → P (c.set_read_deadline t s).0
    pub write : (p : Bytes) (s : S) → P s → P (c.write p s).0
    pub read : (n : ℕ) (s : S) → P s → P (c.read n s).0

  unless_error-Keeps :
      {A : Type 0} (q : S × Option Error) (k : S → S × Result A)
      → P q.0
      → ((s : S) → P s → P (k s).0)
      → P (unless_error q k).0
  unfolding unless_error
  unless_error-Keeps (s, none) k p h = h s p
  unless_error-Keeps (s, some e) k p h = p

  respond-Keeps :
      {A : Type 0} (command : Bytes) (resp : Bytes → Result A) (q : S × Result Bytes)
      → P q.0
      → P (respond command resp q).0
  unfolding respond
  respond-Keeps command resp (s, err e) p = p
  respond-Keeps command resp (s, ok b) p = p

  if-Keeps :
      (b : Bool) (q : S × Option Error) (s : S) → P q.0 → P s → P (if b then q else (s, none)).0
  if-Keeps true q s p h = p
  if-Keeps false q s p h = h

  pub cmd-Keeps :
      {A : Type 0} (c : Ctrl S) (command : Bytes) (resp : Bytes → Result A) (s : S)
      → Keeps c.conn
      → P s
      → P (cmd c command resp s).0
  unfolding cmd
  cmd-Keeps c command resp s k p =
      let w = is_positive c.write_timeout in
      let r = is_positive c.read_timeout in
      unless_error-Keeps (if w then c.conn.set_write_deadline c.write_timeout s else (s, none)) _
        (if-Keeps w (c.conn.set_write_deadline c.write_timeout s) s
          (k.write_deadline c.write_timeout s p) p)
        (λ s1 p1. unless_error-Keeps (c.conn.write command s1) _ (k.write command s1 p1) (λ s2 p2.
          unless_error-Keeps (if r then c.conn.set_read_deadline c.read_timeout s2 else (s2, none))
            _
            (if-Keeps r (c.conn.set_read_deadline c.read_timeout s2) s2
              (k.read_deadline c.read_timeout s2 p2) p2)
            (λ s3 p3.
              respond-Keeps command resp (c.conn.read c.buffer s3) (k.read c.buffer s3 p3))))

  -- `newCtrl` keeps it.
  pub new_ctrl-Keeps :
      (conn : Conn S) (r w : ℤ) (s : S) → Keeps conn → P s → P (new_ctrl conn r w s).0
  unfolding new_ctrl ping
  new_ctrl-Keeps conn r w s k p =
      let c : Ctrl S = record { read_timeout = r; write_timeout = w; conn = conn; buffer = 4096 } in
      let kept = cmd-Keeps c (codes "PING") ping_response s k p in
      elim (Result-cases (ping c s).1) [
        | inl (u, e) ↦ rw (new_ctrl, e) kept
        | inr (x, e) ↦ rw (new_ctrl, e) kept
      ]

module _ {S : Type 0} where
  -- `newCtrl` returns the connection that it was given.
  pub new_ctrl-conn :
      (conn : Conn S) (r w : ℤ) (s : S) {s' : S} {c : Ctrl S}
      → new_ctrl conn r w s ≡ (s', ok c)
      → c.conn ≡ conn
  unfolding new_ctrl
  new_ctrl-conn conn r w s {s' = s'} {c = c} h =
      let c' : Ctrl S = record {
        read_timeout = r;
        write_timeout = w;
        conn = conn;
        buffer = 4096;
      } in
      elim (Result-cases (ping c' s).1) [
        | inl (u, e) ↦
            let same : ok c' ≡ ok c = ap (λ q. q.1) (rw (new_ctrl, e) at h) in ground (arith, same)
        | inr (x, e) ↦ absurd (ground (arith, ap (λ q. q.1) (rw (new_ctrl, e) at h)))
      ]
