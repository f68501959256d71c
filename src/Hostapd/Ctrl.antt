-- ===== src/Hostapd/Ctrl.antt =====
-- internal/hostapd/ctrl.go: the commands of the control interface. The connection is a parameter.
pub mod Keeps
use wifi_presence.Base.{
  ℕ, zero, suc, Bool, true, false, Option, none, some, [], ◌∷◌, ◌++◌, Bytes, codes, equal,
  has_prefix, trim_space, if◌then◌else◌,
}
use wifi_presence.Base.Errors.{Error, Result, ok, err, unknown_cmd, unexpected_response, wrapped}
use wifi_presence.Base.Int.{ℤ, pos, negsuc}
use wifi_presence.Hostapd.Station.{Station, parse_station}
use wifi_presence.Hostapd.Status.{Status, parse_status}

-- The calls of the connection (conn.go), on what they change. `read n` reads at most `n` bytes;
-- the model is of the runs in which it returns.
pub record Conn (S : Type 0) : Type 0 where
  pub set_write_deadline : ℤ → S → S × Option Error
  pub set_read_deadline : ℤ → S → S × Option Error
  pub write : Bytes → S → S × Option Error
  pub read : ℕ → S → S × Result Bytes

-- `type ctrl struct`.
pub record Ctrl (S : Type 0) : Type 0 where
  pub read_timeout : ℤ
  pub write_timeout : ℤ
  pub conn : Conn S
  pub buffer : ℕ

-- What `stationFirst` and `stationNext` return: an error with `ok` false, no station, an error with
-- `ok` true, or a station. (`return s, ok, c.cmd(...)` reads `s` and `ok` after the call.)
pub data Reply : Type 0 where
  failed : Error → Reply
  nothing : Reply
  bad : Error → Reply
  got : Station → Reply

-- `timeout > 0`.
unfoldable pub is_positive : ℤ → Bool
is_positive (pos zero) = false
is_positive (pos (suc n)) = true
is_positive (negsuc n) = false

-- Whether a response starts with "UNKNOWN COMMAND".
unfoldable pub is_unknown : Bytes → Bool
is_unknown p = has_prefix p (codes "UNKNOWN COMMAND")

-- The `resp` functions of the commands.
unfoldable pub ping_response : Bytes → Result (Unit {0})
ping_response p =
    let s = trim_space p in
    if equal s (codes "PONG") then ok tt else err (unexpected_response (codes "PING") s)

unfoldable pub first_response : Bytes → Result Reply
first_response [] = ok nothing
first_response (c ∷ p) = elim (parse_station (c ∷ p)) [
  | err e ↦ ok (bad (wrapped (codes "command \"STA-FIRST\" error") e))
  | ok sta ↦ ok (got sta)
]

unfoldable pub next_response : Bytes → Result Reply
next_response [] = ok nothing
next_response (c ∷ p) = elim (parse_station (c ∷ p)) [ err e ↦ ok (bad e) | ok sta ↦ ok (got sta) ]

module _ {S : Type 0} where
  -- The rest of a command, after a call that may have failed.
  unfoldable pub unless_error : {A : Type 0} → S × Option Error → (S → S × Result A) → S × Result A
  unless_error (s, none) k = k s
  unless_error (s, some e) k = (s, err e)

  -- `bytes.HasPrefix(c.buf[:n], unknownCommand)`, and the call of `resp`.
  unfoldable pub respond :
      {A : Type 0} → Bytes → (Bytes → Result A) → S × Result Bytes → S × Result A
  unfolding is_unknown
  respond command resp (s, err e) =
      (s, err (wrapped (codes "read error from \"" ++ command ++ codes "\" command") e))
  respond command resp (s, ok p) = (s, if is_unknown p then err (unknown_cmd command) else resp p)

  -- `cmd`.
  unfoldable pub cmd : {A : Type 0} → Ctrl S → Bytes → (Bytes → Result A) → S → S × Result A
  unfolding unless_error is_positive respond
  cmd c command resp s =
      unless_error
        (if is_positive c.write_timeout
          then c.conn.set_write_deadline c.write_timeout s
          else (s, none))
        (λ s1. unless_error (c.conn.write command s1) (λ s2.
          unless_error
            (if is_positive c.read_timeout
              then c.conn.set_read_deadline c.read_timeout s2
              else (s2, none))
            (λ s3. respond command resp (c.conn.read c.buffer s3))))

  unfoldable pub ping : Ctrl S → S → S × Result (Unit {0})
  unfolding cmd ping_response
  ping c = cmd c (codes "PING") ping_response

  -- `newCtrl`.
  unfoldable pub new_ctrl : Conn S → ℤ → ℤ → S → S × Result (Ctrl S)
  unfolding ping
  new_ctrl conn read_timeout write_timeout s =
      let c : Ctrl S = record {
        read_timeout = read_timeout;
        write_timeout = write_timeout;
        conn = conn;
        buffer = 4096;
      } in
      let (s', r) = ping c s in
      elim r [ err e ↦ (s', err (wrapped (codes "ping error") e)) | ok _ ↦ (s', ok c) ]

  unfoldable pub get_status : Ctrl S → S → S × Result Status
  unfolding cmd
  get_status c = cmd c (codes "STATUS") parse_status

  unfoldable pub to_reply : S × Result Reply → S × Reply
  to_reply (s, err e) = (s, failed e)
  to_reply (s, ok r) = (s, r)

  -- `stationFirst` and `stationNext`.
  unfoldable pub station_first : Ctrl S → S → S × Reply
  unfolding cmd first_response to_reply
  station_first c s = to_reply (cmd c (codes "STA-FIRST") first_response s)

  unfoldable pub station_next : Ctrl S → Bytes → S → S × Reply
  unfolding cmd next_response to_reply
  station_next c mac s = to_reply (cmd c (codes "STA-NEXT " ++ mac) next_response s)
