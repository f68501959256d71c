-- ===== src/Hostapd/Attach/Detach.antt =====
-- internal/hostapd/ctrl.go, `attach` as a whole: the command ATTACH, the function of `detacher`, and the
-- loop between them. The context is cancelled at some time: `cancelled n` tells whether the goroutine
-- that waits for it has called `detach` before the n-th read returns. The mutex is left out: `attach`
-- holds it. The runs modelled are those in which every read returns; in the program a read after
-- `unsetReadDeadline` waits for ever if no message comes and the context does not end. A cancellation
-- comes after `unsetReadDeadline` here; one that came before would lose the deadline of the reply to
-- DETACH. The channel `done`, which is closed once DETACH was written, is one with the flag `detached`.
pub mod Once
pub mod Keeps
pub mod Returns
use wifi_presence.Base.{
  ℕ, zero, suc, Bool, true, false, Option, none, some, Bytes, codes, equal, trim_space,
  if◌then◌else◌,
}
use wifi_presence.Base.Errors.{Error, Result, ok, err, unexpected_response}
use wifi_presence.Hostapd.Event.{Event}
use wifi_presence.Hostapd.Ctrl.{Conn, Ctrl, cmd}
use wifi_presence.Hostapd.Attach.{attach_loop}

-- The connection while `attach` runs, the variable `detached`, and the number of reads so far.
pub record Attached (S : Type 0) : Type 0 where
  pub conn : S
  pub detached : Bool
  pub reads : ℕ

-- The `resp` function of ATTACH.
unfoldable pub attach_response : Bytes → Result (Unit {0})
attach_response p =
    let s = trim_space p in
    if equal s (codes "OK") then ok tt else err (unexpected_response (codes "ATTACH") s)

module _ {S : Type 0} (c : Ctrl S) where
  -- The calls that send the request; their errors are ignored.
  unfoldable pub send_detach : S → S
  send_detach s =
      let s1 = (c.conn.set_write_deadline c.write_timeout s).0 in
      let s2 = (c.conn.write (codes "DETACH") s1).0 in
      (c.conn.set_read_deadline c.read_timeout s2).0

  -- The function that `detacher` returns.
  unfoldable pub detach : Attached S → Attached S
  detach a =
      if a.detached
      then a
      else record { conn = send_detach a.conn; detached = true; reads = a.reads }

  -- A read of the loop, by the end of which the context may be cancelled.
  unfoldable pub read_attached : (ℕ → Bool) → ℕ → Attached S → Attached S × Result Bytes
  read_attached cancelled n a =
      let a' = if cancelled a.reads then detach a else a in
      let (s, r) = c.conn.read n a'.conn in
      (record { conn = s; detached = a'.detached; reads = suc a'.reads }, r)

  -- The connection that the loop sees.
  abbrev pub attached_ctrl : (ℕ → Bool) → Ctrl (Attached S)
  attached_ctrl cancelled = record {
    read_timeout = c.read_timeout;
    write_timeout = c.write_timeout;
    conn = record {
      set_write_deadline = λ timeout a. (a, none);
      set_read_deadline = λ timeout a. (a, none);
      write = λ p a. (a, none);
      read = read_attached cancelled;
    };
    buffer = c.buffer;
  }

  -- `defer detach()`
  unfoldable pub finally_detach :
      {D : Type 0} → Option (Attached S × D × Option Error) → Option (Attached S × D × Option Error)
  finally_detach none = none
  finally_detach (some (a, d, e)) = some (detach a, d, e)

  -- What follows `unsetReadDeadline`.
  abbrev pub attach_read :
      {D : Type 0}
      → ℕ
      → (ℕ → Bool)
      → (Event → D → D × Option Error)
      → D
      → S × Option Error
      → Option (Attached S × D × Option Error)
  attach_read fuel cancelled events d (s, some e) =
      some (record { conn = s; detached = false; reads = 0 }, d, some e)
  attach_read fuel cancelled events d (s, none) =
      attach_loop fuel (attached_ctrl cancelled) (λ a. a.detached) events
        (record { conn = s; detached = false; reads = 0 }) d

  -- What follows the command.
  abbrev pub attach_rest :
      {D : Type 0}
      → ℕ
      → (S → S × Option Error)
      → (ℕ → Bool)
      → (Event → D → D × Option Error)
      → D
      → S × Result (Unit {0})
      → Option (Attached S × D × Option Error)
  attach_rest fuel unset cancelled events d (s, err e) =
      some (record { conn = s; detached = false; reads = 0 }, d, some e)
  attach_rest fuel unset cancelled events d (s, ok u) =
      finally_detach (attach_read fuel cancelled events d (unset s))

  -- `attach`. `unset` is `unsetReadDeadline`.
  unfoldable pub attach :
      {D : Type 0}
      → ℕ
      → (S → S × Option Error)
      → (ℕ → Bool)
      → (Event → D → D × Option Error)
      → S
      → D
      → Option (Attached S × D × Option Error)
  attach fuel unset cancelled events s d =
      attach_rest fuel unset cancelled events d (cmd c (codes "ATTACH") attach_response s)
