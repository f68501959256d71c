-- ===== src/Hostapd/Attach/Detach/Keeps.antt =====
-- What every call of the connection keeps, `attach` keeps.
use wifi_presence.Base.{ℕ, Bool, Option, none, some, codes, Bool-cases, inl, inr}
use wifi_presence.Base.Errors.{Error, Result, ok, err}
use wifi_presence.Hostapd.Event.{Event}
use wifi_presence.Hostapd.Ctrl.{Ctrl, cmd}
use wifi_presence.Hostapd.Ctrl.Keeps.{Keeps, cmd-Keeps}
use wifi_presence.Hostapd.Attach.Detach.{
  Attached, attach_response, send_detach, detach, read_attached, attached_ctrl, finally_detach,
  attach_read, attach_rest, attach,
}
use wifi_presence.Hostapd.Attach.Detach.Once.{OnEnd, attach_loop-OnEnd}

module _ {S : Type 0} (P : S → Type 0) (c : Ctrl S) (unset : S → S × Option Error)
    (k : Keeps P c.conn) (unset_keeps : (s : S) → P s → P (unset s).0) where
  abbrev OnConn : Attached S → Type 0
  OnConn a = P a.conn

  pub detach-Keeps : (a : Attached S) → P a.conn → P (detach c a).conn
  unfolding detach send_detach
  detach-Keeps a p =
      let s1 = (c.conn.set_write_deadline c.write_timeout a.conn).0 in
      let s2 = (c.conn.write (codes "DETACH") s1).0 in
      let sent =
        k.read_deadline c.read_timeout s2
          (k.write (codes "DETACH") s1 (k.write_deadline c.write_timeout a.conn p)) in
      elim (Bool-cases a.detached) [ inl d ↦ rw (detach, d) p | inr d ↦ rw (detach, d) sent ]

  read_attached-Keeps :
      (cancelled : ℕ → Bool) (size : ℕ) (a : Attached S)
      → P a.conn
      → P (read_attached c cancelled size a).0.conn
  unfolding read_attached
  read_attached-Keeps cancelled size a p = elim (Bool-cases (cancelled a.reads)) [
    | inl x ↦ rw (read_attached, x) (k.read size (detach c a).conn (detach-Keeps a p))
    | inr x ↦ rw (read_attached, x) (k.read size a.conn p)
  ]

  finally_detach-Keeps :
      {D : Type 0} (o : Option (Attached S × D × Option Error))
      → OnEnd OnConn o
      → OnEnd OnConn (finally_detach c o)
  unfolding finally_detach
  finally_detach-Keeps none p = tt
  finally_detach-Keeps (some (a, d, e)) p = detach-Keeps a p

  attach_read-Keeps :
      {D : Type 0} (fuel : ℕ) (cancelled : ℕ → Bool) (events : Event → D → D × Option Error) (d : D)
      (r : S × Option Error)
      → P r.0
      → OnEnd OnConn (attach_read c fuel cancelled events d r)
  attach_read-Keeps fuel cancelled events d (s, some e) p = p
  attach_read-Keeps fuel cancelled events d (s, none) p =
      attach_loop-OnEnd OnConn fuel (attached_ctrl c cancelled) (λ a. a.detached) events _ d
        (λ a q. read_attached-Keeps cancelled c.buffer a q) p

  attach_rest-Keeps :
      {D : Type 0} (fuel : ℕ) (cancelled : ℕ → Bool) (events : Event → D → D × Option Error) (d : D)
      (r : S × Result (Unit {0}))
      → P r.0
      → OnEnd OnConn (attach_rest c fuel unset cancelled events d r)
  attach_rest-Keeps fuel cancelled events d (s, err e) p = p
  attach_rest-Keeps fuel cancelled events d (s, ok u) p =
      finally_detach-Keeps (attach_read c fuel cancelled events d (unset s))
        (attach_read-Keeps fuel cancelled events d (unset s) (unset_keeps s p))

  pub attach-Keeps :
      {D : Type 0} (fuel : ℕ) (cancelled : ℕ → Bool) (events : Event → D → D × Option Error) (s : S)
      (d : D)
      → P s
      → OnEnd OnConn (attach c fuel unset cancelled events s d)
  unfolding attach
  attach-Keeps fuel cancelled events s d p =
      attach_rest-Keeps fuel cancelled events d (cmd c (codes "ATTACH") attach_response s)
        (cmd-Keeps P c (codes "ATTACH") attach_response s k p)
