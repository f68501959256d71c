-- ===== src/Hostapd/Attach/Detach/Returns.antt =====
-- The fuel of `attach` is enough where hostapd sends no more than so many messages and every read
-- returns.
use wifi_presence.Base.{
  ℕ, zero, suc, ◌≤◌, ◌≡◌, ◌≢◌, refl, arith, Bool, false, Option, none, some, codes, Bytes,
  Bool-cases, Option-cases, inl, inr,
}
use wifi_presence.Base.Int.{ℤ}
use wifi_presence.Base.Errors.{Error, Result, ok, err, Result-cases}
use wifi_presence.Hostapd.Event.{Event}
use wifi_presence.Hostapd.Ctrl.{Conn, Ctrl, cmd}
use wifi_presence.Hostapd.Ctrl.Keeps.{Keeps, cmd-Keeps}
use wifi_presence.Hostapd.Attach.{receive, attach_loop}
use wifi_presence.Hostapd.Attach.Detach.{
  Attached, attach_response, detach, read_attached, attached_ctrl, finally_detach, attach_read,
  attach_rest, attach,
}
use wifi_presence.Hostapd.Attach.Detach.Once.{Step-cases}
use wifi_presence.Hostapd.Attach.Detach.Keeps.{detach-Keeps}

attach_loop-returns :
    {S D : Type 0} (b : S → ℕ) (fuel : ℕ) (c : Ctrl S) (detached : S → Bool)
    (events : Event → D → D × Option Error) (s : S) (d : D)
    → ((s : S) (p : Bytes)
        → (c.conn.read c.buffer s).1 ≡ ok p
        → suc (b (c.conn.read c.buffer s).0) ≤ b s)
    → suc (b s) ≤ fuel
    → attach_loop fuel c detached events s d ≢ none
unfolding attach_loop
attach_loop-returns b zero c detached events s d spends h = absurd (omega arith)
attach_loop-returns b (suc fuel) c detached events s d spends h =
    let s' = (c.conn.read c.buffer s).0 in
    elim (Result-cases (c.conn.read c.buffer s).1) [
      | inr (e, p) ↦ rw (attach_loop, p) (λ x. cc)
      | inl (msg, p) ↦ elim (Step-cases (receive (detached s') msg)) [
        | inl (e, q) ↦ rw (attach_loop, p, q) (λ x. cc)
        | inr (event, q) ↦ elim (Option-cases (events event d).1) [
          | inr (e, r) ↦ rw (attach_loop, p, q, r) (λ x. cc)
          | inl r ↦
              let less : suc (b s') ≤ fuel = omega (arith, spends s msg p) in
              rw (attach_loop, p, q, r)
                (attach_loop-returns b fuel c detached events s' (events event d).0 spends less)
        ]
      ]
    ]

-- `b` bounds the messages to come: a read that gives one lowers it, and no call raises it.
pub record Spends {S : Type 0} (b : S → ℕ) (c : Conn S) : Type 0 where
  pub write_deadline : (t : ℤ) (s : S) → b (c.set_write_deadline t s).0 ≤ b s
  pub read_deadline : (t : ℤ) (s : S) → b (c.set_read_deadline t s).0 ≤ b s
  pub write : (p : Bytes) (s : S) → b (c.write p s).0 ≤ b s
  pub read : (n : ℕ) (s : S) → b (c.read n s).0 ≤ b s
  pub read_ok : (n : ℕ) (s : S) (p : Bytes) → (c.read n s).1 ≡ ok p → suc (b (c.read n s).0) ≤ b s

pub Spends-Keeps :
    {S : Type 0} (b : S → ℕ) (c : Conn S) (n : ℕ) → Spends b c → Keeps (λ s. b s ≤ n) c
Spends-Keeps b c n k = record {
  write_deadline = λ t s h. omega (arith, k.write_deadline t s);
  read_deadline = λ t s h. omega (arith, k.read_deadline t s);
  write = λ p s h. omega (arith, k.write p s);
  read = λ m s h. omega (arith, k.read m s);
}

module _ {S : Type 0} (b : S → ℕ) (c : Ctrl S) (unset : S → S × Option Error) (k : Spends b c.conn)
    (unset_keeps : (s : S) → b (unset s).0 ≤ b s) where
  detach-spends : (a : Attached S) → b (detach c a).conn ≤ b a.conn
  detach-spends a =
      detach-Keeps (λ s. b s ≤ b a.conn) c unset (Spends-Keeps b c.conn (b a.conn) k)
        (λ s h. omega (arith, unset_keeps s, h)) a (omega arith)

  read_attached-spends :
      (cancelled : ℕ → Bool) (a : Attached S) (p : Bytes)
      → (read_attached c cancelled c.buffer a).1 ≡ ok p
      → suc (b (read_attached c cancelled c.buffer a).0.conn) ≤ b a.conn
  unfolding read_attached
  read_attached-spends cancelled a p h = elim (Bool-cases (cancelled a.reads)) [
    | inl x ↦
        let less = k.read_ok c.buffer (detach c a).conn p (rw (read_attached, x) at h) in
        rw (read_attached, x) (omega (arith, less, detach-spends a))
    | inr x ↦ rw (read_attached, x) (k.read_ok c.buffer a.conn p (rw (read_attached, x) at h))
  ]

  finally_detach-returns :
      {D : Type 0} (o : Option (Attached S × D × Option Error))
      → o ≢ none
      → finally_detach c o ≢ none
  unfolding finally_detach
  finally_detach-returns none h = absurd (h refl)
  finally_detach-returns (some (a, d, e)) h = λ x. cc

  attach_read-returns :
      {D : Type 0} (fuel : ℕ) (cancelled : ℕ → Bool) (events : Event → D → D × Option Error) (d : D)
      (r : S × Option Error)
      → suc (b r.0) ≤ fuel
      → attach_read c fuel cancelled events d r ≢ none
  attach_read-returns fuel cancelled events d (s, some e) h = λ x. cc
  attach_read-returns fuel cancelled events d (s, none) h =
      attach_loop-returns (λ a. b a.conn) fuel (attached_ctrl c cancelled) (λ a. a.detached) events
        (record { conn = s; detached = false; reads = 0 }) d
        (λ a p q. read_attached-spends cancelled a p q) h

  attach_rest-returns :
      {D : Type 0} (fuel : ℕ) (cancelled : ℕ → Bool) (events : Event → D → D × Option Error) (d : D)
      (r : S × Result (Unit {0}))
      → suc (b r.0) ≤ fuel
      → attach_rest c fuel unset cancelled events d r ≢ none
  attach_rest-returns fuel cancelled events d (s, err e) h = λ x. cc
  attach_rest-returns fuel cancelled events d (s, ok u) h =
      finally_detach-returns (attach_read c fuel cancelled events d (unset s))
        (attach_read-returns fuel cancelled events d (unset s) (omega (arith, unset_keeps s, h)))

  -- Where at most `b s` messages come, any fuel that exceeds that is enough for `attach`. (It does not
  -- follow that the program returns: its reads can wait for ever.)
  pub attach-returns :
      {D : Type 0} (fuel : ℕ) (cancelled : ℕ → Bool) (events : Event → D → D × Option Error) (s : S)
      (d : D)
      → suc (b s) ≤ fuel
      → attach c fuel unset cancelled events s d ≢ none
  unfolding attach
  attach-returns fuel cancelled events s d h =
      let kept : b (cmd c (codes "ATTACH") attach_response s).0 ≤ b s =
        cmd-Keeps (λ x. b x ≤ b s) c (codes "ATTACH") attach_response s
          (Spends-Keeps b c.conn (b s) k) (omega arith) in
      attach_rest-returns fuel cancelled events d (cmd c (codes "ATTACH") attach_response s)
        (omega (arith, kept, h))
