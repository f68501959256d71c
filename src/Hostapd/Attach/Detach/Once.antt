-- ===== src/Hostapd/Attach/Detach/Once.antt =====
-- DETACH is sent once.
use wifi_presence.Base.{
  ℕ, zero, suc, ◌≡◌, ◌⊎◌, refl, ap, ◌∙◌, Bool, true, Option, none, some, codes, if◌then◌else◌,
  Bool-cases, Option-cases, inl, inr,
}
use wifi_presence.Base.Errors.{Error, ok, Result-cases}
use wifi_presence.Base.Int.{ℤ}
use wifi_presence.Hostapd.Event.{Event}
use wifi_presence.Hostapd.Ctrl.{Ctrl, cmd}
use wifi_presence.Hostapd.Attach.{Step, stop, deliver, receive, attach_loop}
use wifi_presence.Hostapd.Attach.Detach.{
  Attached, attach_response, send_detach, detach, read_attached, attached_ctrl, finally_detach,
  attach_read, attach,
}

-- What the loop leaves, where it ends.
abbrev pub OnEnd : {S D : Type 0} → (S → Type 0) → Option (S × D × Option Error) → Type 0
OnEnd P none = Unit
OnEnd P (some (s, d, e)) = P s

pub Step-cases :
    (x : Step) → ((e : Option Error) × (x ≡ stop e)) ⊎ ((event : Event) × (x ≡ deliver event))
Step-cases (stop e) = inl (e, refl)
Step-cases (deliver event) = inr (event, refl)

-- What each read keeps, the loop keeps.
pub attach_loop-OnEnd :
    {S D : Type 0} (P : S → Type 0) (fuel : ℕ) (c : Ctrl S) (detached : S → Bool)
    (events : Event → D → D × Option Error) (s : S) (d : D)
    → ((s : S) → P s → P (c.conn.read c.buffer s).0)
    → P s
    → OnEnd P (attach_loop fuel c detached events s d)
unfolding attach_loop
attach_loop-OnEnd P zero c detached events s d keep h = tt
attach_loop-OnEnd P (suc fuel) c detached events s d keep h =
    let s' = (c.conn.read c.buffer s).0 in
    let h' = keep s h in
    elim (Result-cases (c.conn.read c.buffer s).1) [
      | inr (e, p) ↦ rw (attach_loop, p) h'
      | inl (msg, p) ↦ elim (Step-cases (receive (detached s') msg)) [
        | inl (e, q) ↦ rw (attach_loop, p, q) h'
        | inr (event, q) ↦ elim (Option-cases (events event d).1) [
          | inr (e, r) ↦ rw (attach_loop, p, q, r) h'
          | inl r ↦
              rw (attach_loop, p, q, r)
                (attach_loop-OnEnd P fuel c detached events s' (events event d).0 keep h')
        ]
      ]
    ]

-- `sent` counts the requests DETACH: sending one adds one, and no other call changes the count.
pub record Counts {S : Type 0} (c : Ctrl S) (unset : S → S × Option Error) (sent : S → ℕ)
    : Type 0 where
  pub write_deadline : (t : ℤ) (s : S) → sent (c.conn.set_write_deadline t s).0 ≡ sent s
  pub read_deadline : (t : ℤ) (s : S) → sent (c.conn.set_read_deadline t s).0 ≡ sent s
  pub read : (n : ℕ) (s : S) → sent (c.conn.read n s).0 ≡ sent s
  pub write : (s : S) → sent (c.conn.write (codes "DETACH") s).0 ≡ suc (sent s)
  pub unset_deadline : (s : S) → sent (unset s).0 ≡ sent s

module _ {S : Type 0} (c : Ctrl S) (unset : S → S × Option Error) (sent : S → ℕ)
    (h : Counts c unset sent) where
  -- The request was sent once if `detached` is set, and else not.
  abbrev IsCounted : ℕ → Attached S → Type 0
  IsCounted n a = sent a.conn ≡ (if a.detached then suc n else n)

  send_detach_lem : (s : S) → sent (send_detach c s) ≡ suc (sent s)
  unfolding send_detach
  send_detach_lem s = rw (h.read_deadline, h.write, h.write_deadline) refl

  detach-IsCounted : (n : ℕ) (a : Attached S) → IsCounted n a → IsCounted n (detach c a)
  unfolding detach
  detach-IsCounted n a p = elim (Bool-cases a.detached) [
    | inl d ↦ rw (detach, d) (rw d at p)
    | inr d ↦ rw (detach, d) (send_detach_lem a.conn ∙ ap suc (rw d at p))
  ]

  detach-detached : (a : Attached S) → (detach c a).detached ≡ true
  unfolding detach
  detach-detached a = elim (Bool-cases a.detached) [
    | inl d ↦ rw (detach, d) refl
    | inr d ↦ rw (detach, d) refl
  ]

  read_attached-IsCounted :
      (cancelled : ℕ → Bool) (n size : ℕ) (a : Attached S)
      → IsCounted n a
      → IsCounted n (read_attached c cancelled size a).0
  unfolding read_attached
  read_attached-IsCounted cancelled n size a p = elim (Bool-cases (cancelled a.reads)) [
    | inl x ↦ rw (read_attached, x, h.read) (detach-IsCounted n a p)
    | inr x ↦ rw (read_attached, x, h.read) p
  ]

  finally-OnEnd :
      {D : Type 0} (n : ℕ) (o : Option (Attached S × D × Option Error))
      → OnEnd (IsCounted n) o
      → OnEnd (λ (a : Attached S). sent a.conn ≡ suc n) (finally_detach c o)
  unfolding finally_detach
  finally-OnEnd n none p = tt
  finally-OnEnd n (some (a, d, e)) p = rw (detach-detached a) at (detach-IsCounted n a p)

  attach_read-OnEnd :
      {D : Type 0} (fuel : ℕ) (cancelled : ℕ → Bool) (events : Event → D → D × Option Error) (d : D)
      (r : S × Option Error)
      → OnEnd (IsCounted (sent r.0)) (attach_read c fuel cancelled events d r)
  attach_read-OnEnd fuel cancelled events d (s, some e) = refl
  attach_read-OnEnd fuel cancelled events d (s, none) =
      attach_loop-OnEnd (IsCounted (sent s)) fuel (attached_ctrl c cancelled) (λ a. a.detached)
        events _ d (λ a p. read_attached-IsCounted cancelled (sent s) c.buffer a p) refl

  -- Where hostapd has answered ATTACH with OK and `attach` returns, whenever the context is cancelled and
  -- whatever ends the loop, then DETACH was sent exactly once.
  pub attach_detaches :
      {D : Type 0} (fuel : ℕ) (cancelled : ℕ → Bool) (events : Event → D → D × Option Error) (s : S)
      (d : D) {s1 : S} {a : Attached S} {d' : D} {e : Option Error}
      → cmd c (codes "ATTACH") attach_response s ≡ (s1, ok tt)
      → attach c fuel unset cancelled events s d ≡ some (a, d', e)
      → sent a.conn ≡ suc (sent s1)
  unfolding attach
  attach_detaches fuel cancelled events s d {s1 = s1} {a = a} {d' = d'} {e = e} p q =
      let r = attach_read-OnEnd fuel cancelled events d (unset s1) in
      let counted =
        finally-OnEnd (sent (unset s1).0) (attach_read c fuel cancelled events d (unset s1)) r in
      let same : finally_detach c (attach_read c fuel cancelled events d (unset s1))
          ≡ some (a, d', e) =
        rw p at q in
      (rw same at counted) ∙ ap suc (h.unset_deadline s1)
