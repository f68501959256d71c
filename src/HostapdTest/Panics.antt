-- ===== src/HostapdTest/Panics.antt =====
-- The message on which the fake calls a function that is nil.
use wifi_presence.Base.{
  ◌≡◌, ◌≢◌, ◌↔◌, refl, arith, true, false, Option, none, some, Bytes, codes, equal, equal_iff,
  has_prefix, Bool-cases, Option-cases, inl, inr,
}
use wifi_presence.HostapdTest.{
  Handler, panicked, handle_message, status_reply, StatusResp, call_station_next, serve_message,
}

equal-has_prefix :
    (s t p : Bytes) → has_prefix t p ≡ false → has_prefix s p ≡ true → equal s t ≡ false
equal-has_prefix s t p f h = elim (Bool-cases (equal s t)) [
  | inl e ↦ let same = (equal_iff s t).0 e in absurd (ground arith)
  | inr e ↦ e
]

module _ {H : Type 0} where
  call_station_next-panicked :
      (handler : Handler H) (msg : Bytes) (h : H)
      → ((call_station_next handler msg h).1 ≡ panicked) ↔ (handler.on_station_next ≡ none)
  unfolding call_station_next
  call_station_next-panicked handler msg h = elim (Option-cases handler.on_station_next) [
    | inl e ↦ (λ p. e, λ p. rw (call_station_next, e) refl)
    | inr (f, e) ↦ (λ p. absurd (ground arith), λ p. absurd (ground arith))
  ]

  status_reply-ne : (r : H × Option StatusResp) → (status_reply r).1 ≢ panicked
  status_reply-ne (h, none) = λ e. cc
  status_reply-ne (h, some resp) = λ e. cc

  serve_message-next :
      (handler : Handler H) (msg : Bytes) (h : H)
      → has_prefix msg (codes "STA-NEXT") ≡ true
      → serve_message handler msg h ≡ call_station_next handler msg (handle_message handler msg h)
  unfolding has_prefix serve_message call_station_next
  serve_message-next handler msg h n =
      let ping = equal-has_prefix msg (codes "PING") (codes "STA-NEXT") refl n in
      let status = equal-has_prefix msg (codes "STATUS") (codes "STA-NEXT") refl n in
      let first = equal-has_prefix msg (codes "STA-FIRST") (codes "STA-NEXT") refl n in
      rw (serve_message, ping, status, first, n) refl

  serve_message-ne :
      (handler : Handler H) (msg : Bytes) (h : H)
      → has_prefix msg (codes "STA-NEXT") ≡ false
      → (serve_message handler msg h).1 ≢ panicked
  unfolding serve_message
  serve_message-ne handler msg h n = elim (Bool-cases (equal msg (codes "PING"))) [
    | inl a ↦ rw (serve_message, a) (λ e. cc)
    | inr a ↦ elim (Bool-cases (equal msg (codes "STATUS"))) [
      | inl b ↦ rw (serve_message, a, b) (status_reply-ne _)
      | inr b ↦ elim (Bool-cases (equal msg (codes "STA-FIRST"))) [
        | inl c ↦ rw (serve_message, a, b, c) (λ e. cc)
        | inr c ↦ elim (Bool-cases (equal msg (codes "ATTACH"))) [
          | inl d ↦ rw (serve_message, a, b, c, n, d) (λ e. cc)
          | inr d ↦ elim (Bool-cases (equal msg (codes "DETACH"))) [
            | inl f ↦ rw (serve_message, a, b, c, n, d, f) (λ e. cc)
            | inr f ↦ rw (serve_message, a, b, c, n, d, f) (λ e. cc)
          ]
        ]
      ]
    ]
  ]

  -- The fake calls a function that is nil exactly on a message that starts with "STA-NEXT" where no
  -- callback is registered for it.
  pub serve_message-panicked :
      (handler : Handler H) (msg : Bytes) (h : H)
      → ((serve_message handler msg h).1 ≡ panicked)
        ↔ ((has_prefix msg (codes "STA-NEXT") ≡ true) × (handler.on_station_next ≡ none))
  serve_message-panicked handler msg h = elim (Bool-cases (has_prefix msg (codes "STA-NEXT"))) [
    | inl n ↦
        let same = serve_message-next handler msg h n in
        let (there, back) = call_station_next-panicked handler msg (handle_message handler msg h) in
        (λ e. (n, there (rw same at e)), λ e. rw same (back e.1))
    | inr n ↦ (λ e. absurd (serve_message-ne handler msg h n e), λ e. absurd (ground arith))
  ]
