-- ===== src/Hostapd/Client/Open/Lifetime.antt =====
-- A client from `NewClient` to `Close`, and what `Attach` does in between.
use mathlib.Core.Path.{subst}
use wifi_presence.Base.{
  equal_iff, equal, Bool-cases, inl, inr, ◌≡◌, ◌∙◌, sym, ap, arith, true, Option, none, some, Bytes,
}
use wifi_presence.Base.Errors.{Result-cases, Error, ok, err}
use wifi_presence.Base.Paths.{base}
use wifi_presence.Hostapd.Socket.{Os, first_error, close}
use wifi_presence.Hostapd.Socket.Kernel.{Files, Kernel, Same, SameBut, Opens}
use wifi_presence.Hostapd.Client.Open.{
  Platform, Client, socket_dir, client_path, new_client, close_client,
}
use wifi_presence.Hostapd.Client.Open.Resources.{close-SameBut, Opened, new_client_lem}

module _ {S : Type 0} (os : Os S) (f : Files S) (k : Kernel f os) where
  pub opened :
      (p : Platform) (dir sock : Bytes) (s : S) {s1 : S} {c : Client S}
      → new_client os p dir sock s ≡ (s1, ok c)
      → Opened os f k (client_path (socket_dir p dir) sock) (socket_dir p dir) sock s (s1, ok c)
  opened p dir sock s h = rw h at (new_client_lem os f k p dir sock s)

  -- A call of `NewClient` that returns an error leaves the descriptors as they were, and every file
  -- but that of the client's own socket.
  pub new_client-err :
      (p : Platform) (dir sock : Bytes) (s : S) {s1 : S} {e : Error}
      → new_client os p dir sock s ≡ (s1, err e)
      → SameBut f (client_path (socket_dir p dir) sock) s s1
  new_client-err p dir sock s h = rw h at (new_client_lem os f k p dir sock s)

  -- `NewClient` returns an error where the file of the client's socket exists.
  new_client-exists :
      (p : Platform) (dir sock : Bytes) (s : S)
      → f.exists (client_path (socket_dir p dir) sock) s ≡ true
      → (e : Error) × ((new_client os p dir sock s).1 ≡ err e)
  new_client-exists p dir sock s h = elim (Result-cases (new_client os p dir sock s).1) [
    | inr r ↦ r
    | inl (c, q) ↦
        let o =
          opened p dir sock s {s1 = (new_client os p dir sock s).0} {c = c}
            (ap (λ r. ((new_client os p dir sock s).0, r)) q) in
        absurd (ground (arith, o.0.was_absent))
  ]

  -- While a client is open, `NewClient` with the same directory returns an error for every control
  -- socket whose path has the same last part.
  pub same_base_refused :
      (p : Platform) (dir sock sock' : Bytes) (s : S) {s1 : S} {c : Client S}
      → new_client os p dir sock s ≡ (s1, ok c)
      → base sock ≡ base sock'
      → (e : Error) × ((new_client os p dir sock' s1).1 ≡ err e)
  unfolding client_path
  same_base_refused p dir sock sock' s {s1 = s1} h b =
      let o = opened p dir sock s h in new_client-exists p dir sock' s1 (rw b at o.0.is_present)

  both_none : (a b : Option Error) → first_error os a b ≡ none → b ≡ none
  both_none none b h = h
  both_none (some e) b h = absurd (ground (arith, h))

  -- Opening a client and closing it leaves every file and descriptor as it was, where `Close` returns
  -- no error.
  pub close_client-new_client :
      (p : Platform) (dir sock : Bytes) (s : S) {s1 s2 : S} {c : Client S}
      → new_client os p dir sock s ≡ (s1, ok c)
      → close_client os c s1 ≡ (s2, none)
      → Same f s s2
  unfolding close_client close
  close_client-new_client p dir sock s {s1 = s1} {s2 = s2} {c = c} h h' =
      let path = client_path (socket_dir p dir) sock in
      let o = opened p dir sock s h in
      let opens : Opens f c.socket.local_sock c.socket.descriptor s s1 =
        subst (λ q. Opens f q c.socket.descriptor s s1) (sym o.1) o.0 in
      let a = (os.close c.socket.descriptor s1).0 in
      let left : (os.remove c.socket.local_sock a).0 ≡ s2 = ap (λ q. q.0) h' in
      let gone : (os.remove c.socket.local_sock a).1 ≡ none =
        both_none (os.close c.socket.descriptor s1).1 (os.remove c.socket.local_sock a).1
          (ap (λ q. q.1) h') in
      let closed = close-SameBut os f k c.socket s s1 opens in
      rw (← left) record {
        files = λ q. elim (Bool-cases (equal q c.socket.local_sock)) [
          | inl e ↦
              let same : q ≡ c.socket.local_sock = (equal_iff q c.socket.local_sock).0 e in
              rw same (k.removed c.socket.local_sock a gone ∙ sym opens.was_absent)
          | inr e ↦
              closed.files q (λ same. absurd (ground (arith, equal_iff q c.socket.local_sock)))
        ];
        descriptors = closed.descriptors;
      }
