-- ===== src/HostapdTest/Links.antt =====
-- The connection of a client to the fake of `DefaultHostAPDHandler`, and what the fake replies.
use wifi_presence.Base.{
  ℕ, zero, suc, ◌+◌, ◌*◌, ◌≤◌, ◌≡◌, ◌≢◌, refl, arith, true, false, some, List, [], ◌∷◌, ◌++◌, Bytes,
  codes, equal, equal_iff, equal_refl, has_prefix, trim_prefix, All, length,
}
use wifi_presence.Hostapd.Mac.{is_mac, matches_pairs}
use wifi_presence.Hostapd.Ctrl.{Ctrl, is_unknown}
use wifi_presence.Hostapd.Client.Listing.{Responds}
use wifi_presence.HostapdTest.{
  handle_status, handle_station_first, call_station_next, handle_message, StatusResp, StationResp,
  Handler, went_on, serve_message, default_handler, encode_station, encode_status, station_after,
  head, next_reply, first_reply, first_of,
}
use wifi_presence.HostapdTest.EncodeStation.{IsStation}

-- What the connection relies on: the socket carries a command to the fake and its reply back, where
-- each fits the buffer of its reader, and its deadlines can be set.
pub record Links {S : Type 0} (c : Ctrl S) (handler : Handler (Unit {0})) : Type 0 where
  pub after : Bytes → S → S
  pub answers :
      (command p : Bytes) (s : S)
      → length command ≤ 128
      → length p ≤ c.buffer
      → (serve_message handler command tt).1 ≡ went_on (some p)
      → Responds c command p s (after command s)

pub serve_status :
    (status : StatusResp) (all : List StationResp)
    → (serve_message {H = Unit {0}} (default_handler status all) (codes "STATUS") tt).1
      ≡ went_on (some (encode_status status))
unfolding serve_message default_handler handle_message handle_status equal
serve_status status all = refl

pub encode_status-known : (r : StatusResp) → is_unknown (encode_status r) ≡ false
unfolding is_unknown has_prefix encode_status
encode_status-known r = refl

-- A station whose reply fits the buffer.
pub record Fits (n : ℕ) (r : StationResp) : Type 0 where
  pub station : IsStation r
  pub reply : length (encode_station r) ≤ n

-- No two stations have the same MAC.
abbrev pub IsDistinct : List StationResp → Type 0
IsDistinct [] = Unit
IsDistinct (r ∷ rs) = All (λ (q : StationResp). q.mac ≢ r.mac) rs × IsDistinct rs

All-middle :
    {A : Type 0} (P : A → Type 0) (pre : List A) (x : A) (post : List A)
    → All P (pre ++ x ∷ post)
    → P x
All-middle P [] x post (h, hs) = h
All-middle P (y ∷ pre) x post (h, hs) = All-middle P pre x post hs

-- The station after one in the list.
pub station_after-middle :
    (pre : List StationResp) (r : StationResp) (post : List StationResp)
    → IsDistinct (pre ++ r ∷ post)
    → station_after r.mac (pre ++ r ∷ post) ≡ head post
unfolding station_after
station_after-middle [] r post h = rw (equal_refl r.mac) refl
station_after-middle (q ∷ pre) r post (h, hs) =
    let other = All-middle (λ (x : StationResp). x.mac ≢ q.mac) pre r post h in
    let different : equal q.mac r.mac ≡ false = ground (arith, equal_iff q.mac r.mac) in
    rw (different, station_after-middle pre r post hs) refl

matches_pairs-length : (n : ℕ) (s : Bytes) → matches_pairs n s ≡ true → length s ≡ n * 3 + 2
unfolding matches_pairs
matches_pairs-length zero (a ∷ b ∷ []) h = refl
matches_pairs-length (suc n) (a ∷ b ∷ c ∷ s) h = ground (arith, matches_pairs-length n s)
matches_pairs-length _ _ h = absurd (ground arith)

pub is_mac-length : (s : Bytes) → is_mac s ≡ true → length s ≡ 17
unfolding is_mac
is_mac-length s h = matches_pairs-length 5 s h

pub serve_next :
    (status : StatusResp) (all : List StationResp) (mac : Bytes)
    → (serve_message {H = Unit {0}} (default_handler status all) (codes "STA-NEXT " ++ mac) tt).1
      ≡ went_on (some (next_reply (station_after mac all)))
unfolding serve_message default_handler handle_message call_station_next equal has_prefix
    trim_prefix
serve_next status all mac = refl

pub serve_first :
    (status : StatusResp) (all : List StationResp)
    → (serve_message {H = Unit {0}} (default_handler status all) (codes "STA-FIRST") tt).1
      ≡ went_on (some (first_reply (first_of all)))
unfolding serve_message default_handler handle_message handle_station_first equal
serve_first status all = refl
