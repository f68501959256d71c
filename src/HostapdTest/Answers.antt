-- ===== src/HostapdTest/Answers.antt =====
-- The client of internal/hostapd that is connected to the fake of `DefaultHostAPDHandler`.
use mathlib.Core.List.{append_assoc}
use wifi_presence.Base.{
  ℕ, ◌≤◌, ◌≡◌, ◌≢◌, refl, sym, ◌∙◌, arith, none, some, List, [], ◌∷◌, ◌++◌, Bytes, codes,
  has_prefix, All, map, length,
}
use wifi_presence.Base.Errors.{ok}
use wifi_presence.Hostapd.Status.{parse_status}
use wifi_presence.Hostapd.Status.Ssid.Encodes.{Encodes}
use wifi_presence.Hostapd.Station.{Station, parse_station}
use wifi_presence.Hostapd.Ctrl.{
  get_status, Ctrl, nothing, got, is_unknown, next_response, first_response, station_next,
  station_first, to_reply,
}
use wifi_presence.Hostapd.Client.{stations}
use wifi_presence.Hostapd.Client.Listing.{Answers, ends, more, cmd-Responds, stations-Answers}
use wifi_presence.HostapdTest.{
  StatusResp, StationResp, default_handler, encode_station, encode_status, station_after, head,
  next_reply, first_reply, first_of,
}
use wifi_presence.HostapdTest.Encode.{parse_status-encode_status, IsStatus}
use wifi_presence.HostapdTest.EncodeStation.{
  IsStation, station_of, parse_station-encode_station, encode_station-known,
}
use wifi_presence.HostapdTest.Links.{
  Links, Fits, IsDistinct, station_after-middle, is_mac-length, serve_next, serve_first,
  serve_status, encode_status-known,
}

length-map : {A B : Type 0} (f : A → B) (xs : List A) → length (map f xs) ≡ length xs
length-map f [] = refl
length-map f (x ∷ xs) = rw (length-map f xs) refl

line-ne-nil : (s rest : Bytes) → (s ++ b'\n' ∷ []) ++ rest ≢ []
line-ne-nil [] rest = λ e. cc
line-ne-nil (c ∷ s) rest = λ e. cc

encode_station-ne-nil : (r : StationResp) → encode_station r ≢ []
unfolding encode_station
encode_station-ne-nil r = line-ne-nil r.mac _

next_response-some :
    (p : Bytes) (sta : Station) → p ≢ [] → parse_station p ≡ ok sta → next_response p ≡ ok (got sta)
unfolding next_response
next_response-some [] sta h e = absurd (h refl)
next_response-some (c ∷ p) sta h e = rw (next_response, e) refl

first_response-some :
    (p : Bytes) (sta : Station)
    → p ≢ []
    → parse_station p ≡ ok sta
    → first_response p ≡ ok (got sta)
unfolding first_response
first_response-some [] sta h e = absurd (h refl)
first_response-some (c ∷ p) sta h e = rw (first_response, e) refl

module _ {S : Type 0} where
  -- STA-NEXT after the last station, and before another one.
  station_next-end :
      (c : Ctrl S) (status : StatusResp) (all : List StationResp) (mac : Bytes) (s : S)
      → (l : Links c (default_handler status all)) → length mac ≡ 17
      → station_after mac all ≡ none
      → station_next c mac s ≡ (l.after (codes "STA-NEXT " ++ mac) s, nothing)
  unfolding station_next to_reply is_unknown has_prefix next_response next_reply
  station_next-end c status all mac s l n e =
      let served = rw e at (serve_next status all mac) in
      let r = l.answers (codes "STA-NEXT " ++ mac) [] s (omega arith) (omega arith) served in
      rw (cmd-Responds c (codes "STA-NEXT " ++ mac) [] next_response r) refl

  station_next-more :
      (c : Ctrl S) (status : StatusResp) (all : List StationResp) (mac : Bytes) (q : StationResp)
      (s : S)
      → (l : Links c (default_handler status all)) → length mac ≡ 17
      → Fits c.buffer q
      → station_after mac all ≡ some q
      → station_next c mac s ≡ (l.after (codes "STA-NEXT " ++ mac) s, got (station_of q))
  unfolding station_next to_reply next_reply
  station_next-more c status all mac q s l n f e =
      let served = rw e at (serve_next status all mac) in
      let p = encode_station q in
      let r = l.answers (codes "STA-NEXT " ++ mac) p s (omega arith) f.reply served in
      rw
        (
          cmd-Responds c (codes "STA-NEXT " ++ mac) p next_response r,
          encode_station-known q f.station,
          next_response-some p (station_of q) (encode_station-ne-nil q)
              (parse_station-encode_station q f.station),
        )
        refl

  station_first-end :
      (c : Ctrl S) (status : StatusResp) (s : S)
      → (l : Links c (default_handler status []))
      → station_first c s ≡ (l.after (codes "STA-FIRST") s, nothing)
  unfolding station_first to_reply is_unknown has_prefix first_response first_reply first_of
  station_first-end c status s l =
      let r =
        l.answers (codes "STA-FIRST") [] s (omega arith) (omega arith) (serve_first status []) in
      rw (cmd-Responds c (codes "STA-FIRST") [] first_response r) refl

  station_first-more :
      (c : Ctrl S) (status : StatusResp) (x : StationResp) (xs : List StationResp) (s : S)
      → (l : Links c (default_handler status (x ∷ xs))) → Fits c.buffer x
      → station_first c s ≡ (l.after (codes "STA-FIRST") s, got (station_of x))
  unfolding station_first to_reply first_reply first_of
  station_first-more c status x xs s l f =
      let p = encode_station x in
      let r =
        l.answers (codes "STA-FIRST") p s (omega arith) f.reply (serve_first status (x ∷ xs)) in
      rw
        (
          cmd-Responds c (codes "STA-FIRST") p first_response r,
          encode_station-known x f.station,
          first_response-some p (station_of x) (encode_station-ne-nil x)
              (parse_station-encode_station x f.station),
        )
        refl

  -- From a station on, the fake answers with the stations after it, in order.
  after-Answers :
      (c : Ctrl S) (status : StatusResp) (all pre : List StationResp) (r : StationResp)
      (post : List StationResp) (s : S)
      → (l : Links c (default_handler status all)) → all ≡ pre ++ r ∷ post
      → IsDistinct all
      → IsStation r
      → All (Fits c.buffer) post
      → (s' : S) × Answers c nothing s' r.mac (map station_of post) s
  unfolding head
  after-Answers c status all pre r [] s l e d h fs =
      let there = station_after-middle pre r [] (rw e at d) in
      let n = is_mac-length r.mac h.mac in
      (
        l.after (codes "STA-NEXT " ++ r.mac) s,
        ends (station_next-end c status all r.mac s l n (rw e there)),
      )
  after-Answers c status all pre r (q ∷ post) s l e d h (f, fs) =
      let there = station_after-middle pre r (q ∷ post) (rw e at d) in
      let n = is_mac-length r.mac h.mac in
      let again = e ∙ sym (append_assoc pre (r ∷ []) (q ∷ post)) in
      let (s', rest) =
        after-Answers c status all (pre ++ r ∷ []) q post (l.after (codes "STA-NEXT " ++ r.mac) s) l
          again d f.station fs in
      (s', more (station_next-more c status all r.mac q s l n f (rw e there)) rest)

  -- Where the client is connected to the fake that answers with the stations `all`, no two of which
  -- have the same MAC, each has the shape of a MAC, a signal of 64 bits and a reply that fits the
  -- buffer, and the fuel is at least their number, `Stations` returns them all, in order.
  pub stations-default_handler :
      (fuel : ℕ) (c : Ctrl S) (status : StatusResp) (all : List StationResp) (s : S)
      → Links c (default_handler status all)
      → IsDistinct all
      → All (Fits c.buffer) all
      → length all ≤ fuel
      → (s' : S) × (stations fuel c s ≡ some (s', ok (map station_of all)))
  stations-default_handler fuel c status [] s l d fs n =
      let e = station_first-end c status s l in
      (l.after (codes "STA-FIRST") s, unfold stations in ground arith)
  stations-default_handler fuel c status (x ∷ xs) s l d (f, fs) n =
      let first = station_first-more c status x xs s l f in
      let (s', rest) =
        after-Answers c status (x ∷ xs) [] x xs (l.after (codes "STA-FIRST") s) l refl d f.station
          fs in
      (
        s',
        stations-Answers fuel c nothing (station_of x) (map station_of xs) s
            (omega (arith, length-map station_of xs)) tt first rest,
      )

  -- Where the client is connected to the fake, whose status has fields of one line, numbers of 64 bits, an
  -- SSID that encodes `text` and a reply that fits the buffer, `Status` returns that status with `text`
  -- as its SSID.
  pub get_status-default_handler :
      (c : Ctrl S) (r : StatusResp) (all : List StationResp) (text : Bytes) (s : S)
      → (l : Links c (default_handler r all)) → IsStatus r
      → Encodes r.ssid text
      → length (encode_status r) ≤ c.buffer
      → get_status c s ≡ (
        l.after (codes "STATUS") s,
        ok (record {
          state = r.state;
          channel = r.channel;
          max_tx_power = r.max_tx_power;
          ssid = text;
          bssid = r.bssid;
        }),
      )
  unfolding get_status
  get_status-default_handler c r all text s l h e f =
      let p = encode_status r in
      let answer = l.answers (codes "STATUS") p s (omega arith) f (serve_status r all) in
      rw
        (
          cmd-Responds c (codes "STATUS") p parse_status answer,
          encode_status-known r,
          parse_status-encode_status r text h e,
        )
        refl
