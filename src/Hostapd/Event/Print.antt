-- ===== src/Hostapd/Event/Print.antt =====
-- Event messages that hostapd sends for an address, read back.
use mathlib.Core.List.{append-nil}
use wifi_presence.Base.{
  take-length-append, length-append, ℕ, Option, none, some, ◌/◌, ◌%◌, ◌<◌, false, ◌≡◌, ◌∷◌, [],
  ◌++◌, ◌∙◌, ap, refl, sym, arith, true, Bytes, has_prefix, trim_space, trim_left, trim_right,
  is_space, ltb, length, take, if◌then◌else◌,
}
use wifi_presence.Base.Trim.{has_prefix-append, trim_prefix-append, trim_right-append}
use wifi_presence.Base.Errors.{ok}
use wifi_presence.Presence.Mac.{Mac, IsMac, to_string}
use wifi_presence.Strconv.Hex.{upper_digit, upper_hex}
use wifi_presence.Hostapd.Mac.{mac_length}
use wifi_presence.Hostapd.Mac.Decode.{is_mac-to_string}
use wifi_presence.Hostapd.Event.{
  station_connect, station_disconnect, connect_mac, disconnect_mac, parse_stripped, parse_event,
  event_ap_sta_connected, event_ap_sta_disconnected,
}

upper_digit-not_space : (n : ℕ) → n < 16 → is_space (upper_digit n) ≡ false
unfolding is_space upper_digit
upper_digit-not_space n h = ground arith

-- All but the last digit of a printed address.
abbrev init : Mac → Bytes
init m =
    upper_hex m.b0
    ++ (b':'
        ∷ (upper_hex m.b1
            ++ (b':'
                ∷ (upper_hex m.b2
                    ++ (b':'
                        ∷ (upper_hex m.b3
                            ++ (b':'
                                ∷ (upper_hex m.b4 ++ (b':' ∷ upper_digit (m.b5 / 16) ∷ [])))))))))

to_string-init : (m : Mac) → to_string m ≡ init m ++ upper_digit (m.b5 % 16) ∷ []
unfolding to_string
to_string-init m = refl

trim_left-to_string :
    (m : Mac) (s : Bytes) → IsMac m → trim_left (b' ' ∷ (to_string m ++ s)) ≡ to_string m ++ s
unfolding trim_left to_string
trim_left-to_string m s h = ground (arith, upper_digit-not_space (m.b0 / 16))

-- White space is cut off around an address, and at the end of what follows it.
trim_space-to_string :
    (m : Mac) (s : Bytes)
    → IsMac m
    → trim_space (b' ' ∷ (to_string m ++ s)) ≡ to_string m ++ trim_right s
unfolding trim_space
trim_space-to_string m s h =
    let digit = upper_digit (m.b5 % 16) in
    let ns = upper_digit-not_space (m.b5 % 16) (omega arith) in
    ap trim_right (trim_left-to_string m s h)
    ∙ ap (λ t. trim_right (t ++ s)) (to_string-init m)
    ∙ trim_right-append (init m) digit s ns
    ∙ ap (λ t. t ++ trim_right s) (sym (to_string-init m))

length-to_string : (m : Mac) → length (to_string m) ≡ mac_length
unfolding to_string
length-to_string m = refl

-- A text that is cut at the length of its first part.
cut_lem :
    (xs s : Bytes) (n : ℕ)
    → length xs ≡ n
    → (if ltb n (length (xs ++ s)) then take n (xs ++ s) else xs ++ s) ≡ xs
cut_lem xs [] n h =
    let short : ltb n (length (xs ++ [])) ≡ false = ground (arith, append-nil xs) in
    rw short (append-nil xs)
cut_lem xs (c ∷ s) n h =
    let long : ltb n (length (xs ++ c ∷ s)) ≡ true = ground (arith, length-append xs (c ∷ s)) in
    rw long (rw (← h) (take-length-append xs (c ∷ s)))

connect_mac-to_string :
    (m : Mac) (s : Bytes)
    → IsMac m
    → connect_mac (event_ap_sta_connected ++ (b' ' ∷ (to_string m ++ s))) ≡ to_string m
unfolding connect_mac
connect_mac-to_string m s h =
    rw (trim_prefix-append event_ap_sta_connected (b' ' ∷ (to_string m ++ s))) (
      rw (trim_space-to_string m s h)
        (cut_lem (to_string m) (trim_right s) mac_length (length-to_string m)))

-- A message behind a priority level, if it has one.
abbrev pub prefixed : Option ℕ → Bytes → Bytes
prefixed none msg = msg
prefixed (some level) msg = b'<' ∷ level ∷ b'>' ∷ msg

abbrev pub connect_message : Mac → Bytes → Bytes
connect_message m s = event_ap_sta_connected ++ (b' ' ∷ (to_string m ++ s))

abbrev pub disconnect_message : Mac → Bytes → Bytes
disconnect_message m s = event_ap_sta_disconnected ++ (b' ' ∷ (to_string m ++ s))

connect_stripped :
    (r : Bytes) (m : Mac) (s : Bytes)
    → IsMac m
    → parse_stripped r (connect_message m s) ≡ ok (station_connect r (to_string m))
unfolding parse_stripped
connect_stripped r m s h = rw (
  has_prefix-append event_ap_sta_connected (b' ' ∷ (to_string m ++ s)),
  connect_mac-to_string m s h,
  is_mac-to_string m h,
)

-- A connect message, with or without a priority level, is read as a connect event of the printed
-- address, whatever follows the address; the address has six bytes.
pub parse_event-connect :
    (p : Option ℕ) (m : Mac) (s : Bytes)
    → IsMac m
    → parse_event (prefixed p (connect_message m s))
      ≡ ok (station_connect (prefixed p (connect_message m s)) (to_string m))
unfolding parse_event
parse_event-connect none m s h = connect_stripped (connect_message m s) m s h
parse_event-connect (some level) m s h =
    connect_stripped (prefixed (some level) (connect_message m s)) m s h

disconnect_mac-to_string :
    (m : Mac) (s : Bytes)
    → IsMac m
    → trim_right s ≡ []
    → disconnect_mac (disconnect_message m s) ≡ to_string m
unfolding disconnect_mac
disconnect_mac-to_string m s h e =
    rw (trim_prefix-append event_ap_sta_disconnected (b' ' ∷ (to_string m ++ s)))
      (trim_space-to_string m s h ∙ ap (λ t. to_string m ++ t) e ∙ append-nil (to_string m))

disconnect_not_connect :
    (m : Mac) (s : Bytes) → has_prefix (disconnect_message m s) event_ap_sta_connected ≡ false
unfolding has_prefix
disconnect_not_connect m s = refl

disconnect_stripped :
    (r : Bytes) (m : Mac) (s : Bytes)
    → IsMac m
    → trim_right s ≡ []
    → parse_stripped r (disconnect_message m s) ≡ ok (station_disconnect r (to_string m))
unfolding parse_stripped
disconnect_stripped r m s h e = rw (
  disconnect_not_connect m s,
  has_prefix-append event_ap_sta_disconnected (b' ' ∷ (to_string m ++ s)),
  disconnect_mac-to_string m s h e,
  is_mac-to_string m h,
)

-- A disconnect message, with or without a priority level, is read as a disconnect event of the
-- printed address, if only white space follows the address; the address has six bytes.
pub parse_event-disconnect :
    (p : Option ℕ) (m : Mac) (s : Bytes)
    → IsMac m
    → trim_right s ≡ []
    → parse_event (prefixed p (disconnect_message m s))
      ≡ ok (station_disconnect (prefixed p (disconnect_message m s)) (to_string m))
unfolding parse_event
parse_event-disconnect none m s h e = disconnect_stripped (disconnect_message m s) m s h e
parse_event-disconnect (some level) m s h e =
    disconnect_stripped (prefixed (some level) (disconnect_message m s)) m s h e
