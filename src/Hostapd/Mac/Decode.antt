-- ===== src/Hostapd/Mac/Decode.antt =====
-- A text that hostapd/mac.go accepts is one that presence/mac.go decodes.
use wifi_presence.Base.{
  ℕ, zero, suc, ◌+◌, ◌*◌, ◌/◌, ◌%◌, ◌++◌, Option-cases, inl, inr, ◌≡◌, true, false, [], ◌∷◌, ◌==◌,
  arith, Bytes, remove_first, length, some, ◌<◌, refl,
}
use wifi_presence.Base.Errors.{ok}
use wifi_presence.Strconv.Hex.{hex_value, decode_hex, decode_pair, upper_digit, upper_hex}
use wifi_presence.Presence.Mac.{Mac, IsMac, decode, of_bytes, to_string}
use wifi_presence.Presence.Mac.RoundTrip.{decode-IsMac}
use wifi_presence.Hostapd.Mac.{is_hex, matches_pairs, is_mac}

is_hex-hex_value : (c : ℕ) → is_hex c ≡ true → (n : ℕ) × (hex_value c ≡ some n)
unfolding is_hex hex_value
is_hex-hex_value c h = elim (Option-cases (hex_value c)) [
  | inl e ↦ absurd (ground arith)
  | inr (n, e) ↦ (n, e)
]

is_hex-ne-colon : (c : ℕ) → is_hex c ≡ true → (c == b':') ≡ false
unfolding is_hex
is_hex-ne-colon c h = ground arith

remove_first-pair :
    (n a b : ℕ) (s : Bytes)
    → is_hex a ≡ true
    → is_hex b ≡ true
    → remove_first (suc n) b':' (a ∷ b ∷ b':' ∷ s) ≡ a ∷ b ∷ remove_first n b':' s
unfolding remove_first
remove_first-pair n a b s ha hb = ground (arith, is_hex-ne-colon a, is_hex-ne-colon b)

decode_hex-pair :
    (a b : ℕ) (s bs : Bytes)
    → is_hex a ≡ true
    → is_hex b ≡ true
    → decode_hex s ≡ ok bs
    → (c : ℕ) × (decode_hex (a ∷ b ∷ s) ≡ ok (c ∷ bs))
unfolding decode_hex decode_pair
decode_hex-pair a b s bs ha hb e =
    let (x, p) = is_hex-hex_value a ha in
    let (y, q) = is_hex-hex_value b hb in (x * 16 + y, ground arith)

-- Text of the right shape decodes to one byte for each pair.
matches_pairs-decode_hex :
    (n : ℕ) (s : Bytes)
    → matches_pairs n s ≡ true
    → (bs : Bytes) × (decode_hex (remove_first n b':' s) ≡ ok bs) × (length bs ≡ suc n)
unfolding matches_pairs
matches_pairs-decode_hex zero (a ∷ b ∷ []) h =
    unfold remove_first in
    let (x, p) =
      decode_hex-pair a b [] [] (ground arith) (ground arith) (unfold decode_hex in refl) in
    (x ∷ [], p, refl)
matches_pairs-decode_hex (suc n) (a ∷ b ∷ c ∷ s) h =
    let (bs, p, q) = matches_pairs-decode_hex n s (ground arith) in
    let colon : c ≡ b':' = ground arith in
    let (x, r) = decode_hex-pair a b (remove_first n b':' s) bs (ground arith) (ground arith) p in
    (
      x ∷ bs,
      rw colon (rw (remove_first-pair n a b s (ground arith) (ground arith)) r),
      ground arith,
    )
matches_pairs-decode_hex zero _ h = absurd (ground arith)
matches_pairs-decode_hex (suc n) _ h = absurd (ground arith)

of_bytes_six : (bs : Bytes) → length bs ≡ 6 → (m : Mac) × (of_bytes bs ≡ ok m)
unfolding of_bytes
of_bytes_six (a ∷ b ∷ c ∷ d ∷ e ∷ f ∷ []) h =
    (record { b0 = a; b1 = b; b2 = c; b3 = d; b4 = e; b5 = f }, refl)
of_bytes_six _ h = absurd (omega arith)

-- Every text that `isMAC` accepts is decoded by `MAC.Decode`, to an address of six bytes.
pub is_mac-decode : (s : Bytes) → is_mac s ≡ true → (m : Mac) × (decode s ≡ ok m) × IsMac m
unfolding is_mac
is_mac-decode s h =
    let (bs, p, q) = matches_pairs-decode_hex 5 s h in
    let (m, r) = of_bytes_six bs q in
    let e : decode s ≡ ok m = unfold decode in (rw p r) in (m, e, decode-IsMac s e)

is_hex-upper_digit : (n : ℕ) → n < 16 → is_hex (upper_digit n) ≡ true
unfolding is_hex upper_digit
is_hex-upper_digit n h = ground arith

matches_pairs-upper_hex :
    (n b : ℕ) (s : Bytes)
    → b < 256
    → matches_pairs n s ≡ true
    → matches_pairs (suc n) (upper_hex b ++ (b':' ∷ s)) ≡ true
unfolding matches_pairs
matches_pairs-upper_hex n b s h e =
    ground (arith, is_hex-upper_digit (b / 16), is_hex-upper_digit (b % 16))

matches_pairs-last : (b : ℕ) → b < 256 → matches_pairs 0 (upper_hex b) ≡ true
unfolding matches_pairs
matches_pairs-last b h = ground (arith, is_hex-upper_digit (b / 16), is_hex-upper_digit (b % 16))

-- What `MAC.String` prints for an address of six bytes has the shape that `isMAC` accepts.
pub is_mac-to_string : (m : Mac) → IsMac m → is_mac (to_string m) ≡ true
unfolding is_mac to_string
is_mac-to_string m (h0, (h1, (h2, (h3, (h4, (h5, _)))))) =
    let s4 = upper_hex m.b4 ++ (b':' ∷ upper_hex m.b5) in
    let s3 = upper_hex m.b3 ++ (b':' ∷ s4) in
    let s2 = upper_hex m.b2 ++ (b':' ∷ s3) in
    let s1 = upper_hex m.b1 ++ (b':' ∷ s2) in
    let e4 = matches_pairs-upper_hex 0 m.b4 (upper_hex m.b5) h4 (matches_pairs-last m.b5 h5) in
    let e3 = matches_pairs-upper_hex 1 m.b3 s4 h3 e4 in
    let e2 = matches_pairs-upper_hex 2 m.b2 s3 h2 e3 in
    matches_pairs-upper_hex 4 m.b0 s1 h0 (matches_pairs-upper_hex 3 m.b1 s2 h1 e2)
