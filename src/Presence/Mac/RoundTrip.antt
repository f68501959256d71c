-- ===== src/Presence/Mac/RoundTrip.antt =====
-- The text forms of a MAC address are read back, and what `Decode` accepts.
use mathlib.Core.Path.{subst}
use wifi_presence.Base.{
  ℕ, suc, ◌/◌, ◌%◌, ◌<◌, ◌++◌, ◌∷◌, [], ◌≡◌, refl, sym, arith, ◌==◌, false, Bytes, All,
  remove_first,
}
use wifi_presence.Base.Errors.{ok, >>=-cases}
use wifi_presence.Presence.Mac.{
  Mac, bytes, IsMac, to_string, of_bytes, decode, marshal_json, unmarshal_json,
}
use wifi_presence.Strconv.Hex.{
  upper_hex, upper_digit, decode_hex, decode_hex-upper_hex, decode_hex-All,
}

digit-ne-colon : (n : ℕ) → n < 16 → (upper_digit n == b':') ≡ false
unfolding upper_digit
digit-ne-colon n h = ground arith

remove_first-upper_hex :
    (n b : ℕ) (s : Bytes)
    → b < 256
    → remove_first (suc n) b':' (upper_hex b ++ (b':' ∷ s)) ≡ upper_hex b ++ remove_first n b':' s
unfolding remove_first
remove_first-upper_hex n b s h = ground (arith, digit-ne-colon (b / 16), digit-ne-colon (b % 16))

-- `String` without its colons.
remove_first-to_string :
    (m : Mac)
    → IsMac m
    → remove_first 5 b':' (to_string m)
      ≡ upper_hex m.b0
        ++ (upper_hex m.b1
            ++ (upper_hex m.b2 ++ (upper_hex m.b3 ++ (upper_hex m.b4 ++ (upper_hex m.b5 ++ [])))))
unfolding to_string
remove_first-to_string m (h0, (h1, (h2, (h3, (h4, (h5, _)))))) =
    rw
      (
        remove_first-upper_hex 4 m.b0 _ h0,
        remove_first-upper_hex 3 m.b1 _ h1,
        remove_first-upper_hex 2 m.b2 _ h2,
        remove_first-upper_hex 1 m.b3 _ h3,
        remove_first-upper_hex 0 m.b4 _ h4,
      )
      (unfold remove_first in refl)

decode_hex-bytes :
    (m : Mac)
    → IsMac m
    → decode_hex (
        upper_hex m.b0
        ++ (upper_hex m.b1
            ++ (upper_hex m.b2 ++ (upper_hex m.b3 ++ (upper_hex m.b4 ++ (upper_hex m.b5 ++ []))))))
      ≡ ok (bytes m)
decode_hex-bytes m (h0, (h1, (h2, (h3, (h4, (h5, _)))))) = decode_hex-upper_hex m.b0 _ h0 (
    decode_hex-upper_hex m.b1 _ h1 (
      decode_hex-upper_hex m.b2 _ h2 (
        decode_hex-upper_hex m.b3 _ h3 (
          decode_hex-upper_hex m.b4 _ h4
            (decode_hex-upper_hex m.b5 [] h5 (unfold decode_hex in refl))))))

-- `Decode` reads back what `String` prints for an address of six bytes.
pub decode-to_string : (m : Mac) → IsMac m → decode (to_string m) ≡ ok m
unfolding decode
decode-to_string m h =
    rw (remove_first-to_string m h) (rw (decode_hex-bytes m h) (unfold of_bytes in refl))

of_bytes-bytes : (bs : Bytes) {m : Mac} → of_bytes bs ≡ ok m → bytes m ≡ bs
unfolding of_bytes
of_bytes-bytes (a ∷ b ∷ c ∷ d ∷ e ∷ f ∷ []) h = ground arith
of_bytes-bytes _ h = ground arith

-- What `Decode` returns with no error is an address of six bytes, each below 256.
pub decode-IsMac : (s : Bytes) {m : Mac} → decode s ≡ ok m → IsMac m
unfolding decode
decode-IsMac s h =
    let (bs, p, q) = >>=-cases (decode_hex (remove_first 5 b':' s)) of_bytes h in
    subst (All (λ b. b < 256)) (sym (of_bytes-bytes bs q))
      (decode_hex-All (remove_first 5 b':' s) p)

-- `UnmarshalJSON` reads back what `MarshalJSON` writes.
pub unmarshal_json-marshal_json : (m : Mac) → IsMac m → unmarshal_json (marshal_json m) ≡ ok m
unfolding unmarshal_json marshal_json
unmarshal_json-marshal_json m h = decode-to_string m h
