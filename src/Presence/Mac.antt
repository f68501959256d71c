-- ===== src/Presence/Mac.antt =====
-- internal/presence/mac.go: hardware addresses and their text forms.
pub mod RoundTrip
use wifi_presence.Base.{
  ℕ, suc, ◌-◌, ◌<◌, ◌≡◌, ◌↔◌, Bool, ◌&&◌, true, List, [], ◌∷◌, ◌++◌, ◌==◌, if◌then◌else◌, ltb,
  arith, Bytes, All, length, take, drop, remove_first,
}
use wifi_presence.Base.Errors.{Result, ok, err, ◌>>=◌, bad_mac_length, mac_too_short}
use wifi_presence.Base.Maps.{Eq}
use wifi_presence.Strconv.Hex.{upper_hex, decode_hex}

-- `type MAC [6]byte`.
pub record Mac : Type 0 where
  pub b0 : ℕ
  pub b1 : ℕ
  pub b2 : ℕ
  pub b3 : ℕ
  pub b4 : ℕ
  pub b5 : ℕ

abbrev pub bytes : Mac → Bytes
bytes m = m.b0 ∷ m.b1 ∷ m.b2 ∷ m.b3 ∷ m.b4 ∷ m.b5 ∷ []

-- What the type `[6]byte` says of a value.
abbrev pub IsMac : Mac → Type 0
IsMac m = All (λ b. b < 256) (bytes m)

-- `==` on MAC values, as a map's keys are compared.
unfoldable pub mac_eq : Mac → Mac → Bool
mac_eq a b =
    a.b0 == b.b0 && a.b1 == b.b1 && a.b2 == b.b2 && a.b3 == b.b3 && a.b4 == b.b4 && a.b5 == b.b5

pub mac_eq_iff : (a b : Mac) → (mac_eq a b ≡ true) ↔ (a ≡ b)
unfolding mac_eq
mac_eq_iff a b = ground arith

instance abbrev pub mac_key : Eq Mac
mac_key = record { beq = mac_eq; beq_iff = mac_eq_iff }

-- `MAC.String`.
unfoldable pub to_string : Mac → Bytes
to_string m =
    upper_hex m.b0
    ++ (b':'
        ∷ (upper_hex m.b1
            ++ (b':'
                ∷ (upper_hex m.b2
                    ++ (b':'
                        ∷ (upper_hex m.b3
                            ++ (b':' ∷ (upper_hex m.b4 ++ (b':' ∷ upper_hex m.b5)))))))))

-- The length test of `MAC.Decode`, and its `copy`.
unfoldable pub of_bytes : Bytes → Result Mac
of_bytes (a ∷ b ∷ c ∷ d ∷ e ∷ f ∷ []) =
    ok (record { b0 = a; b1 = b; b2 = c; b3 = d; b4 = e; b5 = f })
of_bytes bs = err (bad_mac_length (length bs))

-- `MAC.Decode`. The receiver is assigned only where no error is returned.
unfoldable pub decode : Bytes → Result Mac
unfolding decode_hex of_bytes remove_first
decode s = do bs ← decode_hex (remove_first 5 b':' s); of_bytes bs

-- `MAC.MarshalJSON`.
unfoldable pub marshal_json : Mac → Bytes
unfolding to_string
marshal_json m = b'"' ∷ (to_string m ++ b'"' ∷ [])

-- `MAC.UnmarshalJSON`; the slice is `b[1 : len(b)-1]`.
unfoldable pub unmarshal_json : Bytes → Result Mac
unfolding decode
unmarshal_json b =
    if ltb (length b) 2 then err mac_too_short else decode (drop 1 (take (length b - 1) b))
