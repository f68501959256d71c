-- ===== src/Strconv/Hex.antt =====
-- Go's encoding/hex (`DecodeString`, and the digits of `%02X`), which mac.go, status.go and vendors.go
-- call.
use wifi_presence.Base.{
  ℕ, ◌+◌, ◌-◌, ◌*◌, ◌/◌, ◌%◌, ◌<◌, ◌&&◌, Option, none, some, [], ◌∷◌, ◌++◌, ◌≡◌, arith, leb,
  if◌then◌else◌, Bytes, All, inl, inr, sym, Option-cases,
}
use wifi_presence.Base.Errors.{invalid_byte, odd_length, Result, ok, err, Result-cases}
use mathlib.Core.Path.{subst}

-- The value of a hexadecimal digit, in either case.
unfoldable pub hex_value : ℕ → Option ℕ
hex_value c =
    if leb b'0' c && leb c b'9'
    then some (c - b'0')
    else if leb b'a' c && leb c b'f'
    then some (c - b'a' + 10)
    else if leb b'A' c && leb c b'F'
    then some (c - b'A' + 10)
    else none

-- The upper-case digit of a value below 16.
unfoldable pub upper_digit : ℕ → ℕ
upper_digit n = if leb n 9 then n + b'0' else n - 10 + b'A'

-- `fmt.Sprintf("%02X", b)` for a byte.
abbrev pub upper_hex : ℕ → Bytes
upper_hex b = upper_digit (b / 16) ∷ upper_digit (b % 16) ∷ []

-- One step of the decoding loop: a pair of digits, then the rest.
unfoldable pub decode_pair : ℕ → ℕ → Result Bytes → Result Bytes
unfolding hex_value
decode_pair a b rest = elim (hex_value a) [
  | none ↦ err (invalid_byte a)
  | some x ↦ elim (hex_value b) [
    | none ↦ err (invalid_byte b)
    | some y ↦ elim rest [ ok bs ↦ ok ((x * 16 + y) ∷ bs) | err e ↦ err e ]
  ]
]

-- `hex.DecodeString`.
unfoldable pub decode_hex : Bytes → Result Bytes
unfolding decode_pair
decode_hex [] = ok []
decode_hex (a ∷ []) = elim (hex_value a) [ none ↦ err (invalid_byte a) | some _ ↦ err odd_length ]
decode_hex (a ∷ b ∷ s) = decode_pair a b (decode_hex s)

pub hex_value-upper_digit : (n : ℕ) → n < 16 → hex_value (upper_digit n) ≡ some n
unfolding hex_value upper_digit
hex_value-upper_digit n h = ground arith

pub hex_value-lt : (c : ℕ) {n : ℕ} → hex_value c ≡ some n → n < 16
unfolding hex_value
hex_value-lt c h = ground arith

-- A byte printed by `%02X` is read back.
pub decode_hex-upper_hex :
    (b : ℕ) (s : Bytes) {bs : Bytes}
    → b < 256
    → decode_hex s ≡ ok bs
    → decode_hex (upper_hex b ++ s) ≡ ok (b ∷ bs)
unfolding decode_hex decode_pair
decode_hex-upper_hex b s h e =
    ground (arith, hex_value-upper_digit (b / 16), hex_value-upper_digit (b % 16))

-- What a successful step read.
pub decode_pair-eq-ok :
    (a b : ℕ) (rest : Result Bytes) {bs : Bytes}
    → decode_pair a b rest ≡ ok bs
    → (x : ℕ) × (y : ℕ) × (cs : Bytes) × (hex_value a ≡ some x)
      × (hex_value b ≡ some y)
      × (rest ≡ ok cs)
      × (bs ≡ (x * 16 + y) ∷ cs)
unfolding decode_pair
decode_pair-eq-ok a b rest h = elim (Option-cases (hex_value a)) [
  | inl p ↦ absurd (ground arith)
  | inr (x, p) ↦ elim (Option-cases (hex_value b)) [
    | inl q ↦ absurd (ground arith)
    | inr (y, q) ↦ elim (Result-cases rest) [
      | inl (cs, r) ↦ (x, y, cs, p, q, r, ground arith)
      | inr (e, r) ↦ absurd (ground arith)
    ]
  ]
]

-- Decoding gives bytes.
pub decode_hex-All : (s : Bytes) {bs : Bytes} → decode_hex s ≡ ok bs → All (λ b. b < 256) bs
unfolding decode_hex
decode_hex-All [] h = ground arith
decode_hex-All (a ∷ []) h = ground arith
decode_hex-All (a ∷ b ∷ s) {bs} h =
    let (x, y, cs, p, q, r, e) = decode_pair-eq-ok a b (decode_hex s) h in
    subst (All (λ c. c < 256)) (sym e)
      (omega (arith, hex_value-lt a p, hex_value-lt b q), decode_hex-All s r)
