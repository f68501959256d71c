-- ===== src/Strconv/Atoi.antt =====
-- Go's `strconv.Atoi(s)` and `strconv.ParseInt(s, 10, 64)`, which agree where an `int` has 64 bits.
use wifi_presence.Base.{
  ℕ, ◌+◌, ◌-◌, ◌*◌, ◌≤◌, ◌<◌, ◌≡◌, ◌&&◌, [], ◌∷◌, ◌==◌, leb, ltb, if◌then◌else◌, arith, Bytes, zero,
  suc, inl, inr, Bool-cases,
}
use wifi_presence.Base.Int.{ℤ, pos, int64_half, sub_ℕ, pos_part, neg_part}
use wifi_presence.Base.Errors.{Result, ok, err, ◌>>=◌, bad_syntax, out_of_range}

-- The loop of `ParseUint`: it stops at the first byte that is no digit, or that overflows 64 bits.
unfoldable pub parse_digits : Bytes → ℕ → Bytes → Result ℕ
parse_digits whole n [] = ok n
parse_digits whole n (c ∷ cs) =
    let next = n * 10 + (c - b'0') in
    let rest = parse_digits whole next cs in
    if leb b'0' c && leb c b'9'
    then if ltb next (int64_half * 2) then rest else err (out_of_range whole)
    else err (bad_syntax whole)

-- `ParseUint(s, 10, 64)`.
unfoldable pub parse_uint : Bytes → Bytes → Result ℕ
unfolding parse_digits
parse_uint whole [] = err (bad_syntax whole)
parse_uint whole (c ∷ cs) = parse_digits whole 0 (c ∷ cs)

unfoldable pub positive : Bytes → ℕ → Result ℤ
positive whole n = if ltb n int64_half then ok (pos n) else err (out_of_range whole)

unfoldable pub negative : Bytes → ℕ → Result ℤ
negative whole n = if leb n int64_half then ok (sub_ℕ 0 n) else err (out_of_range whole)

-- `Atoi`: an optional sign, and then digits.
unfoldable pub atoi : Bytes → Result ℤ
unfolding parse_uint positive negative
atoi [] = err (bad_syntax [])
atoi (c ∷ cs) =
    if c == b'-'
    then parse_uint (c ∷ cs) cs >>= negative (c ∷ cs)
    else if c == b'+'
    then parse_uint (c ∷ cs) cs >>= positive (c ∷ cs)
    else parse_uint (c ∷ cs) (c ∷ cs) >>= positive (c ∷ cs)

abbrev FitsInt64 : ℤ → Type 0
FitsInt64 z = (pos_part z < int64_half) × (neg_part z ≤ int64_half)

positive-FitsInt64 :
    (whole : Bytes) (r : Result ℕ) {z : ℤ} → (r >>= positive whole) ≡ ok z → FitsInt64 z
unfolding positive
positive-FitsInt64 whole (ok n) h = ground arith
positive-FitsInt64 whole (err e) h = ground arith

negative-FitsInt64 :
    (whole : Bytes) (r : Result ℕ) {z : ℤ} → (r >>= negative whole) ≡ ok z → FitsInt64 z
unfolding negative
negative-FitsInt64 whole (ok zero) h = ground arith
negative-FitsInt64 whole (ok (suc n)) h = ground arith
negative-FitsInt64 whole (err e) h = ground arith

-- Whatever `Atoi` returns fits an `int64`.
pub atoi_bounds :
    (s : Bytes) {z : ℤ} → atoi s ≡ ok z → (pos_part z < int64_half) × (neg_part z ≤ int64_half)
unfolding atoi
atoi_bounds [] h = ground arith
atoi_bounds (c ∷ cs) h = elim (Bool-cases (c == b'-')) [
  | inl minus ↦ negative-FitsInt64 (c ∷ cs) (parse_uint (c ∷ cs) cs) (rw minus at h)
  | inr other ↦ elim (Bool-cases (c == b'+')) [
    | inl plus ↦ positive-FitsInt64 (c ∷ cs) (parse_uint (c ∷ cs) cs) (rw (other, plus) at h)
    | inr digit ↦
        positive-FitsInt64 (c ∷ cs) (parse_uint (c ∷ cs) (c ∷ cs)) (rw (other, digit) at h)
  ]
]
