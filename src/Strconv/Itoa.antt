-- ===== src/Strconv/Itoa.antt =====
-- The verb `%d` of package fmt for an `int`, and that `strconv.Atoi` reads it back.
use mathlib.Core.List.{append_assoc, append-nil}
use wifi_presence.Base.{
  ℕ, zero, suc, ◌+◌, ◌-◌, ◌*◌, ◌/◌, ◌%◌, ◌≤◌, ◌<◌, ◌≡◌, refl, ◌∙◌, true, false, [], ◌∷◌, ◌++◌, ◌==◌,
  leb, ltb, if◌then◌else◌, arith, Bytes, inl, inr, Bool-cases, lt→ltb,
}
use wifi_presence.Base.Int.{ℤ, pos, negsuc, int64_half, pos_part, neg_part}
use wifi_presence.Base.Errors.{ok, ◌>>=◌}
use wifi_presence.Strconv.Atoi.{atoi, parse_digits, parse_uint, positive, negative}

-- The digits of a number, on fuel that exceeds the number.
unfoldable pub digits : ℕ → ℕ → Bytes
digits zero n = []
digits (suc fuel) n =
    let above = digits fuel (n / 10) in
    if ltb n 10 then (b'0' + n) ∷ [] else above ++ (b'0' + n % 10) ∷ []

unfoldable pub itoa : ℤ → Bytes
unfolding digits
itoa (pos n) = digits (suc n) n
itoa (negsuc n) = b'-' ∷ digits (suc (suc n)) (suc n)

-- One more digit.
parse_digits-digit :
    (whole : Bytes) (n d m : ℕ) (cs : Bytes)
    → d < 10
    → n * 10 + d ≡ m
    → m < int64_half * 2
    → parse_digits whole n ((b'0' + d) ∷ cs) ≡ parse_digits whole m cs
unfolding parse_digits
parse_digits-digit whole n d m cs h e b =
    let next : n * 10 + (b'0' + d - b'0') ≡ m = omega arith in
    let low : leb b'0' (b'0' + d) ≡ true = ground arith in
    let high : leb (b'0' + d) b'9' ≡ true = ground arith in
    rw (next, low, high, lt→ltb m (int64_half * 2) b) refl

parse_digits-digits :
    (fuel n : ℕ) (whole cs : Bytes)
    → n < fuel
    → n < int64_half * 2
    → parse_digits whole 0 (digits fuel n ++ cs) ≡ parse_digits whole n cs
unfolding digits
parse_digits-digits zero n whole cs h b = absurd (omega arith)
parse_digits-digits (suc fuel) n whole cs h b = elim (Bool-cases (ltb n 10)) [
  | inl one ↦ rw one (parse_digits-digit whole 0 n n cs (ground arith) (omega arith) b)
  | inr more ↦
      let big : 10 ≤ n = ground arith in
      let before =
        parse_digits-digits fuel (n / 10) whole ((b'0' + n % 10) ∷ cs) (omega arith)
          (omega arith) in
      let last = parse_digits-digit whole (n / 10) (n % 10) n cs (omega arith) (omega arith) b in
      rw (more, append_assoc (digits fuel (n / 10)) ((b'0' + n % 10) ∷ []) cs, before, last) refl
]

-- The digits start with a digit.
digits-cons :
    (fuel n : ℕ)
    → n < fuel
    → (c : ℕ) × (cs : Bytes) × (digits fuel n ≡ c ∷ cs) × (b'0' ≤ c) × (c ≤ b'9')
unfolding digits
digits-cons zero n h = absurd (omega arith)
digits-cons (suc fuel) n h = elim (Bool-cases (ltb n 10)) [
  | inl one ↦ (b'0' + n, [], rw one refl, omega arith, ground arith)
  | inr more ↦
      let big : 10 ≤ n = ground arith in
      let (c, cs, e, lo, hi) = digits-cons fuel (n / 10) (omega arith) in
      (c, cs ++ (b'0' + n % 10) ∷ [], rw (more, e) refl, lo, hi)
]

parse_uint-digits :
    (n : ℕ) (whole : Bytes) → n < int64_half * 2 → parse_uint whole (digits (suc n) n) ≡ ok n
unfolding parse_uint
parse_uint-digits n whole b =
    let (c, cs, e, lo, hi) = digits-cons (suc n) n (omega arith) in
    let read = parse_digits-digits (suc n) n whole [] (omega arith) b in
    let same = append-nil (digits (suc n) n) in rw e (rw (same, e) at read)

-- A text that starts with no sign.
atoi-unsigned :
    (s : Bytes) (c : ℕ) (cs : Bytes)
    → s ≡ c ∷ cs
    → b'0' ≤ c
    → atoi s ≡ (parse_uint s s >>= positive s)
unfolding atoi
atoi-unsigned s c cs e lo =
    let minus : (c == b'-') ≡ false = ground arith in
    let plus : (c == b'+') ≡ false = ground arith in rw (e, minus, plus) refl

atoi-pos :
    (n : ℕ) (s : Bytes)
    → n < int64_half
    → parse_uint s s ≡ ok n
    → (parse_uint s s >>= positive s) ≡ ok (pos n)
unfolding positive
atoi-pos n s p e = rw (e, lt→ltb n int64_half p) refl

atoi-negsuc :
    (n : ℕ) (cs : Bytes)
    → suc n ≤ int64_half
    → parse_uint (b'-' ∷ cs) cs ≡ ok (suc n)
    → atoi (b'-' ∷ cs) ≡ ok (negsuc n)
unfolding atoi negative
atoi-negsuc n cs q e = rw e (ground arith)

-- `Atoi` reads back what `%d` prints of an `int64`.
pub atoi-itoa : (z : ℤ) → pos_part z < int64_half → neg_part z ≤ int64_half → atoi (itoa z) ≡ ok z
unfolding itoa
atoi-itoa (pos n) p q =
    let s = digits (suc n) n in
    let (c, cs, e, lo, hi) = digits-cons (suc n) n (omega arith) in
    atoi-unsigned s c cs e lo ∙ atoi-pos n s p (parse_uint-digits n s (omega arith))
atoi-itoa (negsuc n) p q =
    atoi-negsuc n (digits (suc (suc n)) (suc n)) q
      (parse_uint-digits (suc n) (b'-' ∷ digits (suc (suc n)) (suc n)) (omega arith))
