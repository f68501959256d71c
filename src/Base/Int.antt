-- ===== src/Base/Int.antt =====
-- Signed integers over the native numbers, and Go's `int64`, which wraps around.
use Prim.Native.Nat.{ℕ, suc, ◌+◌, ◌-◌, ◌*◌, ◌%◌}
use wifi_presence.Base.Tests.{leb, ltb, if◌then◌else◌}

-- `negsuc n` is -(n + 1).
pub data ℤ : Type 0 where
  pos : ℕ → ℤ
  negsuc : ℕ → ℤ

abbrev pub pos_part : ℤ → ℕ
pos_part (pos n) = n
pos_part (negsuc n) = 0

abbrev pub neg_part : ℤ → ℕ
neg_part (pos n) = 0
neg_part (negsuc n) = suc n

-- a - b, as an integer.
abbrev pub sub_ℕ : ℕ → ℕ → ℤ
sub_ℕ a b = if leb b a then pos (a - b) else negsuc (b - a - 1)

infixl 65 ◌-ℤ◌
unfoldable pub ◌-ℤ◌ : ℤ → ℤ → ℤ
a -ℤ b = sub_ℕ (pos_part a + neg_part b) (neg_part a + pos_part b)

abbrev pub int64_half : ℕ
int64_half = 9223372036854775808

-- An integer as its bit pattern modulo 2 ^ 64.
unfoldable pub to_u64 : ℤ → ℕ
to_u64 a = (pos_part a + int64_half * 2 - neg_part a % (int64_half * 2)) % (int64_half * 2)

-- The `int64` of a bit pattern.
unfoldable pub of_u64 : ℕ → ℤ
of_u64 n = sub_ℕ n (if ltb n int64_half then 0 else int64_half * 2)

-- `int64(k) * n`, with wrap-around, for a positive constant `k`.
unfoldable pub scale_int64 : ℕ → ℤ → ℤ
unfolding to_u64 of_u64
scale_int64 k a = of_u64 (to_u64 a * k % (int64_half * 2))

-- `-n` on an `int64`: the least one is its own negation.
unfoldable pub neg_int64 : ℤ → ℤ
unfolding to_u64 of_u64
neg_int64 a = of_u64 ((int64_half * 2 - to_u64 a) % (int64_half * 2))

infixl 65 ◌+ℤ◌
unfoldable pub ◌+ℤ◌ : ℤ → ℤ → ℤ
a +ℤ b = sub_ℕ (pos_part a + pos_part b) (neg_part a + neg_part b)
