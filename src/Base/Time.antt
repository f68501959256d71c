-- ===== src/Base/Time.antt =====
-- Go's `time.Time` and `time.Duration`. A time is the number of nanoseconds since the zero time, the
-- first instant of year 1; clock readings lie some 2000 years later. Monotonic readings agree with
-- the wall clock here.
use wifi_presence.Base.{zero, ◌-◌, suc, ◌/◌, Bool, true, false, ltb, if◌then◌else◌}
use wifi_presence.Base.Int.{ℤ, pos, negsuc, sub_ℕ, ◌-ℤ◌, ◌+ℤ◌, int64_half, neg_int64}

abbrev pub Time : Type 0
Time = ℤ

abbrev pub zero_time : Time
zero_time = pos 0

-- `t.IsZero()`.
unfoldable pub is_zero : Time → Bool
is_zero (pos zero) = true
is_zero _ = false

-- A difference of times saturates at the bounds of a `Duration`.
unfoldable pub saturate : ℤ → ℤ
saturate (pos n) = pos (if ltb n int64_half then n else int64_half - 1)
saturate (negsuc n) = negsuc (if ltb n int64_half then n else int64_half - 1)

-- `t.Sub(u)`, and so `time.Since(u)` at the time `t`.
unfoldable pub sub_time : Time → Time → ℤ
unfolding saturate
sub_time t u = saturate (t -ℤ u)

-- `t.Add(-d)`.
unfoldable pub add_neg : Time → ℤ → Time
unfolding neg_int64
add_neg t d = t +ℤ neg_int64 d

-- `int(d.Seconds())`: truncated towards zero, for an `int` of 64 bits; one of 32 bits holds seconds up to
-- some 68 years. The floating-point number between the two is not modelled: it is exact enough up to
-- durations of some 97 days, and can be off by one second beyond.
unfoldable pub whole_seconds : ℤ → ℤ
whole_seconds (pos n) = pos (n / 1000000000)
whole_seconds (negsuc n) = sub_ℕ 0 (suc n / 1000000000)
