-- ===== src/Time.antt =====
-- Go's `time.Time` and `time.Duration` as cloudlus/server.go, cloudlus/job.go and cloudlus/util.go
-- use them.
--
-- A time counts the nanoseconds since the zero `time.Time` (the start of year 1), so a time before
-- that is not represented. A duration is an int64 of nanoseconds, written as an integer.
pub mod Laws
use cloudlus.Base.{
  ℕ, suc, ◌+◌, ◌-◌, ◌*◌, ◌/◌, ◌%◌, ◌≤◌, Bool, true, false, ltb, leb, ◌==◌, if◌then◌else◌,
}
use cloudlus.Base.Int.{ℤ, pos, negsuc, pos_part, neg_part, sub_ℕ, ◌+ℤ◌, ltb_ℤ}

abbrev pub Time : Type 0
Time = ℕ

abbrev pub Duration : Type 0
Duration = ℤ

abbrev pub second : ℕ
second = 1_000_000_000

-- 2 ^ 63 and 2 ^ 64.
abbrev pub int64_half : ℕ
int64_half = 9_223_372_036_854_775_808

abbrev pub int64_mod : ℕ
int64_mod = 18_446_744_073_709_551_616

-- `t.IsZero()`
abbrev pub is_zero : Time → Bool
is_zero t = t == 0

-- `t.Sub(u)`: Go returns the largest or the smallest duration where the difference does not fit.
unfoldable pub sub_time : Time → Time → Duration
sub_time t u =
    if leb u t
    then if ltb (t - u) int64_half then pos (t - u) else pos (int64_half - 1)
    else if leb (u - t) int64_half
    then negsuc (u - t - 1)
    else negsuc (int64_half - 1)

-- The int64 with the same value modulo 2 ^ 64.
unfoldable pub wrap64 : ℤ → ℤ
wrap64 (pos n) =
    if ltb (n % int64_mod) int64_half
    then pos (n % int64_mod)
    else negsuc (int64_mod - n % int64_mod - 1)
wrap64 (negsuc n) =
    if ltb (n % int64_mod) int64_half
    then negsuc (n % int64_mod)
    else pos (int64_mod - n % int64_mod - 1)

-- `a + b` on durations.
unfoldable pub add_duration : Duration → Duration → Duration
add_duration a b = wrap64 (a +ℤ b)

-- `a / n` for a positive count `n`: Go's division of integers stops at zero from both sides.
unfoldable pub div_duration : Duration → ℕ → Duration
div_duration (pos a) n = pos (a / n)
div_duration (negsuc a) n = sub_ℕ 0 (suc a / n)

-- `t.Unix()` is the number of whole seconds since 1970, which is 62135596800 seconds after the zero
-- time: `unix_nonneg` is the test `t.Unix() >= 0`, and `unix` is `uint64(t.Unix())`.
abbrev pub unix_epoch : ℕ
unix_epoch = 62_135_596_800

unfoldable pub unix_nonneg : Time → Bool
unix_nonneg t = leb unix_epoch (t / second)

unfoldable pub unix : Time → ℕ
unix t = (t / second + int64_mod - unix_epoch) % int64_mod
