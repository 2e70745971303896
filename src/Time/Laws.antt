-- ===== src/Time/Laws.antt =====
-- Facts on durations that the server's proofs use.
use cloudlus.Base.{ℕ, ◌+◌, ◌-◌, ◌≤◌, ◌<◌, ◌≡◌, arith}
use cloudlus.Base.Int.{pos, ◌+ℤ◌}
use cloudlus.Time.{Time, int64_half, sub_time, wrap64, add_duration}

pub sub_time-pos : (t u : Time) → u ≤ t → t - u < int64_half → sub_time t u ≡ pos (t - u)
unfolding sub_time
sub_time-pos t u h k = ground arith

pub wrap64-pos : (n : ℕ) → n < int64_half → wrap64 (pos n) ≡ pos n
unfolding wrap64
wrap64-pos n h = ground arith

-- Durations that are not negative add up as numbers while the sum fits.
pub add_duration-pos : (a b : ℕ) → a + b < int64_half → add_duration (pos a) (pos b) ≡ pos (a + b)
unfolding add_duration ◌+ℤ◌
add_duration-pos a b h = ground (arith, wrap64-pos (a + b))
