-- ===== src/Server/Times.antt =====
-- The job times in the statistics of cloudlus/server.go, over the jobs that were completed.
use Prim.Native.Nat.{min, max}
use native.Mathlib.Nat.{mul-le-mul_right, add-zero, add_assoc}
use cloudlus.Base.{ℕ, suc, ◌+◌, ◌-◌, ◌*◌, ◌/◌, ◌≤◌, ◌<◌, ◌≡◌, List, [], ◌∷◌, All, length, arith}
use cloudlus.Base.Int.{ℤ, pos, pos_part, ◌≤ℤ◌}
use cloudlus.Time.{int64_half, sub_time, div_duration}
use cloudlus.Time.Laws.{sub_time-pos, add_duration-pos}
use cloudlus.Job.{Job, complete}
use cloudlus.Server.{Stats, no_stats}
use cloudlus.Server.Finish.{min_time, max_time, count_complete, count_finished}

-- A completed job that took some time.
abbrev pub IsTimed : Job → Type 0
IsTimed j = (j.status ≡ complete) × (j.started < j.finished)

abbrev pub job_time : Job → ℕ
job_time j = j.finished - j.started

unfoldable pub total_time : List Job → ℕ
total_time [] = 0
total_time (j ∷ js) = job_time j + total_time js

-- The statistics after the jobs of a list are finished one after the other.
unfoldable pub count_all : List Job → Stats → Stats
count_all [] st = st
count_all (j ∷ js) st = count_all js (count_finished j st)

-- What the fields say of `n` jobs that took `t` together, the shortest `lo` and the longest `hi`.
record Summary (n t lo hi : ℕ) (st : Stats) : Type 0 where
  count : st.ncompleted ≡ n
  total : st.tot_job_time ≡ pos t
  average : st.avg_job_time ≡ pos (t / n)
  least : st.min_job_time ≡ pos lo
  most : st.max_job_time ≡ pos hi
  some_job : 0 < n
  some_time : 0 < lo
  above : lo * n ≤ t
  below : t ≤ hi * n

min_time-first : (d : ℕ) → min_time (pos 0) (pos d) ≡ pos d
unfolding min_time
min_time-first d = ground arith

max_time-first : (d : ℕ) → max_time (pos 0) (pos d) ≡ pos d
unfolding max_time
max_time-first d = ground arith

min_time-next : (m d : ℕ) → 0 < m → min_time (pos m) (pos d) ≡ pos (min m d)
unfolding min_time
min_time-next m d h = ground arith

max_time-next : (m d : ℕ) → 0 < m → max_time (pos m) (pos d) ≡ pos (max m d)
unfolding max_time
max_time-next m d h = ground arith

min_bound : (m n t d : ℕ) → m * n ≤ t → min m d * (n + 1) ≤ t + d
min_bound m n t d h = let a : min m d * n ≤ m * n = mul-le-mul_right n (omega arith) in omega arith

max_bound : (m n t d : ℕ) → t ≤ m * n → t + d ≤ max m d * (n + 1)
max_bound m n t d h = let a : m * n ≤ max m d * n = mul-le-mul_right n (omega arith) in omega arith

quotient_bounds : (lo hi n t : ℕ) → 0 < n → lo * n ≤ t → t ≤ hi * n → (lo ≤ t / n) × (t / n ≤ hi)
quotient_bounds lo hi n t h a b = (grind arith, grind arith)

job_time-positive :
    (j : Job)
    → IsTimed j
    → job_time j < int64_half
    → (sub_time j.finished j.started ≡ pos (job_time j)) × (0 < job_time j)
job_time-positive j h k = (sub_time-pos j.finished j.started (omega arith) k, omega arith)

-- The first completed job.
first-Summary :
    (j : Job)
    → IsTimed j
    → job_time j < int64_half
    → Summary 1 (job_time j) (job_time j) (job_time j) (count_finished j no_stats)
unfolding count_finished count_complete div_duration
first-Summary j h k =
    let (d, p) = job_time-positive j h k in
    ground (
      arith,
      add_duration-pos 0 (job_time j),
      min_time-first (job_time j),
      max_time-first (job_time j),
    )

next-Summary :
    (j : Job) (n t lo hi : ℕ) (st : Stats)
    → Summary n t lo hi st
    → IsTimed j
    → t + job_time j < int64_half
    → Summary
        (n + 1)
        (t + job_time j)
        (min lo (job_time j))
        (max hi (job_time j))
        (count_finished j st)
unfolding count_finished count_complete div_duration
next-Summary j n t lo hi st v h k =
    let (d, p) = job_time-positive j h (omega arith) in
    let w : 0 < hi = grind arith in
    ground (
      arith,
      add_duration-pos t (job_time j) k,
      min_time-next lo (job_time j),
      max_time-next hi (job_time j),
      min_bound lo n t (job_time j),
      max_bound hi n t (job_time j),
    )

add-one_suc : (n m : ℕ) → n + 1 + m ≡ n + suc m
add-one_suc n m = omega arith

-- The shortest and the longest of a start and the jobs of a list.
shortest : ℕ → List Job → ℕ
shortest lo [] = lo
shortest lo (j ∷ js) = shortest (min lo (job_time j)) js

longest : ℕ → List Job → ℕ
longest hi [] = hi
longest hi (j ∷ js) = longest (max hi (job_time j)) js

shortest-le : (lo : ℕ) (js : List Job) → shortest lo js ≤ lo
unfolding shortest
shortest-le lo [] = omega arith
shortest-le lo (j ∷ js) = omega (arith, shortest-le (min lo (job_time j)) js)

le-longest : (hi : ℕ) (js : List Job) → hi ≤ longest hi js
unfolding longest
le-longest hi [] = omega arith
le-longest hi (j ∷ js) = omega (arith, le-longest (max hi (job_time j)) js)

-- Every job of the list lies between two numbers.
abbrev pub AllBetween : ℕ → ℕ → List Job → Type 0
AllBetween lo hi = All λ j. (lo ≤ job_time j) × (job_time j ≤ hi)

AllBetween-of_pos :
    (lo hi : ℕ) (x y : ℤ) (js : List Job)
    → x ≡ pos lo
    → y ≡ pos hi
    → AllBetween lo hi js
    → AllBetween (pos_part x) (pos_part y) js
AllBetween-of_pos lo hi x y [] p q h = tt
AllBetween-of_pos lo hi x y (j ∷ js) p q h =
    ((ground arith, ground arith), AllBetween-of_pos lo hi x y js p q h.1)

all_between : (lo hi : ℕ) (js : List Job) → AllBetween (shortest lo js) (longest hi js) js
unfolding shortest longest
all_between lo hi [] = tt
all_between lo hi (j ∷ js) = (
  (
    omega (arith, shortest-le (min lo (job_time j)) js),
    omega (arith, le-longest (max hi (job_time j)) js),
  ),
  all_between (min lo (job_time j)) (max hi (job_time j)) js,
)

count_all-Summary :
    (js : List Job) (n t lo hi : ℕ) (st : Stats)
    → Summary n t lo hi st
    → All IsTimed js
    → t + total_time js < int64_half
    → Summary (n + length js) (t + total_time js) (shortest lo js) (longest hi js) (count_all js st)
unfolding count_all total_time shortest longest
count_all-Summary [] n t lo hi st v h k = rw (add-zero n, add-zero t) v
count_all-Summary (j ∷ js) n t lo hi st v h k =
    rw (← add-one_suc n (length js), ← add_assoc t (job_time j) (total_time js))
      (count_all-Summary js (n + 1) (t + job_time j) _ _ _
        (next-Summary j n t lo hi st v h.0 (omega arith)) h.1 (omega arith))

-- For completed jobs that each took some time, and together less than 2 ^ 63 nanoseconds, the
-- statistics count them all, their total is the sum of their times, the minimum is at most the
-- average and the average at most the maximum, and every job lies between the two.
pub times_ordered :
    (j : Job) (js : List Job)
    → All IsTimed (j ∷ js)
    → total_time (j ∷ js) < int64_half
    → let st = count_all (j ∷ js) no_stats in
      (st.ncompleted ≡ length (j ∷ js))
      × (st.tot_job_time ≡ pos (total_time (j ∷ js)))
      × (st.min_job_time ≤ℤ st.avg_job_time)
      × (st.avg_job_time ≤ℤ st.max_job_time)
      × AllBetween (pos_part st.min_job_time) (pos_part st.max_job_time) (j ∷ js)
unfolding count_all total_time
times_ordered j js h k =
    let v =
      count_all-Summary js 1 (job_time j) (job_time j) (job_time j) (count_finished j no_stats)
        (first-Summary j h.0 (omega arith)) h.1 (omega arith) in
    let (a, b) =
      quotient_bounds (shortest (job_time j) js) (longest (job_time j) js) (1 + length js)
        (job_time j + total_time js) v.some_job v.above v.below in
    (
      omega (arith, v.count),
      v.total,
      rw (v.least, v.average) (omega arith),
      rw (v.average, v.most) (omega arith),
      AllBetween-of_pos _ _ _ _ (j ∷ js) v.least v.most (
        (shortest-le (job_time j) js, le-longest (job_time j) js),
        all_between (job_time j) (job_time j) js,
      ),
    )
