-- ===== src/Tests/Samples.antt =====
-- A job store in memory, and jobs and requests that the tests share.
use cloudlus.Base.{
  ℕ, ◌+◌, ◌*◌, ◌≡◌, ◌≢◌, Option, none, some, List, [], ◌∷◌, ◌==◌, if◌then◌else◌, arith,
}
use cloudlus.Time.{second}
use cloudlus.Job.{Job, JobId, IsId, queued, complete, new_job_cmd}
use cloudlus.Store.{JobStore, saved}
use cloudlus.Server.Dispatch.{Event, tick, reset, submit, push, fetch, beat}

abbrev pub MemoryDb : Type 0
MemoryDb = JobId → Option Job

abbrev pub memory_put : Job → MemoryDb → MemoryDb
memory_put j d i = if j.id == i then some (saved j) else d i

pub memory-get-put : (j : Job) (d : MemoryDb) → IsId j.id → memory_put j d j.id ≡ some (saved j)
memory-get-put j d p = ground arith

pub memory-get-put_ne :
    (j : Job) (i : JobId) (d : MemoryDb) → IsId j.id → IsId i → j.id ≢ i → memory_put j d i ≡ d i
memory-get-put_ne j i d p q h = ground arith

abbrev pub memory : JobStore
memory = record {
  Db = MemoryDb;
  put = memory_put;
  get = λ i d. d i;
  get-put = memory-get-put;
  get-put_ne = memory-get-put_ne;
}

abbrev pub empty_db : MemoryDb
empty_db i = none

-- A time in 1970 or later.
abbrev pub noon : ℕ
noon = 62_135_640_000 * second

unfoldable pub echo : ℕ → Job
unfolding new_job_cmd
echo i = record (new_job_cmd i "echo" ("1" ∷ [])) { status = queued }

abbrev pub two_jobs : List Event
two_jobs =
    submit (echo 1) (some 11)
    ∷ submit (echo 2) none
    ∷ fetch 7 21 noon noon
    ∷ beat (noon + second) (record { time = noon + second; worker_id = 7; job_id = 1; kill = 31 })
    ∷ tick (noon + 200 * second) (1 ∷ []) (1 ∷ [])
    ∷ push (record (echo 1) { status = complete; worker_id = 7 })
    ∷ reset
    ∷ []
