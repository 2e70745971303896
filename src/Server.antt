-- ===== src/Server.antt =====
-- cloudlus/server.go: the state of the server, and the messages and replies of its dispatcher.
--
-- `Server` has the fields that the dispatcher works on. A Go map is an association list with one
-- entry for a key. A job is a value: every job that a client submits or a worker pushes is decoded
-- into a `Job` of its own, so no two places of the server share one, but for the copy that a reply
-- hands out. A reply channel is a number, and `sent` lists what was sent on such channels, latest
-- first. The database is that of a `JobStore`. Counters are unbounded.
pub mod Finish
pub mod Beats
pub mod Dispatch
mod Queue
pub mod Invariant
pub mod Reset
pub mod Restart
pub mod Failures
pub mod Bans
pub mod Times
pub mod Requeue
pub mod Silence
pub mod Foreign
pub mod Owner
pub mod Order
pub mod Pending
pub mod Places
pub mod Late
pub mod Lifecycle
pub mod Calls
pub mod Rest
pub mod Outfiles
pub mod Routes
pub mod Dashboard
pub mod Collect
use cloudlus.Base.{
  ℕ, ◌+◌, ◌*◌, Bool, true, false, Option, none, some, List, [], ◌∷◌, Assoc, lookup, length, leb,
  if◌then◌else◌,
}
use cloudlus.Base.Int.{pos}
use cloudlus.Time.{Time, Duration, second}
use cloudlus.Job.{Job, JobId, WorkerId}

pub record Beat : Type 0 where
  pub time : Time
  pub worker_id : WorkerId
  pub job_id : JobId
  pub kill : ℕ

-- `NewBeat`, at the time `now`. Its kill channel is nil, the number 0, until `Heartbeat` of
-- cloudlus/server_rpc.go makes one.
unfoldable pub new_beat : WorkerId → JobId → Time → Beat
new_beat w j now = record { time = now; worker_id = w; job_id = j; kill = 0 }

pub record Stats : Type 0 where
  pub started : Time
  pub nbanned : ℕ
  pub nsubmitted : ℕ
  pub ncompleted : ℕ
  pub nfailed : ℕ
  pub npurged : ℕ
  pub nrequeued : ℕ
  pub curr_queued : ℕ
  pub curr_running : ℕ
  pub tot_job_time : Duration
  pub avg_job_time : Duration
  pub min_job_time : Duration
  pub max_job_time : Duration
  pub tot_cmd_time : Duration
  pub avg_cmd_time : Duration
  pub min_cmd_time : Duration
  pub max_cmd_time : Duration

-- What the dispatcher sends: a job or nil to a client or worker, the end of a result channel, or
-- the answer to a heartbeat.
pub data Message : Type 0 where
  job_to : ℕ → Option Job → Message
  closed : ℕ → Message
  kill_to : ℕ → Bool → Message

pub record Server (Db : Type 0) : Type 0 where
  pub queue : List Job
  pub submitchans : Assoc ℕ
  pub jobinfo : Assoc Beat
  pub running : Assoc Job
  pub worker_failures : Assoc ℕ
  pub stats : Stats
  pub alljobs : Db
  pub sent : List Message

-- `beatInterval`, `beatLimit` and `nfailban`.
abbrev pub beat_interval : Duration
beat_interval = pos (30 * second)

abbrev pub beat_limit : Duration
beat_limit = pos (3 * (30 * second))

abbrev pub nfailban : ℕ
nfailban = 4

abbrev pub no_stats : Stats
no_stats = record {
  started = 0;
  nbanned = 0;
  nsubmitted = 0;
  ncompleted = 0;
  nfailed = 0;
  npurged = 0;
  nrequeued = 0;
  curr_queued = 0;
  curr_running = 0;
  tot_job_time = pos 0;
  avg_job_time = pos 0;
  min_job_time = pos 0;
  max_job_time = pos 0;
  tot_cmd_time = pos 0;
  avg_cmd_time = pos 0;
  min_cmd_time = pos 0;
  max_cmd_time = pos 0;
}

-- A map read gives zero for a worker that is not in the map.
unfoldable pub failures : WorkerId → Assoc ℕ → ℕ
failures w m = elim (lookup w m) [ none ↦ 0 | some n ↦ n ]

unfoldable pub is_banned : WorkerId → Assoc ℕ → Bool
unfolding failures
is_banned w m = leb nfailban (failures w m)

-- `nBannedWorkers`
unfoldable pub nbanned_workers : Assoc ℕ → ℕ
nbanned_workers [] = 0
nbanned_workers ((w, n) ∷ m) = if leb nfailban n then nbanned_workers m + 1 else nbanned_workers m

-- `NewServer`: the queue is what the database lists as current.
unfoldable pub new_server : {D : Type 0} → D → List Job → Server D
new_server d current = record {
  queue = current;
  submitchans = [];
  jobinfo = [];
  running = [];
  worker_failures = [];
  stats = no_stats;
  alljobs = d;
  sent = [];
}
