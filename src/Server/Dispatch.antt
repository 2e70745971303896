-- ===== src/Server/Dispatch.antt =====
-- The `select` loop of `dispatcher` in cloudlus/server.go.
--
-- An event is what one round of the loop receives, with the times that `time.Now` returns in it.
use cloudlus.Base.{
  ℕ, ◌+◌, Option, none, some, List, [], ◌∷◌, ◌++◌, if◌then◌else◌, length, lookup, insert, join,
}
use cloudlus.Time.{Time}
use cloudlus.Job.{Job, JobId, WorkerId, Status, queued, running, complete, failed, other}
use cloudlus.Store.{JobStore}
use cloudlus.Server.{Server, Beat, new_beat, job_to, failures, is_banned, nbanned_workers}
use cloudlus.Server.Finish.{finish_job}
use cloudlus.Server.Beats.{checkbeat, heartbeat}

pub data Event : Type 0 where
  -- `beatcheck.C`, with the orders in which the two maps are visited.
  tick : Time → List JobId → List JobId → Event
  reset : Event
  kill : Event
  submit : Job → Option ℕ → Event
  retrieve : JobId → ℕ → Event
  push : Job → Event
  -- The worker, its channel, the time of the beat and the time of the fetch.
  fetch : WorkerId → ℕ → Time → Time → Event
  beat : Time → Beat → Event

pub data Outcome (S : Type 0) : Type 0 where
  next : S → Outcome S
  stopped : S → Outcome S
  panicked : Outcome S

-- The consecutive failures of a worker after it pushed a job with a status.
unfoldable pub count_push : WorkerId → Status → List (ℕ × ℕ) → List (ℕ × ℕ)
count_push w complete m = insert w 0 m
count_push w failed m = insert w (failures w m + 1) m
count_push w queued m = m
count_push w running m = m
count_push w (other t) m = m

unfoldable pub reset_job : Job → Job
reset_job j = record j { status = failed; stderr = join j.stderr "\nkilled by server reset\n" }

-- The job that is stored for a push: the input files come from the running job, if there is one.
unfoldable pub restore : Option Job → Job → Job
restore none j = j
restore (some jj) j = record j { infiles = jj.infiles }

-- The job that is handed to a worker.
unfoldable pub start_job : Time → Job → Job
start_job fetched_at j = record j { fetched = fetched_at; status = running }

module _ (store : JobStore) where
  open store use {Db, put, get}

  -- The statistics that are taken at the head of each round.
  unfoldable pub refresh : Server Db → Server Db
  refresh s = record s {
    stats = record (s.stats) {
      curr_queued = length s.queue;
      curr_running = length s.jobinfo;
      nbanned = nbanned_workers s.worker_failures;
    };
  }

  -- The loop over the queue as it was when the reset came.
  unfoldable pub finish_all : List Job → Server Db → Server Db
  unfolding reset_job
  finish_all [] s = s
  finish_all (j ∷ js) s = finish_all js (finish_job store (reset_job j) s)

  unfoldable pub reset_queue : Server Db → Server Db
  unfolding finish_all
  reset_queue s = record (finish_all s.queue s) { queue = [] }

  unfoldable pub accept : Job → Option ℕ → Server Db → Server Db
  accept j ch s =
      let s' = record s {
        queue = s.queue ++ j ∷ [];
        stats = record (s.stats) { nsubmitted = s.stats.nsubmitted + 1 };
      } in
      elim ch [ none ↦ s' | some c ↦ record s' { submitchans = insert j.id c s.submitchans } ]

  -- The job that a client gets: from the run list, else from the database, else nil.
  unfoldable pub find_job : JobId → Server Db → Option Job
  find_job i s = elim (lookup i s.running) [ some j ↦ some j | none ↦ get i s.alljobs ]

  unfoldable pub receive : Job → Server Db → Server Db
  unfolding count_push restore
  receive j s =
      let s' = record s { worker_failures = count_push j.worker_id j.status s.worker_failures } in
      finish_job store (restore (lookup j.id s.running) j) s'

  unfoldable pub hand_out : WorkerId → ℕ → Time → Time → Server Db → List Job → Server Db
  unfolding new_beat start_job
  hand_out w ch beat_at fetched_at s [] = record s { sent = job_to ch none ∷ s.sent }
  hand_out w ch beat_at fetched_at s (j ∷ js) =
      let j' = start_job fetched_at j in
      record s {
        queue = js;
        jobinfo = insert j.id (new_beat w j.id beat_at) s.jobinfo;
        running = insert j.id j' s.running;
        alljobs = put j' s.alljobs;
        sent = job_to ch (some j') ∷ s.sent;
      }

  unfoldable pub serve : WorkerId → ℕ → Time → Time → Server Db → Server Db
  unfolding hand_out
  serve w ch beat_at fetched_at s =
      if is_banned w s.worker_failures
      then record s { sent = job_to ch none ∷ s.sent }
      else hand_out w ch beat_at fetched_at s s.queue

  unfoldable pub select : Event → Server Db → Outcome (Server Db)
  select (tick now running_order waiting_order) s =
      elim (checkbeat store now running_order waiting_order s) [
        | none ↦ panicked
        | some s' ↦ next s'
      ]
  select reset s = next (reset_queue s)
  select kill s = stopped s
  select (submit j ch) s = next (accept j ch s)
  select (retrieve i ch) s = next (record s { sent = job_to ch (find_job i s) ∷ s.sent })
  select (push j) s = next (receive j s)
  select (fetch w ch beat_at fetched_at) s = next (serve w ch beat_at fetched_at s)
  select (beat now b) s = next (heartbeat store now b s)

  -- One round of the loop.
  unfoldable pub round : Event → Server Db → Outcome (Server Db)
  unfolding refresh select
  round e s = select e (refresh s)

  -- The loop, for the events that it receives.
  unfoldable pub dispatcher : List Event → Server Db → Outcome (Server Db)
  dispatcher [] s = next s
  dispatcher (e ∷ es) s = elim (round e s) [
    | next s' ↦ dispatcher es s'
    | stopped s' ↦ stopped s'
    | panicked ↦ panicked
  ]
