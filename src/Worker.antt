-- ===== src/Worker.antt =====
-- `Worker` of cloudlus/worker.go.
--
-- The client, whose calls go over the network, and the clock are the record `Trip`: what each call
-- of one `dojob` returned. `Execute` is that of Job.Execute. The file cache is an association list;
-- Go visits it in an order that it does not fix, here the order of the list. The heartbeats that run
-- beside the job decide what `Execute` sees on its kill channel, and are part of its environment.
pub mod Pushes
use cloudlus.Base.{
  ℕ, ◌*◌, ◌==◌, ◌++◌, Bool, true, false, not, ◌&&◌, Option, none, some, List, [], ◌∷◌,
  if◌then◌else◌, join,
}
use cloudlus.Base.Int.{pos, pos_part, neg_part, ltb_ℤ}
use cloudlus.Time.{Time, Duration, second, sub_time}
use cloudlus.Job.{File, Job, WorkerId, failed, add_infile, add_whitelist}
use cloudlus.Job.Execute.{Env, Outcome, hung, ended, execute}
use text.Mathlib.Text.{◌==◌ as str_eq}
use Prim.Native.String.{String}

-- The files that a worker keeps, by name.
abbrev pub Cache : Type 0
Cache = List (String × List ℕ)

pub record Worker : Type 0 where
  pub id : WorkerId
  pub job_timeout : Duration
  pub file_cache : Cache
  pub wait : Duration
  pub whitelist : List String
  pub lastjob : Time
  pub max_idle : Duration

-- The result of `client.Fetch`. `no_job` is an error that equals `nojoberr`.
pub data Fetched : Type 0 where
  no_job : Fetched
  fetch_error : String → Fetched
  fetched : Job → Fetched

pub record Trip : Type 0 where
  pub dial_error : Option String
  pub fetch : Fetched
  pub env : Env
  pub outfile_error : Option String
  pub push_error : Option String
  pub pushed_at : Time
  -- When `Run` looks at the clock after this trip.
  pub checked_at : Time

-- One `dojob`: the worker afterwards, whether to wait, the error, and the job it pushed.
pub record Report : Type 0 where
  pub worker : Worker
  pub wait : Bool
  pub error : Option String
  pub pushed : Option Job

-- `w.FileCache[name] = data`
unfoldable pub cache_file : String → List ℕ → Cache → Cache
cache_file name contents [] = (name, contents) ∷ []
cache_file name contents ((n, d) ∷ c) =
    let rest = cache_file name contents c in
    if str_eq name n then (name, contents) ∷ c else (n, d) ∷ rest

-- The loop that adds the cached files to the job, and the one that caches files of the job.
unfoldable pub add_cached : Cache → Job → Job
add_cached [] j = j
add_cached ((n, d) ∷ c) j = add_cached c (add_infile j n d)

unfoldable pub cache_new : List File → Cache → Cache
unfolding cache_file
cache_new [] c = c
cache_new (f ∷ fs) c =
    if f.cache then cache_new fs (cache_file f.name f.contents c) else cache_new fs c

-- The job as the worker executes it.
unfoldable pub prepare : Worker → Job → Job
unfolding add_cached
prepare w j =
    let j' = if ltb_ℤ (pos 0) w.job_timeout then record j { timeout = w.job_timeout } else j in
    add_cached w.file_cache (add_whitelist j' w.whitelist)

-- What the deferred function makes of a job if there is an error.
unfoldable pub mark_error : Option String → Job → Job
mark_error none j = j
mark_error (some m) j = record j {
  status = failed;
  stderr = join j.stderr (join "\n" (join m "\n"));
}

-- The first of two errors.
unfoldable pub first_error : Option String → Option String → Option String
first_error (some m) e = some m
first_error none e = e

-- The job after `Execute` and `PushOutfile`. The fields are set only if the output was sent.
unfoldable pub finish : Worker → Option String → Job → Job
unfolding mark_error
finish w none j = record j { worker_id = w.id; infiles = [] }
finish w (some m) j = mark_error (some m) j

-- The report on a job that was executed as `j` and left as `k`.
unfoldable pub report : Worker → Trip → Job → Job → Report
unfolding cache_new finish first_error
report w t j k = record {
  worker = record w { file_cache = cache_new j.infiles w.file_cache; lastjob = t.pushed_at };
  wait = false;
  error = first_error t.outfile_error t.push_error;
  pushed = some (finish w t.outfile_error k);
}

-- `none`: the call does not return, since `Execute` does not.
unfoldable pub run_job : Worker → Trip → Job → Option Report
unfolding prepare report
run_job w t j = elim (execute t.env (prepare w j)) [
  | hung b ↦ none
  | ended k b ↦ some (report w t (prepare w j) k)
]

unfoldable pub dojob : Worker → Trip → Option Report
unfolding run_job
dojob w t = elim t.dial_error [
  | some m ↦ some (record { worker = w; wait = true; error = some m; pushed = none })
  | none ↦ elim t.fetch [
    | no_job ↦ some (record { worker = w; wait = false; error = none; pushed = none })
    | fetch_error m ↦ some (record { worker = w; wait = true; error = some m; pushed = none })
    | fetched j ↦ run_job w t j
  ]
]

-- How far `Run` gets with a sequence of trips.
pub data Shift : Type 0 where
  working : Worker → List Job → Shift
  idle : Worker → List Job → Shift
  stuck : List Job → Shift

unfoldable pub is_idle : Time → Worker → Bool
is_idle now w = ltb_ℤ (pos 0) w.max_idle && ltb_ℤ w.max_idle (sub_time now w.lastjob)

-- The jobs that were pushed, the last one first.
unfoldable pub add_pushed : Option Job → List Job → List Job
add_pushed none js = js
add_pushed (some j) js = j ∷ js

-- The loop of `Run`.
unfoldable pub run_loop : List Trip → Worker → List Job → Shift
unfolding dojob is_idle add_pushed
run_loop [] w js = working w js
run_loop (t ∷ ts) w js = elim (dojob w t) [
  | none ↦ stuck js
  | some r ↦ elim (is_idle t.checked_at r.worker) [
    | true ↦ idle r.worker (add_pushed r.pushed js)
    | false ↦ run_loop ts r.worker (add_pushed r.pushed js)
  ]
]

-- What `Run` sets before its loop: a wait of zero becomes ten seconds, and the cache is empty.
unfoldable pub ready : WorkerId → Time → Worker → Worker
ready id now w = record w {
  id = id;
  lastjob = now;
  file_cache = [];
  wait = if pos_part w.wait == neg_part w.wait then pos (10 * second) else w.wait;
}

-- `Run`
unfoldable pub run : WorkerId → Time → List Trip → Worker → Shift
unfolding run_loop ready
run id now ts w = run_loop ts (ready id now w) []
