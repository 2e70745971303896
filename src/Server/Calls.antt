-- ===== src/Server/Calls.antt =====
-- The calls that reach the dispatcher of cloudlus/server.go: `Start`, `Run`, `Get` and `ResetQueue` of
-- cloudlus/server.go and the methods of `RPC` in cloudlus/server_rpc.go.
--
-- A call makes a reply channel, sends a request, and reads the first value that comes back. The
-- number of the channel is an argument; it is new if nothing was sent on it. `Start` stores the job
-- before it sends its request, and here no other request comes between the two.
pub mod Replies
pub mod Runs
use cloudlus.Base.{ℕ, Bool, true, false, Option, none, some, List, [], ◌∷◌, ◌==◌, if◌then◌else◌}
use cloudlus.Time.{Time}
use cloudlus.Job.{Job, JobId, WorkerId, queued}
use cloudlus.Store.{JobStore}
use cloudlus.Server.{Server, Beat, Message, job_to, closed, kill_to}
use cloudlus.Server.Dispatch.{
  Event, reset, submit, retrieve, push, fetch, beat, Outcome, next, stopped, panicked, round,
  dispatcher,
}

-- Whether a message was sent on a channel.
unfoldable pub sent_on : ℕ → Message → Bool
sent_on ch (job_to c j) = ch == c
sent_on ch (closed c) = ch == c
sent_on ch (kill_to c b) = ch == c

-- The first message on a channel: the last of the list that is on it.
unfoldable pub first_reply : ℕ → List Message → Option Message
unfolding sent_on
first_reply ch [] = none
first_reply ch (m ∷ ms) = elim (first_reply ch ms) [
  | some r ↦ some r
  | none ↦ if sent_on ch m then some m else none
]

-- What a receiver of jobs gets: nil also stands for a closed channel.
unfoldable pub reply_job : Option Message → Option Job
reply_job none = none
reply_job (some (job_to c j)) = j
reply_job (some (closed c)) = none
reply_job (some (kill_to c b)) = none

-- What one who waits for a job has got.
unfoldable pub waited_job : Option Message → Option (Option Job)
unfolding reply_job
waited_job none = none
waited_job (some m) = some (reply_job (some m))

unfoldable pub reply_kill : Option Message → Bool
reply_kill none = false
reply_kill (some (job_to c j)) = false
reply_kill (some (closed c)) = false
reply_kill (some (kill_to c b)) = b

-- What a call returns, when the dispatcher goes on.
unfoldable pub answer :
    {D A : Type 0} → (List Message → A) → Outcome (Server D) → Option (Server D × A)
answer f (next s) = some (s, f s.sent)
answer f (stopped s) = none
answer f panicked = none

-- The fields that `Start` sets.
unfoldable pub submitted_job : Time → Job → Job
submitted_job now j = record j { status = queued; submitted = now }

module _ (store : JobStore) where
  open store use {Db, put}

  -- `Start`
  unfoldable pub start : Time → Job → ℕ → Server Db → Outcome (Server Db)
  unfolding round submitted_job
  start now j ch s =
      let j' = submitted_job now j in
      round store (submit j' (some ch)) (record s { alljobs = put j' s.alljobs })

  -- `Get`, and `RPC.Retrieve`: `none` is the error "unknown job id".
  unfoldable pub get_call : JobId → ℕ → Server Db → Option (Server Db × Option Job)
  unfolding round answer
  get_call i ch s = answer (λ ms. reply_job (first_reply ch ms)) (round store (retrieve i ch) s)

  -- `ResetQueue`
  unfoldable pub reset_call : Server Db → Outcome (Server Db)
  unfolding round
  reset_call s = round store reset s

  -- `RPC.Heartbeat`: the time and the channel are the server's, and the result is the kill flag.
  unfoldable pub heartbeat_call : Time → Time → Beat → ℕ → Server Db → Option (Server Db × Bool)
  unfolding round answer
  heartbeat_call received now b ch s =
      answer (λ ms. reply_kill (first_reply ch ms))
        (round store (beat now (record b { time = received; kill = ch })) s)

  -- `RPC.Fetch`: `none` is the error "no jobs available to run".
  unfoldable pub fetch_call :
      WorkerId → ℕ → Time → Time → Server Db → Option (Server Db × Option Job)
  unfolding round answer
  fetch_call w ch beat_at fetched_at s =
      answer (λ ms. reply_job (first_reply ch ms)) (round store (fetch w ch beat_at fetched_at) s)

  -- `RPC.Push`
  unfoldable pub push_call : Job → Server Db → Outcome (Server Db)
  unfolding round
  push_call j s = round store (push j) s

  -- `RPC.SubmitAsync`: nothing reads the channel of `Start`.
  unfoldable pub submit_async : Time → Job → ℕ → Server Db → Outcome (Server Db)
  unfolding start
  submit_async now j ch s = start now j ch s

  -- `Run`, when the requests that follow are `es`: the server then, and what the caller got; `none`
  -- is a caller that still waits.
  unfoldable pub run_call :
      Time → Job → ℕ → List Event → Server Db → Option (Server Db × Option (Option Job))
  unfolding start dispatcher
  run_call now j ch es s = elim (start now j ch s) [
    | stopped s' ↦ none
    | panicked ↦ none
    | next s' ↦ answer (λ ms. waited_job (first_reply ch ms)) (dispatcher store es s')
  ]

  -- `RPC.Submit`: no job is the error "unknown job id".
  unfoldable pub submit_call :
      Time → Job → ℕ → List Event → Server Db → Option (Server Db × Option (Option Job))
  unfolding run_call
  submit_call now j ch es s = run_call now j ch es s
