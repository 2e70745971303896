-- ===== src/Server/Beats.antt =====
-- `checkbeat` of cloudlus/server.go, and the handling of one heartbeat.
--
-- Go visits the entries of a map in an order that it does not fix: each loop takes the order as a
-- list of keys. The visit of a key that the map does not hold (any more) does nothing.
use cloudlus.Base.{
  ℕ, ◌+◌, Bool, true, false, not, ◌&&◌, Option, none, some, List, [], ◌∷◌, ◌==◌, if◌then◌else◌,
  lookup, insert, remove,
}
use cloudlus.Base.Int.{pos, ltb_ℤ}
use cloudlus.Time.{Time, sub_time, is_zero}
use cloudlus.Job.{Job, JobId, queued, failed}
use cloudlus.Store.{JobStore}
use cloudlus.Server.{Server, Beat, kill_to, beat_limit}
use cloudlus.Server.Finish.{notify, finish_job}

-- The loop over the queue.
unfoldable pub in_queue : JobId → List Job → Bool
in_queue i [] = false
in_queue i (j ∷ js) = if i == j.id then true else in_queue i js

-- Whether the job has run for longer than its timeout.
unfoldable pub is_overdue : Time → Job → Bool
is_overdue now j =
    ltb_ℤ j.timeout (sub_time now j.fetched) && ltb_ℤ (pos 0) j.timeout && not (is_zero j.fetched)

module _ (store : JobStore) where
  open store use {Db, put, get}

  -- The worker of job `i` has stopped responding.
  unfoldable pub requeue : JobId → Job → Server Db → Server Db
  requeue i j s =
      let j' = record j { status = queued } in
      record s {
        jobinfo = remove i s.jobinfo;
        running = remove i s.running;
        stats = record (s.stats) { nrequeued = s.stats.nrequeued + 1 };
        queue = j' ∷ s.queue;
        alljobs = put j' s.alljobs;
      }

  -- The body of the first loop. `none` is the panic "lists are out of sync".
  unfoldable pub check_one : Time → JobId → Server Db → Option (Server Db)
  unfolding requeue
  check_one now i s = elim (lookup i s.jobinfo) [
    | none ↦ some s
    | some b ↦
        if ltb_ℤ beat_limit (sub_time now b.time)
        then elim (lookup i s.running) [ none ↦ none | some j ↦ some (requeue i j s) ]
        else some s
  ]

  unfoldable pub check_beats : Time → List JobId → Server Db → Option (Server Db)
  check_beats now [] s = some s
  check_beats now (i ∷ is) s = elim (check_one now i s) [
    | none ↦ none
    | some s' ↦ check_beats now is s'
  ]

  -- The connection of a client that waits for a job which is neither running nor queued.
  unfoldable pub drop_waiter : JobId → ℕ → Server Db → Server Db
  unfolding notify
  drop_waiter i ch s = record s {
    stats = record (s.stats) { nfailed = s.stats.nfailed + 1 };
    sent = notify (some ch) (get i s.alljobs) s.sent;
    submitchans = remove i s.submitchans;
  }

  -- The body of the second loop.
  unfoldable pub check_waiter : JobId → Server Db → Server Db
  unfolding drop_waiter
  check_waiter i s = elim (lookup i s.submitchans) [
    | none ↦ s
    | some ch ↦ elim (lookup i s.jobinfo) [
      | some b ↦ s
      | none ↦ if in_queue i s.queue then s else drop_waiter i ch s
    ]
  ]

  unfoldable pub check_waiters : List JobId → Server Db → Server Db
  check_waiters [] s = s
  check_waiters (i ∷ is) s = check_waiters is (check_waiter i s)

  unfoldable pub checkbeat : Time → List JobId → List JobId → Server Db → Option (Server Db)
  checkbeat now running_order waiting_order s = elim (check_beats now running_order s) [
    | none ↦ none
    | some s' ↦ some (check_waiters waiting_order s')
  ]

  abbrev reply_kill : ℕ → Bool → Server Db → Server Db
  reply_kill ch dokill s = record s { sent = kill_to ch dokill ∷ s.sent }

  -- The last `if` of the case: a job that timed out is finished, and two values are sent.
  unfoldable pub check_timeout : Time → Beat → Job → Server Db → Server Db
  unfolding is_overdue
  check_timeout now b j s =
      if is_overdue now j
      then reply_kill b.kill false
          (reply_kill b.kill true (finish_job store (record j { status = failed }) s))
      else reply_kill b.kill false s

  unfoldable pub heartbeat : Time → Beat → Server Db → Server Db
  unfolding check_timeout
  heartbeat now b s = elim (lookup b.job_id s.jobinfo) [
    | none ↦ reply_kill b.kill true s
    | some old ↦
        if not (old.worker_id == b.worker_id)
        then reply_kill b.kill true s
        else (let s' = record s { jobinfo = insert b.job_id b s.jobinfo } in
            elim (lookup b.job_id s'.running) [
              | none ↦ reply_kill b.kill true s'
              | some j ↦ check_timeout now b j s'
            ])
  ]
