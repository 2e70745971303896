-- ===== src/Server/Pending/Kept.antt =====
-- The whole loop of the dispatcher of cloudlus/server.go loses no job.
use cloudlus.Base.{
  ◌≡◌, refl, Bool, true, false, not, ◌&&◌, inl, inr, some, List, [], ◌∷◌, ◌==◌, ==_iff, All, lookup,
  arith, Bool-cases, Option-cases,
}
use cloudlus.Time.{Time}
use cloudlus.Job.{Job, JobId, failed}
use cloudlus.Store.{JobStore}
use cloudlus.Server.{Server, Beat}
use cloudlus.Server.Beats.{in_queue, is_overdue, check_timeout, heartbeat}
use cloudlus.Server.Dispatch.{
  Event, tick, reset, kill, submit, retrieve, push, fetch, beat, Outcome, next, stopped, panicked,
  refresh, reset_queue, select, round, dispatcher,
}
use cloudlus.Server.Queue.{AllQueued}
use cloudlus.Server.Invariant.{IsSound}
use cloudlus.Server.Invariant.Requests.{IsLegal, finish_all_keys}
use cloudlus.Server.Invariant.Rounds.{OutcomeSound, refresh-IsSound, round-IsSound}
use cloudlus.Server.Requeue.{label_of}
use cloudlus.Server.Pending.{
  is_pending, is_owner, is_late, may_end, OutcomePending, ends, finish_job-is_pending, tick_pending,
  accept_pending, receive_pending, serve_pending,
}

module _ (store : JobStore) where
  open store use {Db}

  reset_pending :
      (i : JobId) (s : Server Db)
      → in_queue i s.queue ≡ false
      → is_pending i s ≡ true
      → is_pending i (reset_queue store s) ≡ true
  unfolding reset_queue is_pending in_queue
  reset_pending i s n p = ground (arith, finish_all_keys store i s.queue s)

  check_timeout_pending :
      (now : Time) (i : JobId) (b : Beat) (j : Job) (s : Server Db)
      → AllQueued s.queue
      → (is_overdue now j && j.id == i) ≡ false
      → is_pending i s ≡ true
      → is_pending i (check_timeout store now b j s) ≡ true
  unfolding check_timeout is_pending
  check_timeout_pending now i b j s h n p = elim (Bool-cases (is_overdue now j)) [
    | inl late ↦
        rw late
          (rw (finish_job-is_pending store i (record j { status = failed }) s h (rw late at n)) p)
    | inr fine ↦ rw fine p
  ]

  -- A late job is ended only by a heartbeat that may end it.
  late_end :
      (now : Time) (i : JobId) (b old : Beat) (j : Job) (s : Server Db)
      → lookup b.job_id s.jobinfo ≡ some old
      → lookup b.job_id s.running ≡ some j
      → j.id ≡ b.job_id
      → not (old.worker_id == b.worker_id) ≡ false
      → may_end i (beat now b) s ≡ false
      → (is_overdue now j && j.id == i) ≡ false
  unfolding may_end is_owner is_late
  late_end now i b old j s e r name same n = elim (Bool-cases (b.job_id == i)) [
    | inl mine ↦ let k = (==_iff b.job_id i).0 mine in let n' = rw (← k, e, r) at n in ground arith
    | inr other ↦ rw name (ground arith)
  ]

  heartbeat_pending :
      (now : Time) (i : JobId) (b : Beat) (s : Server Db)
      → IsSound s
      → may_end i (beat now b) s ≡ false
      → is_pending i s ≡ true
      → is_pending i (heartbeat store now b s) ≡ true
  unfolding heartbeat is_pending
  heartbeat_pending now i b s v n p = elim (Option-cases (lookup b.job_id s.jobinfo)) [
    | inl e ↦ rw (e, heartbeat) p
    | inr (old, e) ↦ elim (Bool-cases (not (old.worker_id == b.worker_id))) [
      | inl moved ↦ rw (e, heartbeat, moved) p
      | inr same ↦ elim (Option-cases (lookup b.job_id s.running)) [
        | inl r ↦ rw (e, heartbeat, same, r) p
        | inr (j, r) ↦
            rw (e, heartbeat, same, r)
              (check_timeout_pending now i b j _ v.all_queued
                (late_end now i b old j s e r (label_of store b.job_id j s v r).0 same n) p)
      ]
    ]
  ]

  select_pending :
      (e : Event) (i : JobId) (s : Server Db)
      → IsSound s
      → may_end i e s ≡ false
      → is_pending i s ≡ true
      → OutcomePending i (select store e s)
  unfolding select may_end is_pending
  select_pending (tick now ks ws) i s v n p = tick_pending store now i ks ws s (v, p)
  select_pending reset i s v n p = reset_pending i s n p
  select_pending kill i s v n p = p
  select_pending (submit j ch) i s v n p = accept_pending store i j ch s p
  select_pending (retrieve k ch) i s v n p = p
  select_pending (push j) i s v n p = receive_pending store i j s v.all_queued n p
  select_pending (fetch w ch t u) i s v n p = serve_pending store i w ch t u s p
  select_pending (beat now b) i s v n p = heartbeat_pending now i b s v n p

  -- The statistics play no part.
  may_end-refresh :
      (e : Event) (i : JobId) (s : Server Db) → may_end i e (refresh store s) ≡ may_end i e s
  unfolding may_end refresh
  may_end-refresh (tick now ks ws) i s = refl
  may_end-refresh reset i s = refl
  may_end-refresh kill i s = refl
  may_end-refresh (submit j ch) i s = refl
  may_end-refresh (retrieve k ch) i s = refl
  may_end-refresh (push j) i s = refl
  may_end-refresh (fetch w ch t u) i s = refl
  may_end-refresh (beat now b) i s = refl

  round_pending :
      (e : Event) (i : JobId) (s : Server Db)
      → IsSound s
      → may_end i e s ≡ false
      → is_pending i s ≡ true
      → OutcomePending i (round store e s)
  unfolding round refresh is_pending
  round_pending e i s v n p =
      select_pending e i (refresh store s) (refresh-IsSound store s v)
        (rw (may_end-refresh e i s) n) p

  -- The rest of the loop, after a round.
  loop_pending :
      (i : JobId) (es : List Event) (o : Outcome (Server Db))
      → OutcomeSound o
      → OutcomePending i o
      → (elim o as (λ x. Bool) [
        | next s' ↦ ends store i es s'
        | stopped s' ↦ false
        | panicked ↦ false
      ])
        ≡ false
      → ((t : Server Db)
          → IsSound t
          → is_pending i t ≡ true
          → ends store i es t ≡ false
          → OutcomePending i (dispatcher store es t))
      → OutcomePending i (elim o as (λ x. Outcome (Server Db)) [
        | next s' ↦ dispatcher store es s'
        | stopped s' ↦ stopped s'
        | panicked ↦ panicked
      ])
  loop_pending i es (next t) v p n k = k t v p n
  loop_pending i es (stopped t) v p n k = p
  loop_pending i es panicked v p n k = p

  -- A job that runs or is queued in a sound server stays so, whatever legal requests come, as long
  -- as none of them is a push of this job, a reset while it is queued, or a heartbeat of its own
  -- worker when its timeout is over. The loop does not panic.
  pub dispatcher_pending :
      (es : List Event) (i : JobId) (s : Server Db)
      → IsSound s
      → All IsLegal es
      → is_pending i s ≡ true
      → ends store i es s ≡ false
      → OutcomePending i (dispatcher store es s)
  unfolding dispatcher ends
  dispatcher_pending [] i s v l p n = p
  dispatcher_pending (e ∷ es) i s v l p n =
      loop_pending i es (round store e s) (round-IsSound store e s l.0 v)
        (round_pending e i s v (ground arith) p) (ground arith)
        λ t v' p' n'. dispatcher_pending es i t v' l.1 p' n'
