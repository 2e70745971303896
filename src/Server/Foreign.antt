-- ===== src/Server/Foreign.antt =====
-- Workers that do not have a job, in the loop of cloudlus/server.go.
use cloudlus.Base.{
  ◌≡◌, ◌≢◌, inl, inr, false, not, Option, none, some, List, [], ◌∷◌, ◌==◌, ℕ, insert, lookup,
  lookup-insert, lookup-remove, All, arith, Bool-cases, Option-cases,
}
use cloudlus.Time.{Time}
use cloudlus.Job.{Job, JobId, WorkerId, failed}
use cloudlus.Store.{JobStore}
use cloudlus.Server.{Server, Beat, new_beat}
use cloudlus.Server.Finish.{finish_job}
use cloudlus.Server.Beats.{
  check_one, check_beats, check_waiter, check_waiters, checkbeat, requeue, drop_waiter,
  check_timeout, heartbeat,
}
use cloudlus.Server.Requeue.{OnSome, OnSome-chain, check_one_rule}
use cloudlus.Server.Dispatch.{
  Event, tick, reset, kill, submit, retrieve, push, fetch, beat, Outcome, next, stopped, panicked,
  finish_all, reset_queue, reset_job, accept, receive, hand_out, serve, select, refresh, round,
  dispatcher,
}

-- The entry of a job that has no worker, or a worker other than the one of a heartbeat.
abbrev pub IsForeign : Beat → Option Beat → Type 0
IsForeign c none = Unit
IsForeign c (some b) = c.worker_id ≢ b.worker_id

-- An event that is no request for work by a worker.
abbrev pub IsNoFetch : WorkerId → Event → Type 0
IsNoFetch w (fetch v ch beat_at fetched_at) = w ≢ v
IsNoFetch w e = Unit

abbrev pub OnNext : {S : Type 0} → (S → Type 0) → Outcome S → Type 0
OnNext P (next s) = P s
OnNext P o = Unit

OnNext-OnSome :
    {S : Type 0} (P : S → Type 0) (r : Option S)
    → OnSome P r
    → OnNext P (elim r as (λ x. Outcome S) [ none ↦ panicked | some s ↦ next s ])
OnNext-OnSome P none h = tt
OnNext-OnSome P (some s) h = h

OnNext-chain :
    {S : Type 0} (P : S → Type 0) (o : Outcome S) (f : S → Outcome S)
    → OnNext P o
    → ((s : S) → P s → OnNext P (f s))
    → OnNext P
        (elim o as (λ x. Outcome S) [ next s ↦ f s | stopped s ↦ stopped s | panicked ↦ panicked ])
OnNext-chain P (next s) f h k = k s h
OnNext-chain P (stopped s) f h k = tt
OnNext-chain P panicked f h k = tt

module _ (store : JobStore) (c : Beat) where
  open store use {Db}

  -- The worker of the heartbeat does not have its job.
  abbrev pub Lacks : Server Db → Type 0
  Lacks s = IsForeign c (lookup c.job_id s.jobinfo)

  pub finish_job-Lacks : (j : Job) (s : Server Db) → Lacks s → Lacks (finish_job store j s)
  unfolding finish_job
  finish_job-Lacks j s h = ground (arith, lookup-remove j.id c.job_id s.jobinfo)

  finish_all-Lacks : (js : List Job) (s : Server Db) → Lacks s → Lacks (finish_all store js s)
  unfolding finish_all
  finish_all-Lacks [] s h = h
  finish_all-Lacks (j ∷ js) s h = finish_all-Lacks js _ (finish_job-Lacks (reset_job j) s h)

  requeue-Lacks : (i : JobId) (j : Job) (s : Server Db) → Lacks s → Lacks (requeue store i j s)
  unfolding requeue
  requeue-Lacks i j s h = ground (arith, lookup-remove i c.job_id s.jobinfo)

  check_beats-Lacks :
      (now : Time) (is : List JobId) (s : Server Db)
      → Lacks s
      → OnSome Lacks (check_beats store now is s)
  unfolding check_beats
  check_beats-Lacks now [] s h = h
  check_beats-Lacks now (i ∷ is) s h =
      OnSome-chain Lacks Lacks (check_one store now i s) (check_beats store now is)
        (check_one_rule store Lacks now i s (λ b e a. h) (λ e. h)
          (λ b j e late r. requeue-Lacks i j s h))
        (check_beats-Lacks now is)

  check_waiter-Lacks : (i : JobId) (s : Server Db) → Lacks s → Lacks (check_waiter store i s)
  unfolding check_waiter drop_waiter
  check_waiter-Lacks i s h = ground arith

  check_waiters-Lacks :
      (is : List JobId) (s : Server Db) → Lacks s → Lacks (check_waiters store is s)
  unfolding check_waiters
  check_waiters-Lacks [] s h = h
  check_waiters-Lacks (i ∷ is) s h =
      check_waiters-Lacks is (check_waiter store i s) (check_waiter-Lacks i s h)

  checkbeat-Lacks :
      (now : Time) (is ws : List JobId) (s : Server Db)
      → Lacks s
      → OnSome Lacks (checkbeat store now is ws s)
  unfolding checkbeat
  checkbeat-Lacks now is ws s h =
      OnSome-chain Lacks Lacks (check_beats store now is s) (λ s. some (check_waiters store ws s))
        (check_beats-Lacks now is s h) (check_waiters-Lacks ws)

  hand_out-Lacks :
      (w : WorkerId) (ch : ℕ) (t u : Time) (s : Server Db) (js : List Job)
      → Lacks s
      → c.worker_id ≢ w
      → Lacks (hand_out store w ch t u s js)
  unfolding hand_out new_beat
  hand_out-Lacks w ch t u s [] h n = h
  hand_out-Lacks w ch t u s (j ∷ js) h n =
      ground (arith, lookup-insert j.id c.job_id (new_beat w j.id t) s.jobinfo)

  pub check_timeout-Lacks :
      (t : Time) (b : Beat) (j : Job) (s : Server Db)
      → Lacks s
      → Lacks (check_timeout store t b j s)
  unfolding check_timeout
  check_timeout-Lacks t b j s h =
      ground (arith, finish_job-Lacks (record j { status = failed }) s h)

  insert-Lacks :
      (b old : Beat) (s : Server Db)
      → Lacks s
      → lookup b.job_id s.jobinfo ≡ some old
      → not (old.worker_id == b.worker_id) ≡ false
      → Lacks (record s { jobinfo = insert b.job_id b s.jobinfo })
  insert-Lacks b old s h e n = ground (arith, h, e, n, lookup-insert b.job_id c.job_id b s.jobinfo)

  heartbeat-Lacks : (t : Time) (b : Beat) (s : Server Db) → Lacks s → Lacks (heartbeat store t b s)
  unfolding heartbeat
  heartbeat-Lacks t b s h = elim (Option-cases (lookup b.job_id s.jobinfo)) [
    | inl a ↦ rw (a, heartbeat) h
    | inr (old, a) ↦ elim (Bool-cases (not (old.worker_id == b.worker_id))) [
      | inl moved ↦ rw (a, heartbeat, moved) h
      | inr same ↦ elim (Option-cases (lookup b.job_id s.running)) [
        | inl r ↦ rw (a, heartbeat, same, r) (insert-Lacks b old s h a same)
        | inr (j, r) ↦
            rw (a, heartbeat, same, r) (check_timeout-Lacks t b j _ (insert-Lacks b old s h a same))
      ]
    ]
  ]

  select-Lacks :
      (e : Event) (s : Server Db)
      → Lacks s
      → IsNoFetch c.worker_id e
      → OnNext Lacks (select store e s)
  unfolding select reset_queue accept receive serve
  select-Lacks (tick now is ws) s h n =
      OnNext-OnSome Lacks (checkbeat store now is ws s) (checkbeat-Lacks now is ws s h)
  select-Lacks reset s h n = finish_all-Lacks s.queue s h
  select-Lacks kill s h n = tt
  select-Lacks (submit j none) s h n = h
  select-Lacks (submit j (some ch)) s h n = h
  select-Lacks (retrieve i ch) s h n = h
  select-Lacks (push j) s h n = finish_job-Lacks _ _ h
  select-Lacks (fetch w ch t u) s h n = ground (arith, hand_out-Lacks w ch t u s s.queue h n)
  select-Lacks (beat t b) s h n = heartbeat-Lacks t b s h

  -- A worker that does not have a job and does not fetch does not get it.
  pub dispatcher-Lacks :
      (es : List Event) (s : Server Db)
      → Lacks s
      → All (IsNoFetch c.worker_id) es
      → OnNext Lacks (dispatcher store es s)
  unfolding dispatcher round refresh
  dispatcher-Lacks [] s h n = h
  dispatcher-Lacks (e ∷ es) s h n =
      OnNext-chain Lacks (select store e (refresh store s)) (dispatcher store es)
        (select-Lacks e (refresh store s) h n.0) (λ s h. dispatcher-Lacks es s h n.1)
