-- ===== src/Server/Pending.antt =====
-- The dispatcher of cloudlus/server.go loses no job: what becomes of a job that runs or is queued.
pub mod Kept
use cloudlus.Base.{
  ℕ, ◌≡◌, refl, Bool, true, false, ◌&&◌, ◌||◌, inl, inr, Option, none, some, List, [], ◌∷◌, ◌==◌,
  All, lookup, insert, arith, Bool-cases, Option-cases,
}
use cloudlus.Time.{Time}
use cloudlus.Job.{Job, JobId, WorkerId, failed}
use cloudlus.Store.{JobStore}
use cloudlus.Server.{Server, Beat, is_banned}
use cloudlus.Server.Finish.{finish_job}
use cloudlus.Server.Beats.{
  in_queue, is_overdue, requeue, check_one, check_beats, checkbeat, check_waiters, check_timeout,
  heartbeat,
}
use cloudlus.Server.Dispatch.{
  Event, tick, reset, kill, submit, retrieve, push, fetch, beat, Outcome, next, stopped, panicked,
  restore, start_job, refresh, finish_all, reset_queue, accept, receive, hand_out, serve, select,
  round, dispatcher,
}
use cloudlus.Server.Queue.{AllQueued, in_queue-append, in_queue-clean_queue}
use cloudlus.Server.Invariant.{has, IsSound}
use cloudlus.Server.Invariant.Steps.{has-remove, has-insert, requeue-IsSound}
use cloudlus.Server.Invariant.Checks.{IsSome, check_beats-IsSome, check_waiters_none}
use cloudlus.Server.Invariant.Requests.{IsLegal, finish_all_keys}
use cloudlus.Server.Invariant.Rounds.{OutcomeSound, round-IsSound}
use cloudlus.Server.Requeue.{OnSome, OnSome-chain, check_one_rule, label_of}

-- The job runs or is queued.
unfoldable pub is_pending : {D : Type 0} → JobId → Server D → Bool
is_pending i s = has i s.running || in_queue i s.queue

-- The heartbeat comes from the worker of the job.
unfoldable pub is_owner : WorkerId → Option Beat → Bool
is_owner w none = false
is_owner w (some old) = old.worker_id == w

unfoldable pub is_late : Time → Option Job → Bool
is_late now none = false
is_late now (some j) = is_overdue now j

-- The only requests that end a job: a push of it, a reset while it is queued, and a heartbeat of
-- its own worker after its timeout.
unfoldable pub may_end : {D : Type 0} → JobId → Event → Server D → Bool
may_end i (tick now is ws) s = false
may_end i reset s = in_queue i s.queue
may_end i kill s = false
may_end i (submit j ch) s = false
may_end i (retrieve k ch) s = false
may_end i (push j) s = j.id == i
may_end i (fetch w ch t u) s = false
may_end i (beat now b) s =
    b.job_id == i && (is_owner b.worker_id (lookup i s.jobinfo) && is_late now (lookup i s.running))

abbrev pub OutcomePending : {D : Type 0} → JobId → Outcome (Server D) → Type 0
OutcomePending i (next s) = is_pending i s ≡ true
OutcomePending i (stopped s) = is_pending i s ≡ true
OutcomePending i panicked = ⊥

module _ (store : JobStore) where
  open store use {Db}

  -- Whether one of the events, each in the state that it meets, is one that ends the job.
  unfoldable pub ends : JobId → List Event → Server Db → Bool
  ends i [] s = false
  ends i (e ∷ es) s =
      may_end i e s
      || elim (round store e s) [ next s' ↦ ends i es s' | stopped s' ↦ false | panicked ↦ false ]

  -- To finish a job leaves the others.
  pub finish_job-is_pending :
      (i : JobId) (j : Job) (s : Server Db)
      → AllQueued s.queue
      → (j.id == i) ≡ false
      → is_pending i (finish_job store j s) ≡ is_pending i s
  unfolding is_pending finish_job
  finish_job-is_pending i j s h n =
      ground (arith, has-remove j.id i s.running, in_queue-clean_queue i j.id s.queue h)

  requeue-is_pending :
      (i k : JobId) (j : Job) (s : Server Db)
      → j.id ≡ k
      → is_pending i s ≡ true
      → is_pending i (requeue store k j s) ≡ true
  unfolding is_pending requeue in_queue
  requeue-is_pending i k j s e h = ground (arith, has-remove k i s.running)

  abbrev Kept : JobId → Server Db → Type 0
  Kept i s = IsSound s × (is_pending i s ≡ true)

  check_one-Kept :
      (now : Time) (i k : JobId) (s : Server Db)
      → Kept i s
      → OnSome (Kept i) (check_one store now k s)
  check_one-Kept now i k s (v, h) =
      check_one_rule store (Kept i) now k s (λ b e a. (v, h)) (λ e. (v, h))
        λ b j e late r. (
          requeue-IsSound store k j s r v,
          requeue-is_pending i k j s (label_of store k j s v r).0 h,
        )

  check_beats-Kept :
      (now : Time) (i : JobId) (ks : List JobId) (s : Server Db)
      → Kept i s
      → OnSome (Kept i) (check_beats store now ks s)
  unfolding check_beats
  check_beats-Kept now i [] s h = h
  check_beats-Kept now i (k ∷ ks) s h =
      OnSome-chain (Kept i) (Kept i) (check_one store now k s) (check_beats store now ks)
        (check_one-Kept now i k s h) (check_beats-Kept now i ks)

  pub tick_pending :
      (now : Time) (i : JobId) (ks ws : List JobId) (s : Server Db)
      → Kept i s
      → OutcomePending i (select store (tick now ks ws) s)
  unfolding select checkbeat
  tick_pending now i ks ws s h =
      go (check_beats store now ks s) (check_beats-IsSome store now ks s h.0)
        (check_beats-Kept now i ks s h)
    where
      go :
          (r : Option (Server Db))
          → IsSome r
          → OnSome (Kept i) r
          → OutcomePending i
              (elim (elim r as (λ x. Option (Server Db)) [
                | none ↦ none
                | some t ↦ some (check_waiters store ws t)
              ]) [ none ↦ panicked | some t ↦ next t ])
      go none a b = a
      go (some t) a b = rw (check_waiters_none store ws t a) (b.1)

  pub accept_pending :
      (i : JobId) (j : Job) (ch : Option ℕ) (s : Server Db)
      → is_pending i s ≡ true
      → is_pending i (accept store j ch s) ≡ true
  unfolding accept is_pending
  accept_pending i j none s h = ground (arith, in_queue-append i s.queue (j ∷ []))
  accept_pending i j (some c) s h = ground (arith, in_queue-append i s.queue (j ∷ []))

  pub restore-id : (r : Option Job) (j : Job) → (restore r j).id ≡ j.id
  unfolding restore
  restore-id none j = refl
  restore-id (some jj) j = refl

  pub receive_pending :
      (i : JobId) (j : Job) (s : Server Db)
      → AllQueued s.queue
      → (j.id == i) ≡ false
      → is_pending i s ≡ true
      → is_pending i (receive store j s) ≡ true
  unfolding receive is_pending
  receive_pending i j s h n p =
      rw
        (finish_job-is_pending i (restore (lookup j.id s.running) j)
          (record s { worker_failures = _ }) h (rw (restore-id (lookup j.id s.running) j) n))
        p

  hand_out_pending :
      (i : JobId) (w : WorkerId) (ch : ℕ) (t u : Time) (s : Server Db) (q : List Job)
      → s.queue ≡ q
      → is_pending i s ≡ true
      → is_pending i (hand_out store w ch t u s q) ≡ true
  unfolding hand_out is_pending in_queue
  hand_out_pending i w ch t u s [] e p = p
  hand_out_pending i w ch t u s (j ∷ js) e p =
      let p' = rw e at p in ground (arith, has-insert j.id i (start_job u j) s.running)

  pub serve_pending :
      (i : JobId) (w : WorkerId) (ch : ℕ) (t u : Time) (s : Server Db)
      → is_pending i s ≡ true
      → is_pending i (serve store w ch t u s) ≡ true
  unfolding serve is_pending
  serve_pending i w ch t u s p = elim (Bool-cases (is_banned w s.worker_failures)) [
    | inl banned ↦ rw banned p
    | inr free ↦ rw free (hand_out_pending i w ch t u s s.queue refl p)
  ]
