-- ===== src/Server/Places/Journeys.antt =====
-- The loop of the dispatcher of cloudlus/server.go refines the machine of each job.
use cloudlus.Base.{
  ◌≡◌, refl, ap, ◌∙◌, true, false, not, inl, inr, Option, none, some, List, [], ◌∷◌, ◌==◌, ==_iff,
  if◌then◌else◌, All, lookup, Bool-cases, Option-cases,
}
use cloudlus.Time.{Time}
use cloudlus.Job.{Job, JobId, failed}
use cloudlus.Store.{JobStore}
use cloudlus.Server.{Server, Beat}
use cloudlus.Server.Beats.{
  is_overdue, check_beats, checkbeat, check_waiters, check_timeout, heartbeat,
}
use cloudlus.Server.Dispatch.{
  Event, tick, reset, kill, submit, retrieve, push, fetch, beat, Outcome, next, stopped, panicked,
  refresh, select, round, dispatcher,
}
use cloudlus.Server.Queue.{AllQueued}
use cloudlus.Server.Invariant.{has, IsSound}
use cloudlus.Server.Invariant.Steps.{has_of_some}
use cloudlus.Server.Invariant.Checks.{IsSome, check_beats-IsSome, check_waiters_none}
use cloudlus.Server.Invariant.Requests.{IsLegal}
use cloudlus.Server.Invariant.Rounds.{OutcomeSound, refresh-IsSound, round-IsSound}
use cloudlus.Server.Requeue.{OnSome, label_of}
use cloudlus.Server.Places.{
  Place, place_of, place, Move, Checked, finish_job-place, check_beats-Checked, reset-place,
  accept-place, receive-place, serve-place,
}

-- The moves of one job through a sequence of requests, up to the one that stops the server.
pub data Journey (i : JobId) : List Event → Place → Place → Type 0 where
  arrived : (p : Place) → Journey i [] p p
  halted : (es : List Event) (p : Place) → Journey i (kill ∷ es) p p
  moved :
      (e : Event) (es : List Event) (p q r : Place)
      → Move i e p q
      → Journey i es q r
      → Journey i (e ∷ es) p r

-- One round: it goes on after a move, or it was stopped by the kill request.
abbrev Moved : {D : Type 0} → JobId → Event → Place → Outcome (Server D) → Type 0
Moved i e p (next t) = Move i e p (place i t)
Moved i e p (stopped t) = (e ≡ kill) × (place i t ≡ p)
Moved i e p panicked = ⊥

abbrev pub Travelled : {D : Type 0} → JobId → List Event → Place → Outcome (Server D) → Type 0
Travelled i es p (next t) = Journey i es p (place i t)
Travelled i es p (stopped t) = Journey i es p (place i t)
Travelled i es p panicked = ⊥

module _ (store : JobStore) where
  open store use {Db}

  tick-Moved :
      (now : Time) (i : JobId) (ks ws : List JobId) (s : Server Db)
      → IsSound s
      → Moved i (tick now ks ws) (place i s) (select store (tick now ks ws) s)
  unfolding select checkbeat
  tick-Moved now i ks ws s v =
      go (check_beats store now ks s) (check_beats-IsSome store now ks s v)
        (check_beats-Checked store now i (place i s) ks s (v, inl refl))
    where
      go :
          (r : Option (Server Db))
          → IsSome r
          → OnSome (Checked store i (place i s)) r
          → Moved i
              (tick now ks ws)
              (place i s)
              (elim (elim r as (λ x. Option (Server Db)) [
                | none ↦ none
                | some t ↦ some (check_waiters store ws t)
              ]) [ none ↦ panicked | some t ↦ next t ])
      go none a b = a
      go (some t) a b = rw (check_waiters_none store ws t a) (b.1)

  check_timeout-place :
      (now : Time) (i : JobId) (b : Beat) (j : Job) (s : Server Db)
      → AllQueued s.queue
      → j.id ≡ b.job_id
      → has b.job_id s.running ≡ true
      → Move i (beat now b) (place i s) (place i (check_timeout store now b j s))
  unfolding check_timeout place
  check_timeout-place now i b j s h e f = elim (Bool-cases (is_overdue now j)) [
    | inl late ↦ rw late (elim (Bool-cases (i == b.job_id)) [
      | inl mine ↦ inr (
        (==_iff i b.job_id).0 mine,
        rw ((==_iff i b.job_id).0 mine) f,
        finish_job-place store i b.job_id (record j { status = failed }) s e h
            ∙ ap (λ c. if c then place_of false false else place i s) mine,
      )
      | inr other ↦ inl (
          finish_job-place store i b.job_id (record j { status = failed }) s e h
          ∙ ap (λ c. if c then place_of false false else place i s) other)
    ])
    | inr fine ↦ rw fine (inl refl)
  ]

  heartbeat-place :
      (now : Time) (i : JobId) (b : Beat) (s : Server Db)
      → IsSound s
      → Move i (beat now b) (place i s) (place i (heartbeat store now b s))
  unfolding heartbeat place
  heartbeat-place now i b s v = elim (Option-cases (lookup b.job_id s.jobinfo)) [
    | inl e ↦ rw (e, heartbeat) (inl refl)
    | inr (old, e) ↦ elim (Bool-cases (not (old.worker_id == b.worker_id))) [
      | inl moved_on ↦ rw (e, heartbeat, moved_on) (inl refl)
      | inr same ↦ elim (Option-cases (lookup b.job_id s.running)) [
        | inl r ↦ rw (e, heartbeat, same, r) (inl refl)
        | inr (j, r) ↦
            rw (e, heartbeat, same, r)
              (check_timeout-place now i b j _ v.all_queued (label_of store b.job_id j s v r).0
                (has_of_some b.job_id s.running r))
      ]
    ]
  ]

  select-Moved :
      (e : Event) (i : JobId) (s : Server Db) → IsSound s → Moved i e (place i s) (select store e s)
  unfolding select place
  select-Moved (tick now ks ws) i s v = tick-Moved now i ks ws s v
  select-Moved reset i s v = reset-place store i s
  select-Moved kill i s v = (refl, refl)
  select-Moved (submit j ch) i s v = accept-place store i j ch s
  select-Moved (retrieve k ch) i s v = refl
  select-Moved (push j) i s v = receive-place store i j s v.all_queued
  select-Moved (fetch w ch t u) i s v = serve-place store i w ch t u s
  select-Moved (beat now b) i s v = heartbeat-place now i b s v

  round-Moved :
      (e : Event) (i : JobId) (s : Server Db) → IsSound s → Moved i e (place i s) (round store e s)
  unfolding round refresh place
  round-Moved e i s v = select-Moved e i (refresh store s) (refresh-IsSound store s v)

  -- The rest of the loop, after a round.
  loop-Travelled :
      (i : JobId) (e : Event) (es : List Event) (p : Place) (o : Outcome (Server Db))
      → OutcomeSound o
      → Moved i e p o
      → ((t : Server Db) → IsSound t → Travelled i es (place i t) (dispatcher store es t))
      → Travelled i (e ∷ es) p (elim o as (λ x. Outcome (Server Db)) [
        | next s' ↦ dispatcher store es s'
        | stopped s' ↦ stopped s'
        | panicked ↦ panicked
      ])
  loop-Travelled i e es p (next t) v m k = extend (dispatcher store es t) (k t v)
    where
      extend : (o : Outcome (Server Db)) → Travelled i es (place i t) o → Travelled i (e ∷ es) p o
      extend (next u) h = moved e es p (place i t) (place i u) m h
      extend (stopped u) h = moved e es p (place i t) (place i u) m h
      extend panicked h = h
  loop-Travelled i e es p (stopped t) v m k = rw (m.0, m.1) (halted es p)
  loop-Travelled i e es p panicked v m k = m

  -- For every identifier, what the dispatcher does in a sound server with legal requests is a
  -- journey of one small machine, where the job is in the queue, with a worker, in both or in none:
  -- its submission puts it in the queue; a fetch changes nothing or gives a queued job to a worker; a
  -- check changes nothing or takes a running job back to the queue alone; a reset ends the queued
  -- jobs, and a push of the job ends it; a heartbeat for it changes nothing or ends a running job;
  -- another submission, push or heartbeat and a request for results change nothing; and only a kill
  -- request stops it. The dispatcher does not panic.
  pub dispatcher-Travelled :
      (es : List Event) (i : JobId) (s : Server Db)
      → IsSound s
      → All IsLegal es
      → Travelled i es (place i s) (dispatcher store es s)
  unfolding dispatcher
  dispatcher-Travelled [] i s v l = arrived (place i s)
  dispatcher-Travelled (e ∷ es) i s v l =
      loop-Travelled i e es (place i s) (round store e s) (round-IsSound store e s l.0 v)
        (round-Moved e i s v) λ t v'. dispatcher-Travelled es i t v' l.1
