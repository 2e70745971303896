-- ===== src/Server/Bans.antt =====
-- Which workers the server of cloudlus/server.go bans, told from the pushes it received.
use cloudlus.Base.{
  ℕ, ◌+◌, ◌≤◌, ◌<◌, ◌≡◌, refl, ap, Bool, true, false, not, ◌&&◌, Option, none, some, List, [], ◌∷◌,
  ◌==◌, if◌then◌else◌, Assoc, lookup, lookup-insert, arith,
}
use cloudlus.Job.{
  Job, WorkerId, Status, queued, running, complete, failed, other, is_complete, is_failed,
}
use cloudlus.Time.{Time}
use cloudlus.Store.{JobStore}
use cloudlus.Server.{Server, job_to, new_server, failures, is_banned}
use cloudlus.Server.Finish.{finish_job}
use cloudlus.Server.Dispatch.{
  Event, tick, reset, kill, submit, retrieve, push, fetch, beat, Outcome, next, stopped, panicked,
  count_push, reset_queue, accept, receive, hand_out, serve, select, round, dispatcher, start_job,
}
use cloudlus.Server.Failures.{finish_all_failures, Keeps, checkbeat-Keeps, heartbeat_failures}

-- Whether an event is a push of a completed, or of a failed, job by a worker.
abbrev pub succeeds : WorkerId → Event → Bool
succeeds w (push j) = j.worker_id == w && is_complete j.status
succeeds w _ = false

abbrev pub fails : WorkerId → Event → Bool
fails w (push j) = j.worker_id == w && is_failed j.status
fails w _ = false

unfoldable pub never_succeeds : WorkerId → List Event → Bool
never_succeeds w [] = true
never_succeeds w (e ∷ es) = not (succeeds w e) && never_succeeds w es

-- The failed pushes of a worker after which it pushed no completed job.
unfoldable pub streak : WorkerId → List Event → ℕ
streak w [] = 0
streak w (e ∷ es) = if fails w e && never_succeeds w es then streak w es + 1 else streak w es

failures-count_push :
    (w v : WorkerId) (st : Status) (m : Assoc ℕ)
    → failures w (count_push v st m) ≡ (
        if v == w && is_complete st
        then 0
        else if v == w && is_failed st
        then failures w m + 1
        else failures w m)
unfolding failures count_push
failures-count_push w v complete m = ground (arith, lookup-insert v w 0 m)
failures-count_push w v failed m = ground (arith, lookup-insert v w (failures v m + 1) m)
failures-count_push w v queued m = ground arith
failures-count_push w v running m = ground arith
failures-count_push w v (other t) m = ground arith

-- The failures of a worker after a round, or a run, after which the dispatcher goes on.
abbrev pub Counts : {D : Type 0} → WorkerId → ℕ → Outcome (Server D) → Type 0
Counts w n (next s) = failures w s.worker_failures ≡ n
Counts w n (stopped s) = Unit
Counts w n panicked = Unit

module _ (store : JobStore) where
  open store use {Db}

  outcome_of-Keeps :
      (w : WorkerId) (s : Server Db) (r : Option (Server Db))
      → Keeps store s r
      → Counts w (failures w s.worker_failures) (elim r [ none ↦ panicked | some t ↦ next t ])
  outcome_of-Keeps w s none h = tt
  outcome_of-Keeps w s (some t) h = rw h

  select-Counts :
      (w : WorkerId) (e : Event) (s : Server Db)
      → Counts w
          (if succeeds w e
            then 0
            else if fails w e
            then failures w s.worker_failures + 1
            else failures w s.worker_failures)
          (select store e s)
  unfolding select
  select-Counts w (tick now is ws) s = outcome_of-Keeps w s _ (checkbeat-Keeps store now is ws s)
  select-Counts w reset s = unfold reset_queue in rw (finish_all_failures store s.queue s)
  select-Counts w kill s = tt
  select-Counts w (submit j none) s = unfold accept in refl
  select-Counts w (submit j (some c)) s = unfold accept in refl
  select-Counts w (retrieve i ch) s = refl
  select-Counts w (push j) s =
      unfold receive finish_job in failures-count_push w j.worker_id j.status s.worker_failures
  select-Counts w (fetch v ch t u) s = unfold serve hand_out in ground arith
  select-Counts w (beat now b) s = ap (failures w) (heartbeat_failures store now b s)

  round-Counts :
      (w : WorkerId) (e : Event) (s : Server Db)
      → Counts w
          (if succeeds w e
            then 0
            else if fails w e
            then failures w s.worker_failures + 1
            else failures w s.worker_failures)
          (round store e s)
  unfolding round
  round-Counts w e s = select-Counts w e _

  -- What is left of the failures before a run, and those of the run.
  abbrev after_run : WorkerId → List Event → ℕ → ℕ
  after_run w es n = if never_succeeds w es then streak w es + n else streak w es

  chain-Counts :
      (w : WorkerId) (es : List Event) (n : ℕ) (o : Outcome (Server Db))
      → Counts w n o
      → ((s : Server Db)
          → Counts w (after_run w es (failures w s.worker_failures)) (dispatcher store es s))
      → Counts w (after_run w es n) (elim o [
        | next s' ↦ dispatcher store es s'
        | stopped s' ↦ stopped s'
        | panicked ↦ panicked
      ])
  chain-Counts w es n (next s) h k = rw h at (k s)
  chain-Counts w es n (stopped s) h k = tt
  chain-Counts w es n panicked h k = tt

  after_run-cons :
      (w : WorkerId) (e : Event) (es : List Event) (n : ℕ)
      → after_run w es (if succeeds w e then 0 else if fails w e then n + 1 else n)
        ≡ after_run w (e ∷ es) n
  unfolding never_succeeds streak
  after_run-cons w (push j) es n = ground arith
  after_run-cons w _ es n = ground arith

  dispatcher-Counts :
      (w : WorkerId) (es : List Event) (s : Server Db)
      → Counts w (after_run w es (failures w s.worker_failures)) (dispatcher store es s)
  unfolding dispatcher never_succeeds streak
  dispatcher-Counts w [] s = omega arith
  dispatcher-Counts w (e ∷ es) s =
      rw (← after_run-cons w e es (failures w s.worker_failures))
        (chain-Counts w es _ (round store e s) (round-Counts w e s) (dispatcher-Counts w es))

  failures_of_run :
      (w : WorkerId) (es : List Event) (d : Db) (q : List Job) {s : Server Db}
      → dispatcher store es (new_server d q) ≡ next s
      → failures w s.worker_failures ≡ streak w es
  unfolding new_server failures lookup
  failures_of_run w es d q {s} h =
      let c : Counts w (after_run w es 0) (next s) =
        rw h at (dispatcher-Counts w es (new_server d q)) in
      ground (arith, c)

  -- After any requests, a worker that pushed at least four failed jobs and no completed job since is
  -- refused: its request is answered with nil, and nothing else changes.
  pub ban_refuses :
      (w : WorkerId) (ch : ℕ) (t u : Time) (es : List Event) (d : Db) (q : List Job) (s : Server Db)
      → dispatcher store es (new_server d q) ≡ next s
      → 4 ≤ streak w es
      → serve store w ch t u s ≡ record s { sent = job_to ch none ∷ s.sent }
  unfolding serve is_banned
  ban_refuses w ch t u es d q s h k = ground (arith, failures_of_run w es d q h)

  -- After any requests, a worker with fewer than four failed pushes since its last completed one
  -- gets the job at the head of the queue, with the status running and the time of the fetch, and
  -- the job is off the queue and in the run list.
  pub ban_spares :
      (w : WorkerId) (ch : ℕ) (t u : Time) (es : List Event) (d : Db) (q : List Job) (s : Server Db)
      (j : Job) (js : List Job)
      → dispatcher store es (new_server d q) ≡ next s
      → streak w es < 4
      → s.queue ≡ j ∷ js
      → let s' = serve store w ch t u s in
        (s'.sent ≡ job_to ch (some (start_job u j)) ∷ s.sent)
        × (s'.queue ≡ js)
        × (lookup j.id s'.running ≡ some (start_job u j))
  unfolding serve is_banned hand_out
  ban_spares w ch t u es d q s j js h k e =
      ground (arith, failures_of_run w es d q h, lookup-insert j.id j.id (start_job u j) s.running)
