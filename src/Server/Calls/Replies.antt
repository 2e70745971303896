-- ===== src/Server/Calls/Replies.antt =====
-- What the calls of cloudlus/server.go and cloudlus/server_rpc.go return.
use cloudlus.Base.{
  ℕ, ◌≡◌, refl, ap, ◌∙◌, Bool, true, false, not, ◌&&◌, Option, none, some, List, ◌∷◌, ◌==◌, lookup,
  insert, arith, Option-cases, inl, inr,
}
use cloudlus.Time.{Time}
use cloudlus.Job.{failed, Job, JobId, IsId}
use cloudlus.Store.{JobStore, saved}
use cloudlus.Server.{Server, Beat, Message, job_to, kill_to}
use cloudlus.Server.Beats.{is_overdue, check_timeout, heartbeat}
use cloudlus.Server.Finish.{notify, finish_job}
use cloudlus.Server.Dispatch.{next, round, select, refresh, accept, find_job}
use cloudlus.Server.Calls.{
  sent_on, first_reply, reply_job, reply_kill, answer, submitted_job, start, get_call,
  heartbeat_call,
}

-- The first reply on a channel on which nothing was sent before.
job_reply :
    (c : ℕ) (x : Option Job) (ms : List Message)
    → first_reply c ms ≡ none
    → reply_job (first_reply c (job_to c x ∷ ms)) ≡ x
unfolding first_reply reply_job sent_on
job_reply c x ms f = ground (arith, f)

kill_reply :
    (c : ℕ) (x : Bool) (ms : List Message)
    → first_reply c ms ≡ none
    → reply_kill (first_reply c (kill_to c x ∷ ms)) ≡ x
unfolding first_reply reply_kill sent_on
kill_reply c x ms f = ground (arith, f)

-- Of two values the first one is read.
kill_reply_twice :
    (c : ℕ) (x y : Bool) (ms : List Message)
    → first_reply c ms ≡ none
    → reply_kill (first_reply c (kill_to c y ∷ kill_to c x ∷ ms)) ≡ x
unfolding first_reply reply_kill sent_on
kill_reply_twice c x y ms f = ground (arith, f)

first_reply-notify :
    (c : ℕ) (w : Option ℕ) (x : Option Job) (ms : List Message)
    → ((d : ℕ) → w ≡ some d → (c == d) ≡ false)
    → first_reply c ms ≡ none
    → first_reply c (notify w x ms) ≡ none
unfolding first_reply sent_on notify
first_reply-notify c none x ms n f = f
first_reply-notify c (some d) x ms n f = ground (arith, f, n d refl)

module _ (store : JobStore) where
  open store use {Db, put, get, get-put}

  find_stored :
      (j : Job) (s1 s : Server Db)
      → IsId j.id
      → lookup j.id s.running ≡ none
      → find_job store j.id
          (refresh store (record s1 { running = s.running; alljobs = put j s.alljobs }))
        ≡ some (saved j)
  unfolding find_job refresh
  find_stored j s1 s p r = rw (find_job, r) (get-put j s.alljobs p)

  -- A job that was just submitted is found, as `createJob` of cloudlus/server_restful.go expects: if
  -- no job with its identifier runs, `Start` and then `Get` give the exported fields of the job, with
  -- the status queued and the time of the submission.
  pub start_then_get :
      (now : Time) (j : Job) (ch c : ℕ) (s : Server Db)
      → IsId j.id
      → lookup j.id s.running ≡ none
      → first_reply c s.sent ≡ none
      → (s1 s2 : Server Db) × (start store now j ch s ≡ next s1)
        × (get_call store j.id c s1 ≡ some (s2, some (saved (submitted_job now j))))
  unfolding start get_call round select refresh accept answer submitted_job
  start_then_get now j ch c s p r f =
      let j' = submitted_job now j in
      let s1 =
        accept store j' (some ch) (refresh store (record s { alljobs = put j' s.alljobs })) in
      let found = find_job store j.id (refresh store s1) in
      (
        s1,
        record (refresh store s1) { sent = job_to c found ∷ s1.sent },
        refl,
        ap
            (λ (x : Option Job).
              some (record (refresh store s1) { sent = job_to c found ∷ s1.sent }, x))
            (job_reply c found s1.sent f ∙ find_stored j' s1 s p r),
      )

  -- Whether a worker is to go on with a job: the job is assigned to this worker, runs, and is not
  -- overdue.
  unfoldable pub may_go_on : Time → Beat → Server Db → Bool
  may_go_on now b s = elim (lookup b.job_id s.jobinfo) [
    | none ↦ false
    | some old ↦
        old.worker_id == b.worker_id
        && elim (lookup b.job_id s.running) [ none ↦ false | some j ↦ not (is_overdue now j) ]
  ]

  check_timeout_reply :
      (now : Time) (b : Beat) (j : Job) (s : Server Db)
      → first_reply b.kill s.sent ≡ none
      → ((c : ℕ) → lookup j.id s.submitchans ≡ some c → (b.kill == c) ≡ false)
      → reply_kill (first_reply b.kill (check_timeout store now b j s).sent) ≡ is_overdue now j
  unfolding check_timeout finish_job
  check_timeout_reply now b j s f n = ground (
    arith,
    kill_reply b.kill false s.sent f,
    kill_reply_twice b.kill true false
        (notify (lookup j.id s.submitchans) (some (record j { status = failed })) s.sent)
        (first_reply-notify b.kill (lookup j.id s.submitchans) (some (record j { status = failed }))
          s.sent n f),
  )

  heartbeat_reply :
      (now : Time) (b : Beat) (s : Server Db)
      → first_reply b.kill s.sent ≡ none
      → ((i : JobId) (c : ℕ) → lookup i s.submitchans ≡ some c → (b.kill == c) ≡ false)
      → reply_kill (first_reply b.kill (heartbeat store now b s).sent) ≡ not (may_go_on now b s)
  unfolding heartbeat may_go_on
  heartbeat_reply now b s f n = elim (Option-cases (lookup b.job_id s.running)) [
    | inl e ↦ ground (arith, e, kill_reply b.kill true s.sent f)
    | inr (j, e) ↦ ground (
      arith,
      e,
      kill_reply b.kill true s.sent f,
      check_timeout_reply now b j (record s { jobinfo = insert b.job_id b s.jobinfo }) f (n j.id),
    )
  ]

  -- The heartbeat call always returns, and it tells a worker to kill its job exactly if the worker
  -- is not to go on with it. Its reply channel is new: nothing was sent on it, and no client waits
  -- on it.
  pub heartbeat_call_reply :
      (received now : Time) (b : Beat) (ch : ℕ) (s : Server Db)
      → first_reply ch s.sent ≡ none
      → ((i : JobId) (c : ℕ) → lookup i s.submitchans ≡ some c → (ch == c) ≡ false)
      → (s' : Server Db) × (heartbeat_call store received now b ch s
          ≡ some (s', not (may_go_on now b s)))
  unfolding heartbeat_call round select answer refresh may_go_on
  heartbeat_call_reply received now b ch s f n =
      let b' = record b { time = received; kill = ch } in
      (
        heartbeat store now b' (refresh store s),
        ap (λ (x : Bool). some (heartbeat store now b' (refresh store s), x))
            (heartbeat_reply now b' (refresh store s) f n),
      )
