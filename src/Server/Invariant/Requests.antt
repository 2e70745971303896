-- ===== src/Server/Invariant/Requests.antt =====
-- The requests to the dispatcher of cloudlus/server.go leave a sound server sound.
use cloudlus.Base.{
  ℕ, ◌≡◌, refl, sym, ◌∙◌, true, false, not, inl, inr, Option, none, some, List, [], ◌∷◌, ◌==◌,
  if◌then◌else◌, lookup, insert, lookup-insert, arith, All-append, Bool-cases, Option-cases,
}
use cloudlus.Time.{Time}
use cloudlus.Job.{Job, JobId, IsId, WorkerId, failed, is_queued}
use cloudlus.Store.{JobStore}
use cloudlus.Server.{Server, Beat, Message, new_beat, is_banned}
use cloudlus.Server.Finish.{finish_job}
use cloudlus.Server.Beats.{in_queue, is_overdue, check_timeout, heartbeat}
use cloudlus.Server.Dispatch.{
  Event, submit, reset_job, finish_all, reset_queue, accept, receive, hand_out, serve, start_job,
}
use cloudlus.Server.Queue.{in_queue-append}
use cloudlus.Server.Invariant.{has, IsSound}
use cloudlus.Server.Invariant.Steps.{
  has-some, has_of_some, has-remove, has-insert, finish_job-IsSound,
}

-- The requests that the rest of the program makes: `Start` queues a job before it submits it.
abbrev pub IsLegal : Event → Type 0
IsLegal (submit j ch) = (is_queued j.status ≡ true) × IsId j.id
IsLegal _ = Unit

module _ (store : JobStore) where
  open store use {Db}

  -- What is sent does not matter.
  pub sent-IsSound :
      (ms : List Message) (s : Server Db) → IsSound s → IsSound (record s { sent = ms })
  sent-IsSound ms s v = record {
    synced = v.synced;
    labelled = v.labelled;
    all_queued = v.all_queued;
    served = v.served;
  }

  pub renewed-IsSound :
      (b : Beat) (s : Server Db)
      → has b.job_id s.jobinfo ≡ true
      → IsSound s
      → IsSound (record s { jobinfo = insert b.job_id b s.jobinfo })
  renewed-IsSound b s h v = record {
    synced = λ i. ground (arith, has-insert b.job_id i b s.jobinfo, v.synced i, v.synced b.job_id);
    labelled = v.labelled;
    all_queued = v.all_queued;
    served = v.served;
  }

  pub check_timeout-IsSound :
      (now : Time) (b : Beat) (j : Job) (s : Server Db)
      → IsSound s
      → IsSound (check_timeout store now b j s)
  unfolding check_timeout
  check_timeout-IsSound now b j s v = elim (Bool-cases (is_overdue now j)) [
    | inl late ↦ rw late (
        sent-IsSound _ (finish_job store (record j { status = failed }) s)
          (finish_job-IsSound store (record j { status = failed }) s v))
    | inr fine ↦ rw fine (sent-IsSound _ s v)
  ]

  pub heartbeat-IsSound :
      (now : Time) (b : Beat) (s : Server Db) → IsSound s → IsSound (heartbeat store now b s)
  unfolding heartbeat
  heartbeat-IsSound now b s v = elim (Option-cases (lookup b.job_id s.jobinfo)) [
    | inl e ↦ rw (e, heartbeat) (sent-IsSound _ s v)
    | inr (old, e) ↦ elim (Bool-cases (not (old.worker_id == b.worker_id))) [
      | inl moved ↦ rw (e, heartbeat, moved) (sent-IsSound _ s v)
      | inr same ↦
          let held = has_of_some b.job_id s.jobinfo e in
          let (j, r) = has-some b.job_id s.running (sym (v.synced b.job_id) ∙ held) in
          rw (e, heartbeat, same, r) (check_timeout-IsSound now b j _ (renewed-IsSound b s held v))
    ]
  ]

  pub accept-IsSound :
      (j : Job) (ch : Option ℕ) (s : Server Db)
      → (is_queued j.status ≡ true) × IsId j.id
      → IsSound s
      → IsSound (accept store j ch s)
  unfolding accept
  accept-IsSound j none s q v = record {
    synced = v.synced;
    labelled = v.labelled;
    all_queued = All-append _ s.queue (j ∷ []) v.all_queued (q, tt);
    served = λ i. ground (arith, in_queue-append i s.queue (j ∷ []), v.served i);
  }
  accept-IsSound j (some c) s q v = record {
    synced = v.synced;
    labelled = v.labelled;
    all_queued = All-append _ s.queue (j ∷ []) v.all_queued (q, tt);
    served = λ i.
        unfold in_queue in
        ground (
          arith,
          has-insert j.id i c s.submitchans,
          in_queue-append i s.queue (j ∷ []),
          v.served i,
        );
  }

  pub hand_out-IsSound :
      (w : WorkerId) (ch : ℕ) (t u : Time) (s : Server Db) (q : List Job)
      → s.queue ≡ q
      → IsSound s
      → IsSound (hand_out store w ch t u s q)
  unfolding hand_out in_queue start_job
  hand_out-IsSound w ch t u s [] e v = record {
    synced = v.synced;
    labelled = v.labelled;
    all_queued = v.all_queued;
    served = v.served;
  }
  hand_out-IsSound w ch t u s (j ∷ js) e v = record {
    synced = λ i. ground (
      arith,
      has-insert j.id i (new_beat w j.id t) s.jobinfo,
      has-insert j.id i (start_job u j) s.running,
      v.synced i,
    );
    labelled = λ i. ground (arith, lookup-insert j.id i (start_job u j) s.running, v.labelled i);
    all_queued = (rw e at v.all_queued).1;
    served = λ i. ground (arith, has-insert j.id i (start_job u j) s.running, v.served i);
  }

  pub serve-IsSound :
      (w : WorkerId) (ch : ℕ) (t u : Time) (s : Server Db)
      → IsSound s
      → IsSound (serve store w ch t u s)
  unfolding serve
  serve-IsSound w ch t u s v = elim (Bool-cases (is_banned w s.worker_failures)) [
    | inl banned ↦ rw banned (sent-IsSound _ s v)
    | inr free ↦ rw free (hand_out-IsSound w ch t u s s.queue refl v)
  ]

  pub receive-IsSound : (j : Job) (s : Server Db) → IsSound s → IsSound (receive store j s)
  unfolding receive
  receive-IsSound j s v = finish_job-IsSound store _ _ (record {
    synced = v.synced;
    labelled = v.labelled;
    all_queued = v.all_queued;
    served = v.served;
  })

  pub finish_all-IsSound :
      (js : List Job) (s : Server Db) → IsSound s → IsSound (finish_all store js s)
  unfolding finish_all
  finish_all-IsSound [] s v = v
  finish_all-IsSound (j ∷ js) s v =
      finish_all-IsSound js _ (finish_job-IsSound store (reset_job j) s v)

  -- The keys that are left when all jobs of a list are finished.
  pub finish_all_keys :
      (i : JobId) (js : List Job) (s : Server Db)
      → (has i (finish_all store js s).submitchans
          ≡ (if in_queue i js then false else has i s.submitchans))
        × (has i (finish_all store js s).running
            ≡ (if in_queue i js then false else has i s.running))
  unfolding finish_all in_queue finish_job reset_job
  finish_all_keys i [] s = (refl, refl)
  finish_all_keys i (j ∷ js) s = ground (
    arith,
    finish_all_keys i js (finish_job store (reset_job j) s),
    has-remove j.id i s.submitchans,
    has-remove j.id i s.running,
  )

  pub reset_queue-IsSound : (s : Server Db) → IsSound s → IsSound (reset_queue store s)
  unfolding reset_queue
  reset_queue-IsSound s v =
      let w = finish_all-IsSound s.queue s v in
      record {
        synced = w.synced;
        labelled = w.labelled;
        all_queued = tt;
        served = λ i. unfold in_queue in ground (arith, finish_all_keys i s.queue s, v.served i);
      }
