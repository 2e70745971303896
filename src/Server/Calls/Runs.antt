-- ===== src/Server/Calls/Runs.antt =====
-- `Run` of cloudlus/server.go: a job that is submitted, and its result.
use cloudlus.Base.{ℕ, ◌≡◌, ◌≢◌, refl, ◌∙◌, false, Option, none, some, List, [], ◌∷◌, arith}
use cloudlus.Time.{Time}
use cloudlus.Job.{Job, IsId, WorkerId}
use cloudlus.Store.{JobStore, saved}
use cloudlus.Server.{Server, Message, job_to, closed, is_banned}
use cloudlus.Server.Dispatch.{Event, submit, fetch, push, Outcome, next, start_job, dispatcher}
use cloudlus.Server.Calls.{sent_on, first_reply, waited_job, answer, submitted_job, start, run_call}
use cloudlus.Server.Lifecycle.{job_lifecycle}

first_reply_pushed :
    (ch c : ℕ) (j k : Option Job) (ms : List Message)
    → first_reply ch ms ≡ none
    → ch ≢ c
    → first_reply ch (closed ch ∷ job_to ch k ∷ job_to c j ∷ ms) ≡ some (job_to ch k)
unfolding first_reply sent_on
first_reply_pushed ch c j k ms h n = ground arith

module _ (store : JobStore) where
  open store use {Db, put, get}

  run_call-dispatcher :
      (now : Time) (j : Job) (ch : ℕ) (es : List Event) (s : Server Db)
      → let j' = submitted_job now j in
        run_call store now j ch es s
        ≡ answer
            (λ ms. waited_job (first_reply ch ms))
            (dispatcher store (submit j' (some ch) ∷ es) (record s { alljobs = put j' s.alljobs }))
  unfolding run_call start dispatcher answer
  run_call-dispatcher now j ch es s = refl

  returned :
      (ch : ℕ) (s' : Server Db) (r : Outcome (Server Db)) (k' : Job) (ms : List Message)
      → r ≡ next s'
      → s'.sent ≡ ms
      → first_reply ch ms ≡ some (job_to ch (some k'))
      → answer (λ ms. waited_job (first_reply ch ms)) r ≡ some (s', some (some k'))
  unfolding answer waited_job
  returned ch s' r k' ms d m h = rw (d, answer, m, h) refl

  -- On a server with an empty queue, when a worker that is not banned fetches the job and pushes it back
  -- with its identifier, Run returns the pushed job with the input files that were submitted, if
  -- nothing was sent on its channel before and the worker has another one; the database then has
  -- this job.
  pub run_call_returns :
      (now t u : Time) (j k : Job) (ch c : ℕ) (w : WorkerId) (s : Server Db)
      → s.queue ≡ []
      → is_banned w s.worker_failures ≡ false
      → k.id ≡ j.id
      → IsId j.id
      → first_reply ch s.sent ≡ none
      → ch ≢ c
      → let k' = record k { infiles = j.infiles } in
        (s' : Server Db) × (run_call store now j ch (fetch w c t u ∷ push k ∷ []) s
          ≡ some (s', some (some k')))
        × (get j.id s'.alljobs ≡ some (saved k'))
  unfolding submitted_job
  run_call_returns now t u j k ch c w s q b e i f n =
      let j' = submitted_job now j in
      let k' = record k { infiles = j.infiles } in
      let (s', d, m, g, _, _, _) =
        job_lifecycle store j' k ch c w t u (record s { alljobs = put j' s.alljobs }) q b e i in
      (
        s',
        run_call-dispatcher now j ch (fetch w c t u ∷ push k ∷ []) s
            ∙ returned ch s' _ k' _ d m
                (first_reply_pushed ch c (some (start_job u j')) (some k') s.sent f n),
        g,
      )
