-- ===== src/Server/Lifecycle.antt =====
-- The way of one job through the server of cloudlus/server.go.
use cloudlus.Base.{
  ℕ, ◌≡◌, refl, ap, ◌∙◌, false, Option, none, some, List, [], ◌∷◌, ◌++◌, ◌==◌, if◌then◌else◌,
  lookup, keep, lookup-insert, lookup-remove, arith,
}
use cloudlus.Time.{Time}
use cloudlus.Job.{Job, JobId, IsId, WorkerId}
use cloudlus.Store.{JobStore, saved, get-put_if}
use cloudlus.Server.{Server, job_to, closed, is_banned}
use cloudlus.Server.Finish.{clean_queue, notify, finish_job}
use cloudlus.Server.Dispatch.{
  submit, fetch, push, next, start_job, restore, refresh, accept, hand_out, serve, receive, select,
  round, dispatcher,
}

pick : (i k : JobId) (a b : Option Job) → i ≡ k → (if i == k then a else b) ≡ a
pick i k a b e = ground (arith, e)

module _ (store : JobStore) where
  open store use {Db, put, get}

  serve_head :
      (w : WorkerId) (c : ℕ) (t u : Time) (s : Server Db) (q : List Job)
      → is_banned w s.worker_failures ≡ false
      → s.queue ≡ q
      → serve store w c t u s ≡ hand_out store w c t u s q
  unfolding serve hand_out
  serve_head w c t u s q b e = rw (b, e) refl

  -- The messages after a push, for a running job that a client waits for.
  receive_running :
      (k j : Job) (ch : ℕ) (s : Server Db)
      → lookup k.id s.running ≡ some j
      → lookup k.id s.submitchans ≡ some ch
      → let k' = record k { infiles = j.infiles } in
        ((receive store k s).sent ≡ closed ch ∷ job_to ch (some k') ∷ s.sent)
        × ((receive store k s).alljobs ≡ put k' s.alljobs)
  unfolding receive restore finish_job notify
  receive_running k j ch s r w = (rw (r, w) refl, rw r refl)

  -- On a server with an empty queue, a job that is submitted, fetched by a worker that is not banned,
  -- and pushed with the same identifier, ends like this: the worker got the job with the status
  -- running, the waiting client got the pushed job with the input files of the submitted one and
  -- then the end of its channel, the database has this job, and the job is neither queued nor
  -- running nor waited for.
  pub job_lifecycle :
      (j k : Job) (ch c : ℕ) (w : WorkerId) (t u : Time) (s : Server Db)
      → s.queue ≡ []
      → is_banned w s.worker_failures ≡ false
      → k.id ≡ j.id
      → IsId j.id
      → let k' = record k { infiles = j.infiles } in
        (s' : Server Db) × (dispatcher store (submit j (some ch) ∷ fetch w c t u ∷ push k ∷ []) s
          ≡ next s')
        × (s'.sent ≡ closed ch ∷ job_to ch (some k') ∷ job_to c (some (start_job u j)) ∷ s.sent)
        × (get j.id s'.alljobs ≡ some (saved k'))
        × (s'.queue ≡ [])
        × (lookup j.id s'.running ≡ none)
        × (lookup j.id s'.submitchans ≡ none)
  unfolding dispatcher round select accept hand_out start_job refresh receive finish_job clean_queue
      keep
  job_lifecycle j k ch c w t u s e b same p =
      let k' = record k { infiles = j.infiles } in
      let s1 = refresh store (accept store j (some ch) (refresh store s)) in
      let s2 = refresh store (hand_out store w c t u s1 (j ∷ [])) in
      let r : lookup k.id s2.running ≡ some (start_job u j) =
        ground (arith, same, lookup-insert j.id k.id (start_job u j) s.running) in
      let v : lookup k.id s2.submitchans ≡ some ch =
        ground (arith, same, lookup-insert j.id k.id ch s.submitchans) in
      let (m, d) = receive_running k (start_job u j) ch s2 r v in
      (
        receive store k s2,
        ap (λ (x : Server Db). next (receive store k (refresh store x)))
            (serve_head w c t u s1 (j ∷ []) b (ap (λ (q : List Job). q ++ (j ∷ [])) e)),
        m,
        ap (get j.id) d
            ∙ get-put_if store j.id k' s2.alljobs (rw same p) p
            ∙ pick k.id j.id _ _ same,
        refl,
        ground (arith, same, lookup-remove k.id j.id s2.running),
        ground (arith, same, lookup-remove k.id j.id s2.submitchans),
      )
