-- ===== src/Server/Order.antt =====
-- The order in which the server of cloudlus/server.go hands jobs out.
use cloudlus.Base.{
  ℕ, ◌≡◌, refl, sym, ap, ◌∙◌, false, some, List, [], ◌∷◌, ◌++◌, map, All, length, arith,
}
use mathlib.Core.List.{append_assoc, append-nil}
use cloudlus.Time.{Time}
use cloudlus.Job.{Job, WorkerId}
use cloudlus.Store.{JobStore}
use cloudlus.Server.{Server, Message, job_to, is_banned}
use cloudlus.Server.Dispatch.{
  Event, submit, fetch, Outcome, next, start_job, refresh, accept, hand_out, serve, select, round,
  dispatcher,
}

-- A request for work: the worker, its channel, and the times of the beat and of the fetch.
pub record Request : Type 0 where
  pub worker : WorkerId
  pub channel : ℕ
  pub beat_at : Time
  pub fetched_at : Time

abbrev pub fetch_of : Request → Event
fetch_of r = fetch r.worker r.channel r.beat_at r.fetched_at

-- The messages that answer requests with jobs, one by one, on top of earlier ones.
abbrev pub replies : List Request → List Job → List Message → List Message
replies (r ∷ rs) (j ∷ js) ms =
    replies rs js (job_to r.channel (some (start_job r.fetched_at j)) ∷ ms)
replies _ _ ms = ms

-- A job with the channel on which its client waits, and how `Start` submits it.
abbrev pub Submission : Type 0
Submission = Job × ℕ

abbrev pub submit_of : Submission → Event
submit_of p = submit p.0 (some p.1)

abbrev pub jobs_of : List Submission → List Job
jobs_of js = map (λ p. p.0) js

-- What a run did to the queue, the messages and the failures of workers.
abbrev pub Left :
    {D : Type 0} → List Job → List Message → List (ℕ × ℕ) → Outcome (Server D) → Type 0
Left q ms m (next s) = (s.queue ≡ q) × (s.sent ≡ ms) × (s.worker_failures ≡ m)
Left q ms m _ = ⊥

module _ (store : JobStore) where
  open store use {Db}

  submits_append :
      (js : List Submission) (s : Server Db) (es : List Event) (q : List Job)
      → s.queue ≡ q
      → (s' : Server Db) × (dispatcher store (map submit_of js ++ es) s ≡ dispatcher store es s')
        × (s'.queue ≡ q ++ jobs_of js)
        × (s'.sent ≡ s.sent)
        × (s'.worker_failures ≡ s.worker_failures)
  unfolding dispatcher round refresh select accept
  submits_append [] s es q e = (s, refl, e ∙ sym (append-nil q), refl, refl)
  submits_append ((j, ch) ∷ js) s es q e =
      let (s', d, a, b, c) =
        submits_append js (accept store j (some ch) (refresh store s)) es (q ++ j ∷ [])
          (ap (λ x. x ++ j ∷ []) e) in
      (s', d, a ∙ append_assoc q (j ∷ []) (jobs_of js), b, c)

  serve_head :
      (r : Request) (j : Job) (js : List Job) (s : Server Db)
      → is_banned r.worker s.worker_failures ≡ false
      → s.queue ≡ j ∷ js
      → let s' = serve store r.worker r.channel r.beat_at r.fetched_at (refresh store s) in
        (s'.queue ≡ js)
        × (s'.sent ≡ job_to r.channel (some (start_job r.fetched_at j)) ∷ s.sent)
        × (s'.worker_failures ≡ s.worker_failures)
  unfolding serve hand_out refresh
  serve_head r j js s h e = ground arith

  fetches_take :
      (rs : List Request) (js rest : List Job) (s : Server Db) (ms : List Message)
      (m : List (ℕ × ℕ))
      → length rs ≡ length js
      → All (λ r. is_banned r.worker m ≡ false) rs
      → s.queue ≡ js ++ rest
      → s.sent ≡ ms
      → s.worker_failures ≡ m
      → Left rest (replies rs js ms) m (dispatcher store (map fetch_of rs) s)
  unfolding dispatcher round refresh select
  fetches_take [] [] rest s ms m n h e a b = (e, a, b)
  fetches_take [] (j ∷ js) rest s ms m n h e a b = absurd (omega arith)
  fetches_take (r ∷ rs) [] rest s ms m n h e a b = absurd (omega arith)
  fetches_take (r ∷ rs) (j ∷ js) rest s ms m n h e a b =
      let (q, c, f) = serve_head r j (js ++ rest) s (rw b h.0) e in
      let reply = job_to r.channel (some (start_job r.fetched_at j)) in
      fetches_take rs js rest
        (serve store r.worker r.channel r.beat_at r.fetched_at (refresh store s)) (reply ∷ ms) m
        (omega arith) h.1 q (c ∙ ap (◌∷◌ reply) a) (f ∙ b)

  -- Workers that are not banned empty the queue: whatever the state of the server, when jobs are
  -- submitted, each with the channel on which its client waits, and as many requests for work follow as jobs then wait, each request is answered
  -- with a job, first those that waited before and then the new ones in the order of their submission.
  pub drained_in_order :
      (js : List Submission) (rs : List Request) (s : Server Db)
      → length rs ≡ length (s.queue ++ jobs_of js)
      → All (λ r. is_banned r.worker s.worker_failures ≡ false) rs
      → Left []
          (replies rs (s.queue ++ jobs_of js) s.sent)
          s.worker_failures
          (dispatcher store (map submit_of js ++ map fetch_of rs) s)
  drained_in_order js rs s n h =
      let (s', e, q, m, f) = submits_append js s (map fetch_of rs) s.queue refl in
      rw e (
        fetches_take rs (s.queue ++ jobs_of js) [] s' s.sent s.worker_failures n h
          (q ∙ sym (append-nil (s.queue ++ jobs_of js))) m f)
