-- ===== src/Server/Places.antt =====
-- The dispatcher of cloudlus/server.go as one small machine for each job.
pub mod Journeys
use cloudlus.Base.{
  ℕ, ◌≡◌, refl, sym, ap, ◌∙◌, Bool, true, false, not, ◌&&◌, ◌||◌, ◌⊎◌, inl, inr, Option, none, some,
  List, [], ◌∷◌, ◌==◌, ==_iff, if◌then◌else◌, lookup, insert, arith, Bool-cases, Option-cases,
}
use cloudlus.Time.{Time}
use cloudlus.Job.{Job, JobId, WorkerId, failed}
use cloudlus.Store.{JobStore}
use cloudlus.Server.{Server, Beat, is_banned}
use cloudlus.Server.Finish.{finish_job}
use cloudlus.Server.Beats.{
  in_queue, is_overdue, requeue, check_one, check_beats, check_timeout, heartbeat,
}
use cloudlus.Server.Dispatch.{
  Event, tick, reset, kill, submit, retrieve, push, fetch, beat, restore, start_job, finish_all,
  reset_queue, accept, receive, hand_out, serve,
}
use cloudlus.Server.Queue.{AllQueued, in_queue-append, in_queue-clean_queue}
use cloudlus.Server.Invariant.{has, IsSound}
use cloudlus.Server.Invariant.Steps.{has-remove, has-insert, has_of_some, requeue-IsSound}
use cloudlus.Server.Invariant.Requests.{finish_all_keys}
use cloudlus.Server.Requeue.{OnSome, OnSome-chain, check_one_rule, label_of}
use cloudlus.Server.Pending.{restore-id}

-- Where a job is: in the queue, with a worker, in both (when it was submitted again), or in none.
pub record Place : Type 0 where
  pub in_line : Bool
  pub at_worker : Bool

abbrev pub place_of : Bool → Bool → Place
place_of q r = record { in_line = q; at_worker = r }

unfoldable pub place : {D : Type 0} → JobId → Server D → Place
place i s = place_of (in_queue i s.queue) (has i s.running)

-- What a request may do to the place of a job.
abbrev pub Move : JobId → Event → Place → Place → Type 0
Move i (tick now ks ws) p p' = (p' ≡ p) ⊎ ((p.at_worker ≡ true) × (p' ≡ place_of true false))
Move i reset p p' = p' ≡ place_of false (not p.in_line && p.at_worker)
Move i kill p p' = p' ≡ p
Move i (submit j ch) p p' = p' ≡ place_of (p.in_line || i == j.id) p.at_worker
Move i (retrieve k ch) p p' = p' ≡ p
Move i (push j) p p' = p' ≡ (if i == j.id then place_of false false else p)
Move i (fetch w ch t u) p p' = (p' ≡ p) ⊎ ((p.in_line ≡ true) × (p'.at_worker ≡ true))
Move i (beat now b) p p' =
    (p' ≡ p) ⊎ ((i ≡ b.job_id) × (p.at_worker ≡ true) × (p' ≡ place_of false false))

place_eq : {a b c d : Bool} → a ≡ c → b ≡ d → place_of a b ≡ place_of c d
place_eq e f = cc

module _ (store : JobStore) where
  open store use {Db}

  pub finish_job-place :
      (i k : JobId) (j : Job) (s : Server Db)
      → j.id ≡ k
      → AllQueued s.queue
      → place i (finish_job store j s) ≡ (if i == k then place_of false false else place i s)
  unfolding place finish_job
  finish_job-place i k j s e h = rw (← e) (elim (Bool-cases (i == j.id)) [
    | inl same ↦ rw same (
        place_eq (ground (arith, in_queue-clean_queue i j.id s.queue h))
          (ground (arith, has-remove j.id i s.running)))
    | inr other ↦ rw other (
        place_eq (ground (arith, in_queue-clean_queue i j.id s.queue h))
          (ground (arith, has-remove j.id i s.running)))
  ])

  -- Soundness, and the place of the job since the check began.
  abbrev pub Checked : JobId → Place → Server Db → Type 0
  Checked i p s =
      IsSound s × ((place i s ≡ p) ⊎ ((p.at_worker ≡ true) × (place i s ≡ place_of true false)))

  requeue_self-place :
      (i : JobId) (j : Job) (s : Server Db)
      → j.id ≡ i
      → place i (requeue store i j s) ≡ place_of true false
  unfolding place requeue in_queue
  requeue_self-place i j s e = place_eq (ground arith) (ground (arith, has-remove i i s.running))

  requeue_other-place :
      (i k : JobId) (j : Job) (s : Server Db)
      → j.id ≡ k
      → (i == k) ≡ false
      → place i (requeue store k j s) ≡ place i s
  unfolding place requeue in_queue
  requeue_other-place i k j s e n =
      place_eq (ground arith) (ground (arith, has-remove k i s.running))

  was_running :
      (i : JobId) (p : Place) (s : Server Db)
      → has i s.running ≡ true
      → (place i s ≡ p) ⊎ ((p.at_worker ≡ true) × (place i s ≡ place_of true false))
      → p.at_worker ≡ true
  unfolding place
  was_running i p s f (inl e) = sym (ap (λ (q : Place). q.at_worker) e) ∙ f
  was_running i p s f (inr (a, e)) = a

  requeue-place :
      (i k : JobId) (j : Job) (p : Place) (s : Server Db)
      → j.id ≡ k
      → has k s.running ≡ true
      → (place i s ≡ p) ⊎ ((p.at_worker ≡ true) × (place i s ≡ place_of true false))
      → (place i (requeue store k j s) ≡ p)
        ⊎ ((p.at_worker ≡ true) × (place i (requeue store k j s) ≡ place_of true false))
  requeue-place i k j p s e f h = elim (Bool-cases (i == k)) [
    | inl same ↦
        let here = (==_iff i k).0 same in
        inr (was_running i p s (rw here f) h, rw (← here) (requeue_self-place i j s (e ∙ sym here)))
    | inr other ↦ rw (requeue_other-place i k j s e other) h
  ]

  check_one-Checked :
      (now : Time) (i k : JobId) (p : Place) (s : Server Db)
      → Checked i p s
      → OnSome (Checked i p) (check_one store now k s)
  check_one-Checked now i k p s (v, h) =
      check_one_rule store (Checked i p) now k s (λ b e a. (v, h)) (λ e. (v, h))
        λ b j e late r. (
          requeue-IsSound store k j s r v,
          requeue-place i k j p s (label_of store k j s v r).0 (has_of_some k s.running r) h,
        )

  pub check_beats-Checked :
      (now : Time) (i : JobId) (p : Place) (ks : List JobId) (s : Server Db)
      → Checked i p s
      → OnSome (Checked i p) (check_beats store now ks s)
  unfolding check_beats
  check_beats-Checked now i p [] s h = h
  check_beats-Checked now i p (k ∷ ks) s h =
      OnSome-chain (Checked i p) (Checked i p) (check_one store now k s) (check_beats store now ks)
        (check_one-Checked now i k p s h) (check_beats-Checked now i p ks)

  pub reset-place :
      (i : JobId) (s : Server Db) → Move i reset (place i s) (place i (reset_queue store s))
  unfolding place reset_queue in_queue
  reset-place i s = place_eq refl (ground (arith, finish_all_keys store i s.queue s))

  pub accept-place :
      (i : JobId) (j : Job) (ch : Option ℕ) (s : Server Db)
      → Move i (submit j ch) (place i s) (place i (accept store j ch s))
  unfolding place accept in_queue
  accept-place i j none s = place_eq (ground (arith, in_queue-append i s.queue (j ∷ []))) refl
  accept-place i j (some c) s = place_eq (ground (arith, in_queue-append i s.queue (j ∷ []))) refl

  pub receive-place :
      (i : JobId) (j : Job) (s : Server Db)
      → AllQueued s.queue
      → Move i (push j) (place i s) (place i (receive store j s))
  unfolding receive place
  receive-place i j s h =
      finish_job-place i j.id (restore (lookup j.id s.running) j) (record s { worker_failures = _ })
        (restore-id store (lookup j.id s.running) j) h

  hand_out-place :
      (i : JobId) (w : WorkerId) (ch : ℕ) (t u : Time) (s : Server Db) (q : List Job)
      → s.queue ≡ q
      → Move i (fetch w ch t u) (place i s) (place i (hand_out store w ch t u s q))
  unfolding hand_out place in_queue
  hand_out-place i w ch t u s [] e = inl refl
  hand_out-place i w ch t u s (j ∷ js) e = elim (Bool-cases (i == j.id)) [
    | inl mine ↦
        inr
          (rw (e, in_queue, mine) refl, ground (arith, has-insert j.id i (start_job u j) s.running))
    | inr other ↦ inl (
        place_eq (rw (e, in_queue, other) refl)
          (ground (arith, has-insert j.id i (start_job u j) s.running)))
  ]

  pub serve-place :
      (i : JobId) (w : WorkerId) (ch : ℕ) (t u : Time) (s : Server Db)
      → Move i (fetch w ch t u) (place i s) (place i (serve store w ch t u s))
  unfolding serve place
  serve-place i w ch t u s = elim (Bool-cases (is_banned w s.worker_failures)) [
    | inl banned ↦ rw banned (inl refl)
    | inr free ↦ rw free (hand_out-place i w ch t u s s.queue refl)
  ]
