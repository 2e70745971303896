-- ===== src/Server/Requeue.antt =====
-- One job in `checkbeat` of cloudlus/server.go: it goes back to the queue or stays with its worker.
use cloudlus.Base.{
  ◌≡◌, ◌≢◌, Bool, true, false, inl, inr, Option, none, some, lookup, lookup-remove, arith,
  Bool-cases, Option-cases,
}
use cloudlus.Base.Int.{ltb_ℤ}
use cloudlus.Time.{Time, sub_time}
use cloudlus.Job.{Job, JobId, IsId, queued}
use cloudlus.Store.{JobStore, saved, get-put_if}
use cloudlus.Server.{Server, Beat, beat_limit}
use cloudlus.Server.Beats.{in_queue, requeue, check_one}
use cloudlus.Server.Invariant.{has, IsSound}
use cloudlus.Server.Invariant.Steps.{has-remove}

-- A property of the state, if there is one.
abbrev pub OnSome : {S : Type 0} → (S → Type 0) → Option S → Type 0
OnSome P none = Unit
OnSome P (some s) = P s

pub OnSome-chain :
    {S : Type 0} (P Q : S → Type 0) (r : Option S) (f : S → Option S)
    → OnSome P r
    → ((s : S) → P s → OnSome Q (f s))
    → OnSome Q (elim r [ none ↦ none | some s' ↦ f s' ])
OnSome-chain P Q none f h k = tt
OnSome-chain P Q (some s) f h k = k s h

-- Whether a worker has been silent for too long.
abbrev pub is_silent : Time → Beat → Bool
is_silent now b = ltb_ℤ beat_limit (sub_time now b.time)

module _ (store : JobStore) where
  open store use {Db, put, get, get-put, get-put_ne}

  -- The job is off the run lists, in the queue, and in the database with the status queued.
  abbrev pub Requeued : JobId → Job → Server Db → Type 0
  Requeued i j s =
      (has i s.jobinfo ≡ false)
      × (has i s.running ≡ false)
      × (in_queue i s.queue ≡ true)
      × (get i s.alljobs ≡ some (saved (record j { status = queued })))

  -- The job runs under a worker that beat at some time.
  abbrev pub Assigned : JobId → Beat → Job → Server Db → Type 0
  Assigned i b j s = (lookup i s.jobinfo ≡ some b) × (lookup i s.running ≡ some j)

  pub requeue_self :
      (i : JobId) (j : Job) (s : Server Db) → j.id ≡ i → IsId i → Requeued i j (requeue store i j s)
  unfolding requeue in_queue
  requeue_self i j s e p = ground (
    arith,
    has-remove i i s.jobinfo,
    has-remove i i s.running,
    get-put_if store i (record j { status = queued }) s.alljobs (rw e p) p,
  )

  pub requeue_other :
      (i k : JobId) (j l : Job) (s : Server Db)
      → l.id ≡ k
      → IsId k
      → IsId i
      → i ≢ k
      → Requeued i j s
      → Requeued i j (requeue store k l s)
  unfolding requeue in_queue
  requeue_other i k j l s e p q n h = ground (
    arith,
    has-remove k i s.jobinfo,
    has-remove k i s.running,
    get-put_if store i (record l { status = queued }) s.alljobs (rw e p) q,
  )

  pub requeue-Assigned :
      (i k : JobId) (b : Beat) (j l : Job) (s : Server Db)
      → i ≢ k
      → Assigned i b j s
      → Assigned i b j (requeue store k l s)
  unfolding requeue
  requeue-Assigned i k b j l s n h =
      ground (arith, lookup-remove k i s.jobinfo, lookup-remove k i s.running)

  -- The body of the loop leaves the state as it was, unless the worker of a running job is silent.
  pub check_one_rule :
      (P : Server Db → Type 0) (now : Time) (k : JobId) (s : Server Db)
      → ((b : Beat) → lookup k s.jobinfo ≡ some b → is_silent now b ≡ false → P s)
      → (lookup k s.jobinfo ≡ none → P s)
      → ((b : Beat) (j : Job)
          → lookup k s.jobinfo ≡ some b
          → is_silent now b ≡ true
          → lookup k s.running ≡ some j
          → P (requeue store k j s))
      → OnSome P (check_one store now k s)
  unfolding check_one
  check_one_rule P now k s alive absent silent = elim (Option-cases (lookup k s.jobinfo)) [
    | inl e ↦ rw (e, check_one) (absent e)
    | inr (b, e) ↦ elim (Bool-cases (is_silent now b)) [
      | inl late ↦ elim (Option-cases (lookup k s.running)) [
        | inl r ↦ rw (e, check_one, late, r) tt
        | inr (j, r) ↦ rw (e, check_one, late, r) (silent b j e late r)
      ]
      | inr fine ↦ rw (e, check_one, fine) (alive b e fine)
    ]
  ]

  pub label_of :
      (k : JobId) (l : Job) (s : Server Db)
      → IsSound s
      → lookup k s.running ≡ some l
      → (l.id ≡ k) × IsId k
  label_of k l s v r = let (same, _, p) = rw r at (v.labelled k) in (same, p)
