-- ===== src/Server/Reset.antt =====
-- The reset of the queue in cloudlus/server.go: what it does to the jobs in the queue and to others.
use cloudlus.Base.{
  ℕ, ◌+◌, ◌≡◌, refl, sym, ap, ◌∙◌, ◌⊎◌, inl, inr, Bool, true, false, Option, none, some, List, [],
  ◌∷◌, ◌==◌, if◌then◌else◌, lookup, lookup-remove, arith, length, Bool-cases, Option-cases, ==_iff,
}
use cloudlus.Job.{Job, JobId, IsId, failed}
use cloudlus.Store.{JobStore, saved, get-put_if}
use cloudlus.Server.{Server, Message, job_to, closed}
use cloudlus.Server.Finish.{finish_job, notify}
use cloudlus.Server.Beats.{in_queue}
use cloudlus.Server.Dispatch.{reset_job, finish_all, reset_queue}
use cloudlus.Server.Queue.{AllQueued}
use cloudlus.Server.Invariant.{has, IsSound}
use cloudlus.Server.Invariant.Requests.{finish_all_keys}

-- Whether a message was sent.
abbrev pub Sent : Message → List Message → Type 0
Sent m [] = ⊥
Sent m (x ∷ xs) = (m ≡ x) ⊎ Sent m xs

-- A failed job was sent on a channel, and the channel was closed after it.
abbrev pub GotFailed : ℕ → List Message → Type 0
GotFailed ch ms =
    (j : Job) × (j.status ≡ failed) × Sent (job_to ch (some j)) ms × Sent (closed ch) ms

-- The client on a channel, if there is one, got a failed job and the end of the channel.
abbrev pub WasTold : Option ℕ → List Message → Type 0
WasTold none ms = Unit
WasTold (some ch) ms = GotFailed ch ms

-- The database has a failed job under an identifier.
abbrev pub StoredFailed : Option Job → Type 0
StoredFailed none = ⊥
StoredFailed (some j) = j.status ≡ failed

module _ (store : JobStore) where
  open store use {Db, put, get, get-put, get-put_ne}

  get-finish_job :
      (j : Job) (i : JobId) (s : Server Db)
      → IsId j.id
      → IsId i
      → get i (finish_job store j s).alljobs
        ≡ (if j.id == i then some (saved j) else get i s.alljobs)
  unfolding finish_job
  get-finish_job j i s p q = get-put_if store i j s.alljobs p q

  finish_all_other :
      (i : JobId) (js : List Job) (s : Server Db)
      → IsId i
      → AllQueued js
      → in_queue i js ≡ false
      → (lookup i (finish_all store js s).running ≡ lookup i s.running)
        × (lookup i (finish_all store js s).submitchans ≡ lookup i s.submitchans)
        × (get i (finish_all store js s).alljobs ≡ get i s.alljobs)
  unfolding finish_all in_queue finish_job reset_job
  finish_all_other i [] s p q h = (refl, refl, refl)
  finish_all_other i (j ∷ js) s p q h = ground (
    arith,
    finish_all_other i js (finish_job store (reset_job j) s) p q.1,
    get-finish_job (reset_job j) i s q.0.1 p,
    lookup-remove j.id i s.running,
    lookup-remove j.id i s.submitchans,
  )

  finish_all_stored :
      (i : JobId) (js : List Job) (s : Server Db)
      → IsId i
      → AllQueued js
      → (in_queue i js ≡ true) ⊎ StoredFailed (get i s.alljobs)
      → StoredFailed (get i (finish_all store js s).alljobs)
  unfolding finish_all in_queue
  finish_all_stored i [] s p q (inl h) = cc
  finish_all_stored i [] s p q (inr h) = h
  finish_all_stored i (j ∷ js) s p q h =
      finish_all_stored i js _ p q.1
        (unfold reset_job in ground (arith, get-finish_job (reset_job j) i s q.0.1 p))

  Sent-notify :
      (m : Message) (w : Option ℕ) (r : Option Job) (ms : List Message)
      → Sent m ms
      → Sent m (notify w r ms)
  unfolding notify
  Sent-notify m none r ms h = h
  Sent-notify m (some ch) r ms h = inr (inr h)

  Sent-finish_all :
      (m : Message) (js : List Job) (s : Server Db)
      → Sent m s.sent
      → Sent m (finish_all store js s).sent
  unfolding finish_all finish_job
  Sent-finish_all m [] s h = h
  Sent-finish_all m (j ∷ js) s h =
      Sent-finish_all m js _ (Sent-notify m (lookup j.id s.submitchans) _ s.sent h)

  notify_failed :
      (ch : ℕ) (j : Job) (w : Option ℕ) (ms : List Message)
      → w ≡ some ch
      → j.status ≡ failed
      → GotFailed ch (notify w (some j) ms)
  unfolding notify
  notify_failed ch j none ms e f = absurd (ground arith)
  notify_failed ch j (some c) ms e f = (j, f, inr (inl (ground arith)), inl (ground arith))

  finish_all_delivered :
      (i : JobId) (ch : ℕ) (js : List Job) (s : Server Db)
      → in_queue i js ≡ true
      → lookup i s.submitchans ≡ some ch
      → GotFailed ch (finish_all store js s).sent
  unfolding finish_all finish_job reset_job
  finish_all_delivered i ch [] s h e = unfold in_queue in absurd (ground arith)
  finish_all_delivered i ch (j ∷ js) s h e = elim (Bool-cases (i == j.id)) [
    | inl same ↦
        let (k, f, a, b) =
          notify_failed ch (reset_job j) (lookup j.id s.submitchans) s.sent
            (ap (λ x. lookup x s.submitchans) (sym ((==_iff i j.id).0 same)) ∙ e) refl in
        (k, f, Sent-finish_all _ js _ a, Sent-finish_all _ js _ b)
    | inr other ↦
        finish_all_delivered i ch js (finish_job store (reset_job j) s)
          (unfold in_queue in rw other at h) (ground (arith, lookup-remove j.id i s.submitchans))
  ]

  finish_all_told :
      (i : JobId) (js : List Job) (s : Server Db)
      → in_queue i js ≡ true
      → WasTold (lookup i s.submitchans) (finish_all store js s).sent
  finish_all_told i js s h = elim (Option-cases (lookup i s.submitchans)) [
    | inl e ↦ rw e tt
    | inr (ch, e) ↦ rw e (finish_all_delivered i ch js s h e)
  ]

  nfailed-finish_all :
      (js : List Job) (s : Server Db)
      → (finish_all store js s).stats.nfailed ≡ s.stats.nfailed + length js
  unfolding finish_all finish_job reset_job
  nfailed-finish_all [] s = omega arith
  nfailed-finish_all (j ∷ js) s = omega (arith, nfailed-finish_all js _)

  -- What a reset did to an identifier, for whether it was in the queue.
  abbrev pub AfterReset : JobId → Server Db → Server Db → Bool → Type 0
  AfterReset i s s' true =
      StoredFailed (get i s'.alljobs)
      × WasTold (lookup i s.submitchans) s'.sent
      × (has i s'.submitchans ≡ false)
      × (has i s'.running ≡ false)
  AfterReset i s s' false =
      (lookup i s'.running ≡ lookup i s.running)
      × (lookup i s'.submitchans ≡ lookup i s.submitchans)
      × (get i s'.alljobs ≡ get i s.alljobs)

  -- A reset of a sound server leaves the queue empty and counts each job that was in it as failed.
  -- For each identifier in the queue the database then has a failed job, the client that waits for
  -- it, if there is one, got a failed job and the end of its channel, and it is neither waited for
  -- nor running any more. For any other identifier the running job, the client that waits for it and
  -- the job in the database are as before.
  pub reset_queued :
      (i : JobId) (s : Server Db)
      → IsSound s
      → IsId i
      → let s' = reset_queue store s in
        (s'.queue ≡ [])
        × (s'.stats.nfailed ≡ s.stats.nfailed + length s.queue)
        × AfterReset i s s' (in_queue i s.queue)
  unfolding reset_queue
  reset_queued i s v p = (
    refl,
    nfailed-finish_all s.queue s,
    elim (Bool-cases (in_queue i s.queue)) [
      | inr h ↦ rw h (finish_all_other i s.queue s p v.all_queued h)
      | inl h ↦
          (let (w, r) = finish_all_keys store i s.queue s in
            rw h (
              finish_all_stored i s.queue s p v.all_queued (inl h),
              finish_all_told i s.queue s h,
              rw h at w,
              rw h at r,
            ))
    ],
  )
