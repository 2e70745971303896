-- ===== src/Server/Silence.antt =====
-- `checkbeat` of cloudlus/server.go: which jobs go back to the queue.
use cloudlus.Base.{
  ◌≡◌, ◌≢◌, sym, ap, ◌∙◌, true, false, ◌⊎◌, inl, inr, Option, none, some, List, [], ◌∷◌, ◌==◌,
  ==_iff, lookup, arith, Bool-cases,
}
use cloudlus.Time.{Time}
use cloudlus.Job.{named, Job, JobId, IsId}
use cloudlus.Store.{JobStore}
use cloudlus.Server.{Server, Beat}
use cloudlus.Server.Beats.{check_one, check_beats, check_waiters, checkbeat}
use cloudlus.Server.Invariant.{has, IsSound}
use cloudlus.Server.Invariant.Steps.{requeue-IsSound}
use cloudlus.Server.Invariant.Checks.{IsSome, check_beats-IsSome, check_waiters_none}
use cloudlus.Server.Requeue.{
  OnSome, OnSome-chain, is_silent, Requeued, Assigned, requeue_self, requeue_other,
  requeue-Assigned, check_one_rule, label_of,
}

module _ (store : JobStore) where
  open store use {Db, put, get, get-put, get-put_ne}

  -- A job that was requeued stays so.
  abbrev Done : JobId → Job → Server Db → Type 0
  Done i j s = IsSound s × IsId i × Requeued store i j s

  check_one-Done :
      (now : Time) (i k : JobId) (j : Job) (s : Server Db)
      → Done i j s
      → OnSome (Done i j) (check_one store now k s)
  check_one-Done now i k j s (v, q, h) =
      check_one_rule store (Done i j) now k s (λ b e a. (v, q, h)) (λ e. (v, q, h))
        λ b l e late r.
          let (name, p) = label_of store k l s v r in
          (
            requeue-IsSound store k l s r v,
            q,
            requeue_other store i k j l s name p q (λ same. unfold has in ground arith) h,
          )

  check_beats-Done :
      (now : Time) (i : JobId) (j : Job) (ks : List JobId) (s : Server Db)
      → Done i j s
      → OnSome (Done i j) (check_beats store now ks s)
  unfolding check_beats
  check_beats-Done now i j [] s h = h
  check_beats-Done now i j (k ∷ ks) s h =
      OnSome-chain (Done i j) (Done i j) (check_one store now k s) (check_beats store now ks)
        (check_one-Done now i k j s h) (check_beats-Done now i j ks)

  abbrev Waits : JobId → Beat → Job → Server Db → Type 0
  Waits i b j s = IsSound s × Assigned store i b j s

  check_one-Waits :
      (now : Time) (i k : JobId) (b : Beat) (j : Job) (s : Server Db)
      → (i ≢ k) ⊎ (is_silent now b ≡ false)
      → Waits i b j s
      → OnSome (Waits i b j) (check_one store now k s)
  check_one-Waits now i k b j s n (v, h) =
      check_one_rule store (Waits i b j) now k s (λ c e a. (v, h)) (λ e. (v, h))
        λ c l e late r. (
          requeue-IsSound store k l s r v,
          requeue-Assigned store i k b j l s (λ same. differ c e late same n) h,
        )
    where
      differ :
          (c : Beat)
          → lookup k s.jobinfo ≡ some c
          → is_silent now c ≡ true
          → i ≡ k
          → (i ≢ k) ⊎ (is_silent now b ≡ false)
          → ⊥
      differ c e late same (inl m) = m same
      differ c e late same (inr fine) =
          let found : some c ≡ some b = sym e ∙ ap (λ x. lookup x s.jobinfo) (sym same) ∙ h.0 in
          ground arith

  check_one_self :
      (now : Time) (i : JobId) (b : Beat) (j : Job) (s : Server Db)
      → is_silent now b ≡ true
      → Waits i b j s
      → OnSome (Done i j) (check_one store now i s)
  unfolding check_one
  check_one_self now i b j s late (v, (e, r)) =
      rw (e, check_one, late, r)
        (
          requeue-IsSound store i j s r v,
          (label_of store i j s v r).1,
          requeue_self store i j s (label_of store i j s v r).0 (label_of store i j s v r).1,
        )

  check_beats_silent :
      (now : Time) (i : JobId) (b : Beat) (j : Job) (ks : List JobId) (s : Server Db)
      → is_silent now b ≡ true
      → named i ks ≡ true
      → Waits i b j s
      → OnSome (Done i j) (check_beats store now ks s)
  unfolding check_beats named
  check_beats_silent now i b j [] s late n h = absurd (ground arith)
  check_beats_silent now i b j (k ∷ ks) s late n h = elim (Bool-cases (i == k)) [
    | inl same ↦
        OnSome-chain (Done i j) (Done i j) (check_one store now k s) (check_beats store now ks)
          (rw (← (==_iff i k).0 same) (check_one_self now i b j s late h))
          (check_beats-Done now i j ks)
    | inr other ↦
        OnSome-chain (Waits i b j) (Done i j) (check_one store now k s) (check_beats store now ks)
          (check_one-Waits now i k b j s (inl (λ same. ground arith)) h)
          (λ s' h'. check_beats_silent now i b j ks s' late (rw other at n) h')
  ]

  check_beats_alive :
      (now : Time) (i : JobId) (b : Beat) (j : Job) (ks : List JobId) (s : Server Db)
      → is_silent now b ≡ false
      → Waits i b j s
      → OnSome (Waits i b j) (check_beats store now ks s)
  unfolding check_beats
  check_beats_alive now i b j [] s fine h = h
  check_beats_alive now i b j (k ∷ ks) s fine h =
      OnSome-chain (Waits i b j) (Waits i b j) (check_one store now k s) (check_beats store now ks)
        (check_one-Waits now i k b j s (inr fine) h)
        (λ s' h'. check_beats_alive now i b j ks s' fine h')

  finish_check :
      (P : Server Db → Type 0) (now : Time) (ks ws : List JobId) (s : Server Db)
      → IsSound s
      → OnSome (λ t. IsSound t × P t) (check_beats store now ks s)
      → (s' : Server Db) × (checkbeat store now ks ws s ≡ some s') × P s'
  unfolding checkbeat
  finish_check P now ks ws s v h =
      go (check_beats store now ks s) (check_beats-IsSome store now ks s v) h
    where
      go :
          (r : Option (Server Db))
          → IsSome r
          → OnSome (λ t. IsSound t × P t) r
          → (s' : Server Db) × ((elim r [ none ↦ none | some t ↦ some (check_waiters store ws t) ])
              ≡ some s')
            × P s'
      go none a b = absurd a
      go (some t) a b = (t, ap some (check_waiters_none store ws t a), b.1)

  -- In a sound server, when the check visits a running job whose worker has been silent for more
  -- than the limit, the job is taken off both run lists, is in the queue, and is stored as queued.
  -- The check ends without a panic.
  pub checkbeat_requeues :
      (now : Time) (ks ws : List JobId) (i : JobId) (b : Beat) (j : Job) (s : Server Db)
      → IsSound s
      → Assigned store i b j s
      → named i ks ≡ true
      → is_silent now b ≡ true
      → (s' : Server Db) × (checkbeat store now ks ws s ≡ some s') × Requeued store i j s'
  checkbeat_requeues now ks ws i b j s v h n late =
      let (s', e, done) =
        finish_check (λ t. IsId i × Requeued store i j t) now ks ws s v
          (OnSome-regroup _ (check_beats_silent now i b j ks s late n (v, h))) in
      (s', e, done.1)
    where
      OnSome-regroup :
          (r : Option (Server Db))
          → OnSome (Done i j) r
          → OnSome (λ t. IsSound t × (IsId i × Requeued store i j t)) r
      OnSome-regroup none d = tt
      OnSome-regroup (some t) (v, p, d) = (v, (p, d))

  -- A job whose worker was heard from within the limit keeps its worker, whatever else the check
  -- finds.
  checkbeat_keeps :
      (now : Time) (ks ws : List JobId) (i : JobId) (b : Beat) (j : Job) (s : Server Db)
      → IsSound s
      → Assigned store i b j s
      → is_silent now b ≡ false
      → (s' : Server Db) × (checkbeat store now ks ws s ≡ some s') × Assigned store i b j s'
  checkbeat_keeps now ks ws i b j s v h fine =
      finish_check (Assigned store i b j) now ks ws s v
        (check_beats_alive now i b j ks s fine (v, h))
