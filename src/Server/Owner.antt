-- ===== src/Server/Owner.antt =====
-- Which worker of a job the server of cloudlus/server.go lets go on.
use cloudlus.Base.{
  ◌≡◌, ◌≢◌, inl, inr, true, false, not, List, ◌∷◌, All, ◌==◌, lookup, lookup-insert, arith,
  Bool-cases, Option-cases,
}
use cloudlus.Time.{Time}
use cloudlus.Store.{JobStore}
use cloudlus.Server.{Server, Beat, kill_to}
use cloudlus.Server.Beats.{heartbeat}
use cloudlus.Server.Dispatch.{Event, next, dispatcher}
use cloudlus.Server.Foreign.{
  IsForeign, IsNoFetch, OnNext, Lacks, check_timeout-Lacks, dispatcher-Lacks,
}
use mathlib.Core.Path.{subst}

module _ (store : JobStore) where
  open store use {Db}

  heartbeat_foreign :
      (u : Time) (c : Beat) (s : Server Db)
      → IsForeign c (lookup c.job_id s.jobinfo)
      → heartbeat store u c s ≡ record s { sent = kill_to c.kill true ∷ s.sent }
  unfolding heartbeat
  heartbeat_foreign u c s h = ground arith

  heartbeat-IsForeign :
      (t : Time) (b c : Beat) (s : Server Db)
      → (heartbeat store t b s).sent ≡ kill_to b.kill false ∷ s.sent
      → c.job_id ≡ b.job_id
      → c.worker_id ≢ b.worker_id
      → IsForeign c (lookup c.job_id (heartbeat store t b s).jobinfo)
  unfolding heartbeat
  heartbeat-IsForeign t b c s h e n = elim (Option-cases (lookup b.job_id s.jobinfo)) [
    | inl a ↦ absurd (told (rw (a, heartbeat) at h))
    | inr (old, a) ↦ elim (Bool-cases (not (old.worker_id == b.worker_id))) [
      | inl moved ↦ absurd (told (rw (a, heartbeat, moved) at h))
      | inr same ↦ elim (Option-cases (lookup b.job_id s.running)) [
        | inl r ↦ absurd (told (rw (a, heartbeat, same, r) at h))
        | inr (j, r) ↦
            rw (a, heartbeat, same, r)
              (check_timeout-Lacks store c t b j _
                (ground (arith, lookup-insert b.job_id c.job_id b s.jobinfo)))
      ]
    ]
  ]
    where
      told : (kill_to b.kill true ∷ s.sent) ≡ kill_to b.kill false ∷ s.sent → ⊥
      told q = cc

  -- After a worker was told to go on with a job, and then any events among which another worker does
  -- not ask for work, a heartbeat of that other worker for the job is answered with the kill signal
  -- and changes nothing, if the loop still goes on.
  pub heartbeat_exclusive :
      (t u : Time) (b c : Beat) (s s' : Server Db) (es : List Event)
      → (heartbeat store t b s).sent ≡ kill_to b.kill false ∷ s.sent
      → c.job_id ≡ b.job_id
      → c.worker_id ≢ b.worker_id
      → All (IsNoFetch c.worker_id) es
      → dispatcher store es (heartbeat store t b s) ≡ next s'
      → heartbeat store u c s' ≡ record s' { sent = kill_to c.kill true ∷ s'.sent }
  heartbeat_exclusive t u b c s s' es h e n a d = heartbeat_foreign u c s' (
      subst (OnNext (Lacks store c)) d
        (dispatcher-Lacks store c es (heartbeat store t b s) (heartbeat-IsForeign t b c s h e n) a))
