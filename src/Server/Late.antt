-- ===== src/Server/Late.antt =====
-- How the server of cloudlus/server.go counts a job that timed out and is then pushed.
use cloudlus.Base.{◌+◌, ◌≡◌, refl, true, Option, none, some, lookup, arith}
use cloudlus.Time.{Time}
use cloudlus.Job.{Job, failed}
use cloudlus.Store.{JobStore}
use cloudlus.Server.{Server, Beat}
use cloudlus.Server.Finish.{finish_job}
use cloudlus.Server.Beats.{is_overdue, check_timeout, heartbeat}
use cloudlus.Server.Dispatch.{restore, receive}

restore_status : (o : Option Job) (k : Job) → (restore o k).status ≡ k.status
unfolding restore
restore_status none k = refl
restore_status (some j) k = refl

module _ (store : JobStore) where
  open store use {Db}

  nfailed-receive :
      (k : Job) (s : Server Db)
      → k.status ≡ failed
      → (receive store k s).stats.nfailed ≡ s.stats.nfailed + 1
  unfolding receive finish_job
  nfailed-receive k s h = ground (arith, restore_status (lookup k.id s.running) k)

  -- When the heartbeat of a job's worker finds the job overdue, the server counts the job as failed
  -- and tells the worker to kill it; the push of the failed job that follows is counted once more.
  pub overdue_counted_twice :
      (now : Time) (b old : Beat) (j k : Job) (s : Server Db)
      → lookup b.job_id s.jobinfo ≡ some old
      → old.worker_id ≡ b.worker_id
      → lookup b.job_id s.running ≡ some j
      → is_overdue now j ≡ true
      → k.id ≡ j.id
      → k.status ≡ failed
      → (receive store k (heartbeat store now b s)).stats.nfailed ≡ s.stats.nfailed + 2
  overdue_counted_twice now b old j k s a w r late i f =
      omega (arith, nfailed-receive k (heartbeat store now b s) f, first)
    where
      first : (heartbeat store now b s).stats.nfailed ≡ s.stats.nfailed + 1
      first = unfold heartbeat check_timeout finish_job in ground arith
