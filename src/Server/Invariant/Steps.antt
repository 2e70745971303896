-- ===== src/Server/Invariant/Steps.antt =====
-- Each step of a round keeps the server sound.
use cloudlus.Base.{
  ℕ, ◌≡◌, refl, true, false, inl, inr, some, [], ◌∷◌, ◌==◌, if◌then◌else◌, Assoc, lookup, insert,
  remove, lookup-remove, lookup-insert, arith, Option-cases,
}
use cloudlus.Job.{Job, JobId}
use cloudlus.Store.{JobStore}
use cloudlus.Server.{Server}
use cloudlus.Server.Finish.{finish_job}
use cloudlus.Server.Beats.{in_queue, requeue}
use cloudlus.Server.Queue.{clean_queue-AllQueued, in_queue-clean_queue}
use cloudlus.Server.Invariant.{has, IsSound}

pub has-remove :
    {V : Type 0} (k i : ℕ) (m : Assoc V) → has i (remove k m) ≡ (if k == i then false else has i m)
unfolding has
has-remove k i m = ground (arith, lookup-remove k i m)

pub has-insert :
    {V : Type 0} (k i : ℕ) (v : V) (m : Assoc V)
    → has i (insert k v m) ≡ (if k == i then true else has i m)
unfolding has
has-insert k i v m = ground (arith, lookup-insert k i v m)

pub has-some : {V : Type 0} (i : ℕ) (m : Assoc V) → has i m ≡ true → (v : V) × (lookup i m ≡ some v)
unfolding has
has-some i m h = elim (Option-cases (lookup i m)) [
  | inl e ↦ absurd (ground arith)
  | inr found ↦ found
]

pub has_of_some : {V : Type 0} (i : ℕ) (m : Assoc V) {v : V} → lookup i m ≡ some v → has i m ≡ true
unfolding has
has_of_some i m e = rw (e, has)

module _ (store : JobStore) where
  open store use {Db}

  pub finish_job-IsSound : (j : Job) (s : Server Db) → IsSound s → IsSound (finish_job store j s)
  unfolding finish_job
  finish_job-IsSound j s v = record {
    synced =
        λ i. ground (arith, has-remove j.id i s.jobinfo, has-remove j.id i s.running, v.synced i);
    labelled = λ i. ground (arith, lookup-remove j.id i s.running, v.labelled i);
    all_queued = clean_queue-AllQueued (j.id ∷ []) s.queue v.all_queued;
    served = λ i. ground (
      arith,
      has-remove j.id i s.submitchans,
      has-remove j.id i s.running,
      in_queue-clean_queue i j.id s.queue v.all_queued,
      v.served i,
    );
  }

  pub requeue-IsSound :
      (i : JobId) (j : Job) (s : Server Db)
      → lookup i s.running ≡ some j
      → IsSound s
      → IsSound (requeue store i j s)
  unfolding requeue in_queue
  requeue-IsSound i j s e v =
      let (same, _, k) = rw e at (v.labelled i) in
      record {
        synced =
            λ k. ground (arith, has-remove i k s.jobinfo, has-remove i k s.running, v.synced k);
        labelled = λ k. ground (arith, lookup-remove i k s.running, v.labelled k);
        all_queued = ((refl, rw same k), v.all_queued);
        served = λ k. ground (arith, has-remove i k s.running, v.labelled i, v.served k);
      }
