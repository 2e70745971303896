-- ===== src/Server/Invariant.antt =====
-- What holds of the server (cloudlus/server.go) between two rounds of its dispatcher.
pub mod Steps
pub mod Checks
pub mod Requests
pub mod Rounds
use cloudlus.Base.{
  ℕ, ◌≡◌, refl, Bool, true, false, not, ◌||◌, Option, none, some, List, Assoc, lookup,
}
use cloudlus.Job.{Job, JobId, IsId, Status, running}
use cloudlus.Server.{Server, new_server}
use cloudlus.Server.Beats.{in_queue}
use cloudlus.Server.Queue.{AllQueued}

unfoldable pub has : {V : Type 0} → ℕ → Assoc V → Bool
has i m = elim (lookup i m) [ none ↦ false | some v ↦ true ]

-- A running job carries its own key, which is an identifier, and the status `running`.
abbrev pub IsLabelled : JobId → Option Job → Type 0
IsLabelled i none = Unit
IsLabelled i (some j) = (j.id ≡ i) × (j.status ≡ running) × IsId i

pub record IsSound {D : Type 0} (s : Server D) : Type 0 where
  -- `jobinfo` and `running` have the same keys.
  pub synced : (i : JobId) → has i s.jobinfo ≡ has i s.running
  pub labelled : (i : JobId) → IsLabelled i (lookup i s.running)
  pub all_queued : AllQueued s.queue
  -- The job of each waiting client is running or queued.
  pub served :
      (i : JobId) → (not (has i s.submitchans) || (has i s.running || in_queue i s.queue)) ≡ true

-- A server starts soundly if its database lists no job as running.
pub new_server-IsSound :
    {D : Type 0} (d : D) (q : List Job) → AllQueued q → IsSound (new_server d q)
unfolding new_server has lookup
new_server-IsSound d q h = record {
  synced = λ i. refl;
  labelled = λ i. tt;
  all_queued = h;
  served = λ i. refl;
}
