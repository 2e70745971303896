-- ===== src/Server/Restart.antt =====
-- A server of cloudlus/server.go that starts on a database with running jobs.
--
-- `NewServer` puts all current jobs of the database into the queue, those included that were running
-- when the last server ended. They keep the status running, and `cleanQueue` drops them.
use cloudlus.Base.{
  ◌≡◌, ◌≢◌, refl, sym, ◌∙◌, Bool, true, false, not, ◌||◌, none, List, [], ◌∷◌, ◌==◌, lookup,
  lookup-remove, keep, All, arith,
}
use mathlib.Core.Path.{subst}
use cloudlus.Job.{Job, JobId, IsId, is_queued}
use cloudlus.Store.{JobStore}
use cloudlus.Server.{Server}
use cloudlus.Server.Finish.{clean_queue, finish_job}
use cloudlus.Server.Beats.{in_queue}
use cloudlus.Server.Pending.{restore-id}
use cloudlus.Server.Dispatch.{receive, restore}

-- No entry of the queue with this identifier has the status queued.
abbrev pub NoneQueued : JobId → List Job → Type 0
NoneQueued i = All λ j. (not (i == j.id) || not (is_queued j.status)) ≡ true

in_queue-keep_queued :
    (i : JobId) (q : List Job)
    → NoneQueued i q
    → in_queue i (keep (λ (j : Job). is_queued j.status) q) ≡ false
unfolding in_queue keep
in_queue-keep_queued i [] h = refl
in_queue-keep_queued i (j ∷ js) h = ground (arith, in_queue-keep_queued i js h.1)

in_queue-keep-false :
    (i : JobId) (p : Job → Bool) (q : List Job)
    → in_queue i q ≡ false
    → in_queue i (keep p q) ≡ false
unfolding in_queue keep
in_queue-keep-false i p [] h = refl
in_queue-keep-false i p (j ∷ js) h = ground (arith, in_queue-keep-false i p js)

in_queue-clean_queue_none :
    (i : JobId) (ds : List JobId) (q : List Job)
    → NoneQueued i q
    → in_queue i (clean_queue ds q) ≡ false
unfolding clean_queue
in_queue-clean_queue_none i ds q h = in_queue-keep-false i _ _ (in_queue-keep_queued i q h)

module _ (store : JobStore) where
  open store use {Db, get, get-put_ne}

  -- A job that waits in the queue of a server under another status than queued, as those do that a
  -- new server took over as running, and that no worker runs, is lost when any other job is pushed:
  -- whatever else the server has done, the job is then neither in the queue nor running, though the
  -- database still has it as it was.
  pub restart_loses_running :
      (s : Server Db) (i : JobId) (k : Job)
      → in_queue i s.queue ≡ true
      → NoneQueued i s.queue
      → lookup i s.running ≡ none
      → IsId k.id
      → IsId i
      → k.id ≢ i
      → let s' = receive store k s in
        (in_queue i s'.queue ≡ false)
        × (lookup i s'.running ≡ none)
        × (get i s'.alljobs ≡ get i s.alljobs)
  unfolding receive finish_job restore
  restart_loses_running s i k m h n p r d = (
    in_queue-clean_queue_none i ((restore (lookup k.id s.running) k).id ∷ []) s.queue h,
    ground (arith, lookup-remove k.id i s.running),
    get-put_ne (restore (lookup k.id s.running) k) i s.alljobs
        (subst IsId (sym (restore-id store (lookup k.id s.running) k)) p) r
        (λ e. d (sym (restore-id store (lookup k.id s.running) k) ∙ e)),
  )
