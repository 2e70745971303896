-- ===== src/Server/Queue.antt =====
-- What `clean_queue` leaves in a queue, and which identifiers `in_queue` finds.
use cloudlus.Base.{
  ◌≡◌, refl, true, false, not, ◌||◌, List, [], ◌∷◌, ◌++◌, ◌==◌, if◌then◌else◌, keep, All, All-keep,
  arith,
}
use cloudlus.Job.{named, Job, JobId, IsId, is_queued}
use cloudlus.Server.Finish.{clean_queue}
use cloudlus.Server.Beats.{in_queue}

-- Jobs that may stand in the queue.
abbrev pub AllQueued : List Job → Type 0
AllQueued = All λ j. (is_queued j.status ≡ true) × IsId j.id

keep_queued : (q : List Job) → AllQueued q → keep (λ (j : Job). is_queued j.status) q ≡ q
unfolding keep
keep_queued [] h = refl
keep_queued (j ∷ js) h = rw (h.0.0) (ap_cons (keep_queued js h.1))
  where
    ap_cons : {xs ys : List Job} → xs ≡ ys → j ∷ xs ≡ j ∷ ys
    ap_cons e = cc

pub clean_queue-AllQueued :
    (ds : List JobId) (q : List Job) → AllQueued q → AllQueued (clean_queue ds q)
unfolding clean_queue
clean_queue-AllQueued ds q h = All-keep _ _ _ (All-keep _ _ q h)

in_queue-keep :
    (i k : JobId) (q : List Job)
    → in_queue i (keep (λ (j : Job). not (named j.id (k ∷ []))) q)
      ≡ (if i == k then false else in_queue i q)
unfolding in_queue keep named
in_queue-keep i k [] = ground arith
in_queue-keep i k (j ∷ js) = ground (arith, in_queue-keep i k js)

-- Cleaning a sound queue takes the jobs with the given identifier out, and no others.
pub in_queue-clean_queue :
    (i k : JobId) (q : List Job)
    → AllQueued q
    → in_queue i (clean_queue (k ∷ []) q) ≡ (if i == k then false else in_queue i q)
unfolding clean_queue
in_queue-clean_queue i k q h = rw (keep_queued q h) (in_queue-keep i k q)

pub in_queue-append :
    (i : JobId) (xs ys : List Job) → in_queue i (xs ++ ys) ≡ (in_queue i xs || in_queue i ys)
unfolding in_queue
in_queue-append i [] ys = refl
in_queue-append i (j ∷ js) ys = ground (arith, in_queue-append i js ys)
