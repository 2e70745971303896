-- ===== src/Server/Finish.antt =====
-- `finnishJob` and `cleanQueue` of cloudlus/server.go.
use cloudlus.Base.{
  ℕ, ◌+◌, Bool, not, ◌||◌, Option, none, some, List, [], ◌∷◌, ◌==◌, if◌then◌else◌, keep, lookup,
  remove,
}
use cloudlus.Base.Int.{pos_part, neg_part, ltb_ℤ}
use cloudlus.Time.{Duration, sub_time, add_duration, div_duration}
use cloudlus.Job.{Job, JobId, is_queued, is_complete, is_failed, named}
use cloudlus.Store.{JobStore}
use cloudlus.Server.{Server, Stats, Message, job_to, closed}

-- `cleanQueue(delids...)`: the two loops, one after the other.
unfoldable pub clean_queue : List JobId → List Job → List Job
unfolding named
clean_queue delids queue =
    keep (λ (j : Job). not (named j.id delids)) (keep (λ (j : Job). is_queued j.status) queue)

-- `d == 0`
abbrev zero_duration : Duration → Bool
zero_duration d = pos_part d == neg_part d

-- The `if` on `MinJobTime` and on `MinCmdTime`: zero stands for no value yet.
unfoldable pub min_time : Duration → Duration → Duration
min_time old new = if zero_duration old || ltb_ℤ new old then new else old

unfoldable pub max_time : Duration → Duration → Duration
max_time old new = if zero_duration old || ltb_ℤ old new then new else old

unfoldable pub count_complete : Job → Stats → Stats
unfolding min_time max_time
count_complete j st =
    let n = st.ncompleted + 1 in
    let jobtime = sub_time j.finished j.started in
    let tot_job = add_duration st.tot_job_time jobtime in
    let tot_cmd = add_duration st.tot_cmd_time j.cmd_dur in
    record st {
      ncompleted = n;
      tot_job_time = tot_job;
      avg_job_time = div_duration tot_job n;
      min_job_time = min_time st.min_job_time jobtime;
      max_job_time = max_time st.max_job_time jobtime;
      tot_cmd_time = tot_cmd;
      avg_cmd_time = div_duration tot_cmd n;
      min_cmd_time = min_time st.min_cmd_time j.cmd_dur;
      max_cmd_time = max_time st.max_cmd_time j.cmd_dur;
    }

unfoldable pub count_finished : Job → Stats → Stats
unfolding count_complete
count_finished j st =
    if is_failed j.status
    then record st { nfailed = st.nfailed + 1 }
    else if is_complete j.status
    then count_complete j st
    else st

-- The send on a waiting channel, and its close.
unfoldable pub notify : Option ℕ → Option Job → List Message → List Message
notify none j sent = sent
notify (some ch) j sent = closed ch ∷ job_to ch j ∷ sent

module _ (store : JobStore) where
  open store use {Db, put}

  -- The dispatcher never calls `finnishJob` with nil.
  unfoldable pub finish_job : Job → Server Db → Server Db
  unfolding count_finished notify clean_queue
  finish_job j s = record s {
    queue = clean_queue (j.id ∷ []) s.queue;
    submitchans = remove j.id s.submitchans;
    jobinfo = remove j.id s.jobinfo;
    running = remove j.id s.running;
    stats = count_finished j s.stats;
    alljobs = put j s.alljobs;
    sent = notify (lookup j.id s.submitchans) (some j) s.sent;
  }
