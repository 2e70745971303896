-- ===== src/Tests/Rounds.antt =====
-- The dispatcher at concrete requests.
use cloudlus.Base.{refl, ◌+◌, ◌*◌, none, List, [], ◌∷◌, keep, lookup, insert, remove, arith}
use cloudlus.Time.{second, sub_time}
use cloudlus.Job.{complete}
use cloudlus.Server.{new_server, is_banned}
use cloudlus.Server.Finish.{finish_job}
use cloudlus.Server.Beats.{
  in_queue, is_overdue, check_one, check_beats, check_waiter, check_waiters, checkbeat, heartbeat,
}
use cloudlus.Server.Dispatch.{
  Event, tick, reset, submit, retrieve, push, fetch, beat, refresh, accept, receive, serve, select,
  round, dispatcher,
}
use cloudlus.Server.Invariant.{has}
use cloudlus.Server.Invariant.Rounds.{OutcomeSound, dispatcher-IsSound}
use cloudlus.Server.Pending.{is_pending, is_owner, is_late, may_end, OutcomePending, ends}
use cloudlus.Server.Pending.Kept.{dispatcher_pending}
use cloudlus.Server.Places.{place}
use cloudlus.Server.Places.Journeys.{Travelled, dispatcher-Travelled}
use cloudlus.Tests.Samples.{memory, empty_db, noon, echo, two_jobs}
use cloudlus.Tests.Requests.{waiting, waiting-IsSound}

dispatcher-IsSound_example :
    OutcomeSound (dispatcher memory two_jobs (new_server empty_db (echo 5 ∷ [])))
unfolding echo
dispatcher-IsSound_example =
    dispatcher-IsSound memory empty_db (echo 5 ∷ []) two_jobs ((refl, omega arith), tt)
      (ground arith)

-- Requests during which the job 1 is fetched, goes back to the queue, and is fetched again.
abbrev busy_day : List Event
unfolding echo
busy_day =
    submit (echo 2) none
    ∷ fetch 7 21 noon noon
    ∷ beat (noon + second) (record { time = noon + second; worker_id = 7; job_id = 1; kill = 31 })
    ∷ beat (noon + second) (record { time = noon + second; worker_id = 8; job_id = 1; kill = 32 })
    ∷ tick (noon + 200 * second) (1 ∷ []) (1 ∷ [])
    ∷ push (record (echo 2) { status = complete; worker_id = 7 })
    ∷ fetch 8 22 (noon + 200 * second) (noon + 200 * second)
    ∷ reset
    ∷ retrieve 1 23
    ∷ []

dispatcher_pending_example : OutcomePending 1 (dispatcher memory busy_day waiting)
unfolding echo is_pending in_queue ends may_end is_owner is_late round select accept refresh
    new_server has lookup insert serve is_banned is_overdue sub_time heartbeat checkbeat check_beats
    check_one receive finish_job remove check_waiters check_waiter keep
dispatcher_pending_example =
    dispatcher_pending memory busy_day 1 waiting waiting-IsSound (ground arith) refl refl

dispatcher-Travelled_example :
    Travelled 1 busy_day (place 1 waiting) (dispatcher memory busy_day waiting)
unfolding echo
dispatcher-Travelled_example =
    dispatcher-Travelled memory busy_day 1 waiting waiting-IsSound (ground arith)
