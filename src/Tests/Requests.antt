-- ===== src/Tests/Requests.antt =====
-- The server at concrete jobs and requests.
use cloudlus.Base.{
  ℕ, ◌+◌, ◌*◌, ◌≡◌, refl, true, false, none, some, List, [], ◌∷◌, ◌++◌, lookup, insert, keep, map,
  arith,
}
use cloudlus.Base.Int.{pos, pos_part, ◌≤ℤ◌}
use cloudlus.Time.{second, sub_time}
use cloudlus.Job.{Job, named, running, complete, failed}
use cloudlus.Server.{Server, Beat, no_stats, new_server, job_to, kill_to, is_banned}
use cloudlus.Server.Finish.{finish_job}
use cloudlus.Server.Beats.{in_queue, checkbeat, check_beats, check_one, heartbeat}
use cloudlus.Server.Dispatch.{
  tick, Event, submit, push, fetch, Outcome, next, stopped, panicked, start_job, refresh, accept,
  hand_out, serve, reset_queue, receive, select, round, dispatcher,
}
use cloudlus.Server.Invariant.{IsSound}
use cloudlus.Server.Invariant.Rounds.{dispatcher-IsSound}
use cloudlus.Server.Reset.{AfterReset, reset_queued}
use cloudlus.Server.Restart.{restart_loses_running}
use cloudlus.Server.Bans.{streak, never_succeeds, ban_refuses, ban_spares}
use cloudlus.Server.Times.{AllBetween, count_all, total_time, times_ordered}
use cloudlus.Server.Requeue.{Requeued}
use cloudlus.Server.Silence.{checkbeat_requeues}
use cloudlus.Server.Owner.{heartbeat_exclusive}
use cloudlus.Server.Order.{Request, fetch_of, replies, submit_of, Left, drained_in_order}
use cloudlus.Tests.Samples.{MemoryDb, memory, empty_db, noon, echo}

-- A server on which a client waits for job 1.
abbrev pub waiting : Server MemoryDb
waiting = accept memory (echo 1) (some 11) (refresh memory (new_server empty_db []))

pub waiting-IsSound : IsSound waiting
unfolding dispatcher round select echo
waiting-IsSound =
    dispatcher-IsSound memory empty_db [] (submit (echo 1) (some 11) ∷ []) tt
      ((refl, omega arith), tt)

reset_queued_example :
    ((reset_queue memory waiting).queue ≡ [])
    × ((reset_queue memory waiting).stats.nfailed ≡ waiting.stats.nfailed + 1)
    × AfterReset memory 1 waiting (reset_queue memory waiting) true
unfolding accept refresh new_server in_queue echo lookup insert
reset_queued_example = reset_queued memory 1 waiting waiting-IsSound omega arith

-- The same server once a worker has fetched the job.
abbrev pub working : Server MemoryDb
working = serve memory 7 21 noon noon (refresh memory waiting)

pub working-IsSound : IsSound working
unfolding dispatcher round select echo
working-IsSound =
    dispatcher-IsSound memory empty_db [] (submit (echo 1) (some 11) ∷ fetch 7 21 noon noon ∷ []) tt
      ((refl, omega arith), (tt, tt))

-- A job that the database lists as running.
abbrev was_running : Job
unfolding echo
was_running = record (echo 1) { status = running }

-- A server that took it over, with a job that was submitted since.
abbrev taken_over : Server MemoryDb
taken_over =
    accept memory (echo 3) (some 13) (refresh memory (new_server empty_db (was_running ∷ [])))

restart_loses_running_example :
    (in_queue 1 (receive memory (echo 2) taken_over).queue ≡ false)
    × (lookup 1 (receive memory (echo 2) taken_over).running ≡ none)
    × ((receive memory (echo 2) taken_over).alljobs 1 ≡ none)
unfolding echo in_queue was_running accept refresh new_server lookup
restart_loses_running_example =
    restart_loses_running memory taken_over 1 (echo 2) refl (refl, (refl, tt)) refl omega arith
      omega arith (λ e. ground (arith, e))

-- A push of a failed job by worker 7.
abbrev bad_push : Event
unfolding echo
bad_push = push (record (echo 3) { status = failed; worker_id = 7 })

abbrev after : List Event → Server MemoryDb
after es = settled (dispatcher memory es (new_server empty_db []))
  where
    settled : Outcome (Server MemoryDb) → Server MemoryDb
    settled (next s) = s
    settled (stopped s) = s
    settled panicked = new_server empty_db []

abbrev four_failures : List Event
four_failures = bad_push ∷ bad_push ∷ bad_push ∷ bad_push ∷ []

ban_refuses_example :
    serve memory 7 21 noon noon (after four_failures)
    ≡ record (after four_failures) { sent = job_to 21 none ∷ (after four_failures).sent }
unfolding dispatcher round select streak never_succeeds echo bad_push
ban_refuses_example =
    ban_refuses memory 7 21 noon noon four_failures empty_db [] (after four_failures) refl omega
      arith

-- A failed job, a new job, and a worker that may work on it.
abbrev one_failure : List Event
one_failure = bad_push ∷ submit (echo 1) none ∷ []

ban_spares_example :
    ((serve memory 7 21 noon noon (after one_failure)).sent
      ≡ job_to 21 (some (start_job noon (echo 1))) ∷ (after one_failure).sent)
    × ((serve memory 7 21 noon noon (after one_failure)).queue ≡ [])
    × (lookup 1 (serve memory 7 21 noon noon (after one_failure)).running
        ≡ some (start_job noon (echo 1)))
unfolding dispatcher round select streak never_succeeds echo bad_push refresh accept receive
    finish_job keep new_server
ban_spares_example =
    ban_spares memory 7 21 noon noon one_failure empty_db [] (after one_failure) (echo 1) [] refl
      omega arith refl

-- Two complete jobs, of one and of three seconds.
abbrev timed : ℕ → Job
unfolding echo
timed n = record (echo n) { status = complete; started = noon; finished = noon + n * second }

times_ordered_example :
    ((count_all (timed 1 ∷ timed 3 ∷ []) no_stats).ncompleted ≡ 2)
    × ((count_all (timed 1 ∷ timed 3 ∷ []) no_stats).tot_job_time
        ≡ pos (total_time (timed 1 ∷ timed 3 ∷ [])))
    × ((count_all (timed 1 ∷ timed 3 ∷ []) no_stats).min_job_time
        ≤ℤ (count_all (timed 1 ∷ timed 3 ∷ []) no_stats).avg_job_time)
    × ((count_all (timed 1 ∷ timed 3 ∷ []) no_stats).avg_job_time
        ≤ℤ (count_all (timed 1 ∷ timed 3 ∷ []) no_stats).max_job_time)
    × AllBetween
        (pos_part (count_all (timed 1 ∷ timed 3 ∷ []) no_stats).min_job_time)
        (pos_part (count_all (timed 1 ∷ timed 3 ∷ []) no_stats).max_job_time)
        (timed 1 ∷ timed 3 ∷ [])
unfolding timed total_time
times_ordered_example =
    times_ordered (timed 1) (timed 3 ∷ []) ((refl, omega arith), ((refl, omega arith), tt)) omega
      arith

-- What a worker tells of job 1.
abbrev beat_of : ℕ → ℕ → Beat
beat_of w n = record { time = noon + n * second; worker_id = w; job_id = 1; kill = 31 }

checkbeat_requeues_example :
    (s : Server MemoryDb) × (checkbeat memory (noon + 100 * second) (1 ∷ []) [] working ≡ some s)
    × Requeued memory 1 (start_job noon (echo 1)) s
unfolding serve is_banned hand_out accept refresh new_server echo lookup insert named sub_time
checkbeat_requeues_example =
    checkbeat_requeues memory (noon + 100 * second) (1 ∷ []) [] 1
      (record { time = noon; worker_id = 7; job_id = 1; kill = 0 }) (start_job noon (echo 1))
      working working-IsSound (refl, refl) refl refl

-- The server after worker 7 was told to go on with job 1.
abbrev told : Server MemoryDb
told = heartbeat memory noon (beat_of 7 1) working

-- The server once the job of a worker that went silent was requeued and fetched by another one.
abbrev passed_on : List Event
passed_on =
    tick (noon + 100 * second) (1 ∷ []) []
    ∷ fetch 9 22 (noon + 101 * second) (noon + 101 * second)
    ∷ []

abbrev going_on : Outcome (Server MemoryDb) → Server MemoryDb
going_on (next s) = s
going_on _ = told

abbrev later : Server MemoryDb
later = going_on (dispatcher memory passed_on told)

heartbeat_exclusive_example :
    heartbeat memory noon (beat_of 8 2) later ≡ record later { sent = kill_to 31 true ∷ later.sent }
unfolding heartbeat serve is_banned hand_out accept refresh new_server echo lookup insert sub_time
    dispatcher round select checkbeat check_beats check_one
heartbeat_exclusive_example =
    heartbeat_exclusive memory noon noon (beat_of 7 1) (beat_of 8 2) working later passed_on refl
      refl (λ e. ground (arith, e)) (tt, (λ e. ground (arith, e), tt)) refl

-- Requests of workers 7 and 8.
abbrev two_requests : List Request
two_requests =
    record { worker = 7; channel = 21; beat_at = noon; fetched_at = noon }
    ∷ record { worker = 8; channel = 22; beat_at = noon; fetched_at = noon }
    ∷ []

drained_in_order_example :
    Left []
      (replies two_requests (waiting.queue ++ echo 2 ∷ []) waiting.sent)
      waiting.worker_failures
      (dispatcher memory (map submit_of ((echo 2, 12) ∷ []) ++ map fetch_of two_requests) waiting)
unfolding accept refresh new_server is_banned lookup
drained_in_order_example =
    drained_in_order memory ((echo 2, 12) ∷ []) two_requests waiting refl (refl, (refl, tt))
