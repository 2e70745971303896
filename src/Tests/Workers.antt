-- ===== src/Tests/Workers.antt =====
-- A worker at a concrete job.
use cloudlus.Base.{◌+◌, ◌*◌, ◌≡◌, refl, none, some, [], ◌∷◌}
use cloudlus.Base.Int.{pos}
use cloudlus.Time.{second}
use cloudlus.Job.{Job, add_infile, add_whitelist, listed}
use cloudlus.Job.Execute.{launch, execute}
use cloudlus.Job.Execute.Checks.{is_hung, is_started}
use cloudlus.Worker.{Worker, Trip, Report, fetched, dojob, prepare, ready}
use cloudlus.Worker.Pushes.{IsReport, dojob_pushes}
use cloudlus.Cmd.Work.{WorkFlags, whitelist_of, worker_of}
use cloudlus.Cmd.Work.Allowed.{Serves, IsAllowed, work_starts-IsAllowed}
use cloudlus.Tests.Samples.{noon, echo}
use cloudlus.Tests.Executions.{fine}

-- A worker that may run `echo` only.
abbrev careful : Worker
careful = record {
  id = 7;
  job_timeout = pos (60 * second);
  file_cache = ("input", 1 ∷ 2 ∷ []) ∷ [];
  wait = pos (10 * second);
  whitelist = "echo" ∷ [];
  lastjob = noon;
  max_idle = pos 0;
}

abbrev good_trip : Trip
good_trip = record {
  dial_error = none;
  fetch = fetched (echo 1);
  env = fine;
  outfile_error = none;
  push_error = none;
  pushed_at = noon + 60 * second;
  checked_at = noon + 60 * second;
}

dojob_pushes_example :
    (r : Report) × (k : Job) × (dojob careful good_trip ≡ some r)
    × (r.pushed ≡ some k)
    × IsReport careful none (echo 1) k
unfolding echo is_hung execute prepare add_infile add_whitelist listed launch
dojob_pushes_example = dojob_pushes careful good_trip (echo 1) refl refl refl

-- Two names, one of them with spaces, and a piece that is blank.
abbrev flags : WorkFlags
flags = record {
  interval = pos (20 * second);
  maxidle = pos 0;
  timeout = pos 0;
  whitelist = "echo, cyclus , ";
}

allowed_names : whitelist_of flags.whitelist ≡ "echo" ∷ "cyclus" ∷ []
unfolding whitelist_of
allowed_names = refl

work_starts-IsAllowed_example : IsAllowed (whitelist_of flags.whitelist) (echo 1).cmd
unfolding whitelist_of worker_of ready echo is_started execute prepare add_infile add_whitelist
    listed launch
work_starts-IsAllowed_example =
    work_starts-IsAllowed flags 7 noon [] (ready 7 noon (worker_of flags)) good_trip (echo 1)
      Serves.fresh refl refl
