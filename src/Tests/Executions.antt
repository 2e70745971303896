-- ===== src/Tests/Executions.antt =====
-- `Execute` at a concrete job.
use cloudlus.Base.{◌+◌, ◌*◌, ◌≡◌, refl, true, false, none}
use cloudlus.Time.{second}
use cloudlus.Job.Execute.{Env, exited, timed_out, copied, execute}
use cloudlus.Job.Execute.Checks.{
  is_admitted, is_prepared, is_written, is_none, is_killed, is_hung, is_hung-execute,
}
use cloudlus.Job.Execute.Verdict.{
  is_complete_end, is_success, is_copied, is_collected, is_complete-execute,
}
use cloudlus.Tests.Samples.{noon, echo}

-- A minute in which nothing goes wrong.
abbrev pub fine : Env
fine = record {
  started_at = noon;
  cmd_start = noon;
  cmd_end = noon + 60 * second;
  ended_at = noon + 60 * second;
  getwd_error = none;
  getwd = "/tmp";
  dir_name = "work";
  mkdir_error = none;
  chdir_error = none;
  write_error = λ f. none;
  start_error = none;
  wake = exited none;
  dies = true;
  out = "1";
  err = "";
  create_error = λ f. none;
  copy = λ f. copied 5;
  close_error = none;
  reject_text = λ c w. "not white-listed";
  timeout_text = "timed out";
}

-- The command outlives its timeout and the kill signal.
abbrev stuck : Env
stuck = record fine { wake = timed_out; dies = false }

is_hung-execute_example : is_hung (execute stuck (echo 1)) ≡ true
unfolding echo is_admitted is_prepared is_written is_none is_killed
is_hung-execute_example = is_hung-execute stuck (echo 1)

is_complete-execute_example : is_complete_end (execute fine (echo 1)) ≡ true
unfolding echo is_admitted is_prepared is_written is_none is_success is_collected is_copied
is_complete-execute_example = is_complete-execute fine (echo 1) refl
