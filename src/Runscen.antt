-- ===== src/Runscen.antt =====
-- runscen/runscen.go: the simulations of a scenario on a server, and on this machine.
--
-- `Calls` says what the calls of the client, of JSON and of the operating system return. The time that
-- a run waits for the server is one of the outcomes of the call. Texts that the source makes of an
-- error are the one of the step that failed.
pub mod Sent
use cloudlus.Base.{
  ℕ, ◌*◌, Bool, true, false, Option, none, some, List, [], ◌∷◌, String, if◌then◌else◌,
}
use cloudlus.Base.Int.{pos}
use cloudlus.Time.{Duration, second}
use cloudlus.Job.{Job, JobId, new_job_cmd, add_infile, add_outfile}
use cloudlus.Scen.Float.{Float}
use cloudlus.Scen.Model.{Scenario}
use cloudlus.Scen.Check.{Result, ok, err, panic, ◌>>=◌, failed_run}
use cloudlus.Scen.Modes.{Exec, Config, calc_total_objective}

-- What waiting for `client.Run` comes to: a job, which may be nil, an error, or the time limit.
pub data Waited : Type 0 where
  answered : Option Job → Waited
  refused : Waited
  too_late : Waited

pub record Calls (W : Type 0) : Type 0 where
  pub uid : JobId
  -- `json.Marshal` of a scenario
  pub encode : Scenario W → Option (List ℕ)
  pub read_file : String → Option (List ℕ)
  -- The arguments of the command line, joined, if there are any.
  pub arguments : Option String
  pub run : Job → Waited
  -- A writer that is nil is `none`.
  pub stdout : Option (String → Bool)
  pub stderr : Option (String → Bool)
  pub outfile_data : Job → String → Option (List ℕ)
  pub parse_float : List ℕ → Option W

-- A step that fails with an error.
abbrev pub or_failed : {A : Type 0} → String → Option A → Result A
or_failed step none = err (failed_run step)
or_failed step (some a) = ok a

abbrev pub unless_failed : String → Bool → Result (Unit {0})
unless_failed step true = ok tt
unless_failed step false = err (failed_run step)

abbrev pub objfile : String
objfile = "runsim-obj.dat"

unfoldable pub with_note : Option String → Job → Job
with_note none j = j
with_note (some note) j = record j { note = note }

unfoldable pub write_log : Option (String → Bool) → String → Bool
write_log none text = true
write_log (some write) text = write text

unfoldable pub await : Waited → Result (Option Job)
await (answered j) = ok j
await refused = err (failed_run "run")
await too_late = err (failed_run "time limit")

-- `simids[0]`
unfoldable pub first_simulation : List (List ℕ) → Result (List ℕ)
first_simulation [] = panic
first_simulation (i ∷ is) = ok i

module _ {W : Type 0} where
  -- The job that `BuildRemoteJob` makes of the template and of the scenario as JSON.
  unfoldable pub remote_job : Calls W → Scenario W → String → List ℕ → List ℕ → Job
  unfolding new_job_cmd add_infile add_outfile with_note
  remote_job c s objfile tmpl data' =
      let j = new_job_cmd c.uid "cycobj" ("-obj" ∷ objfile ∷ "-scen" ∷ s.file ∷ []) in
      let j' = record j { timeout = pos (7200 * second) } in
      with_note c.arguments
        (add_outfile (add_infile (add_infile j' s.cyclus_tmpl tmpl) s.file data') objfile)

  unfoldable pub build_remote_job : Calls W → Scenario W → String → Result Job
  unfolding remote_job
  build_remote_job c s objfile = do
    data' ← or_failed "encode" (c.encode s)
    tmpl ← or_failed "template" (c.read_file s.cyclus_tmpl)
    ok (remote_job c s objfile tmpl data')

  unfoldable pub write_logs : Calls W → Option Job → Result Job
  unfolding write_log
  write_logs c none = err (failed_run "nil job")
  write_logs c (some j) = do
    u ← unless_failed "stdout" (write_log c.stdout j.stdout)
    v ← unless_failed "stderr" (write_log c.stderr j.stderr)
    ok j

  -- `execfn` of `RemoteTimeout`
  unfoldable pub remote_exec : Calls W → Duration → Exec W
  unfolding build_remote_job await write_logs
  remote_exec c timeout s = do
    j ← build_remote_job c s objfile
    r ← await (c.run (record j { timeout = timeout }))
    k ← write_logs c r
    out ← or_failed "objective file" (c.outfile_data k objfile)
    or_failed "objective" (c.parse_float out)

  module _ ⦃d : Float W⦄ (parses : String → String → Bool) (cfg : Config W) where
    -- `RemoteTimeout`, with whether the server could be dialled.
    unfoldable pub remote_timeout : Calls W → Bool → Duration → Scenario W → Scenario W × Result W
    unfolding remote_exec calc_total_objective
    remote_timeout c dialled timeout s =
        if dialled
        then calc_total_objective parses cfg s (remote_exec c timeout)
        else (s, err (failed_run "dial"))

    -- `Remote`
    unfoldable pub remote : Calls W → Bool → Scenario W → Scenario W × Result W
    unfolding remote_timeout
    remote c dialled s = remote_timeout c dialled (pos (7200 * second)) s

-- What the calls of a simulation on this machine return. `infile` is the result of
-- `GenCyclusInfile`, `simulations` that of `post.Process`, `objective` that of `CalcObjective` for one
-- of them.
pub record LocalCalls (W : Type 0) : Type 0 where
  pub infile : Scenario W → Result (List ℕ)
  pub write_file : List ℕ → Bool
  pub cyclus : List ℕ → Bool
  pub opens : Bool
  pub simulations : Option (List (List ℕ))
  pub objective : Scenario W → List ℕ → Result W

module _ {W : Type 0} where
  -- `execfn` of `Local`
  unfoldable pub local_exec : LocalCalls W → Exec W
  unfolding first_simulation
  local_exec c s = do
    data' ← c.infile s
    u ← unless_failed "write" (c.write_file data')
    v ← unless_failed "cyclus" (c.cyclus data')
    w ← unless_failed "open" c.opens
    ids ← or_failed "process" c.simulations
    i ← first_simulation ids
    c.objective s i

  module _ ⦃d : Float W⦄ (parses : String → String → Bool) (cfg : Config W) where
    unfoldable pub local : LocalCalls W → Scenario W → Scenario W × Result W
    unfolding local_exec calc_total_objective
    local c s = calc_total_objective parses cfg s (local_exec c)
