-- ===== src/Job/Process.antt =====
-- The calls of the operating system in cloudlus/job.go that stand beside `Execute`: a job from an
-- input file, the end of a process, and the end of a job directory.
use cloudlus.Base.{ℕ, ◌||◌, Option, none, some, List, String, if◌then◌else◌}
use cloudlus.Base.Int.{ℤ, eq_ℤ}
use cloudlus.Job.{Job, JobId, new_job_default}

-- `NewJobDefaultFile`, for what reading the file returns.
unfoldable pub new_job_default_file : JobId → Option (List ℕ) → Option Job
unfolding new_job_default
new_job_default_file uid none = none
new_job_default_file uid (some contents) = some (new_job_default uid contents)

-- `teardown`: the job that it leaves, and its error. The two arguments are the errors of the change
-- to the old directory and of the removal of the new one.
unfoldable pub teardown : Option String → Option String → Job → Job × Option String
teardown chdir_error remove_error j =
    let j' = record j { dir = "" } in
    elim chdir_error [ some m ↦ (j', some m) | none ↦ (j', remove_error) ]

-- What `killall` does: it kills the process alone, or asks its group to end and waits for it, or notes
-- the error of the lookup of the group.
pub data Killing : Type 0 where
  process_killed : Killing
  group_ended : ℤ → Killing
  noted : String → Killing

-- `killall`, for what `Getpgid` returns, and the process and the group of this program. After an error
-- the group is -1, and a process or a group of this program is none.
unfoldable pub killall : ℤ → ℤ → ℤ × Option String → Killing
killall pid gid (pgid, problem) =
    if eq_ℤ pgid pid || eq_ℤ pgid gid
    then process_killed
    else elim problem [ none ↦ group_ended pgid | some m ↦ noted m ]
