-- ===== src/Job/Execute.antt =====
-- `Execute` of cloudlus/job.go, with `setup` and `teardown`.
--
-- The operating system, the command, the zip writer and the clock are the record `Env`: what each
-- call made during one execution returns, and which case of the `select` is taken. The texts that
-- `fmt` makes of values are functions of the environment. `hung` is an execution that never
-- returns: it waits on a channel for which there is no sender or no receiver left.
pub mod Checks
pub mod Verdict
pub mod Kept
use cloudlus.Base.{
  String, Bool, true, false, not, ◌&&◌, Option, none, some, List, [], ◌∷◌, ◌==◌, if◌then◌else◌,
  join,
}
use cloudlus.Base.Int.{pos, pos_part, neg_part}
use cloudlus.Time.{Time, Duration, sub_time}
use cloudlus.Job.{File, Job, Status, complete, failed, is_failed, default_timeout, listed}
use text.Mathlib.Text.{◌==◌ as str_eq}
use Prim.Native.Nat.{ℕ}

-- What `select` sees first: the timer, a value on the kill channel, or the end of the command with
-- the error of `cmd.Wait`.
pub data Wake : Type 0 where
  timed_out : Wake
  kill : Bool → Wake
  exited : Option String → Wake

-- The copy of an output file into the archive: the error of `os.Open` or `io.Copy`, or the bytes.
pub data Copy : Type 0 where
  copied : ℕ → Copy
  copy_error : String → Copy

pub record Env : Type 0 where
  pub started_at : Time
  pub cmd_start : Time
  pub cmd_end : Time
  pub ended_at : Time
  pub getwd_error : Option String
  pub getwd : String
  pub dir_name : String
  pub mkdir_error : Option String
  pub chdir_error : Option String
  pub write_error : File → Option String
  pub start_error : Option String
  pub wake : Wake
  -- Whether the command ends after `killall`.
  pub dies : Bool
  -- What the command has written.
  pub out : String
  pub err : String
  pub create_error : String → Option String
  pub copy : String → Copy
  pub close_error : Option String
  pub reject_text : String → List String → String
  pub timeout_text : String

pub data Outcome : Type 0 where
  hung : Bool → Outcome
  -- The job as `Execute` leaves it, and whether its command was started.
  ended : Job → Bool → Outcome

abbrev pub is_empty {ℓ} : {A : Type ℓ} → List A → Bool
is_empty [] = true
is_empty (_ ∷ _) = false

-- The loop of `setup` over the input files: the first error.
unfoldable pub write_files : Env → List File → Option String
write_files e [] = none
write_files e (f ∷ fs) = elim (e.write_error f) [ some m ↦ some m | none ↦ write_files e fs ]

-- The part of `setup` that needs a working directory.
unfoldable pub enter_dir : Env → Job → Job × Option String
unfolding write_files
enter_dir e j =
    let j' = record j { dir = e.dir_name } in
    elim e.mkdir_error [
      | some m ↦ (j', some m)
      | none ↦ elim e.chdir_error [ some m ↦ (j', some m) | none ↦ (j', write_files e j.infiles) ]
    ]

unfoldable pub setup : Env → Job → Job × Option String
unfolding enter_dir
setup e j =
    if str_eq j.wd ""
    then elim e.getwd_error [
      | some m ↦ (j, some m)
      | none ↦ enter_dir e (record j { wd = e.getwd })
    ]
    else enter_dir e j

-- The deferred calls that append the captured output and set the time of the end.
unfoldable pub conclude : Env → Job → String → String → Job
conclude e j out err = record j {
  stdout = join j.stdout out;
  stderr = join j.stderr err;
  finished = e.ended_at;
}

-- The loop over the output files: the files with their sizes, the status and the standard error.
unfoldable pub collect : Env → List File → Status → String → List File × Status × String
collect e [] s t = ([], s, t)
collect e (f ∷ fs) s t = elim (e.create_error f.name) [
  | some m ↦ (f ∷ fs, failed, join t (join m "\n"))
  | none ↦ elim (e.copy f.name) [
    | copy_error m ↦
        (let (l, s', t') = collect e fs failed (join t (join m "\n")) in (f ∷ l, s', t'))
    | copied n ↦ (let (l, s', t') = collect e fs s t in (record f { size = n } ∷ l, s', t'))
  ]
]

-- `zw.Close()`
unfoldable pub close_archive : Env → Status × String → Status × String
close_archive e (s, t) = elim e.close_error [
  | some m ↦ (failed, join t (join m "\n"))
  | none ↦ (s, t)
]

-- What follows the `select`, up to the deferred `teardown`, which clears `dir`.
unfoldable pub after_select : Env → Job → Status → String → Job
unfolding close_archive collect conclude
after_select e j s t =
    let j' = record j { status = s; cmd_dur = sub_time e.cmd_end e.cmd_start; dir = "" } in
    if is_failed s
    then conclude e j' e.out t
    else (let (fs, s', t') = collect e j.outfiles s t in
        let (s'', t'') = close_archive e (s', t') in
        conclude e (record j' { outfiles = fs; status = s'' }) e.out t'')

-- The `select`, for a command that runs.
unfoldable pub wait : Env → Job → Wake → Outcome
wait e j timed_out =
    if e.dies then ended (after_select e j failed (join e.err e.timeout_text)) true else hung true
wait e j (kill true) =
    if e.dies
    then ended (after_select e j failed (join e.err "\njob was terminated by server\n")) true
    else hung true
wait e j (kill false) = ended (after_select e j j.status e.err) true
wait e j (exited none) = ended (after_select e j complete e.err) true
wait e j (exited (some m)) = ended (after_select e j failed (join e.err m)) true

-- `cmd.Start()`. On an error the status is sent on the channel `done`, which has no buffer, by the
-- goroutine that would receive it.
unfoldable pub launch : Env → Job → Outcome
unfolding wait
launch e j = elim e.start_error [ some m ↦ hung false | none ↦ wait e j e.wake ]

-- An early return with status `failed`.
unfoldable pub refuse : Env → Job → String → Outcome
unfolding conclude
refuse e j t = ended (conclude e (record j { status = failed }) "" t) false

unfoldable pub checked : Env → Job → List String → Outcome
unfolding refuse setup
checked e j [] = refuse e j "job has no command to run\n"
checked e j (c ∷ args) =
    if not (is_empty j.whitelist) && not (listed c j.whitelist)
    then refuse e j (e.reject_text c j.whitelist)
    else (let (j', problem) = setup e j in
        elim problem [ some m ↦ refuse e j' m | none ↦ launch e j' ])

-- The timeout that `Execute` puts for the value zero.
abbrev pub with_timeout : Duration → Duration
with_timeout d = if pos_part d == neg_part d then default_timeout else d

unfoldable pub execute : Env → Job → Outcome
unfolding checked
execute e j =
    let j' = record j { timeout = with_timeout j.timeout; started = e.started_at } in
    checked e j' j'.cmd
