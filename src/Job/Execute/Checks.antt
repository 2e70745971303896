-- ===== src/Job/Execute/Checks.antt =====
-- `Execute` of cloudlus/job.go: which jobs have their command started, and which never return.
use cloudlus.Base.{
  ◌≡◌, refl, inl, inr, String, Bool, true, false, not, ◌&&◌, Option, none, some, List, [], ◌∷◌,
  if◌then◌else◌, arith, Option-cases, List-cases,
}
use cloudlus.Job.{File, Job, listed}
use text.Mathlib.Text.{◌==◌ as str_eq}
use cloudlus.Job.Execute.{
  Wake, timed_out, kill, exited, Env, Outcome, hung, ended, setup, wait, write_files, enter_dir,
  with_timeout, launch, checked, execute,
}

-- Whether a job may run: it has a command, and its list of permitted commands, if it has one, has
-- the name of this command.
unfoldable pub is_admitted : List String → List String → Bool
is_admitted [] whitelist = false
is_admitted (c ∷ args) [] = true
is_admitted (c ∷ args) (w ∷ ws) = listed c (w ∷ ws)

unfoldable pub is_none {ℓ} : {A : Type ℓ} → Option A → Bool
is_none none = true
is_none (some _) = false

-- Whether the wait is followed by a wait for the killed command.
unfoldable pub is_killed : Wake → Bool
is_killed timed_out = true
is_killed (kill b) = b
is_killed (exited _) = false

unfoldable pub is_hung : Outcome → Bool
is_hung (hung _) = true
is_hung (ended _ _) = false

-- Whether the command was started: the call of `cmd.Start` gave no error.
unfoldable pub is_started : Outcome → Bool
is_started (hung b) = b
is_started (ended _ b) = b

is_hung-wait : (e : Env) (j : Job) (w : Wake) → is_hung (wait e j w) ≡ (is_killed w && not e.dies)
unfolding wait is_hung is_killed
is_hung-wait e j timed_out = ground arith
is_hung-wait e j (kill true) = ground arith
is_hung-wait e j (kill false) = refl
is_hung-wait e j (exited none) = refl
is_hung-wait e j (exited (some m)) = refl

is_hung-launch :
    (e : Env) (j : Job)
    → is_hung (launch e j)
      ≡ (if is_none e.start_error then is_killed e.wake && not e.dies else true)
unfolding launch is_none is_hung
is_hung-launch e j = ground (arith, is_hung-wait e j e.wake)

is_hung-checked :
    (e : Env) (j : Job) (cmd : List String)
    → is_hung (checked e j cmd) ≡ (
        is_admitted cmd j.whitelist
        && is_none (setup e j).1
        && (if is_none e.start_error then is_killed e.wake && not e.dies else true))
unfolding checked is_admitted is_none is_hung
is_hung-checked e j [] = refl
is_hung-checked e j (c ∷ args) = elim (List-cases j.whitelist) [
  | inl h ↦ ground (arith, h, Option-cases (setup e j).1, is_hung-launch e (setup e j).0)
  | inr (w, ws, h) ↦ ground (arith, h, Option-cases (setup e j).1, is_hung-launch e (setup e j).0)
]

unfoldable pub is_written : Env → List File → Bool
is_written e [] = true
is_written e (f ∷ fs) = is_none (e.write_error f) && is_written e fs

-- Whether the directory of a job can be made, entered and filled.
unfoldable pub is_prepared : Env → Job → Bool
is_prepared e j =
    (if str_eq j.wd "" then is_none e.getwd_error else true)
    && is_none e.mkdir_error
    && is_none e.chdir_error
    && is_written e j.infiles

is_written-write_files : (e : Env) (fs : List File) → is_none (write_files e fs) ≡ is_written e fs
unfolding write_files is_none is_written
is_written-write_files e [] = refl
is_written-write_files e (f ∷ fs) = ground (arith, is_written-write_files e fs)

pub is_prepared-setup : (e : Env) (j : Job) → is_none (setup e j).1 ≡ is_prepared e j
unfolding setup enter_dir is_none is_prepared
is_prepared-setup e j = ground (arith, is_written-write_files e j.infiles)

-- `Execute` never returns in exactly these cases: the job may run and its directory is ready, and
-- either the command cannot be started, or the wait ended by the timer or a kill request and the
-- command does not end.
pub is_hung-execute :
    (e : Env) (j : Job)
    → is_hung (execute e j) ≡ (
        is_admitted j.cmd j.whitelist
        && is_prepared e j
        && (if is_none e.start_error then is_killed e.wake && not e.dies else true))
unfolding execute is_prepared
is_hung-execute e j =
    let j' = record j { timeout = with_timeout j.timeout; started = e.started_at } in
    rw (← is_prepared-setup e j') (is_hung-checked e j' j.cmd)

is_started-wait : (e : Env) (j : Job) (w : Wake) → is_started (wait e j w) ≡ true
unfolding wait is_started
is_started-wait e j timed_out = ground arith
is_started-wait e j (kill true) = ground arith
is_started-wait e j (kill false) = refl
is_started-wait e j (exited none) = refl
is_started-wait e j (exited (some m)) = refl

is_started-launch : (e : Env) (j : Job) → is_started (launch e j) ≡ is_none e.start_error
unfolding launch is_none is_started
is_started-launch e j = ground (arith, is_started-wait e j e.wake)

is_started-checked :
    (e : Env) (j : Job) (cmd : List String)
    → is_started (checked e j cmd)
      ≡ (is_admitted cmd j.whitelist && is_none (setup e j).1 && is_none e.start_error)
unfolding checked is_admitted is_none is_started
is_started-checked e j [] = refl
is_started-checked e j (c ∷ args) = elim (List-cases j.whitelist) [
  | inl h ↦ ground (arith, h, Option-cases (setup e j).1, is_started-launch e (setup e j).0)
  | inr (w, ws, h) ↦
      ground (arith, h, Option-cases (setup e j).1, is_started-launch e (setup e j).0)
]

-- `Execute` starts the command in exactly these cases, whether it returns or not: the job may run,
-- its directory is ready and `cmd.Start` gives no error.
pub is_started-execute :
    (e : Env) (j : Job)
    → is_started (execute e j)
      ≡ (is_admitted j.cmd j.whitelist && is_prepared e j && is_none e.start_error)
unfolding execute is_prepared
is_started-execute e j =
    let j' = record j { timeout = with_timeout j.timeout; started = e.started_at } in
    rw (← is_prepared-setup e j') (is_started-checked e j' j.cmd)
