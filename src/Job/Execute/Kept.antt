-- ===== src/Job/Execute/Kept.antt =====
-- `Execute` of cloudlus/job.go: what it leaves of a job as it was.
use cloudlus.Base.{
  String, if◌then◌else◌, ◌≡◌, refl, ◌∙◌, Bool, true, false, not, ◌&&◌, Option, none, some, List, [],
  ◌∷◌, arith, join,
}
use cloudlus.Job.{Job, Status, failed, complete, listed}
use cloudlus.Job.Execute.{
  Wake, timed_out, kill, exited, Env, Outcome, hung, ended, setup, enter_dir, conclude,
  after_select, with_timeout, is_empty, refuse, wait, launch, checked, execute,
}

-- The identifier, the command, the worker and the input files.
abbrev pub SameTask : Job → Job → Type 0
SameTask k j =
    (k.id ≡ j.id) × (k.cmd ≡ j.cmd) × (k.worker_id ≡ j.worker_id) × (k.infiles ≡ j.infiles)

abbrev pub Keeps : Job → Outcome → Type 0
Keeps j (hung _) = Unit
Keeps j (ended k _) = SameTask k j

after_select-SameTask :
    (e : Env) (j : Job) (s : Status) (t : String) → SameTask (after_select e j s t) j
unfolding after_select conclude
after_select-SameTask e j s t = ground arith

Keeps-if :
    (j : Job) (b : Bool) (o p : Outcome) → Keeps j o → Keeps j p → Keeps j (if b then o else p)
Keeps-if j true o p h k = h
Keeps-if j false o p h k = k

Keeps-trans : (j k : Job) (o : Outcome) → SameTask k j → Keeps k o → Keeps j o
Keeps-trans j k (hung b) s h = tt
Keeps-trans j k (ended l b) (a, c, d, f) (a', c', d', f') = (a' ∙ a, c' ∙ c, d' ∙ d, f' ∙ f)

wait-Keeps : (e : Env) (j : Job) (w : Wake) → Keeps j (wait e j w)
unfolding wait
wait-Keeps e j timed_out = Keeps-if j e.dies _ (hung true) (after_select-SameTask e j failed _) tt
wait-Keeps e j (kill true) = Keeps-if j e.dies _ (hung true) (after_select-SameTask e j failed _) tt
wait-Keeps e j (kill false) = after_select-SameTask e j j.status e.err
wait-Keeps e j (exited none) = after_select-SameTask e j complete e.err
wait-Keeps e j (exited (some m)) = after_select-SameTask e j failed (join e.err m)

launch-Keeps : (e : Env) (j : Job) → Keeps j (launch e j)
unfolding launch
launch-Keeps e j = start e.start_error
  where
    start : (p : Option String) → Keeps j (elim p [ some m ↦ hung false | none ↦ wait e j e.wake ])
    start none = wait-Keeps e j e.wake
    start (some m) = tt

setup-SameTask : (e : Env) (j : Job) → SameTask (setup e j).0 j
unfolding setup enter_dir
setup-SameTask e j = ground arith

refuse-Keeps : (e : Env) (j : Job) (t : String) → Keeps j (refuse e j t)
unfolding refuse conclude
refuse-Keeps e j t = (refl, refl, refl, refl)

enter-Keeps :
    (e : Env) (j : Job) (p : Option String)
    → Keeps j (elim p [ some m ↦ refuse e j m | none ↦ launch e j ])
enter-Keeps e j none = launch-Keeps e j
enter-Keeps e j (some m) = refuse-Keeps e j m

checked-Keeps : (e : Env) (j : Job) (cmd : List String) → Keeps j (checked e j cmd)
unfolding checked
checked-Keeps e j [] = refuse-Keeps e j "job has no command to run\n"
checked-Keeps e j (c ∷ args) =
    Keeps-if j (not (is_empty j.whitelist) && not (listed c j.whitelist))
      (refuse e j (e.reject_text c j.whitelist))
      (elim (setup e j).1 [ none ↦ launch e (setup e j).0 | some m ↦ refuse e (setup e j).0 m ])
      (refuse-Keeps e j (e.reject_text c j.whitelist))
      (Keeps-trans j (setup e j).0
        (elim (setup e j).1 [ none ↦ launch e (setup e j).0 | some m ↦ refuse e (setup e j).0 m ])
        (setup-SameTask e j) (enter-Keeps e (setup e j).0 (setup e j).1))

-- Whatever happens, `Execute` leaves the identifier, the command, the worker and the input files of
-- a job as they were.
pub execute-Keeps : (e : Env) (j : Job) → Keeps j (execute e j)
unfolding execute
execute-Keeps e j =
    checked-Keeps e (record j { timeout = with_timeout j.timeout; started = e.started_at }) j.cmd
