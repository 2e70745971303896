-- ===== src/Job/Execute/Verdict.antt =====
-- `Execute` of cloudlus/job.go: when a job ends as complete.
use cloudlus.Base.{
  ◌≡◌, ◌⊎◌, refl, inl, inr, String, Bool, true, false, ◌&&◌, none, some, List, [], ◌∷◌, arith, join,
  Option-cases, List-cases,
}
use Prim.Native.Nat.{ℕ}
use cloudlus.Job.{File, Job, Status, complete, failed, is_complete}
use cloudlus.Job.Execute.{
  Wake, timed_out, kill, exited, Copy, copied, copy_error, Env, Outcome, hung, ended, setup,
  enter_dir, conclude, collect, close_archive, after_select, with_timeout, refuse, wait, launch,
  checked, execute,
}
use cloudlus.Job.Execute.Checks.{is_admitted, is_none, is_prepared, is_prepared-setup}

unfoldable pub is_complete_end : Outcome → Bool
is_complete_end (hung _) = false
is_complete_end (ended j _) = is_complete j.status

-- Whether the command ended by itself and without an error.
unfoldable pub is_success : Wake → Bool
is_success timed_out = false
is_success (kill _) = false
is_success (exited m) = is_none m

unfoldable pub is_copied : Copy → Bool
is_copied (copied _) = true
is_copied (copy_error _) = false

-- Whether every output file gets into the archive.
unfoldable pub is_collected : Env → List File → Bool
is_collected e [] = true
is_collected e (f ∷ fs) =
    is_none (e.create_error f.name) && is_copied (e.copy f.name) && is_collected e fs

Copy-cases : (c : Copy) → ((n : ℕ) × (c ≡ copied n)) ⊎ ((m : String) × (c ≡ copy_error m))
Copy-cases (copied n) = inl (n, refl)
Copy-cases (copy_error m) = inr (m, refl)

is_complete-collect :
    (e : Env) (fs : List File) (s : Status) (t : String)
    → is_complete (collect e fs s t).1 ≡ (is_complete s && is_collected e fs)
unfolding collect is_collected is_none is_copied
is_complete-collect e [] s t = ground arith
is_complete-collect e (f ∷ fs) s t = elim (Copy-cases (e.copy f.name)) [
  | inl (n, h) ↦
      ground (arith, h, Option-cases (e.create_error f.name), is_complete-collect e fs s t)
  | inr (m, h) ↦ ground (
    arith,
    h,
    Option-cases (e.create_error f.name),
    is_complete-collect e fs failed (join t (join m "\n")),
  )
]

is_complete-after_select :
    (e : Env) (j : Job) (s : Status) (t : String)
    → is_complete (after_select e j s t).status
      ≡ (is_complete s && is_collected e j.outfiles && is_none e.close_error)
unfolding after_select conclude close_archive is_none
is_complete-after_select e j s t = ground (arith, is_complete-collect e j.outfiles s t)

is_complete-wait :
    (e : Env) (j : Job) (w : Wake)
    → is_complete j.status ≡ false
    → is_complete_end (wait e j w)
      ≡ (is_success w && is_collected e j.outfiles && is_none e.close_error)
unfolding wait is_complete_end is_success is_none
is_complete-wait e j timed_out h =
    ground (arith, is_complete-after_select e j failed (join e.err e.timeout_text))
is_complete-wait e j (kill true) h =
    ground
      (arith, is_complete-after_select e j failed (join e.err "\njob was terminated by server\n"))
is_complete-wait e j (kill false) h = ground (arith, h, is_complete-after_select e j j.status e.err)
is_complete-wait e j (exited none) h = is_complete-after_select e j complete e.err
is_complete-wait e j (exited (some m)) h = is_complete-after_select e j failed (join e.err m)

is_complete-launch :
    (e : Env) (j : Job)
    → is_complete j.status ≡ false
    → is_complete_end (launch e j) ≡ (
        is_none e.start_error
        && is_success e.wake
        && is_collected e j.outfiles
        && is_none e.close_error)
unfolding launch is_none is_complete_end
is_complete-launch e j h = ground (arith, is_complete-wait e j e.wake h)

-- What `setup` leaves as it is.
setup_keeps :
    (e : Env) (j : Job) → ((setup e j).0.status ≡ j.status) × ((setup e j).0.outfiles ≡ j.outfiles)
unfolding setup enter_dir
setup_keeps e j = ground arith

is_complete-checked :
    (e : Env) (j : Job) (cmd : List String)
    → is_complete j.status ≡ false
    → is_complete_end (checked e j cmd) ≡ (
        is_admitted cmd j.whitelist
        && is_none (setup e j).1
        && is_none e.start_error
        && is_success e.wake
        && is_collected e j.outfiles
        && is_none e.close_error)
unfolding checked is_admitted is_none is_complete_end refuse conclude
is_complete-checked e j [] h = refl
is_complete-checked e j (c ∷ args) h =
    let (s, o) = setup_keeps e j in
    let l = is_complete-launch e (setup e j).0 (rw s h) in
    elim (List-cases j.whitelist) [
      | inl w ↦ ground (arith, w, o, l, Option-cases (setup e j).1)
      | inr (w, ws, q) ↦ ground (arith, q, o, l, Option-cases (setup e j).1)
    ]

-- A job that is not complete before ends as complete in exactly these cases: it may run, its
-- directory is ready, its command starts and ends by itself without an error, every output file
-- gets into the archive, and the archive is closed without an error.
pub is_complete-execute :
    (e : Env) (j : Job)
    → is_complete j.status ≡ false
    → is_complete_end (execute e j) ≡ (
        is_admitted j.cmd j.whitelist
        && is_prepared e j
        && is_none e.start_error
        && is_success e.wake
        && is_collected e j.outfiles
        && is_none e.close_error)
unfolding execute is_prepared
is_complete-execute e j h =
    let j' = record j { timeout = with_timeout j.timeout; started = e.started_at } in
    rw (← is_prepared-setup e j') (is_complete-checked e j' j.cmd h)
