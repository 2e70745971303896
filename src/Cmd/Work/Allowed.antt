-- ===== src/Cmd/Work/Allowed.antt =====
-- Which commands a worker of cmd/cloudlus/main.go starts, with the jobs that the server sends it.
use cloudlus.Base.{
  ◌≡◌, refl, sym, ◌∙◌, inl, inr, true, some, List, [], ◌∷◌, String, All, arith, Bool-cases,
}
use text.Mathlib.Text.{◌==◌ as str_eq}
use text.Mathlib.TextEquality.{eq_iff}
use mathlib.Core.Path.{subst}
use cloudlus.Time.{Time}
use cloudlus.Job.{Job, WorkerId, listed}
use cloudlus.Job.Execute.{execute}
use cloudlus.Job.Execute.Checks.{is_started, is_admitted}
use cloudlus.Worker.{Worker, Trip, Report, report, run_job, dojob, prepare, ready}
use cloudlus.Worker.Pushes.{dojob_whitelisted}
use cloudlus.Cmd.Work.{WorkFlags, IsName, whitelist_of, worker_of, whitelist_of-IsName}

-- The worker that some trips leave, when each of them returns.
pub data Serves (w : Worker) : List Trip → Worker → Type 0 where
  fresh : Serves w [] w
  after :
      {ts : List Trip} {v : Worker} (t : Trip) (r : Report)
      → Serves w ts v
      → dojob v t ≡ some r
      → Serves w (t ∷ ts) r.worker

run_job-whitelist :
    (v : Worker) (t : Trip) (j : Job) (r : Report)
    → run_job v t j ≡ some r
    → r.worker.whitelist ≡ v.whitelist
unfolding run_job report
run_job-whitelist v t j r h = ground arith

dojob-whitelist :
    (v : Worker) (t : Trip) (r : Report) → dojob v t ≡ some r → r.worker.whitelist ≡ v.whitelist
unfolding dojob
dojob-whitelist v t r h = ground arith

Serves-whitelist :
    (w : Worker) (ts : List Trip) (v : Worker) → Serves w ts v → v.whitelist ≡ w.whitelist
Serves-whitelist w _ _ fresh = refl
Serves-whitelist w _ _ (after {ts} {v} t r s h) =
    dojob-whitelist v t r h ∙ Serves-whitelist w ts v s

listed-IsName : (c : String) (ws : List String) → All IsName ws → listed c ws ≡ true → IsName c
unfolding listed
listed-IsName c [] names h = absurd (ground arith)
listed-IsName c (w ∷ ws) names h = elim (Bool-cases (str_eq c w)) [
  | inl e ↦ subst IsName (sym ((eq_iff c w).0 e)) names.0
  | inr e ↦ listed-IsName c ws names.1 (rw (listed, e) at h)
]

-- A command, with the list that it is in, or any command where the list is empty.
abbrev pub IsAllowed : List String → List String → Type 0
IsAllowed ws [] = ⊥
IsAllowed [] (c ∷ args) = Unit
IsAllowed (w ∷ ws) (c ∷ args) = (listed c (w ∷ ws) ≡ true) × IsName c

admitted-IsAllowed :
    (ws cmd : List String) → All IsName ws → is_admitted cmd ws ≡ true → IsAllowed ws cmd
unfolding is_admitted
admitted-IsAllowed [] [] names h = ground arith
admitted-IsAllowed (w ∷ ws) [] names h = ground arith
admitted-IsAllowed [] (c ∷ args) names h = tt
admitted-IsAllowed (w ∷ ws) (c ∷ args) names h = (h, listed-IsName c (w ∷ ws) names h)

-- After any trips that return, a worker that was started with a list of commands starts a command,
-- for a job that came without such a list, only if the list has no name in it or the command is one
-- of the names: a piece of the flag between commas, trimmed and not empty.
pub work_starts-IsAllowed :
    (f : WorkFlags) (id : WorkerId) (now : Time) (ts : List Trip) (v : Worker) (t : Trip) (j : Job)
    → Serves (ready id now (worker_of f)) ts v
    → j.whitelist ≡ []
    → is_started (execute t.env (prepare v j)) ≡ true
    → IsAllowed (whitelist_of f.whitelist) j.cmd
unfolding worker_of ready
work_starts-IsAllowed f id now ts v t j served none_yet h =
    admitted-IsAllowed (whitelist_of f.whitelist) j.cmd (whitelist_of-IsName f.whitelist) (
      subst (λ (ws : List String). is_admitted j.cmd ws ≡ true)
        (Serves-whitelist (ready id now (worker_of f)) ts v served)
        (dojob_whitelisted v t j none_yet h))
