-- ===== src/Worker/Pushes.antt =====
-- What a worker of cloudlus/worker.go runs and pushes.
use cloudlus.Base.{
  ◌≡◌, refl, sym, ap, ◌∙◌, Bool, true, false, ◌&&◌, Option, none, some, List, [], ◌∷◌, ◌++◌, arith,
  inl, inr, String, Bool-cases,
}
use mathlib.Core.Path.{subst}
use cloudlus.Base.Int.{pos, ltb_ℤ}
use cloudlus.Job.{Job, failed, add_infile, add_whitelist}
use cloudlus.Job.Execute.{Outcome, hung, ended, execute}
use cloudlus.Job.Execute.Checks.{
  is_prepared, is_none, is_admitted, is_hung, is_started, is_started-execute,
}
use cloudlus.Job.Execute.Kept.{Keeps, execute-Keeps}
use cloudlus.Worker.{
  Cache, Worker, Trip, Report, fetched, add_cached, prepare, mark_error, finish, report, run_job,
  dojob,
}

add_cached_keeps :
    (c : Cache) (j : Job)
    → ((add_cached c j).id ≡ j.id)
      × ((add_cached c j).cmd ≡ j.cmd)
      × ((add_cached c j).worker_id ≡ j.worker_id)
      × ((add_cached c j).whitelist ≡ j.whitelist)
unfolding add_cached add_infile
add_cached_keeps [] j = (refl, refl, refl, refl)
add_cached_keeps ((n, d) ∷ c) j = (add_cached_keeps c (add_infile j n d))

prepare_keeps :
    (w : Worker) (j : Job)
    → ((prepare w j).id ≡ j.id)
      × ((prepare w j).cmd ≡ j.cmd)
      × ((prepare w j).worker_id ≡ j.worker_id)
      × ((prepare w j).whitelist ≡ j.whitelist ++ w.whitelist)
unfolding prepare add_whitelist
prepare_keeps w j = elim (Bool-cases (ltb_ℤ (pos 0) w.job_timeout)) [
  | inl e ↦ rw e (
      add_cached_keeps w.file_cache
        (record j { timeout = w.job_timeout; whitelist = j.whitelist ++ w.whitelist }))
  | inr e ↦
      rw e (add_cached_keeps w.file_cache (record j { whitelist = j.whitelist ++ w.whitelist }))
]

admitted : (a b c : Bool) → (a && b && c) ≡ true → a ≡ true
admitted a b c h = ground (arith, h)

-- The job that a worker pushes for a fetched one.
abbrev pub IsReport : Worker → Option String → Job → Job → Type 0
IsReport w none j k = (k.id ≡ j.id) × (k.worker_id ≡ w.id) × (k.infiles ≡ [])
IsReport w (some m) j k = (k.id ≡ j.id) × (k.worker_id ≡ j.worker_id) × (k.status ≡ failed)

finish-IsReport :
    (w : Worker) (m : Option String) (j k : Job)
    → k.id ≡ j.id
    → k.worker_id ≡ j.worker_id
    → IsReport w m j (finish w m k)
unfolding finish mark_error
finish-IsReport w none j k h i = (h, refl, refl)
finish-IsReport w (some m) j k h i = (h, i, refl)

run_job_report :
    (w : Worker) (t : Trip) (j : Job) (o : Outcome)
    → execute t.env (prepare w j) ≡ o
    → is_hung o ≡ false
    → (r : Report) × (k : Job) × (run_job w t j ≡ some r)
      × (r.pushed ≡ some k)
      × IsReport w t.outfile_error j k
unfolding is_hung run_job report
run_job_report w t j (hung b) e h = absurd (ground (arith, h))
run_job_report w t j (ended k b) e h =
    let kept : Keeps (prepare w j) (ended k b) =
      subst (Keeps (prepare w j)) e (execute-Keeps t.env (prepare w j)) in
    let (i, c, v, q) = prepare_keeps w j in
    (
      report w t (prepare w j) k,
      finish w t.outfile_error k,
      rw (run_job, e) refl,
      refl,
      finish-IsReport w t.outfile_error j k (kept.0 ∙ i) (kept.2 ∙ v),
    )

-- A worker that fetched a job, whose execution returns, pushes exactly one job, with the identifier
-- of the fetched one. If the output files were sent, it carries the identifier of the worker and no
-- input files. If they were not, it is failed, and the worker it names is the one of the fetched
-- job.
pub dojob_pushes :
    (w : Worker) (t : Trip) (j : Job)
    → t.dial_error ≡ none
    → t.fetch ≡ fetched j
    → is_hung (execute t.env (prepare w j)) ≡ false
    → (r : Report) × (k : Job) × (dojob w t ≡ some r)
      × (r.pushed ≡ some k)
      × IsReport w t.outfile_error j k
unfolding dojob run_job
dojob_pushes w t j d f h =
    rw (dojob, d, f) (run_job_report w t j (execute t.env (prepare w j)) refl h)

-- A worker with a list of permitted commands starts no other command, for a job that came without
-- such a list.
pub dojob_whitelisted :
    (w : Worker) (t : Trip) (j : Job)
    → j.whitelist ≡ []
    → is_started (execute t.env (prepare w j)) ≡ true
    → is_admitted j.cmd w.whitelist ≡ true
dojob_whitelisted w t j none_yet h =
    let (i, c, v, q) = prepare_keeps w j in
    let a : is_admitted (prepare w j).cmd (prepare w j).whitelist ≡ true =
      admitted (is_admitted (prepare w j).cmd (prepare w j).whitelist)
        (is_prepared t.env (prepare w j)) (is_none t.env.start_error)
        (sym (is_started-execute t.env (prepare w j)) ∙ h) in
    subst (λ (l : List String). is_admitted j.cmd l ≡ true)
      (q ∙ ap (λ (l : List String). l ++ w.whitelist) none_yet)
      (subst (λ (l : List String). is_admitted l (prepare w j).whitelist ≡ true) c a)
