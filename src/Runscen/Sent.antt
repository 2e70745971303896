-- ===== src/Runscen/Sent.antt =====
-- Which jobs runscen/runscen.go sends.
use cloudlus.Base.{ℕ, ◌≡◌, refl, ap, Bool, true, false, Option, none, some, List, String}
use cloudlus.Time.{Duration}
use cloudlus.Job.{Job}
use cloudlus.Scen.Float.{Float}
use cloudlus.Scen.Model.{Scenario}
use cloudlus.Scen.Check.{ok}
use cloudlus.Scen.Modes.{Config}
use cloudlus.Scen.Valid.{ok_eq}
use cloudlus.Scen.Entries.{ok->>=}
use cloudlus.Scen.Marks.{>>=_cong, same_start, calc_total_objective_marked}
use mathlib.Core.Path.{subst}
use cloudlus.Runscen.{
  Calls, Waited, or_failed, objfile, remote_job, build_remote_job, write_logs, await, remote_exec,
  remote_timeout,
}

ok-or_failed :
    {A : Type 0} (step : String) (o : Option A) (a : A) → or_failed step o ≡ ok a → o ≡ some a
ok-or_failed step none a h = absurd cc
ok-or_failed step (some b) a h = cc

module _ {W : Type 0} where
  -- The job that a simulation of a scenario sends, with the data that were read for it.
  abbrev pub sent_job : Calls W → Duration → Scenario W → List ℕ → List ℕ → Job
  sent_job c timeout s tmpl data' = record (remote_job c s objfile tmpl data') { timeout = timeout }

  ok-build_remote_job :
      (c : Calls W) (s : Scenario W) (j : Job)
      → build_remote_job c s objfile ≡ ok j
      → (data' tmpl : List ℕ) × (c.encode s ≡ some data')
        × (c.read_file s.cyclus_tmpl ≡ some tmpl)
        × (remote_job c s objfile tmpl data' ≡ j)
  unfolding build_remote_job
  ok-build_remote_job c s j h =
      let (data', e, h1) = ok->>= (or_failed "encode" (c.encode s)) _ j h in
      let (tmpl, q, h2) = ok->>= (or_failed "template" (c.read_file s.cyclus_tmpl)) _ j h1 in
      (data', tmpl, ok-or_failed "encode" _ data' e, ok-or_failed "template" _ tmpl q, ok_eq _ j h2)

  -- Two servers that answer the jobs of marked scenarios alike.
  abbrev pub Alike : Calls W → Duration → (Job → Waited) → Type 0
  Alike c timeout run =
      (s : Scenario W) (data' tmpl : List ℕ)
      → s.single_calc ≡ true
      → c.encode s ≡ some data'
      → c.run (sent_job c timeout s tmpl data') ≡ run (sent_job c timeout s tmpl data')

  build_remote_job-run :
      (c : Calls W) (s : Scenario W) (run : Job → Waited)
      → build_remote_job (record c { run = run }) s objfile ≡ build_remote_job c s objfile
  unfolding build_remote_job
  build_remote_job-run c s run = refl

  remote_exec-Alike :
      (c : Calls W) (timeout : Duration) (run : Job → Waited)
      → Alike c timeout run
      → (s : Scenario W) → s.single_calc ≡ true
      → remote_exec c timeout s ≡ remote_exec (record c { run = run }) timeout s
  unfolding remote_exec build_remote_job write_logs
  remote_exec-Alike c timeout run h s m = >>=_cong (build_remote_job c s objfile) _ _ (λ j e.
      same_start _ _ _ (
        ap await (
          let (data', tmpl, a, _, b) = ok-build_remote_job c s j e in
          subst (λ j. c.run (record j { timeout = timeout }) ≡ run (record j { timeout = timeout }))
            b (h s data' tmpl m a))))

  -- RemoteTimeout sends only jobs whose scenario is marked as one of several: servers that answer
  -- these jobs alike give it the same result.
  pub remote_timeout_marked :
      ⦃d : Float W⦄ (parses : String → String → Bool) (cfg : Config W) (c : Calls W)
      (timeout : Duration) (run : Job → Waited) (dialled : Bool) (s : Scenario W)
      → Alike c timeout run
      → remote_timeout parses cfg c dialled timeout s
        ≡ remote_timeout parses cfg (record c { run = run }) dialled timeout s
  unfolding remote_timeout
  remote_timeout_marked parses cfg c timeout run true s h =
      calc_total_objective_marked parses cfg (remote_exec c timeout)
        (remote_exec (record c { run = run }) timeout) (remote_exec-Alike c timeout run h) s
  remote_timeout_marked parses cfg c timeout run false s h = refl
