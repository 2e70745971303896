-- ===== src/Cmd/Cycobj/Jobs.antt =====
-- What cmd/cycobj/main.go does on the machine that runs a job of runscen/runscen.go: the command of the
-- job names the objective file and the scenario file, and the other flags are not set.
use mathlib.Core.Path.{subst}
use cloudlus.Base.{
  ℕ, ◌*◌, ◌≡◌, refl, ap, ◌∙◌, Bool, true, false, some, List, [], String, ◌==◌, length,
  if◌then◌else◌, Option-cases, inl, inr,
}
use cloudlus.Base.Words.{is_empty, split, trim_space}
use cloudlus.Scen.Float.{Float}
use cloudlus.Scen.Model.{Scenario, nvars_per_period}
use cloudlus.Scen.Check.{
  Error, Result, ok, err, panic, ◌>>=◌, wrong_vars, unreadable, bad_json, bad_json_at,
}
use cloudlus.Scen.Valid.{IsValid, validate-IsValid, validate_self, ok≢err, ok≢panic}
use cloudlus.Scen.Total.{outcome, outcome-transform_vars}
use cloudlus.Scen.Deploy.{Deploy, transform_vars}
use cloudlus.Scen.Load.{Decoded, decoded, syntax_error, decode_error, load, load_decoded}
use cloudlus.Scen.Line.{find_line}
use cloudlus.Scen.Modes.{Config, calc_total_objective}
use cloudlus.Runscen.{Calls, local_exec, local, remote_job}
use cloudlus.Cmd.Cycobj.{
  Flags, World, wrote, checked, no_builds, filled_lines, floats, parse_vars, params, with_sched,
  parse_sched_vars, run_job, put_value, act, after_load, main,
}
use cloudlus.Cmd.Cycobj.Command.{command_flags, job_flags, command-job_flags}

err_of_outcome : {A : Type 0} (r : Result A) (e : Error) → outcome r ≡ err e → r ≡ err e
err_of_outcome (ok a) e h = cc
err_of_outcome (err f) e h = cc
err_of_outcome panic e h = cc

-- The two halves of a `checked` result.
checked_value : {A B : Type 0} (s : A) (r : Result B) → (checked (s, r) >>= λ p. ok p.1) ≡ r
unfolding checked
checked_value s (ok b) = refl
checked_value s (err e) = refl
checked_value s panic = refl

bind_cong :
    {A B : Type 0} (r : Result A) (f g : A → Result B)
    → ((a : A) → f a ≡ g a)
    → (r >>= f) ≡ (r >>= g)
bind_cong (ok a) f g h = h a
bind_cong (err e) f g h = refl
bind_cong panic f g h = refl

checked_err : {A B : Type 0} (r : A × Result B) (e : Error) → r.1 ≡ err e → checked r ≡ err e
unfolding checked
checked_err (s, ok b) e h = cc
checked_err (s, err f) e h = cc
checked_err (s, panic) e h = cc

if_of : {A : Type 0} (b : Bool) (x y : A) → b ≡ true → (if b then x else y) ≡ x
if_of true x y h = refl
if_of false x y h = cc

module _ {W : Type 0} ⦃d : Float W⦄ (parses : String → String → Bool) where
  abbrev error_of : Scenario W × Result (Unit {0}) → Result (Unit {0})
  error_of r = r.1

  load_decoded-IsValid :
      (bytes : List ℕ) (file : String) (x : Decoded (Scenario W)) (s : Scenario W)
      → load_decoded parses bytes file x ≡ (s, ok tt)
      → IsValid s
  unfolding load_decoded
  load_decoded-IsValid bytes file (decoded t) s h =
      subst IsValid (ap (λ (r : Scenario W × Result (Unit {0})). r.0) h)
        (validate-IsValid parses (record t { file = file }) (ap error_of h))
  load_decoded-IsValid bytes file (decode_error t) s h = absurd (ok≢err tt bad_json (ap error_of h))
  load_decoded-IsValid bytes file (syntax_error t offset) s h =
      elim (Option-cases (find_line bytes offset)) [
        | inl e ↦ absurd (ok≢panic tt (ap error_of (rw (load_decoded, e) at h)))
        | inr ((line, col), e) ↦
            absurd (ok≢err tt (bad_json_at line col) (ap error_of (rw (load_decoded, e) at h)))
      ]

  pub load-IsValid :
      (w : World W) (file : String) (z s : Scenario W)
      → load parses w.read_file w.decode file z ≡ (s, ok tt)
      → IsValid s
  unfolding load
  load-IsValid w file z s h = elim (Option-cases (w.read_file file)) [
    | inl e ↦ absurd (ok≢err tt unreadable (ap error_of (rw (load, e) at h)))
    | inr (bytes, e) ↦ load_decoded-IsValid bytes file (w.decode bytes z) s (rw (load, e) at h)
  ]

  module _ (order : Deploy W → Deploy W) where
    -- No variables are too few where some are wanted.
    transform_none :
        (s : Scenario W)
        → IsValid s
        → (0 == nvars_per_period s * length s.min_power) ≡ false
        → (transform_vars order parses s []).1 ≡ err (wrong_vars 0)
    transform_none s v n = err_of_outcome _ (wrong_vars 0) (
        outcome-transform_vars order parses s [] (rw (validate_self parses s v) refl)
        ∙ rw (validate_self parses s v, n) refl)

    local_single :
        (cfg : Config W) (w : World W) (s : Scenario W)
        → s.single_calc ≡ true
        → local parses cfg w.local_calls s ≡ (s, local_exec w.local_calls s)
    unfolding local calc_total_objective
    local_single cfg w s m = if_of s.single_calc _ _ m

    run_job_local :
        (cfg : Config W) (w : World W) (objfile file : String) (s : Scenario W)
        → s.single_calc ≡ true
        → run_job order w parses cfg (job_flags objfile file) s ≡ local_exec w.local_calls s
    unfolding run_job is_empty
    run_job_local cfg w objfile file s m =
        ap (λ (r : Scenario W × Result W). checked r >>= λ p. ok p.1) (local_single cfg w s m)
        ∙ checked_value s (local_exec w.local_calls s)

    put_value_file :
        (cfg : Config W) (w : World W) (objfile file : String) (v : W)
        → is_empty objfile ≡ false
        → w.writes objfile ≡ true
        → put_value order w parses cfg (job_flags objfile file) v ≡ ok (wrote objfile v)
    unfolding put_value
    put_value_file cfg w objfile file v o p = rw (o, p) refl

    act_job :
        (cfg : Config W) (w : World W) (objfile file : String) (s : Scenario W)
        → s.single_calc ≡ true
        → is_empty objfile ≡ false
        → w.writes objfile ≡ true
        → act order w parses cfg (job_flags objfile file) s
          ≡ (local_exec w.local_calls s >>= λ v. ok (wrote objfile v))
    unfolding act is_empty
    act_job cfg w objfile file s m o p =
        rw (run_job_local cfg w objfile file s m) (
          bind_cong (local_exec w.local_calls s) _ _ (λ v. put_value_file cfg w objfile file v o p))

    params_none :
        (w : World W) (objfile file : String)
        → w.stdin ≡ some ""
        → params order w (job_flags objfile file) ≡ ok []
    unfolding params parse_vars split filled_lines floats is_empty trim_space
    params_none w objfile file i = rw i refl

    parse_sched_vars_none :
        (cfg : Config W) (w : World W) (objfile file : String) (s : Scenario W)
        → IsValid s
        → (0 == nvars_per_period s * length s.min_power) ≡ false
        → w.stdin ≡ some ""
        → parse_sched_vars order w parses cfg (job_flags objfile file) s ≡ err (wrong_vars 0)
    unfolding parse_sched_vars with_sched
    parse_sched_vars_none cfg w objfile file s v n i =
        rw
          (
            params_none w objfile file i,
            checked_err (transform_vars order parses s []) (wrong_vars 0) (transform_none s v n),
          )
          refl

    -- A job of a remote run, on the machine of a worker where the objective file can be written, for
    -- a scenario file that is read as a scenario with a build, marked as one of several: with the
    -- flags of the command of the job, the program runs the one simulation of this scenario and
    -- writes its value to the objective file, or ends with the error or panic of the simulation.
    pub job_runs_simulation :
        (cfg : Config W) (w : World W) (c : Calls W) (sent z s : Scenario W) (objfile : String)
        (tmpl bytes : List ℕ)
        → load parses w.read_file w.decode sent.file z ≡ (s, ok tt)
        → no_builds s ≡ false
        → s.single_calc ≡ true
        → is_empty objfile ≡ false
        → w.writes objfile ≡ true
        → (f : Flags) × (command_flags (remote_job c sent objfile tmpl bytes).cmd ≡ some f)
          × (main order w parses cfg z f
              ≡ (local_exec w.local_calls s >>= λ v. ok (wrote objfile v)))
    unfolding main after_load
    job_runs_simulation cfg w c sent z s objfile tmpl bytes l b m o p = (
      job_flags objfile sent.file,
      command-job_flags c sent objfile tmpl bytes,
      ap (after_load order w parses cfg (job_flags objfile sent.file)) l
          ∙ rw b (act_job cfg w objfile sent.file s m o p),
    )

    -- A job of a remote run for a scenario without a build: nothing is run, since standard input is
    -- empty and variables are wanted.
    pub job_wants_variables :
        (cfg : Config W) (w : World W) (c : Calls W) (sent z s : Scenario W) (objfile : String)
        (tmpl bytes : List ℕ)
        → load parses w.read_file w.decode sent.file z ≡ (s, ok tt)
        → no_builds s ≡ true
        → (0 == nvars_per_period s * length s.min_power) ≡ false
        → w.stdin ≡ some ""
        → (f : Flags) × (command_flags (remote_job c sent objfile tmpl bytes).cmd ≡ some f)
          × (main order w parses cfg z f ≡ err (wrong_vars 0))
    unfolding main after_load is_empty
    job_wants_variables cfg w c sent z s objfile tmpl bytes l b n i = (
      job_flags objfile sent.file,
      command-job_flags c sent objfile tmpl bytes,
      ap (after_load order w parses cfg (job_flags objfile sent.file)) l
          ∙ rw
              (
                b,
                parse_sched_vars_none cfg w objfile sent.file s (load-IsValid w sent.file z s l) n
                    i,
              )
              refl,
    )
