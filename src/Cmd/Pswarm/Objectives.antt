-- ===== src/Cmd/Pswarm/Objectives.antt =====
-- What `Objective` of cmd/pswarmdriver/main.go runs for variables that do not fit.
use cloudlus.Base.{
  ◌*◌, ◌≡◌, refl, sym, ap, ◌∙◌, Bool, false, List, String, ◌==◌, length, if◌then◌else◌,
}
use cloudlus.Scen.Float.{Float}
use cloudlus.Scen.Model.{Scenario, nvars_per_period}
use cloudlus.Scen.Check.{Error, Result, ok, err, panic, wrong_vars}
use cloudlus.Scen.Valid.{IsValid, validate_self, ok≢err}
use cloudlus.Scen.Deploy.{Deploy, transform_vars, checked_deploy, keep_builds, after_checks}
use cloudlus.Scen.Deployed.{transform_vars-after_checks}
use cloudlus.Scen.Total.{outcome, outcome-transform_vars}
use cloudlus.Scen.Modes.{Config}
use cloudlus.Runscen.{Calls, LocalCalls, local, remote_timeout}
use cloudlus.Cmd.Pswarm.{Flags, kept, objective}

module _ {W : Type 0} ⦃d : Float W⦄ (order : Deploy W → Deploy W)
    (parses : String → String → Bool) where
  keep_builds_err :
      (s : Scenario W) (c : Result (Deploy W)) (e : Error)
      → outcome ((keep_builds order parses s c).1) ≡ err e
      → kept (keep_builds order parses s c) ≡ ok s
  unfolding keep_builds kept
  keep_builds_err s (ok m) e h = absurd (ok≢err tt e (sym h))
  keep_builds_err s (err f) e h = refl
  keep_builds_err s panic e h = absurd (never h)
    where
      stuck : Result (Unit {0})
      stuck = panic

      never : stuck ≡ err e → ⊥
      never q = cc

  -- The number of variables does not fit.
  abbrev pub Misfits : Scenario W → List W → Type 0
  Misfits s v = (length v == nvars_per_period s * length s.min_power) ≡ false

  kept-transform_vars :
      (s : Scenario W) (v : List W)
      → IsValid s
      → Misfits s v
      → kept (transform_vars order parses s v) ≡ ok s
  unfolding after_checks
  kept-transform_vars s v valid n =
      let q : transform_vars order parses s v
          ≡ keep_builds order parses s (checked_deploy order parses s v) =
        transform_vars-after_checks parses order s v
        ∙ ap (after_checks order parses v) (validate_self parses s valid) in
      ap kept q
      ∙ keep_builds_err s (checked_deploy order parses s v) (wrong_vars (length v)) (
          ap (λ (r : Scenario W × Result (Deploy W)). outcome r.1) (sym q)
          ∙ (outcome-transform_vars order parses s v (ap (λ r. r.1) (validate_self parses s valid))
              ∙ rw (validate_self parses s valid, n) refl))

  -- The error of `TransformVars` is ignored: for variables that do not fit, whatever they are, the
  -- objective is that of the scenario as it was loaded, with no deployment of the variables in it.
  pub objective_misfit :
      (cfg : Config W) (f : Flags) (here : LocalCalls W) (there : Calls W) (dials : Bool)
      (s : Scenario W) (v : List W)
      → IsValid s
      → Misfits s v
      → objective order parses cfg f here there dials s v ≡ (
          if f.is_local
          then (local parses cfg here s).1
          else (remote_timeout parses cfg there dials f.timeout s).1)
  unfolding objective
  objective_misfit cfg f here there dials s v valid n =
      rw (objective, kept-transform_vars s v valid n) refl
