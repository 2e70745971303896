-- ===== src/Cmd/Pswarm.antt =====
-- cmd/pswarmdriver/main.go: the flags and the objective that the driver gives to its optimizer.
pub mod Points
pub mod Objectives
pub mod Solver
pub mod Main
use cloudlus.Base.{
  ℕ, suc, ◌+◌, Bool, true, false, not, Option, none, some, List, [], ◌∷◌, String, if◌then◌else◌,
  ltb, length, get_or, set, range_from,
}
use cloudlus.Base.Int.{ℤ, pos, negsuc, eq_ℤ}
use cloudlus.Scen.Float.{Float}
use cloudlus.Scen.Model.{Scenario}
use cloudlus.Scen.Check.{Result, ok, err, panic, ◌>>=◌, failed_run}
use cloudlus.Scen.Deploy.{Deploy, transform_vars}
use cloudlus.Scen.Modes.{Config}
use cloudlus.Scen.Vars.{zeros}
use cloudlus.Runscen.{Calls, LocalCalls, local, remote_timeout}
use cloudlus.Time.{Duration}

pub record Flags : Type 0 where
  pub is_local : Bool
  pub swarmonly : Bool
  pub npar : ℤ
  pub ncpu : ℤ
  pub maxeval : ℤ
  pub maxiter : ℤ
  pub maxnoimprove : ℤ
  pub timeout : Duration
  pub restart : ℤ

-- The scenario after `TransformVars`, whose error is ignored.
unfoldable pub kept : {A B : Type 0} → A × Result B → Result A
kept (s, ok b) = ok s
kept (s, err e) = ok s
kept (s, panic) = panic

module _ {W : Type 0} ⦃d : Float W⦄ where
  module _ (order : Deploy W → Deploy W) (parses : String → String → Bool) (cfg : Config W) where
    -- `Objective`, on a copy of the scenario.
    unfoldable pub objective :
        Flags → LocalCalls W → Calls W → Bool → Scenario W → List W → Result W
    unfolding transform_vars kept local remote_timeout
    objective f here there dials s v = do
      s' ← kept (transform_vars order parses s v)
      (if f.is_local
          then (local parses cfg here s').1
          else (remote_timeout parses cfg there dials f.timeout s').1)
