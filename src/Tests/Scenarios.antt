-- ===== src/Tests/Scenarios.antt =====
-- Results on scenarios at concrete values. Floats are integers here.
use cloudlus.Base.{
  ◌*◌, ◌≡◌, refl, if◌then◌else◌, some, List, [], ◌∷◌, ◌++◌, ◌==◌, keep, All, length,
}
use cloudlus.Base.Int.{ℤ, pos}
use cloudlus.Scen.Model.{Build, Scenario, period_times, nvars_per_period, reactors}
use cloudlus.Scen.Check.{ok, err, panic, validate, wrong_vars}
use cloudlus.Scen.Deploy.{Deploy, builds_of, listed_builds, transform_vars}
use cloudlus.Scen.Extends.{IsNew}
use cloudlus.Scen.Deployed.{transform_vars_adds}
use cloudlus.Scen.Total.{outcome, outcome-transform_vars}
use cloudlus.Scen.Valid.{IsValid, validate-IsValid}
use cloudlus.Tests.Plans.{whole, parses, in_order, slow, fast, depot, starting, plan, choices}
use text.Mathlib.Text.{◌==◌ as str_eq}

plan_valid : (validate parses plan).1 ≡ ok tt
unfolding validate whole
plan_valid = refl

abbrev deployed : Deploy ℤ
deployed =
    (
      "slow",
      record starting { fac = slow }
          ∷ record { time = pos 1; proto = "slow"; n = pos 1; life = pos 0; fac = slow }
          ∷ [],
    )
    ∷ ("depot", record { time = pos 1; proto = "depot"; n = pos 3; life = pos 0; fac = depot } ∷ [])
    ∷ ("fast", record { time = pos 3; proto = "fast"; n = pos 3; life = pos 0; fac = fast } ∷ [])
    ∷ []

plan-deployed : (transform_vars in_order parses plan choices).1 ≡ ok deployed
unfolding transform_vars whole
plan-deployed = refl

abbrev pub accepted : Scenario ℤ
accepted = (validate parses plan).0

pub accepted-IsValid : IsValid accepted
accepted-IsValid = validate-IsValid parses plan plan_valid

pub reactors-accepted : reactors accepted ≡ slow ∷ fast ∷ []
unfolding reactors validate whole
reactors-accepted = refl

transform_vars_adds_example :
    ((transform_vars in_order parses plan choices).0
      ≡ record accepted { builds = listed_builds accepted.facs deployed })
    × ((ts : List ℤ) × (period_times accepted ≡ some ts)
        × ((new : List (Build ℤ)) × (builds_of "depot" deployed
              ≡ keep (λ (b : Build ℤ). str_eq b.proto "depot") accepted.start_builds ++ new)
            × All (IsNew accepted.facs ts "depot") new))
transform_vars_adds_example =
    transform_vars_adds parses in_order plan choices deployed "depot" plan-deployed

outcome-transform_vars_example : outcome ((transform_vars in_order parses plan choices).1) ≡ (
    if length choices == nvars_per_period accepted * length accepted.min_power
    then if length (reactors accepted) == 0 then panic else ok tt
    else err (wrong_vars (length choices)))
outcome-transform_vars_example = outcome-transform_vars in_order parses plan choices plan_valid
