-- ===== src/Scen/Total.antt =====
-- When TransformVars of scen/scenario.go gives a result, an error or a panic.
use cloudlus.Base.{
  List-cases, suc_not_zero, ==_iff, ℕ, ◌+◌, ◌*◌, ◌≤◌, sym, ap, ◌≡◌, refl, ◌∙◌, Bool, List, [], ◌∷◌,
  ◌++◌, String, length, ◌==◌, arith, Bool-cases, inl, inr, if◌then◌else◌,
}
use cloudlus.Base.Int.{pos, eq_ℤ}
use cloudlus.Scen.Float.{Float}
use cloudlus.Scen.Model.{
  Facility, period_times, Scenario, blank, reactors, notreactors, nvars_per_period, times_of,
}
use cloudlus.Scen.Check.{Result, ok, err, panic, wrong_vars, validate}
use cloudlus.Scen.Vars.{fac_order, splice, or_panic, period_fac_order, upper_bounds, lower_bounds}
use cloudlus.Scen.Deploy.{
  clamp_all, group, after_first, Deploy, deploy, checked_deploy, keep_builds, after_checks,
  transform_vars,
}
use cloudlus.Scen.Valid.{IsValid, validate-IsValid}
use cloudlus.Scen.Splices.{splice-Succeeds}
use cloudlus.Scen.Entries.{>>=-ok}
use cloudlus.Scen.Ranges.{Succeeds, clamp_all-Succeeds, deploy_periods-Succeeds}
use cloudlus.Scen.Shape.{
  bounds_match, row_length, length-times_of, period_times-valid, nvars-valid,
  period_fac_order-valid, fac_order-ok,
}
use cloudlus.Scen.Deployed.{transform_vars-after_checks}

eq_ℤ_pos : (a b : ℕ) → eq_ℤ (pos a) (pos b) ≡ (a == b)
eq_ℤ_pos a b = ground arith

pub from_first : (a b : ℕ) → a ≡ b → 0 + a ≤ b
from_first a b h = omega (arith, h)

pub all_rows : (a b k l : ℕ) → a ≡ b → l ≡ k * b → (0 + a) * k ≤ l
all_rows a b k l h e = omega (arith, ap (λ x. x * k) h, e)

-- How a call ended: its value is forgotten.
abbrev pub outcome : {A : Type 0} → Result A → Result (Unit {0})
outcome (ok a) = ok tt
outcome (err e) = err e
outcome panic = panic

module _ {W : Type 0} ⦃d : Float W⦄ where
  module _ (order : Deploy W → Deploy W) (parses : String → String → Bool) where
    upper_bounds-panic :
        (s : Scenario W) → IsValid s → reactors s ≡ [] → upper_bounds parses s ≡ panic
    unfolding upper_bounds fac_order
    upper_bounds-panic s v e = rw (upper_bounds, period_fac_order-valid parses s v, e) refl

    fits :
        (s : Scenario W) (vars : List W)
        → length vars ≡ nvars_per_period s * length s.min_power
        → length (times_of (length s.min_power) s) * nvars_per_period s ≤ length vars
    fits s vars n =
        rows (length (times_of (length s.min_power) s)) _ (nvars_per_period s) (length vars)
          (length-times_of _ s) n
      where
        rows : (a b k l : ℕ) → a ≡ b → l ≡ k * b → a * k ≤ l
        rows a b k l h e = omega (arith, ap (λ x. x * k) h, e)

    deploy-panic :
        (s : Scenario W) (vars : List W)
        → IsValid s
        → length vars ≡ nvars_per_period s * length s.min_power
        → reactors s ≡ []
        → deploy order parses s vars ≡ panic
    unfolding deploy
    deploy-panic s vars v n e =
        let (spliced, h, l) =
          splice-Succeeds s vars (times_of (length s.min_power) s) (period_times-valid s v)
            (fits s vars n) in
        rw (deploy, h, upper_bounds-panic s v e) refl

    -- Every index of the loops is in range if there are as many variables as the scenario has.
    deploy-Succeeds :
        (s : Scenario W) (vars : List W) (r : Facility W) (rs : List (Facility W))
        → IsValid s
        → reactors s ≡ r ∷ rs
        → length vars ≡ nvars_per_period s * length s.min_power
        → Succeeds (deploy order parses s vars)
    unfolding deploy after_first
    deploy-Succeeds s vars r rs v e n =
        let ts = times_of (length s.min_power) s in
        let (_, (up, hu, nu), (low, hl, nl), _) = bounds_match parses s r rs v e in
        let (spliced, h, ns) = splice-Succeeds s vars ts (period_times-valid s v) (fits s vars n) in
        let (clamped, hc, nc) =
          clamp_all-Succeeds spliced low up (nl ∙ sym (ns ∙ n)) (nu ∙ sym (ns ∙ n)) in
        let p : List (Facility W) × Facility W = (blank d.nought ∷ (rs ++ notreactors s), r) in
        let o : period_fac_order parses s ≡ ok p =
          period_fac_order-valid parses s v ∙ rw e (fac_order-ok r rs (notreactors s)) in
        let (m, q) =
          deploy_periods-Succeeds order s clamped (rs ++ notreactors s) r 0 ts
            (group s.start_builds []) (row_length parses s r rs e)
            (from_first _ _ (length-times_of _ s))
            (from_first _ _ (length-times_of _ s ∙ (==_iff _ _).0 v.even))
            (all_rows _ _ (nvars_per_period s) _ (length-times_of (length s.min_power) s)
              (nc ∙ ns ∙ n)) in
        (
          m,
          >>=-ok (splice s vars) _ spliced m h (
              >>=-ok (upper_bounds parses s) _ up m hu (
                >>=-ok (lower_bounds parses s) _ low m hl (
                  >>=-ok (clamp_all spliced low up) _ clamped m hc (
                    >>=-ok (period_fac_order parses s) _ p m o (
                      >>=-ok (or_panic (period_times s)) _ ts m
                        (ap or_panic (period_times-valid s v)) q))))),
        )

    outcome-deploy :
        (s : Scenario W) (vars : List W)
        → IsValid s
        → length vars ≡ nvars_per_period s * length s.min_power
        → outcome (deploy order parses s vars) ≡ (if length (reactors s) == 0 then panic else ok tt)
    outcome-deploy s vars v n = elim (List-cases (reactors s)) [
      | inl e ↦ rw (deploy-panic s vars v n e, e) refl
      | inr (r, rs, e) ↦
          (let (m, q) = deploy-Succeeds s vars r rs v e n in
            rw (q, e, suc_not_zero (length rs)) refl)
    ]

    outcome-checked_deploy :
        (s : Scenario W) (vars : List W)
        → IsValid s
        → outcome (checked_deploy order parses s vars) ≡ (
            if length vars == nvars_per_period s * length s.min_power
            then if length (reactors s) == 0 then panic else ok tt
            else err (wrong_vars (length vars)))
    unfolding checked_deploy
    outcome-checked_deploy s vars v = elim (Bool-cases (length vars == n)) [
      | inl e ↦
          rw (checked_deploy, nvars-valid s v, eq_ℤ_pos (length vars) n, e)
            (outcome-deploy s vars v ((==_iff (length vars) n).0 e))
      | inr e ↦ rw (checked_deploy, nvars-valid s v, eq_ℤ_pos (length vars) n, e) refl
    ]
      where
        n : ℕ
        n = nvars_per_period s * length s.min_power

    outcome-keep_builds :
        (s : Scenario W) (c : Result (Deploy W))
        → outcome ((keep_builds order parses s c).1) ≡ outcome c
    unfolding keep_builds
    outcome-keep_builds s (ok m) = refl
    outcome-keep_builds s (err e) = refl
    outcome-keep_builds s panic = refl

    -- Once the scenario is validated, TransformVars gives a result if the number of variables is right
    -- and some reactor may be built, so that no index is out of range. It panics if none may be built,
    -- and it is an error if the number is another.
    pub outcome-transform_vars :
        (s : Scenario W) (vars : List W)
        → let s' = (validate parses s).0 in
          (validate parses s).1 ≡ ok tt
          → outcome ((transform_vars order parses s vars).1) ≡ (
              if length vars == nvars_per_period s' * length s'.min_power
              then if length (reactors s') == 0 then panic else ok tt
              else err (wrong_vars (length vars)))
    unfolding after_checks
    outcome-transform_vars s vars h =
        let s' = (validate parses s).0 in
        rw (transform_vars-after_checks parses order s vars, after_checks, h)
          (outcome-keep_builds s' (checked_deploy order parses s' vars)
            ∙ outcome-checked_deploy s' vars (validate-IsValid parses s h))
