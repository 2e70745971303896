-- ===== src/Scen/Accepted.antt =====
-- TransformSched of scen/scenario.go followed by TransformVars.
use cloudlus.Base.{
  ==_iff, eq_self, suc_not_zero, ◌*◌, ◌≡◌, refl, ap, ◌∙◌, Bool, List, [], ◌∷◌, ◌++◌, String, length,
}
use cloudlus.Scen.Float.{Float}
use cloudlus.Scen.Model.{
  Facility, Scenario, blank, reactors, notreactors, nvars_per_period, nvars, slice_length,
  period_times, times_of,
}
use cloudlus.Scen.Check.{ok, validate}
use cloudlus.Scen.Entries.{>>=-ok}
use cloudlus.Scen.Vars.{or_panic, zeros, period_fac_order}
use cloudlus.Scen.Deploy.{Deploy, group, after_first, transform_vars}
use cloudlus.Scen.Sched.{schedule, schedule_checked, transform_sched}
use cloudlus.Scen.Valid.{IsValid, validate-IsValid, validate_idem}
use cloudlus.Scen.Shape.{
  nvars-valid, length-zeros, length-times_of, row_length, fac_order-ok, period_fac_order-valid,
  period_times-valid,
}
use cloudlus.Scen.SchedRanges.{link-IsKnown, group-IsKnown, sched_periods-Succeeds}
use cloudlus.Scen.Total.{outcome, outcome-transform_vars, from_first, all_rows}

module _ {W : Type 0} ⦃d : Float W⦄ (order : Deploy W → Deploy W)
    (parses : String → String → Bool) where
  -- A valid scenario with a reactor has a schedule, with as many variables as it has.
  schedule-valid :
      (s : Scenario W) (r : Facility W) (rs : List (Facility W))
      → IsValid s
      → reactors s ≡ r ∷ rs
      → (vars : List W) × (schedule order parses s ≡ ok vars)
        × (length vars ≡ nvars_per_period s * length s.min_power)
  unfolding schedule slice_length after_first
  schedule-valid s r rs v e =
      let n = nvars_per_period s * length s.min_power in
      let ts = times_of (length s.min_power) s in
      let p : List (Facility W) × Facility W = (blank d.nought ∷ (rs ++ notreactors s), r) in
      let o : period_fac_order parses s ≡ ok p =
        period_fac_order-valid parses s v ∙ rw e (fac_order-ok r rs (notreactors s)) in
      let known = link-IsKnown s s.builds (ap (λ l. l.1) v.builds_linked) in
      let started = link-IsKnown s s.start_builds (ap (λ l. l.1) v.starts_linked) in
      let (vars, q, l) =
        sched_periods-Succeeds order s (group s.builds []) (group-IsKnown s s.builds known) known
          started (rs ++ notreactors s) 0 ts (zeros n) (row_length parses s r rs e)
          (from_first _ _ (length-times_of _ s))
          (from_first _ _ (length-times_of _ s ∙ (==_iff _ _).0 v.even))
          (all_rows _ _ (nvars_per_period s) _ (length-times_of (length s.min_power) s)
            (length-zeros W n)) in
      (
        vars,
        >>=-ok (period_fac_order parses s) _ p vars o (
            >>=-ok (or_panic (slice_length (nvars s))) _ n vars
              (ap (λ x. or_panic (slice_length x)) (nvars-valid s v))
              (>>=-ok (or_panic (period_times s)) _ ts vars (ap or_panic (period_times-valid s v))
                q)),
        l ∙ length-zeros W n,
      )

  transform_sched-valid :
      (s : Scenario W)
      → (validate parses s).1 ≡ ok tt
      → transform_sched order parses s
        ≡ ((validate parses s).0, schedule order parses (validate parses s).0)
  unfolding transform_sched schedule_checked
  transform_sched-valid s h = rw (transform_sched, schedule_checked, h) refl

  -- Once a scenario is validated, and some reactor may be built, TransformSched gives variables, with
  -- no error and no panic, as many as TransformVars wants; and for them and the scenario that
  -- TransformSched leaves, TransformVars gives deployments, with no error and no panic.
  pub sched_vars_accepted :
      (s : Scenario W) (r : Facility W) (rs : List (Facility W))
      → let s' = (validate parses s).0 in
        (validate parses s).1 ≡ ok tt
        → reactors s' ≡ r ∷ rs
        → (vars : List W) × (transform_sched order parses s ≡ (s', ok vars))
          × (length vars ≡ nvars_per_period s' * length s'.min_power)
          × (outcome ((transform_vars order parses s' vars).1) ≡ ok tt)
  sched_vars_accepted s r rs h e =
      let s' = (validate parses s).0 in
      let (vars, q, n) = schedule-valid s' r rs (validate-IsValid parses s h) e in
      let again = validate_idem parses s h in
      (
        vars,
        transform_sched-valid s h ∙ ap (λ c. (s', c)) q,
        n,
        outcome-transform_vars order parses s' vars (ap (λ r. r.1) again)
            ∙ rw
                (
                  again,
                  n,
                  e,
                  eq_self (nvars_per_period s' * length s'.min_power),
                  suc_not_zero (length rs),
                )
                refl,
      )
