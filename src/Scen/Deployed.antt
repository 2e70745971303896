-- ===== src/Scen/Deployed.antt =====
-- TransformVars of scen/scenario.go as a whole.
use cloudlus.Base.{
  ◌≡◌, refl, sym, ap, ◌∙◌, Bool, Option, none, some, List, [], ◌∷◌, ◌++◌, String, length, keep, All,
  All-append, All-keep, Bool-cases, Option-cases, inl, inr,
}
use cloudlus.Base.Int.{ℤ, pos, eq_ℤ}
use cloudlus.Scen.Float.{Float}
use cloudlus.Scen.Valid.{Result-cases, ok_eq, ok≢err, ok≢panic}
use cloudlus.Scen.Model.{
  Facility, Build, Scenario, reactors, notreactors, is_reactor, is_not_reactor, nvars, period_times,
}
use cloudlus.Scen.Check.{Result, ok, err, panic, wrong_vars, validate}
use cloudlus.Scen.Entries.{ok->>=}
use cloudlus.Scen.Vars.{or_panic, fac_order, period_fac_order, splice, upper_bounds, lower_bounds}
use cloudlus.Scen.Deploy.{
  Deploy, builds_of, group, after_first, clamp_all, listed_builds, deploy, checked_deploy,
  keep_builds, transform_vars, after_checks,
}
use cloudlus.Scen.Extends.{Extends, IsNew, builds_of-group, deploy_periods-Extends}
use text.Mathlib.Text.{◌==◌ as str_eq}
use mathlib.Core.List.{Mem, mem-cons_self, mem-cons_of_mem}

pub ok-or_panic : {A : Type 0} (o : Option A) (a : A) → or_panic o ≡ ok a → o ≡ some a
ok-or_panic none a h = absurd cc
ok-or_panic (some b) a h = cc

All-impl {ℓ} :
    {A : Type ℓ} (P Q : A → Type ℓ) (xs : List A) → ((x : A) → P x → Q x) → All P xs → All Q xs
All-impl P Q [] f h = tt
All-impl P Q (x ∷ xs) f h = (f x h.0, All-impl P Q xs f h.1)

All-Mem {ℓ} : {A : Type ℓ} (xs : List A) → All (λ x. Mem x xs) xs
unfolding mem-cons_self
All-Mem [] = tt
All-Mem (x ∷ xs) = (
  mem-cons_self,
  All-impl (λ y. Mem y xs) (λ y. Mem y (x ∷ xs)) xs (λ y. mem-cons_of_mem x) (All-Mem xs),
)

module _ {W : Type 0} ⦃d : Float W⦄ where
  -- The facilities of the variables are those of the scenario.
  fac_order-All :
      (P : Facility W → Type 0) (rs others : List (Facility W)) (p : List (Facility W) × Facility W)
      → All P rs
      → All P others
      → fac_order rs others ≡ ok p
      → All P (after_first p.0) × P p.1
  unfolding fac_order after_first
  fac_order-All P [] others p hr ho e = absurd cc
  fac_order-All P (r ∷ rs) others p hr ho e =
      rw (sym (ok_eq _ _ e)) (All-append P rs others hr.1 ho, hr.0)

  module _ (parses : String → String → Bool) where
    period_fac_order-All :
        (s : Scenario W) (p : List (Facility W) × Facility W)
        → period_fac_order parses s ≡ ok p
        → All (λ f. Mem f s.facs) (after_first p.0) × Mem p.1 s.facs
    unfolding period_fac_order reactors notreactors
    period_fac_order-All s p e = elim (Result-cases ((validate parses s).1)) [
      | inl (u, v) ↦
          fac_order-All (λ f. Mem f s.facs) (reactors s) (notreactors s) p
            (All-keep (λ f. Mem f s.facs) is_reactor s.facs (All-Mem s.facs))
            (All-keep (λ f. Mem f s.facs) is_not_reactor s.facs (All-Mem s.facs))
            (rw (period_fac_order, v) at e)
      | inr (inl (x, v)) ↦ absurd (ok≢panic p (rw (period_fac_order, v) at e))
      | inr (inr v) ↦ absurd (ok≢panic p (rw (period_fac_order, v) at e))
    ]

    module _ (order : Deploy W → Deploy W) where
      deploy-Extends :
          (s : Scenario W) (vars : List W) (m : Deploy W)
          → deploy order parses s vars ≡ ok m
          → (ts : List ℤ) × (period_times s ≡ some ts)
            × Extends (IsNew s.facs ts) (group s.start_builds []) m
      unfolding deploy
      deploy-Extends s vars m h =
          let (spliced, _, h1) = ok->>= (splice s vars) _ m h in
          let (up, _, h2) = ok->>= (upper_bounds parses s) _ m h1 in
          let (low, _, h3) = ok->>= (lower_bounds parses s) _ m h2 in
          let (clamped, _, h4) = ok->>= (clamp_all spliced low up) _ m h3 in
          let (p, e, h5) = ok->>= (period_fac_order parses s) _ m h4 in
          let (ts, et, h6) = ok->>= (or_panic (period_times s)) _ m h5 in
          let (hs, hf) = period_fac_order-All s p e in
          (
            ts,
            ok-or_panic (period_times s) ts et,
            deploy_periods-Extends s.facs ts order s clamped (after_first p.0) p.1 0 ts
                (group s.start_builds []) m (All-Mem ts) hs hf h6,
          )

      checked_deploy-deploy :
          (s : Scenario W) (vars : List W) (m : Deploy W)
          → checked_deploy order parses s vars ≡ ok m
          → deploy order parses s vars ≡ ok m
      unfolding checked_deploy
      checked_deploy-deploy s vars m h = elim (Option-cases (nvars s)) [
        | inl e ↦ absurd (ok≢panic m (rw (checked_deploy, e) at h))
        | inr (n, e) ↦ elim (Bool-cases (eq_ℤ (pos (length vars)) n)) [
          | inl b ↦ rw (checked_deploy, e, b) at h
          | inr b ↦ absurd (ok≢err m (wrong_vars (length vars)) (rw (checked_deploy, e, b) at h))
        ]
      ]

      keep_builds-ok :
          (s : Scenario W) (c : Result (Deploy W)) (m : Deploy W)
          → (keep_builds order parses s c).1 ≡ ok m
          → ((keep_builds order parses s c).0 ≡ record s { builds = listed_builds s.facs m })
            × (c ≡ ok m)
      unfolding keep_builds
      keep_builds-ok s (ok n) m h =
          (ap (λ n. record s { builds = listed_builds s.facs n }) (ok_eq n m h), h)
      keep_builds-ok s (err e) m h = absurd cc
      keep_builds-ok s panic m h = absurd cc

      after_checks-ok :
          (r : Scenario W × Result (Unit {0})) (vars : List W) (m : Deploy W)
          → (after_checks order parses vars r).1 ≡ ok m
          → ((after_checks order parses vars r).0
              ≡ record r.0 { builds = listed_builds r.0.facs m })
            × (checked_deploy order parses r.0 vars ≡ ok m)
      unfolding after_checks
      after_checks-ok (s, ok u) vars m h = keep_builds-ok s (checked_deploy order parses s vars) m h
      after_checks-ok (s, err e) vars m h = absurd cc
      after_checks-ok (s, panic) vars m h = absurd cc

      pub transform_vars-after_checks :
          (s : Scenario W) (vars : List W)
          → transform_vars order parses s vars ≡ after_checks order parses vars (validate parses s)
      unfolding transform_vars
      transform_vars-after_checks s vars = refl

      -- If TransformVars succeeds, the scenario is the validated one with the builds listed by
      -- facility, and the builds of each prototype are its start builds followed by new ones: at least
      -- one facility at a build time, of a facility of the scenario with this prototype that may be
      -- built at that time.
      pub transform_vars_adds :
          (s : Scenario W) (vars : List W) (m : Deploy W) (p : String)
          → let r = transform_vars order parses s vars in
            let s' = (validate parses s).0 in
            r.1 ≡ ok m
            → (r.0 ≡ record s' { builds = listed_builds s'.facs m })
              × ((ts : List ℤ) × (period_times s' ≡ some ts)
                  × ((new : List (Build W)) × (builds_of p m
                        ≡ keep (λ (b : Build W). str_eq b.proto p) s'.start_builds ++ new)
                      × All (IsNew s'.facs ts p) new))
      unfolding builds_of
      transform_vars_adds s vars m p h =
          let s' = (validate parses s).0 in
          let q = transform_vars-after_checks s vars in
          let (e, c) = after_checks-ok (validate parses s) vars m (sym (ap (λ r. r.1) q) ∙ h) in
          let (ts, et, x) = deploy-Extends s' vars m (checked_deploy-deploy s' vars m c) in
          (
            ap (λ r. r.0) q ∙ e,
            (
              ts,
              et,
              (
                (x p).0,
                (x p).1 ∙ ap (λ bs. bs ++ (x p).0) (builds_of-group p s'.start_builds []),
                (x p).2,
              ),
            ),
          )
