-- ===== src/Scen/Kept.antt =====
-- Validate, Clone and a disruption leave the mark of a scenario, `SingleCalc` of scen/scenario.go, as it was.
use cloudlus.Base.{
  ◌≡◌, refl, sym, ap, ◌∙◌, Bool, true, false, not, ◌&&◌, length, ◌==◌, String, Bool-cases,
  Option-cases, inl, inr,
}
use cloudlus.Base.Int.{pos, eq_ℤ}
use cloudlus.Scen.Float.{Float}
use cloudlus.Scen.Model.{Scenario, nperiods}
use cloudlus.Scen.Check.{
  Result, ok, err, panic, load_tmpl, link, check_facs, link_builds, check_parts, check_periods,
  validate,
}
use cloudlus.Scen.Disrup.{Disruption, cleared, clone, disrupt, mod_for_disrup, builds_for_disrup}
use cloudlus.Scen.Valid.{Result-cases, ok_eq}
use cloudlus.Scen.Entries.{ok->>=}
use text.Mathlib.Text.{◌==◌ as str_eq}

module _ {W : Type 0} ⦃d : Float W⦄ (parses : String → String → Bool) where
  link_builds-mark : (s : Scenario W) → (link_builds parses s).0.single_calc ≡ s.single_calc
  unfolding link_builds
  link_builds-mark s = elim (Option-cases ((link s.facs s.start_builds).1)) [
    | inr (p, e) ↦ rw (link_builds, e) refl
    | inl e ↦ elim (Option-cases ((link s.facs s.builds).1)) [
      | inr (p, e') ↦ rw (link_builds, e, e') refl
      | inl e' ↦ rw (link_builds, e, e') refl
    ]
  ]

  check_parts-mark : (s : Scenario W) → (check_parts parses s).0.single_calc ≡ s.single_calc
  unfolding check_parts
  check_parts-mark s = elim (Result-cases (check_facs s.facs false)) [
    | inr (inl (x, e)) ↦ rw (check_parts, e) refl
    | inr (inr e) ↦ rw (check_parts, e) refl
    | inl (true, e) ↦ rw (check_parts, e) (link_builds-mark s)
    | inl (false, e) ↦ rw (check_parts, e) refl
  ]

  check_periods-mark : (s : Scenario W) → (check_periods parses s).0.single_calc ≡ s.single_calc
  unfolding check_periods
  check_periods-mark s = elim (Option-cases (nperiods s)) [
    | inl e ↦ rw (check_periods, e) refl
    | inr (n, e) ↦ elim (Bool-cases (eq_ℤ n (pos (length s.min_power)))) [
      | inl q ↦ rw (check_periods, e, q) (check_parts-mark s)
      | inr q ↦ rw (check_periods, e, q) refl
    ]
  ]

  load_tmpl-mark : (s : Scenario W) → (load_tmpl parses s).0.single_calc ≡ s.single_calc
  unfolding load_tmpl
  load_tmpl-mark s = elim (Bool-cases (not s.tmpl && not (str_eq s.cyclus_tmpl ""))) [
    | inl e ↦ rw (load_tmpl, e) refl
    | inr e ↦ rw (load_tmpl, e) refl
  ]

  -- Validate leaves the mark of a scenario as it was.
  pub validate-mark : (s : Scenario W) → (validate parses s).0.single_calc ≡ s.single_calc
  unfolding validate
  validate-mark s = elim (Bool-cases (length s.min_power == length s.max_power)) [
    | inr e ↦ rw (validate, e) refl
    | inl e ↦ elim (Bool-cases ((load_tmpl parses s).1)) [
      | inr l ↦ rw (validate, e, l) (load_tmpl-mark s)
      | inl l ↦ rw (validate, e, l) (check_periods-mark (load_tmpl parses s).0 ∙ load_tmpl-mark s)
    ]
  ]

  -- The scenario of a disruption has the mark of the one that it is made from.
  cloned :
      (r : Scenario W × Result (Unit {0})) (c : Scenario W)
      → elim (r.1) [ panic ↦ panic | err e ↦ ok r.0 | ok u ↦ ok r.0 ] ≡ ok c
      → r.0 ≡ c
  cloned (s, ok u) c h = ok_eq s c h
  cloned (s, err e) c h = ok_eq s c h
  cloned (s, panic) c h = absurd cc

  cleared-mark : (s : Scenario W) → (cleared parses s).single_calc ≡ s.single_calc
  unfolding cleared
  cleared-mark s = refl

  clone-mark : (s c : Scenario W) → clone parses s ≡ ok c → c.single_calc ≡ s.single_calc
  unfolding clone
  clone-mark s c h =
      ap (λ (c : Scenario W). c.single_calc) (sym (cloned (validate parses (cleared parses s)) c h))
      ∙ validate-mark (cleared parses s)
      ∙ cleared-mark s

  disrupt-mark :
      (s c : Scenario W) (dis : Disruption W) → disrupt s dis ≡ ok c → c.single_calc ≡ s.single_calc
  unfolding disrupt
  disrupt-mark s c dis h =
      let (new, _, q) = ok->>= (builds_for_disrup s dis) _ c h in
      ap (λ (c : Scenario W). c.single_calc) (sym (ok_eq _ c q))

  pub mod_for_disrup-mark :
      (s c : Scenario W) (dis : Disruption W)
      → mod_for_disrup parses s dis ≡ ok c
      → c.single_calc ≡ s.single_calc
  unfolding mod_for_disrup
  mod_for_disrup-mark s c dis h =
      let (k, e, q) = ok->>= (clone parses s) _ c h in disrupt-mark k c dis q ∙ clone-mark s k e
