-- ===== src/Scen/Valid.antt =====
-- What a scenario has that `Validate` of scen/scenario.go accepts.
use cloudlus.Base.{
  ℕ, ◌≡◌, refl, sym, ap, ◌∙◌, Bool, true, false, not, ◌&&◌, none, some, List, [], ◌∷◌, String,
  length, ◌==◌, arith, Bool-cases, Option-cases, ◌⊎◌, inl, inr,
}
use cloudlus.Base.Int.{ℤ, pos, eq_ℤ, eq_of_parts}
use cloudlus.Scen.Float.{Float}
use cloudlus.Scen.Model.{Facility, Build, Scenario, nperiods}
use cloudlus.Scen.Check.{
  Error, Result, ok, err, panic, last_proto, link, check_facs, load_tmpl, link_builds, check_parts,
  check_periods, validate, lengths_differ, bad_template, wrong_periods, no_reactor, unknown_start,
  unknown_build,
}
use mathlib.Core.Path.{subst}
use text.Mathlib.Text.{◌==◌ as str_eq}

pub eq_ℤ→≡ : (a b : ℤ) → eq_ℤ a b ≡ true → a ≡ b
eq_ℤ→≡ a b h = eq_of_parts a b (ground arith)

eq_ℤ_self : (n : ℕ) → eq_ℤ (pos n) (pos n) ≡ true
eq_ℤ_self n = ground arith

pub Result-cases :
    {A : Type 0} (r : Result A)
    → ((a : A) × (r ≡ ok a)) ⊎ (((e : Error) × (r ≡ err e)) ⊎ (r ≡ panic))
Result-cases (ok a) = inl (a, refl)
Result-cases (err e) = inr (inl (e, refl))
Result-cases panic = inr (inr refl)

pub ok_eq : {A : Type 0} (a b : A) → ok a ≡ ok b → a ≡ b
ok_eq a b h = cc

pub ok≢err : {A : Type 0} (a : A) (e : Error) → err e ≡ ok a → ⊥
ok≢err a e h = cc

pub ok≢panic : {A : Type 0} (a : A) → panic ≡ ok a → ⊥
ok≢panic a h = cc

module _ {W : Type 0} where
  link_idem :
      (facs : List (Facility W)) (bs : List (Build W))
      → (link facs bs).1 ≡ none
      → link facs (link facs bs).0 ≡ ((link facs bs).0, none)
  unfolding link
  link_idem facs [] h = refl
  link_idem facs (b ∷ bs) h = elim (Option-cases (last_proto b.proto facs)) [
    | inl e ↦ absurd (never (rw (link, e) at h))
    | inr (f, e) ↦ rw (link, e, e, link_idem facs bs (rw (link, e) at h)) refl
  ]
    where
      never : some b.proto ≡ none → ⊥
      never q = cc

  pub record IsValid ⦃d : Float W⦄ (s : Scenario W) : Type 0 where
    pub even : (length s.min_power == length s.max_power) ≡ true
    pub loaded : (not s.tmpl && not (str_eq s.cyclus_tmpl "")) ≡ false
    pub periods : nperiods s ≡ some (pos (length s.min_power))
    pub facs_fine : check_facs s.facs false ≡ ok true
    pub starts_linked : link s.facs s.start_builds ≡ (s.start_builds, none)
    pub builds_linked : link s.facs s.builds ≡ (s.builds, none)

  module _ ⦃d : Float W⦄ (parses : String → String → Bool) where
    load_tmpl_self :
        (s : Scenario W)
        → (not s.tmpl && not (str_eq s.cyclus_tmpl "")) ≡ false
        → load_tmpl parses s ≡ (s, true)
    unfolding load_tmpl
    load_tmpl_self s h = rw h refl

    check_periods_self : (s : Scenario W) → IsValid s → check_periods parses s ≡ (s, ok tt)
    unfolding check_periods
    check_periods_self s h =
        rw
          (
            check_periods,
            h.periods,
            eq_ℤ_self (length s.min_power),
            check_parts,
            h.facs_fine,
            link_builds,
            h.starts_linked,
            h.builds_linked,
            h.starts_linked,
            h.builds_linked,
          )
          refl

    pub validate_self : (s : Scenario W) → IsValid s → validate parses s ≡ (s, ok tt)
    unfolding validate
    validate_self s h =
        rw (validate, h.even, load_tmpl_self s h.loaded, check_periods_self s h) refl

    -- The steps of a validation that succeeds, from the last one to the first.
    linked :
        (s : Scenario W)
        → (link_builds parses s).1 ≡ ok tt
        → let s' = (link_builds parses s).0 in
          (s' ≡ record s { start_builds = s'.start_builds; builds = s'.builds })
          × (link s.facs s'.start_builds ≡ (s'.start_builds, none))
          × (link s.facs s'.builds ≡ (s'.builds, none))
    unfolding link_builds
    linked s h = elim (Option-cases ((link s.facs s.start_builds).1)) [
      | inr (p, e) ↦ absurd (ok≢err tt (unknown_start p) (rw (link_builds, e) at h))
      | inl e ↦ elim (Option-cases ((link s.facs s.builds).1)) [
        | inr (p, e') ↦ absurd (ok≢err tt (unknown_build p) (rw (link_builds, e, e') at h))
        | inl e' ↦
            rw (link_builds, e, e')
              (refl, link_idem s.facs s.start_builds e, link_idem s.facs s.builds e')
      ]
    ]

    periods_ok :
        (s : Scenario W)
        → (check_periods parses s).1 ≡ ok tt
        → (nperiods s ≡ some (pos (length s.min_power)))
          × (check_periods parses s ≡ check_parts parses s)
    unfolding check_periods
    periods_ok s h = elim (Option-cases (nperiods s)) [
      | inl e ↦ absurd (ok≢panic tt (rw (check_periods, e) at h))
      | inr (n, e) ↦ elim (Bool-cases (eq_ℤ n (pos (length s.min_power)))) [
        | inr q ↦
            absurd
              (ok≢err tt (wrong_periods (length s.min_power) n) (rw (check_periods, e, q) at h))
        | inl q ↦
            (e ∙ ap some (eq_ℤ→≡ n (pos (length s.min_power)) q), rw (check_periods, e, q) refl)
      ]
    ]

    parts_ok :
        (s : Scenario W)
        → (check_parts parses s).1 ≡ ok tt
        → (check_facs s.facs false ≡ ok true) × (check_parts parses s ≡ link_builds parses s)
    unfolding check_parts
    parts_ok s h = elim (Result-cases (check_facs s.facs false)) [
      | inr (inl (x, e)) ↦ absurd (ok≢err tt x (rw (check_parts, e) at h))
      | inr (inr e) ↦ absurd (ok≢panic tt (rw (check_parts, e) at h))
      | inl (true, e) ↦ (e, rw (check_parts, e) refl)
      | inl (false, e) ↦ absurd (ok≢err tt no_reactor (rw (check_parts, e) at h))
    ]

    check_periods-IsValid :
        (s : Scenario W)
        → (length s.min_power == length s.max_power) ≡ true
        → (not s.tmpl && not (str_eq s.cyclus_tmpl "")) ≡ false
        → (check_periods parses s).1 ≡ ok tt
        → IsValid (check_periods parses s).0
    unfolding nperiods
    check_periods-IsValid s e l h =
        let (p, q) = periods_ok s h in
        let h' = sym (ap (λ r. r.1) q) ∙ h in
        let (f, q') = parts_ok s h' in
        let (x, b, c) = linked s (sym (ap (λ r. r.1) q') ∙ h') in
        subst IsValid (sym (ap (λ r. r.0) (q ∙ q') ∙ x)) (record {
          even = e;
          loaded = l;
          periods = p;
          facs_fine = f;
          starts_linked = b;
          builds_linked = c;
        })

    -- After the template was parsed, or if there is none, it is not parsed again.
    load_tmpl_ok :
        (s : Scenario W)
        → (load_tmpl parses s).1 ≡ true
        → let s' = (load_tmpl parses s).0 in
          (s' ≡ record s { tmpl = s'.tmpl })
          × ((not s'.tmpl && not (str_eq s'.cyclus_tmpl "")) ≡ false)
    unfolding load_tmpl
    load_tmpl_ok s h = elim (Bool-cases (not s.tmpl && not (str_eq s.cyclus_tmpl ""))) [
      | inr e ↦ rw (load_tmpl, e) (refl, e)
      | inl e ↦
          rw (load_tmpl, e)
            (refl, ap (λ p. not p && not (str_eq s.cyclus_tmpl "")) (rw (load_tmpl, e) at h))
    ]

    -- What Validate leaves when it succeeds is a scenario that it accepts as it is.
    pub validate-IsValid :
        (s : Scenario W) → (validate parses s).1 ≡ ok tt → IsValid (validate parses s).0
    unfolding validate
    validate-IsValid s h = elim (Bool-cases (length s.min_power == length s.max_power)) [
      | inr e ↦ absurd (
          ok≢err tt (lengths_differ (length s.max_power) (length s.min_power))
            (rw (validate, e) at h))
      | inl e ↦ elim (Bool-cases ((load_tmpl parses s).1)) [
        | inr l ↦ absurd (ok≢err tt bad_template (rw (validate, e, l) at h))
        | inl l ↦
            (let (q, x) = load_tmpl_ok s l in
              rw (validate, e, l)
                (check_periods-IsValid (load_tmpl parses s).0
                  (ap (λ (s : Scenario W). length s.min_power == length s.max_power) q ∙ e) x
                  (rw (validate, e, l) at h)))
      ]
    ]

    -- A second validation accepts what the first one left, and changes nothing.
    pub validate_idem :
        (s : Scenario W)
        → let s' = (validate parses s).0 in
          (validate parses s).1 ≡ ok tt → validate parses s' ≡ (s', ok tt)
    validate_idem s h = validate_self _ (validate-IsValid s h)
