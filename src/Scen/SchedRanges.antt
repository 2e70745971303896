-- ===== src/Scen/SchedRanges.antt =====
-- The loops of TransformSched of scen/scenario.go with indices that are in range, and builds of
-- prototypes that the scenario has.
use cloudlus.Base.{
  ℕ, suc, ◌+◌, ◌*◌, ◌≤◌, ◌≡◌, refl, sym, ◌∙◌, ◌&&◌, Option, none, some, List, [], ◌∷◌, String,
  length, All, All-keep, arith, Bool-cases, Option-cases, inl, inr,
}
use cloudlus.Base.Int.{ℤ, pos, eq_ℤ}
use text.Mathlib.Text.{◌==◌ as str_eq}
use mathlib.Core.Path.{subst}
use cloudlus.Scen.Float.{Float}
use cloudlus.Scen.Model.{
  Facility, Build, Scenario, available, find_proto, prototype, nvars_per_period,
}
use cloudlus.Scen.Check.{ok, last_proto, link}
use cloudlus.Scen.Entries.{entry, entry-lt, put_entry, put_entry-lt, >>=-ok}
use cloudlus.Scen.Ranges.{Succeeds, row_fits, rows_fit}
use cloudlus.Scen.Deploy.{Deploy, builds_of, group, nalive, power_cap}
use cloudlus.Scen.Extends.{builds_of-group}
use cloudlus.Scen.Sched.{
  cap_built, unit_clamp, power_var, sched_reactors, sched_others, sched_period, sched_periods,
}

module _ {W : Type 0} where
  -- A scenario has the prototype of a build.
  abbrev pub IsKnown : Scenario W → Build W → Type 0
  IsKnown s b = (f : Facility W) × (prototype b.proto s ≡ some f)

  find_proto-last_proto :
      (p : String) (fs : List (Facility W)) (g : Facility W)
      → last_proto p fs ≡ some g
      → (f : Facility W) × (find_proto p fs ≡ some f)
  unfolding last_proto find_proto
  find_proto-last_proto p [] g h = absurd cc
  find_proto-last_proto p (f ∷ fs) g h = elim (Bool-cases (str_eq f.proto p)) [
    | inl e ↦ (f, rw (find_proto, e) refl)
    | inr e ↦ elim (Option-cases (last_proto p fs)) [
      | inr (k, q) ↦ (let (x, y) = find_proto-last_proto p fs k q in (x, rw (find_proto, e) y))
      | inl q ↦ absurd (never (rw (last_proto, q, e) at h))
    ]
  ]
    where
      nothing : Option (Facility W)
      nothing = none

      never : nothing ≡ some g → ⊥
      never q = cc

  pub link-IsKnown :
      (s : Scenario W) (bs : List (Build W)) → (link s.facs bs).1 ≡ none → All (IsKnown s) bs
  unfolding link prototype
  link-IsKnown s [] h = tt
  link-IsKnown s (b ∷ bs) h = elim (Option-cases (last_proto b.proto s.facs)) [
    | inl e ↦ absurd (never (rw (link, e) at h))
    | inr (f, e) ↦ (find_proto-last_proto b.proto s.facs f e, link-IsKnown s bs (rw (link, e) at h))
  ]
    where
      never : some b.proto ≡ none → ⊥
      never q = cc

  pub group-IsKnown :
      (s : Scenario W) (bs : List (Build W))
      → All (IsKnown s) bs
      → (p : String) → All (IsKnown s) (builds_of p (group bs []))
  unfolding builds_of
  group-IsKnown s bs h p =
      subst (All (IsKnown s)) (sym (builds_of-group p bs []))
        (All-keep (IsKnown s) (λ (b : Build W). str_eq b.proto p) bs h)

  module _ ⦃d : Float W⦄ where
    cap_built-Succeeds :
        (s : Scenario W) (t : ℤ) (bs : List (Build W)) (tot : W)
        → All (IsKnown s) bs
        → Succeeds (cap_built s t bs tot)
    unfolding cap_built
    cap_built-Succeeds s t [] tot h = (tot, refl)
    cap_built-Succeeds s t (b ∷ bs) tot h = elim (Bool-cases (eq_ℤ b.time t)) [
      | inr e ↦ (let (c, q) = cap_built-Succeeds s t bs tot h.1 in (c, rw (cap_built, e) q))
      | inl e ↦
          (let (f, k) = h.0 in
            let (c, q) = cap_built-Succeeds s t bs (d.add tot (d.mul (d.of_int b.n) f.cap)) h.1 in
            (c, rw (cap_built, e, k) q))
    ]

    sched_reactors-Succeeds :
        (s : Scenario W) (t : ℤ) (m : Deploy W) (k : ℕ) (fs : List (Facility W)) (left : W)
        (vars : List W)
        → ((p : String) → All (IsKnown s) (builds_of p m))
        → k + length fs ≤ length vars
        → (r : ℕ × List (Facility W) × List W) × (sched_reactors s t m k fs left vars ≡ ok r)
          × (r.0 + length r.1 ≤ length vars)
          × (length r.2 ≡ length vars)
    unfolding sched_reactors
    sched_reactors-Succeeds s t m k [] left vars known h = ((k, [], vars), refl, h, refl)
    sched_reactors-Succeeds s t m k (f ∷ fs) left vars known h =
        elim (Bool-cases (d.lt d.nought f.cap && available t f)) [
          | inr a ↦ ((k, f ∷ fs, vars), rw (sched_reactors, a) refl, h, refl)
          | inl a ↦
              (let (c, q) = cap_built-Succeeds s t (builds_of f.proto m) d.nought (known f.proto) in
                let (vs, e, n) = put_entry-lt vars k (unit_clamp (d.div c left)) (omega arith) in
                let (r, x, y, z) =
                  sched_reactors-Succeeds s t m (suc k) fs (d.sub left c) vs known
                    (omega (arith, n)) in
                (
                  r,
                  rw (sched_reactors, a, q)
                      (>>=-ok (put_entry vars k (unit_clamp (d.div c left))) _ vs r e x),
                  omega (arith, y, n),
                  z ∙ n,
                ))
        ]

    sched_others-Succeeds :
        (t : ℤ) (m : Deploy W) (k : ℕ) (fs : List (Facility W)) (vars : List W)
        → k + length fs ≤ length vars
        → (out : List W) × (sched_others t m k fs vars ≡ ok out) × (length out ≡ length vars)
    unfolding sched_others
    sched_others-Succeeds t m k [] vars h = (vars, refl, refl)
    sched_others-Succeeds t m k (f ∷ fs) vars h = elim (Bool-cases (available t f)) [
      | inr a ↦
          (let (out, x, y) = sched_others-Succeeds t m (suc k) fs vars (omega arith) in
            (out, rw (sched_others, a) x, y))
      | inl a ↦
          (let nref = nalive t f.frac_of_protos m (pos 0) in
            let nhave = nalive t (f.proto ∷ []) m (pos 0) in
            let v = unit_clamp (d.div (d.of_int nhave) (d.of_int nref)) in
            let (vs, e, n) = put_entry-lt vars k v (omega arith) in
            let (out, x, y) = sched_others-Succeeds t m (suc k) fs vs (omega (arith, n)) in
            (out, rw (sched_others, a) (>>=-ok (put_entry vars k v) _ vs out e x), y ∙ n))
    ]

    module _ (order : Deploy W → Deploy W) (s : Scenario W) (m : Deploy W)
        (known : (p : String) → All (IsKnown s) (builds_of p m)) (built : All (IsKnown s) s.builds)
        (started : All (IsKnown s) s.start_builds) where
      sched_period-Succeeds :
          (fs : List (Facility W)) (t : ℤ) (k : ℕ) (lo up : W) (vars : List W)
          → k + suc (length fs) ≤ length vars
          → (out : List W) × (sched_period order s m fs t k lo up vars ≡ ok out)
            × (length out ≡ length vars)
      unfolding sched_period
      sched_period-Succeeds fs t k lo up vars h =
          let (a, ha) = cap_built-Succeeds s t s.builds d.nought built in
          let (b, hb) = cap_built-Succeeds s t s.start_builds d.nought started in
          let cap = d.sub a b in
          let v = power_var (power_cap order t m) cap lo up in
          let (vs, e, n) = put_entry-lt vars k v (omega arith) in
          let (r, x, y, z) =
            sched_reactors-Succeeds s t m (suc k) fs (d.max d.tiny cap) vs known
              (omega (arith, n)) in
          let (out, q, w) = sched_others-Succeeds t m r.0 r.1 r.2 (omega (arith, y, z)) in
          (
            out,
            >>=-ok (cap_built s t s.builds d.nought) _ a out ha (
                >>=-ok (cap_built s t s.start_builds d.nought) _ b out hb (
                  >>=-ok (put_entry vars k v) _ vs out e
                    (>>=-ok (sched_reactors s t m (suc k) fs (d.max d.tiny cap) vs) _ r out x q))),
            w ∙ z ∙ n,
          )

      pub sched_periods-Succeeds :
          (fs : List (Facility W)) (i : ℕ) (ts : List ℤ) (vars : List W)
          → suc (length fs) ≡ nvars_per_period s
          → i + length ts ≤ length s.min_power
          → i + length ts ≤ length s.max_power
          → (i + length ts) * nvars_per_period s ≤ length vars
          → (out : List W) × (sched_periods order s m fs i ts vars ≡ ok out)
            × (length out ≡ length vars)
      unfolding sched_periods
      sched_periods-Succeeds fs i [] vars n a b h = (vars, refl, refl)
      sched_periods-Succeeds fs i (t ∷ ts) vars n a b h =
          let k = nvars_per_period s in
          let (up, y) = entry-lt s.max_power i (omega arith) in
          let (lo, x) = entry-lt s.min_power i (omega arith) in
          let (vs, q, l) =
            sched_period-Succeeds fs t (i * k) lo up vars
              (rw n (row_fits i (length ts) k (length vars) h)) in
          let (out, z, w) =
            sched_periods-Succeeds fs (suc i) ts vs n (omega arith) (omega arith)
              (rw l (rows_fit i (length ts) k (length vars) h)) in
          (
            out,
            >>=-ok (entry s.max_power i) _ up out y (
                >>=-ok (entry s.min_power i) _ lo out x
                  (>>=-ok (sched_period order s m fs t (i * k) lo up vars) _ vs out q z)),
            w ∙ l,
          )
