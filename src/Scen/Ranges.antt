-- ===== src/Scen/Ranges.antt =====
-- The loops of TransformVars of scen/scenario.go with indices that are in range.
use cloudlus.Base.{
  ℕ, suc, ◌+◌, ◌*◌, ◌≤◌, ◌≡◌, refl, ap, ◌&&◌, List, [], ◌∷◌, length, arith, Bool-cases, inl, inr,
}
use cloudlus.Base.Int.{ℤ}
use cloudlus.Scen.Float.{Float}
use cloudlus.Scen.Model.{Facility, Scenario, available, nvars_per_period}
use cloudlus.Scen.Check.{Result, ok}
use cloudlus.Scen.Entries.{entry, entry-lt, >>=-ok}
use cloudlus.Scen.Deploy.{
  Deploy, clamp, clamp_all, add_build, nbuild_for, reactor_loop, add_implicit, other_loop,
  cap_to_build, power_cap, deploy_period, deploy_periods,
}

-- A call gives a result.
abbrev pub Succeeds : {A : Type 0} → Result A → Type 0
Succeeds {A} r = (a : A) × (r ≡ ok a)

-- The variables of the next period, and those after it.
pub row_fits : (i m n l : ℕ) → (i + suc m) * n ≤ l → i * n + n ≤ l
row_fits i m n l h = omega (arith, h)

pub rows_fit : (i m n l : ℕ) → (i + suc m) * n ≤ l → (suc i + m) * n ≤ l
rows_fit i m n l h = omega (arith, h)

module _ {W : Type 0} ⦃d : Float W⦄ where
  pub clamp_all-Succeeds :
      (vs los ups : List W)
      → length los ≡ length vs
      → length ups ≡ length vs
      → (ys : List W) × (clamp_all vs los ups ≡ ok ys) × (length ys ≡ length vs)
  unfolding clamp_all
  clamp_all-Succeeds [] los ups h k = ([], refl, refl)
  clamp_all-Succeeds (v ∷ vs) [] ups h k = absurd (omega arith)
  clamp_all-Succeeds (v ∷ vs) (lo ∷ los) [] h k = absurd (omega arith)
  clamp_all-Succeeds (v ∷ vs) (lo ∷ los) (up ∷ ups) h k =
      let (ys, e, n) = clamp_all-Succeeds vs los ups (omega arith) (omega arith) in
      (clamp v lo up ∷ ys, >>=-ok (clamp_all vs los ups) _ ys _ e refl, ap suc n)

  -- The loop over the reactors ends with an index that leaves as many variables as facilities.
  reactor_loop-Succeeds :
      (t : ℤ) (vars : List W) (k : ℕ) (fs : List (Facility W)) (left : W) (m : Deploy W)
      → k + length fs ≤ length vars
      → (r : ℕ × List (Facility W) × W × Deploy W) × (reactor_loop t vars k fs left m ≡ ok r)
        × (r.0 + length r.1 ≤ length vars)
  unfolding reactor_loop
  reactor_loop-Succeeds t vars k [] left m h = ((k, [], left, m), refl, h)
  reactor_loop-Succeeds t vars k (f ∷ fs) left m h =
      let (val, e) = entry-lt vars k (omega arith) in
      let n = nbuild_for (d.mul val left) f in
      elim (Bool-cases (d.lt d.nought f.cap && available t f)) [
        | inr a ↦ ((k, f ∷ fs, left, m), >>=-ok (entry vars k) _ val _ e (rw a refl), h)
        | inl a ↦
            (let (r, q, x) =
                reactor_loop-Succeeds t vars (suc k) fs (d.sub left (d.mul (d.of_int n) f.cap))
                  (add_build t f n m) (omega arith) in
              (r, >>=-ok (entry vars k) _ val _ e (rw a q), x))
      ]

  other_loop-Succeeds :
      (t : ℤ) (vars : List W) (k : ℕ) (fs : List (Facility W)) (m : Deploy W)
      → k + length fs ≤ length vars
      → Succeeds (other_loop t vars k fs m)
  unfolding other_loop
  other_loop-Succeeds t vars k [] m h = (m, refl)
  other_loop-Succeeds t vars k (f ∷ fs) m h =
      let (frac, e) = entry-lt vars k (omega arith) in
      let (m', q) = other_loop-Succeeds t vars (suc k) fs _ (omega arith) in
      (m', >>=-ok (entry vars k) _ frac m' e q)

  module _ (order : Deploy W → Deploy W) where
    deploy_period-Succeeds :
        (t : ℤ) (vars : List W) (k : ℕ) (fs : List (Facility W)) (f : Facility W) (lo up : W)
        (m : Deploy W)
        → k + suc (length fs) ≤ length vars
        → Succeeds (deploy_period order t vars k fs f lo up m)
    unfolding deploy_period
    deploy_period-Succeeds t vars k fs f lo up m h =
        let (pow, e) = entry-lt vars k (omega arith) in
        let left = cap_to_build order pow lo up (power_cap order t m) in
        let (r, q, x) = reactor_loop-Succeeds t vars (suc k) fs left m (omega arith) in
        let (m', y) = other_loop-Succeeds t vars r.0 r.1 (add_implicit t f r.2 r.3) x in
        (
          m',
          >>=-ok (entry vars k) _ pow m' e
              (>>=-ok (reactor_loop t vars (suc k) fs left m) _ r m' q y),
        )

    pub deploy_periods-Succeeds :
        (s : Scenario W) (vars : List W) (fs : List (Facility W)) (f : Facility W) (i : ℕ)
        (us : List ℤ) (m : Deploy W)
        → suc (length fs) ≡ nvars_per_period s
        → i + length us ≤ length s.min_power
        → i + length us ≤ length s.max_power
        → (i + length us) * nvars_per_period s ≤ length vars
        → Succeeds (deploy_periods order s vars fs f i us m)
    unfolding deploy_periods
    deploy_periods-Succeeds s vars fs f i [] m n a b h = (m, refl)
    deploy_periods-Succeeds s vars fs f i (t ∷ us) m n a b h =
        let k = nvars_per_period s in
        let (lo, x) = entry-lt s.min_power i (omega arith) in
        let (up, y) = entry-lt s.max_power i (omega arith) in
        let (m1, q) =
          deploy_period-Succeeds t vars (i * k) fs f lo up m
            (rw n (row_fits i (length us) k (length vars) h)) in
        let (m', z) =
          deploy_periods-Succeeds s vars fs f (suc i) us m1 n (omega arith) (omega arith)
            (rows_fit i (length us) k (length vars) h) in
        (
          m',
          >>=-ok (entry s.min_power i) _ lo m' x (
              >>=-ok (entry s.max_power i) _ up m' y
                (>>=-ok (deploy_period order t vars (i * k) fs f lo up m) _ m1 m' q z)),
        )
