-- ===== src/Scen/Shape.antt =====
-- How many variables, bounds and names a scenario of scen/scenario.go has.
use cloudlus.Base.{
  ℕ, zero, suc, ◌+◌, ◌*◌, ◌≡◌, refl, ap, ◌∙◌, Bool, some, List, [], ◌∷◌, ◌++◌, String, length,
  length-append, length-map, length-range_from, arith, range_from,
}
use cloudlus.Base.Int.{ℤ, pos, ◌*ℤ◌}
use cloudlus.Scen.Float.{Float}
use cloudlus.Scen.Model.{
  Facility, Scenario, blank, times_of, period_times, slice_length, reactors, notreactors,
  nvars_per_period, nvars,
}
use cloudlus.Scen.Check.{ok}
use cloudlus.Scen.Valid.{IsValid, validate_self}
use cloudlus.Scen.Vars.{
  fac_order, period_fac_order, upper_row, upper_rows, name_row, name_rows, zeros, upper_bounds,
  lower_bounds, var_names,
}

length-name_row : {A : Type 0} (i j : ℕ) (fs : List A) → length (name_row i j fs) ≡ length fs
unfolding name_row
length-name_row i j [] = refl
length-name_row i j (f ∷ fs) = ap suc (length-name_row i (suc j) fs)

pos-*ℤ : (a b : ℕ) → pos a *ℤ pos b ≡ pos (a * b)
unfolding ◌*ℤ◌
pos-*ℤ a b = ground arith

pub length-times_of : {W : Type 0} (n : ℕ) (s : Scenario W) → length (times_of n s) ≡ n
unfolding times_of
length-times_of n s = length-map _ (range_from 0 n) ∙ length-range_from 0 n

suc_add : (a b : ℕ) → suc (a + b) ≡ suc a + b
suc_add a b = omega arith

mul_comm : (a b : ℕ) → a * b ≡ b * a
mul_comm a b = omega arith

area : (a b c n : ℕ) → a ≡ b → c ≡ n → a * c ≡ n * b
area a b c n h k = ap (λ x. x * c) h ∙ ap (λ x. b * x) k ∙ mul_comm b n

add_row : (a b n c : ℕ) → a ≡ n → b ≡ c * n → a + b ≡ suc c * n
add_row a b n c h k = omega (arith, h, k)

pub length-zeros : (W : Type 0) ⦃d : Float W⦄ (n : ℕ) → length {A = W} (zeros n) ≡ n
unfolding zeros
length-zeros W zero = refl
length-zeros W (suc n) = ap suc (length-zeros W n)

module _ {W : Type 0} ⦃d : Float W⦄ where
  length-upper_row :
      (t : ℤ) (j : ℕ) (fs : List (Facility W)) → length (upper_row t j fs) ≡ length fs
  unfolding upper_row
  length-upper_row t j [] = refl
  length-upper_row t j (f ∷ fs) = ap suc (length-upper_row t (suc j) fs)

  length-upper_rows :
      (ts : List ℤ) (fs : List (Facility W)) → length (upper_rows ts fs) ≡ length ts * length fs
  unfolding upper_rows
  length-upper_rows [] fs = omega arith
  length-upper_rows (t ∷ ts) fs =
      length-append (upper_row t 0 fs) (upper_rows ts fs)
      ∙ add_row _ _ (length fs) (length ts) (length-upper_row t 0 fs) (length-upper_rows ts fs)

  length-name_rows :
      (i : ℕ) (ts : List ℤ) (fs : List (Facility W))
      → length (name_rows i ts fs) ≡ length ts * length fs
  unfolding name_rows
  length-name_rows i [] fs = omega arith
  length-name_rows i (t ∷ ts) fs =
      length-append (name_row i 0 fs) (name_rows (suc i) ts fs)
      ∙ add_row _ _ (length fs) (length ts) (length-name_row i 0 fs)
          (length-name_rows (suc i) ts fs)

  pub period_times-valid :
      (s : Scenario W) → IsValid s → period_times s ≡ some (times_of (length s.min_power) s)
  unfolding period_times
  period_times-valid s v = rw (period_times, v.periods) refl

  pub nvars-valid :
      (s : Scenario W) → IsValid s → nvars s ≡ some (pos (nvars_per_period s * length s.min_power))
  unfolding nvars
  nvars-valid s v = rw (nvars, v.periods, pos-*ℤ) refl

  pub fac_order-ok :
      (r : Facility W) (rs others : List (Facility W))
      → fac_order (r ∷ rs) others ≡ ok (blank d.nought ∷ (rs ++ others), r)
  unfolding fac_order
  fac_order-ok r rs others = refl

  module _ (parses : String → String → Bool) where
    pub period_fac_order-valid :
        (s : Scenario W)
        → IsValid s
        → period_fac_order parses s ≡ fac_order (reactors s) (notreactors s)
    unfolding period_fac_order
    period_fac_order-valid s v = rw (period_fac_order, validate_self parses s v) refl

    pub upper_bounds-valid :
        (s : Scenario W) (p : List (Facility W) × Facility W)
        → IsValid s
        → fac_order (reactors s) (notreactors s) ≡ ok p
        → upper_bounds parses s ≡ ok (upper_rows (times_of (length s.min_power) s) p.0)
    unfolding upper_bounds
    upper_bounds-valid s p v e =
        rw (upper_bounds, period_fac_order-valid s v, e, period_times-valid s v) refl

    pub var_names-valid :
        (s : Scenario W) (p : List (Facility W) × Facility W)
        → IsValid s
        → fac_order (reactors s) (notreactors s) ≡ ok p
        → var_names parses s ≡ ok (name_rows 0 (times_of (length s.min_power) s) p.0)
    unfolding var_names
    var_names-valid s p v e =
        rw (var_names, period_fac_order-valid s v, e, period_times-valid s v) refl

    pub lower_bounds-valid :
        (s : Scenario W)
        → IsValid s
        → lower_bounds parses s ≡ ok (zeros (nvars_per_period s * length s.min_power))
    unfolding lower_bounds slice_length
    lower_bounds-valid s v = rw (lower_bounds, nvars-valid s v) refl

    pub row_length :
        (s : Scenario W) (r : Facility W) (rs : List (Facility W))
        → reactors s ≡ r ∷ rs
        → length {A = Facility W} (blank d.nought ∷ (rs ++ notreactors s)) ≡ nvars_per_period s
    unfolding nvars_per_period
    row_length s r rs e =
        ap suc (length-append rs (notreactors s))
        ∙ rw (nvars_per_period, e) (suc_add (length rs) (length (notreactors s)))

    -- A scenario that Validate accepts, with a reactor that may be built, has an upper bound, a lower
    -- bound and a name for each of its variables.
    pub bounds_match :
        (s : Scenario W) (r : Facility W) (rs : List (Facility W))
        → IsValid s
        → reactors s ≡ r ∷ rs
        → let n = nvars_per_period s * length s.min_power in
          (nvars s ≡ some (pos n))
          × ((up : List W) × (upper_bounds parses s ≡ ok up) × (length up ≡ n))
          × ((low : List W) × (lower_bounds parses s ≡ ok low) × (length low ≡ n))
          × ((names : List (ℕ × ℕ)) × (var_names parses s ≡ ok names) × (length names ≡ n))
    bounds_match s r rs v e =
        let fs : List (Facility W) = blank d.nought ∷ (rs ++ notreactors s) in
        let ts = times_of (length s.min_power) s in
        let o : fac_order (reactors s) (notreactors s) ≡ ok (fs, r) =
          rw e (fac_order-ok r rs (notreactors s)) in
        let k =
          area (length ts) (length s.min_power) _ (nvars_per_period s) (length-times_of _ s)
            (row_length s r rs e) in
        (
          nvars-valid s v,
          (upper_rows ts fs, upper_bounds-valid s (fs, r) v o, length-upper_rows ts fs ∙ k),
          (zeros _, lower_bounds-valid s v, length-zeros W _),
          (name_rows 0 ts fs, var_names-valid s (fs, r) v o, length-name_rows 0 ts fs ∙ k),
        )
