-- ===== src/Scen/Vars.antt =====
-- The variables of a scenario in scen/scenario.go: their order, bounds and names, and `splice`.
use cloudlus.Base.{
  ℕ, String, zero, suc, ◌*◌, Bool, true, false, ◌&&◌, ◌||◌, Option, none, some, List, [], ◌∷◌, ◌++◌,
  ◌==◌, if◌then◌else◌, length, ltb,
}
use cloudlus.Base.Int.{ℤ, pos, negsuc, ltb_ℤ, eq_ℤ}
use cloudlus.Scen.Float.{Float}
use cloudlus.Scen.Model.{
  Facility, Scenario, blank, reactors, notreactors, nvars_per_period, nvars, slice_length,
  period_times,
}
use cloudlus.Scen.Entries.{entry, put_entry}
use cloudlus.Scen.Check.{Result, ok, err, panic, ◌>>=◌, validate}

abbrev pub or_panic : {A : Type 0} → Option A → Result A
or_panic none = panic
or_panic (some a) = ok a

-- A name `t%v_f%v` is given by its two numbers.
unfoldable pub name_row : {A : Type 0} → ℕ → ℕ → List A → List (ℕ × ℕ)
name_row i j [] = []
name_row i j (f ∷ fs) = (i, j) ∷ name_row i (suc j) fs

module _ {W : Type 0} ⦃d : Float W⦄ where
  -- `s.reactors()[1:]` and `s.reactors()[0]`, which panic without a reactor.
  unfoldable pub fac_order :
      List (Facility W) → List (Facility W) → Result (List (Facility W) × Facility W)
  fac_order [] others = panic
  fac_order (r ∷ rs) others = ok (blank d.nought ∷ (rs ++ others), r)

  -- The bound of the `j`-th variable of a period.
  unfoldable pub upper_bound : ℤ → ℕ → Facility W → W
  upper_bound t j f =
      if j == 0
      then d.one
      else if eq_ℤ f.build_after (negsuc 0)
      then d.nought
      else if ltb_ℤ (pos 0) f.build_after && ltb_ℤ t f.build_after
      then d.nought
      else d.one

  unfoldable pub upper_row : ℤ → ℕ → List (Facility W) → List W
  unfolding upper_bound
  upper_row t j [] = []
  upper_row t j (f ∷ fs) = upper_bound t j f ∷ upper_row t (suc j) fs

  unfoldable pub upper_rows : List ℤ → List (Facility W) → List W
  unfolding upper_row
  upper_rows [] facs = []
  upper_rows (t ∷ ts) facs = upper_row t 0 facs ++ upper_rows ts facs

  unfoldable pub name_rows : ℕ → List ℤ → List (Facility W) → List (ℕ × ℕ)
  unfolding name_row
  name_rows i [] facs = []
  name_rows i (t ∷ ts) facs = name_row i 0 facs ++ name_rows (suc i) ts facs

  unfoldable pub zeros : ℕ → List W
  zeros zero = []
  zeros (suc n) = d.nought ∷ zeros n

  -- Before the splice time, and for a negative one at all times, the values of the splice are taken.
  unfoldable pub takes_splice : ℤ → Scenario W → Bool
  takes_splice t s = ltb_ℤ t s.splice_time || ltb_ℤ s.splice_time (pos 0)

  -- One period of `splice`: `index` counts up, `n` variables are left. The result also says whether
  -- the loops go on.
  unfoldable pub splice_row : Scenario W → List W → ℤ → ℕ → ℕ → List W → Result (List W × Bool)
  unfolding takes_splice entry put_entry
  splice_row s orig t index zero vars = ok (vars, true)
  splice_row s orig t index (suc n) vars = elim (ltb index (length s.splice_vars)) [
    | false ↦ ok (vars, false)
    | true ↦ (do
      v ← entry (if takes_splice t s then s.splice_vars else orig) index
      vars' ← put_entry vars index v
      splice_row s orig t (suc index) n vars')
  ]

  unfoldable pub splice_rows : Scenario W → List W → List ℤ → ℕ → List W → Result (List W)
  unfolding splice_row
  splice_rows s orig [] i vars = ok vars
  splice_rows s orig (t ∷ ts) i vars = do
    r ← splice_row s orig t (i * nvars_per_period s) (nvars_per_period s) vars
    elim r.1 [ true ↦ splice_rows s orig ts (suc i) r.0 | false ↦ ok r.0 ]

  unfoldable pub splice : Scenario W → List W → Result (List W)
  unfolding splice_rows
  splice s orig =
      if length s.splice_vars == 0
      then ok orig
      else elim (period_times s) [ none ↦ panic | some ts ↦ splice_rows s orig ts 0 orig ]

  module _ (parses : String → String → Bool) where
    -- `periodFacOrder`: it validates again, and panics on an error.
    unfoldable pub period_fac_order : Scenario W → Result (List (Facility W) × Facility W)
    unfolding validate fac_order reactors notreactors
    period_fac_order s = elim ((validate parses s).1) [
      | err e ↦ panic
      | panic ↦ panic
      | ok u ↦ fac_order (reactors s) (notreactors s)
    ]

    unfoldable pub upper_bounds : Scenario W → Result (List W)
    unfolding period_fac_order upper_rows
    upper_bounds s = do
      p ← period_fac_order s
      ts ← or_panic (period_times s)
      ok (upper_rows ts p.0)

    unfoldable pub lower_bounds : Scenario W → Result (List W)
    unfolding zeros
    lower_bounds s = do n ← or_panic (slice_length (nvars s)); ok (zeros n)

    unfoldable pub var_names : Scenario W → Result (List (ℕ × ℕ))
    unfolding period_fac_order name_rows
    var_names s = do p ← period_fac_order s; ts ← or_panic (period_times s); ok (name_rows 0 ts p.0)
