-- ===== src/Scen/Splices.antt =====
-- `splice` of scen/scenario.go with indices that are in range.
use cloudlus.Base.{
  ℕ, zero, suc, ◌+◌, ◌*◌, ◌<◌, ◌≤◌, ◌≡◌, refl, ◌∙◌, Bool, true, false, some, List, [], ◌∷◌, length,
  ltb, ltb→lt, ◌==◌, arith, Bool-cases, inl, inr, if◌then◌else◌,
}
use cloudlus.Base.Int.{ℤ}
use cloudlus.Scen.Float.{Float}
use cloudlus.Scen.Model.{Scenario, nvars_per_period, period_times}
use cloudlus.Scen.Check.{ok}
use cloudlus.Scen.Entries.{entry, put_entry, entry-lt, put_entry-lt, >>=-ok}
use cloudlus.Scen.Ranges.{row_fits, rows_fit}
use cloudlus.Scen.Vars.{takes_splice, splice_row, splice_rows, splice}

module _ {W : Type 0} ⦃d : Float W⦄ (s : Scenario W) (orig : List W) where
  splice_row-Succeeds :
      (t : ℤ) (index n : ℕ) (vars : List W)
      → length vars ≡ length orig
      → index + n ≤ length vars
      → (r : List W × Bool) × (splice_row s orig t index n vars ≡ ok r) × (length r.0 ≡ length vars)
  unfolding splice_row
  splice_row-Succeeds t index zero vars m h = ((vars, true), refl, refl)
  splice_row-Succeeds t index (suc n) vars m h =
      elim (Bool-cases (ltb index (length s.splice_vars))) [
        | inr e ↦ ((vars, false), rw (splice_row, e) refl, refl)
        | inl e ↦
            (let source = if takes_splice t s then s.splice_vars else orig in
              let (v, a) = entry-lt source index (
                in_source (takes_splice t s) index (ltb→lt index (length s.splice_vars) e)
                  (omega (arith, m))) in
              let (vs, b, l) = put_entry-lt vars index v (omega arith) in
              let (r, c, k) = splice_row-Succeeds t (suc index) n vs (l ∙ m) (omega (arith, l)) in
              (
                r,
                rw (splice_row, e)
                    (>>=-ok (entry source index) _ v r a
                      (>>=-ok (put_entry vars index v) _ vs r b c)),
                k ∙ l,
              ))
      ]
    where
      in_source :
          (b : Bool) (i : ℕ)
          → i < length s.splice_vars
          → i < length orig
          → i < length (if b then s.splice_vars else orig)
      in_source true i h k = h
      in_source false i h k = k

  splice_rows-Succeeds :
      (ts : List ℤ) (i : ℕ) (vars : List W)
      → length vars ≡ length orig
      → (i + length ts) * nvars_per_period s ≤ length vars
      → (out : List W) × (splice_rows s orig ts i vars ≡ ok out) × (length out ≡ length vars)
  unfolding splice_rows
  splice_rows-Succeeds [] i vars m h = (vars, refl, refl)
  splice_rows-Succeeds (t ∷ ts) i vars m h =
      let k = nvars_per_period s in
      let (r, a, l) =
        splice_row-Succeeds t (i * k) k vars m (row_fits i (length ts) k (length vars) h) in
      elim (Bool-cases r.1) [
        | inr e ↦ (r.0, >>=-ok (splice_row s orig t (i * k) k vars) _ r r.0 a (rw e refl), l)
        | inl e ↦
            (let (out, b, n) =
                splice_rows-Succeeds ts (suc i) r.0 (l ∙ m)
                  (rw l (rows_fit i (length ts) k (length vars) h)) in
              (out, >>=-ok (splice_row s orig t (i * k) k vars) _ r out a (rw e b), n ∙ l))
      ]

  -- For a scenario with periods and its number of variables, splice gives as many variables as it
  -- gets.
  pub splice-Succeeds :
      (ts : List ℤ)
      → period_times s ≡ some ts
      → length ts * nvars_per_period s ≤ length orig
      → (out : List W) × (splice s orig ≡ ok out) × (length out ≡ length orig)
  unfolding splice
  splice-Succeeds ts h n = elim (Bool-cases (length s.splice_vars == 0)) [
    | inl z ↦ (orig, rw (splice, z) refl, refl)
    | inr z ↦
        (let (out, a, l) = splice_rows-Succeeds ts 0 orig refl (zero_rows (length ts) _ _ n) in
          (out, rw (splice, z, h) a, l))
  ]
    where
      zero_rows : (a k l : ℕ) → a * k ≤ l → (0 + a) * k ≤ l
      zero_rows a k l h = omega (arith, h)
