-- ===== src/Scen/Spliced.antt =====
-- Which variables `splice` of scen/scenario.go replaces.
use cloudlus.Base.{
  ℕ, zero, suc, ◌+◌, ◌*◌, ◌<◌, ◌≤◌, ◌≡◌, refl, sym, ap, ◌∙◌, Bool, true, false, ◌&&◌, some, List,
  [], ◌∷◌, length, get_or, get_or-set, set, length-set, ltb, leb, ◌==◌, arith, Bool-cases, inl, inr,
  if◌then◌else◌,
}
use cloudlus.Base.Int.{ℤ, pos}
use cloudlus.Scen.Float.{Float}
use cloudlus.Scen.Model.{Scenario, nvars_per_period, period_times}
use cloudlus.Scen.Check.{ok}
use cloudlus.Scen.Valid.{ok_eq}
use cloudlus.Scen.Entries.{entry, put_entry, ok->>=, ok-entry, ok-put_entry}
use cloudlus.Scen.Vars.{takes_splice, splice_row, splice_rows, splice}

beyond : (i l n : ℕ) → ltb i l ≡ false → l < i + suc n
beyond i l n h = ground arith

onward : (i n l : ℕ) → l < suc i + n → l < i + suc n
onward i n l h = omega arith

-- The first variable of the period after the next `e` ones.
next_period : (i e k : ℕ) → (i + suc e) * k ≡ (suc i + e) * k
next_period i e k = ap (λ n. n * k) (omega arith)

period_sum : (i e k : ℕ) → (i + e) * k ≡ i * k + e * k
period_sum i e k = omega arith

not_from : (a q : ℕ) → q < a → leb a q ≡ false
not_from a q h = ground arith

in_next : (i k q : ℕ) → q < i * k → q < suc i * k
in_next i k q h = omega arith

below : (a q : ℕ) → q < a → ltb q a ≡ true
below a q h = ground arith

from : (a q : ℕ) → a ≤ q → leb a q ≡ true
from a q h = ground arith

not_below : (a q : ℕ) → a ≤ q → ltb q a ≡ false
not_below a q h = ground arith

empty_first : (n q : ℕ) → (n == 0) ≡ true → n ≤ q
empty_first n q h = ground arith

zero_add : (e : ℕ) → 0 + e ≡ e
zero_add e = omega arith

two_tests {ℓ} :
    {A : Type ℓ} (b c : Bool) (x y : A)
    → (if b && true then if c then x else y else y) ≡ (if b && c then x else y)
two_tests true c x y = refl
two_tests false c x y = refl

module _ {W : Type 0} ⦃d : Float W⦄ (s : Scenario W) (orig : List W) where
  -- The value of a variable at a time.
  abbrev pub spliced_value : ℤ → ℕ → W
  spliced_value t q =
      if takes_splice t s then get_or d.nought s.splice_vars q else get_or d.nought orig q

  value-entry :
      (t : ℤ) (q : ℕ) (v : W)
      → entry (if takes_splice t s then s.splice_vars else orig) q ≡ ok v
      → spliced_value t q ≡ v
  value-entry t q v h = chosen (takes_splice t s) h
    where
      chosen :
          (b : Bool)
          → entry (if b then s.splice_vars else orig) q ≡ ok v
          → (if b then get_or d.nought s.splice_vars q else get_or d.nought orig q) ≡ v
      chosen true h = ok-entry d.nought s.splice_vars q v h
      chosen false h = ok-entry d.nought orig q v h

  -- A step of a row writes the value of its variable.
  splice_row-step :
      (t : ℤ) (index n : ℕ) (vars : List W) (r : List W × Bool)
      → splice_row s orig t index (suc n) vars ≡ ok r
      → ltb index (length s.splice_vars) ≡ true
      → splice_row s orig t (suc index) n (set vars index (spliced_value t index)) ≡ ok r
  unfolding splice_row
  splice_row-step t index n vars r h e =
      let (v, a, h1) =
        ok->>= (entry (if takes_splice t s then s.splice_vars else orig) index) _ r
          (rw (splice_row, e) at h) in
      let (vs, b, h2) = ok->>= (put_entry vars index v) _ r h1 in
      rw (value-entry t index v a, ok-put_entry vars index v vs b) h2

  splice_row-end :
      (t : ℤ) (index n : ℕ) (vars : List W) (r : List W × Bool)
      → splice_row s orig t index (suc n) vars ≡ ok r
      → ltb index (length s.splice_vars) ≡ false
      → r ≡ (vars, false)
  unfolding splice_row
  splice_row-end t index n vars r h e = sym (ok_eq _ r (rw (splice_row, e) at h))

  get_or-splice_row :
      (t : ℤ) (index n : ℕ) (vars : List W) (q : ℕ) (r : List W × Bool)
      → splice_row s orig t index n vars ≡ ok r
      → get_or d.nought r.0 q ≡ (
          if leb index q && ltb q (index + n) && ltb q (length s.splice_vars) && ltb q (length vars)
          then spliced_value t q
          else get_or d.nought vars q)
  unfolding splice_row
  get_or-splice_row t index zero vars q r h = rw (← ok_eq _ r h) (ground arith)
  get_or-splice_row t index (suc n) vars q r h =
      elim (Bool-cases (ltb index (length s.splice_vars))) [
        | inr e ↦ rw (splice_row-end t index n vars r h e) (ground (arith, e))
        | inl e ↦ ground (
          arith,
          e,
          get_or-splice_row t (suc index) n (set vars index (spliced_value t index)) q r
              (splice_row-step t index n vars r h e),
          length-set vars index (spliced_value t index),
          get_or-set d.nought vars index q (spliced_value t index),
        )
      ]

  length-splice_row :
      (t : ℤ) (index n : ℕ) (vars : List W) (r : List W × Bool)
      → splice_row s orig t index n vars ≡ ok r
      → length r.0 ≡ length vars
  unfolding splice_row
  length-splice_row t index zero vars r h = rw (← ok_eq _ r h) refl
  length-splice_row t index (suc n) vars r h =
      elim (Bool-cases (ltb index (length s.splice_vars))) [
        | inr e ↦ rw (splice_row-end t index n vars r h e) refl
        | inl e ↦
            length-splice_row t (suc index) n _ r (splice_row-step t index n vars r h e)
            ∙ length-set vars index _
      ]

  splice_row-more :
      (t : ℤ) (index n : ℕ) (vars : List W) (r : List W × Bool)
      → splice_row s orig t index n vars ≡ ok r
      → r.1 ≡ false
      → length s.splice_vars < index + n
  unfolding splice_row
  splice_row-more t index zero vars r h m = absurd (stop (rw (← ok_eq _ r h) at m))
    where
      stop : true ≡ false → ⊥
      stop q = cc
  splice_row-more t index (suc n) vars r h m =
      elim (Bool-cases (ltb index (length s.splice_vars))) [
        | inr e ↦ beyond index (length s.splice_vars) n e
        | inl e ↦
            onward index n _
              (splice_row-more t (suc index) n _ r (splice_row-step t index n vars r h e) m)
      ]

  -- A variable before the period from which the rows go on stays.
  splice_rows-before :
      (ts : List ℤ) (i : ℕ) (vars : List W) (q : ℕ) (out : List W)
      → splice_rows s orig ts i vars ≡ ok out
      → q < i * nvars_per_period s
      → get_or d.nought out q ≡ get_or d.nought vars q
  unfolding splice_rows
  splice_rows-before [] i vars q out h l = rw (ok_eq vars out h) refl
  splice_rows-before (t ∷ ts) i vars q out h l =
      let k = nvars_per_period s in
      let (r, a, h1) = ok->>= (splice_row s orig t (i * k) k vars) _ out h in
      let same : get_or d.nought r.0 q ≡ get_or d.nought vars q =
        get_or-splice_row t (i * k) k vars q r a ∙ rw (not_from (i * k) q l) refl in
      elim (Bool-cases r.1) [
        | inr m ↦ rw (← ok_eq r.0 out (rw m at h1)) same
        | inl m ↦ splice_rows-before ts (suc i) r.0 q out (rw m at h1) (in_next i k q l) ∙ same
      ]

  get_or-splice_rows :
      (ts : List ℤ) (i e j : ℕ) (vars out : List W)
      → splice_rows s orig ts i vars ≡ ok out
      → e < length ts
      → j < nvars_per_period s
      → let q = (i + e) * nvars_per_period s + j in
        get_or d.nought out q ≡ (
          if ltb q (length s.splice_vars) && ltb q (length vars)
          then spliced_value (get_or (pos 0) ts e) q
          else get_or d.nought vars q)
  unfolding splice_rows
  get_or-splice_rows [] i e j vars out h he hj = absurd (omega arith)
  get_or-splice_rows (t ∷ ts) i zero j vars out h he hj =
      let k = nvars_per_period s in
      let q = (i + 0) * k + j in
      let (r, a, h1) = ok->>= (splice_row s orig t (i * k) k vars) _ out h in
      let row : get_or d.nought r.0 q ≡ (
          if ltb q (length s.splice_vars) && ltb q (length vars)
          then spliced_value t q
          else get_or d.nought vars q) =
        get_or-splice_row t (i * k) k vars q r a
        ∙ rw (from (i * k) q (omega arith), below (i * k + k) q (omega arith)) refl in
      elim (Bool-cases r.1) [
        | inr m ↦ rw (← ok_eq r.0 out (rw m at h1)) row
        | inl m ↦ splice_rows-before ts (suc i) r.0 q out (rw m at h1) (omega arith) ∙ row
      ]
  get_or-splice_rows (t ∷ ts) i (suc e) j vars out h he hj =
      let k = nvars_per_period s in
      let q = (suc i + e) * k + j in
      let (r, a, h1) = ok->>= (splice_row s orig t (i * k) k vars) _ out h in
      let row : get_or d.nought r.0 q ≡ get_or d.nought vars q =
        get_or-splice_row t (i * k) k vars q r a
        ∙ rw (from (i * k) q (omega arith), not_below (i * k + k) q (omega arith)) refl in
      elim (Bool-cases r.1) [
        | inr m ↦
            (let short : length s.splice_vars ≤ q =
                omega (arith, splice_row-more t (i * k) k vars r a m) in
              rw
                (
                  ← ok_eq r.0 out (rw m at h1),
                  next_period i e k,
                  not_below (length s.splice_vars) q short,
                )
                row)
        | inl m ↦ rw (next_period i e k) (
            get_or-splice_rows ts (suc i) e j r.0 out (rw m at h1) (omega arith) hj
            ∙ rw (length-splice_row t (i * k) k vars r a, row) refl)
      ]

  -- When splice gives variables, the `j`-th one of the `e`-th period, if so many were passed, is that
  -- of the splice if the splice is that long and the time of the period is before the splice time, or
  -- the splice time is negative; else it is the one that was passed.
  pub get_or-splice :
      (ts : List ℤ) (out : List W) (e j : ℕ)
      → period_times s ≡ some ts
      → splice s orig ≡ ok out
      → e < length ts
      → j < nvars_per_period s
      → let q = e * nvars_per_period s + j in
        q < length orig
        → get_or d.nought out q ≡ (
            if ltb q (length s.splice_vars) && takes_splice (get_or (pos 0) ts e) s
            then get_or d.nought s.splice_vars q
            else get_or d.nought orig q)
  unfolding splice
  get_or-splice ts out e j ht h he hj hq = elim (Bool-cases (length s.splice_vars == 0)) [
    | inl z ↦
        rw
          (
            sym (ok_eq orig out (rw (splice, z) at h)),
            not_below (length s.splice_vars) (e * nvars_per_period s + j) (empty_first _ _ z),
          )
          refl
    | inr z ↦
        (rw (zero_add e) at (get_or-splice_rows ts 0 e j orig out (rw (splice, z, ht) at h) he hj))
        ∙ rw (below (length orig) (e * nvars_per_period s + j) hq) (
            two_tests (ltb (at e j) (length s.splice_vars)) (takes_splice (get_or (pos 0) ts e) s)
              (get_or d.nought s.splice_vars (at e j)) (get_or d.nought orig (at e j)))
  ]
    where
      at : ℕ → ℕ → ℕ
      at e j = e * nvars_per_period s + j
