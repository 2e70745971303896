-- ===== src/Sweep.antt =====
-- example/sweep/sweep.go: the points of a sweep over parameters, and the fields that are printed of
-- the jobs of such a sweep.
--
-- An `int` of a point is a natural number until `buildSweep` changes one. A prefix is a value: the
-- source extends the array of a prefix in place, but does not read it once the next number is put
-- there, and copies it for each point.
pub mod Product
pub mod Points
use cloudlus.Base.{
  ℕ, zero, suc, ◌+◌, ◌-◌, Bool, true, false, ◌&&◌, ◌||◌, Option, none, some, List, [], ◌∷◌, ◌++◌,
  ltb, length, map, set, range_from, if◌then◌else◌, String,
}
use cloudlus.Base.Int.{ℤ, pos, sub_ℕ}
use cloudlus.Job.{File, Job, JobId}
use text.Mathlib.Text.{◌==◌ as str_eq}

-- The slices `s[:n]` and `s[n:]`, for bounds in range.
unfoldable pub take {ℓ} : {A : Type ℓ} → ℕ → List A → List A
take zero xs = []
take (suc n) [] = []
take (suc n) (x ∷ xs) = x ∷ take n xs

unfoldable pub drop {ℓ} : {A : Type ℓ} → ℕ → List A → List A
drop zero xs = xs
drop (suc n) [] = []
drop (suc n) (x ∷ xs) = drop n xs

unfoldable pub total : List ℕ → ℕ
total [] = 0
total (x ∷ xs) = x + total xs

-- `Sum`: bounds past the end are moved to it. `none`: the lower bound is above the upper one.
unfoldable pub clip : ℕ → ℕ → ℕ
clip bound n = if ltb n bound then n else bound

unfoldable pub sum_checked : List ℕ → ℕ → ℕ → Option ℕ
unfolding clip take drop total
sum_checked s lower upper =
    let u = clip upper (length s) in
    let l = clip lower (length s) in if ltb u l then none else some (total (drop l (take u s)))

-- `Sum` where the lower bound is not above the upper one, as in all calls.
unfoldable pub sum_range : List ℕ → ℕ → ℕ → ℕ
unfolding clip take drop total
sum_range s lower upper = total (drop (clip lower (length s)) (take (clip upper (length s)) s))

-- `skipsums`
unfoldable pub skip_sums : List ℕ → Bool
unfolding sum_range
skip_sums p =
    if ltb 10 (sum_range p 0 5)
    then true
    else if ltb 1 (sum_range p 5 10)
    then true
    else if ltb 1 (sum_range p 10 15)
    then true
    else ltb 1 (sum_range p 15 20)

module _ (skip : List ℕ → Bool) where
  -- The loop of `permute` over the numbers of one dimension. `rest` is the call for the others.
  unfoldable pub branches : (List ℕ → List (List ℕ)) → List ℕ → List ℕ → List (List ℕ)
  branches rest prefix [] = []
  branches rest prefix (i ∷ is) =
      let later = branches rest prefix is in
      let q = prefix ++ (i ∷ []) in if skip q then later else rest q ++ later

  -- `permute` for a first dimension and the others.
  unfoldable pub permute_from : ℕ → List ℕ → List ℕ → List (List ℕ)
  unfolding branches
  permute_from n [] prefix = map (λ i. prefix ++ (i ∷ [])) (range_from 0 n)
  permute_from n (m ∷ ms) prefix = branches (λ q. permute_from m ms q) prefix (range_from 0 n)

  -- `Permute`: `none` is the panic without a dimension.
  unfoldable pub permute : List ℕ → Option (List (List ℕ))
  unfolding permute_from
  permute [] = none
  permute (n ∷ ns) = some (permute_from n ns [])

-- The dimensions in `buildSweep`, without the first.
abbrev pub dimensions : List ℕ
dimensions = 11 ∷ 11 ∷ 11 ∷ 1 ∷ 2 ∷ 2 ∷ 2 ∷ 2 ∷ 1 ∷ 1 ∷ 2 ∷ 2 ∷ 2 ∷ 1 ∷ 1 ∷ 2 ∷ 2 ∷ 2 ∷ 1 ∷ []

-- The assignment to `p[4]`.
unfoldable pub balance : List ℕ → List ℤ
unfolding sum_range
balance p = set (map pos p) 4 (sub_ℕ 10 (sum_range p 0 4))

-- `buildSweep`
unfoldable pub build_sweep : List (List ℤ)
build_sweep = map balance (permute_from skip_sums 11 dimensions [])

-- The loop of `main` over the output files: the contents of the first that is named out.txt.
unfoldable pub objective_text : List File → Option (List ℕ)
objective_text [] = none
objective_text (f ∷ fs) = if str_eq f.name "out.txt" then some f.contents else objective_text fs

-- What is printed for a job: the identifier, the note, the objective if it is asked for, and the name
-- of the file if it is asked for. `none`: nothing is printed.
pub record Line : Type 0 where
  pub id : JobId
  pub note : String
  pub objective : Option (List ℕ)
  pub fname : Option String

abbrev pub name_if : Bool → String → Option String
name_if b fname = if b then some fname else none

unfoldable pub job_line : Bool → Bool → String → Job → Option Line
unfolding objective_text
job_line obj pf fname j =
    if obj
    then elim (objective_text j.outfiles) [
      | none ↦ none
      | some text ↦
          some
            (record { id = j.id; note = j.note; objective = some text; fname = name_if pf fname })
    ]
    else some (record { id = j.id; note = j.note; objective = none; fname = name_if pf fname })
