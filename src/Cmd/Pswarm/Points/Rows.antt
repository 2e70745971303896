-- ===== src/Cmd/Pswarm/Points/Rows.antt =====
-- The rows of a point in the database of cmd/pswarmdriver/main.go, and the loop of `loadPoint` over them.
use mathlib.Core.List.{Permᴰ, append-nil, append_assoc}
use cloudlus.Base.{
  ℕ, suc, ◌+◌, ◌<◌, ◌≤◌, ◌≡◌, refl, sym, ap, ◌∙◌, inl, inr, List, [], ◌∷◌, ◌++◌, if◌then◌else◌, ltb,
  length, All, get_or, map, arith, Bool-cases,
}
use cloudlus.Base.Int.{ℤ, pos, eq_ℤ}
use cloudlus.Cmd.Pswarm.Points.{Row, put_dim, read_rows, Point}

module _ {W : Type 0} where
  -- The rows of a point, with its coordinates from the given dimension on.
  unfoldable pub rows_from : ℕ → List W → W → List (Row W)
  rows_from i [] o = []
  rows_from i (v ∷ vs) o = (pos i, v, o) ∷ rows_from (suc i) vs o

  unfoldable pub rows_of : Point W → List (Row W)
  unfolding rows_from
  rows_of p = rows_from 0 p.pos p.val

  -- How many rows have the dimension.
  unfoldable pub count_dim : ℕ → List (Row W) → ℕ
  count_dim i [] = 0
  count_dim i ((k, v, o) ∷ rows) = (if eq_ℤ k (pos i) then 1 else 0) + count_dim i rows

  pub count_dim-perm :
      (i : ℕ) {xs ys : List (Row W)} → Permᴰ xs ys → count_dim i xs ≡ count_dim i ys
  unfolding count_dim
  count_dim-perm i Permᴰ.nil = refl
  count_dim-perm i (Permᴰ.cons e p) = rw e (omega (arith, count_dim-perm i p))
  count_dim-perm i (Permᴰ.swap e f) = rw (e, f) (omega arith)
  count_dim-perm i (Permᴰ.trans p q) = count_dim-perm i p ∙ count_dim-perm i q

  pub length-perm : {xs ys : List (Row W)} → Permᴰ xs ys → length xs ≡ length ys
  length-perm Permᴰ.nil = refl
  length-perm (Permᴰ.cons e p) = ap suc (length-perm p)
  length-perm (Permᴰ.swap e f) = refl
  length-perm (Permᴰ.trans p q) = length-perm p ∙ length-perm q

  pub All-perm : (P : Row W → Type 0) {xs ys : List (Row W)} → Permᴰ xs ys → All P ys → All P xs
  All-perm P Permᴰ.nil h = h
  All-perm P (Permᴰ.cons e p) h = (rw e h.0, All-perm P p h.1)
  All-perm P (Permᴰ.swap e f) h = (rw e (h.1.0), (rw f (h.0), h.1.1))
  All-perm P (Permᴰ.trans p q) h = All-perm P p (All-perm P q h)

  pub length-rows_from : (i : ℕ) (vs : List W) (o : W) → length (rows_from i vs o) ≡ length vs
  unfolding rows_from
  length-rows_from i [] o = refl
  length-rows_from i (v ∷ vs) o = ap suc (length-rows_from (suc i) vs o)

  pub count_dim-rows_from :
      (k i : ℕ) (vs : List W) (o : W)
      → count_dim k (rows_from i vs o)
        ≡ (if ltb k i then 0 else if ltb k (i + length vs) then 1 else 0)
  unfolding rows_from count_dim
  count_dim-rows_from k i [] o = ground arith
  count_dim-rows_from k i (v ∷ vs) o = ground (arith, count_dim-rows_from k (suc i) vs o)

  abbrev pub strip : Row W → ℤ × W
  strip (k, v, o) = (k, v)

  unfoldable pub count_key : ℕ → List (ℤ × W) → ℕ
  count_key i [] = 0
  count_key i ((k, v) ∷ m) = (if eq_ℤ k (pos i) then 1 else 0) + count_key i m

  count_key-append :
      (i : ℕ) (m n : List (ℤ × W)) → count_key i (m ++ n) ≡ count_key i m + count_key i n
  unfolding count_key
  count_key-append i [] n = omega arith
  count_key-append i ((k, v) ∷ m) n = omega (arith, count_key-append i m n)

  put_dim_fresh :
      (i : ℕ) (v : W) (m : List (ℤ × W))
      → count_key i m ≡ 0
      → put_dim (pos i) v m ≡ m ++ (pos i, v) ∷ []
  unfolding put_dim count_key
  put_dim_fresh i v [] h = refl
  put_dim_fresh i v ((k, u) ∷ m) h = elim (Bool-cases (eq_ℤ k (pos i))) [
    | inl same ↦ (let q : 1 + count_key i m ≡ 0 = rw same at h in absurd (omega arith))
    | inr other ↦ rw other (
        ap (λ t. (k, u) ∷ t)
          (put_dim_fresh i v m (let q : 0 + count_key i m ≡ 0 = rw other at h in omega arith)))
  ]

  -- A row of the point.
  abbrev pub IsRow : Point W → Row W → Type 0
  IsRow p (k, v, o) =
      (i : ℕ) × (k ≡ pos i) × (i < length p.pos) × (v ≡ get_or v p.pos i) × (o ≡ p.val)

  pub read_rows-map :
      (p : Point W) (rows : List (Row W)) (m : List (ℤ × W)) (obj : W)
      → All (IsRow p) rows
      → ((i : ℕ) → count_key i m + count_dim i rows ≤ 1)
      → (read_rows rows m obj).0 ≡ m ++ map strip rows
  unfolding read_rows count_dim
  read_rows-map p [] m obj h c = sym (append-nil m)
  read_rows-map p ((k, v, o) ∷ rows) m obj ((i, e, b, u, w), h) c =
      ap (λ t. (read_rows rows t o).0) put
      ∙ read_rows-map p rows (m ++ (k, v) ∷ []) o h
          (λ j. unfold count_key in omega (arith, c j, count_key-append j m ((k, v) ∷ [])))
      ∙ append_assoc m ((k, v) ∷ []) (map strip rows)
    where
      put : put_dim k v m ≡ m ++ (k, v) ∷ []
      put = rw e (put_dim_fresh i v m (let q = rw e at (c i) in grind arith))

  pub read_rows-val :
      (p : Point W) (r : Row W) (rows : List (Row W)) (m : List (ℤ × W)) (obj : W)
      → All (IsRow p) (r ∷ rows)
      → (read_rows (r ∷ rows) m obj).1 ≡ p.val
  unfolding read_rows
  read_rows-val p (k, v, o) [] m obj h = h.0.4
  read_rows-val p (k, v, o) (r ∷ rows) m obj h = read_rows-val p r rows (put_dim k v m) o h.1

  rows_from-IsRow :
      (p : Point W) (i : ℕ) (vs : List W)
      → ((z : W) (j : ℕ)
          → j < length vs
          → (i + j < length p.pos) × (get_or z vs j ≡ get_or z p.pos (i + j)))
      → All (IsRow p) (rows_from i vs p.val)
  unfolding rows_from
  rows_from-IsRow p i [] h = tt
  rows_from-IsRow p i (v ∷ vs) h =
      let first : i + 0 ≡ i = omega arith in
      let here = rw first at (h v 0 (omega arith)) in
      (
        (i, refl, here.0, here.1, refl),
        rows_from-IsRow p (suc i) vs λ z j b.
            let there = h z (suc j) (omega arith) in
            let step : i + suc j ≡ suc i + j = omega arith in rw step at there,
      )

  pub rows_of-IsRow : (p : Point W) → All (IsRow p) (rows_of p)
  unfolding rows_of
  rows_of-IsRow p =
      rows_from-IsRow p 0 p.pos λ z j b. let e : 0 + j ≡ j = omega arith in rw e (b, refl)
