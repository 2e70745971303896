-- ===== src/Cmd/Pswarm/Points/Stored.antt =====
-- `loadPoint` of cmd/pswarmdriver/main.go, for the rows of a point in any order.
use mathlib.Core.List.{Permᴰ}
use cloudlus.Base.{
  ℕ, zero, suc, ◌+◌, ◌<◌, ◌≡◌, refl, ap, ◌∙◌, true, ◌⊎◌, inl, inr, some, List, [], ◌∷◌, ◌==◌,
  ==_iff, if◌then◌else◌, ltb, length, length-map, length-set, All, get_or, get_or-set, set, map,
  arith, Bool-cases,
}
use cloudlus.Base.Int.{pos, eq_ℤ}
use cloudlus.Scen.Float.{Float}
use cloudlus.Scen.Vars.{zeros}
use cloudlus.Scen.Shape.{length-zeros}
use cloudlus.Cmd.Pswarm.Points.{value, Row, read_rows, write_dim, write_dims, Point, load_point}
use cloudlus.Cmd.Pswarm.Points.Rows.{
  rows_of, count_dim, count_dim-perm, length-perm, All-perm, length-rows_from, count_dim-rows_from,
  strip, count_key, read_rows-map, read_rows-val, IsRow, rows_of-IsRow,
}

module _ {W : Type 0} where
  -- What `loadPoint` has written, and where.
  abbrev Written : W → Point W → List (Row W) → List W → List W → Type 0
  Written z p rows q r =
      (length r ≡ length p.pos)
      × ((i : ℕ)
          → i < length p.pos
          → (get_or z q i ≡ get_or z p.pos i) ⊎ (0 < count_dim i rows)
          → get_or z r i ≡ get_or z p.pos i)

  get_or_default : (a b : W) (xs : List W) (i : ℕ) → i < length xs → get_or a xs i ≡ get_or b xs i
  get_or_default a b [] i h = absurd (omega arith)
  get_or_default a b (x ∷ xs) zero h = refl
  get_or_default a b (x ∷ xs) (suc i) h = get_or_default a b xs i (omega arith)

  write_dims-Written :
      (z : W) (p : Point W) (rows : List (Row W)) (q : List W)
      → All (IsRow p) rows
      → length q ≡ length p.pos
      → (r : List W) × (write_dims (map strip rows) q ≡ value r) × Written z p rows q r
  unfolding write_dims write_dim count_dim
  write_dims-Written z p [] q h l = (q, refl, (l, λ i b w. here i w))
    where
      here : (i : ℕ) → (get_or z q i ≡ get_or z p.pos i) ⊎ (0 < 0) → get_or z q i ≡ get_or z p.pos i
      here i (inl e) = e
      here i (inr n) = absurd (omega arith)
  write_dims-Written z p ((k, v, o) ∷ rows) q ((i, e, b, u, w), h) l =
      let in_range = in_line i b in
      let (r, written, (n, f)) = write_dims-Written z p rows (set q i v) h (length-set q i v ∙ l) in
      (r, rw (e, in_range) written, (n, λ j c s. f j c (later j c s)))
    where
      in_line : (j : ℕ) → j < length p.pos → ltb j (length q) ≡ true
      in_line j c = ground arith

      later :
          (j : ℕ)
          → j < length p.pos
          → (get_or z q j ≡ get_or z p.pos j)
            ⊎ (0 < (if eq_ℤ k (pos j) then 1 else 0) + count_dim j rows)
          → (get_or z (set q i v) j ≡ get_or z p.pos j) ⊎ (0 < count_dim j rows)
      later j c s = elim (Bool-cases (i == j)) [
        | inl same ↦ inl (
            get_or-set z q i j v
            ∙ rw (same, in_line j c)
                (u ∙ get_or_default v z p.pos i b ∙ ap (get_or z p.pos) ((==_iff i j).0 same)))
        | inr other ↦ elim s [
          | inl a ↦ inl (get_or-set z q i j v ∙ rw other a)
          | inr n ↦ inr (let n' = rw e at n in grind arith)
        ]
      ]

  get_or_ext :
      (xs ys : List W)
      → length xs ≡ length ys
      → ((z : W) (i : ℕ) → i < length ys → get_or z xs i ≡ get_or z ys i)
      → xs ≡ ys
  get_or_ext [] [] l h = refl
  get_or_ext [] (y ∷ ys) l h = absurd (omega arith)
  get_or_ext (x ∷ xs) [] l h = absurd (omega arith)
  get_or_ext (x ∷ xs) (y ∷ ys) l h =
      let e = h x 0 (omega arith) in
      let f = get_or_ext xs ys (omega arith) (λ z i b. h z (suc i) (omega arith)) in cc

module _ {W : Type 0} ⦃d : Float W⦄ where
  value_of :
      (p : Point W) (rows : List (Row W))
      → 0 < length rows
      → All (IsRow p) rows
      → (read_rows rows [] d.nought).1 ≡ p.val
  value_of p [] n h = absurd (omega arith)
  value_of p (r ∷ rows) n h = read_rows-val p r rows [] d.nought h

  -- The rows of a point that has a coordinate, in any order, are read as this point.
  pub load_point-rows_of :
      (p : Point W) (rows : List (Row W))
      → 0 < length p.pos
      → Permᴰ rows (rows_of p)
      → load_point (some rows) ≡ value p
  unfolding load_point rows_of
  load_point-rows_of p rows n q =
      let h = All-perm (IsRow p) q (rows_of-IsRow p) in
      let size : length rows ≡ length p.pos = length-perm q ∙ length-rows_from 0 p.pos p.val in
      let m = read_rows-map p rows [] d.nought h (λ i.
        unfold count_key in
        ground (arith, count_dim-perm i q, count_dim-rows_from i 0 p.pos p.val)) in
      let o = value_of p rows (omega arith) h in
      let (r, written, (l, f)) =
        write_dims-Written d.nought p rows (zeros (length (map strip rows))) h
          (length-zeros W (length (map strip rows)) ∙ length-map strip rows ∙ size) in
      let same = get_or_ext r p.pos l (λ z i b.
        get_or_default z d.nought r i (omega arith)
        ∙ f i b (inr (ground (arith, count_dim-perm i q, count_dim-rows_from i 0 p.pos p.val)))
        ∙ get_or_default d.nought z p.pos i b) in
      rw (m, o, written, same) refl
