-- ===== src/Cmd/Pswarm/Points.antt =====
-- `loadPoint` of cmd/pswarmdriver/main.go: a point from the rows of a query.
pub mod Rows
pub mod Stored
use cloudlus.Base.{Option, none, some, List, [], ◌∷◌, if◌then◌else◌, ltb, length, set}
use cloudlus.Base.Int.{ℤ, pos, negsuc, eq_ℤ}
use cloudlus.Scen.Float.{Float}
use cloudlus.Scen.Vars.{zeros}

-- How a call of the program ends: with a value, by `log.Fatal`, or by a panic.
pub data End (A : Type 0) : Type 0 where
  value : A → End A
  fatal : End A
  crashed : End A

infixl 5 ◌>>=◌
abbrev pub ◌>>=◌ : {A B : Type 0} → End A → (A → End B) → End B
value a >>= f = f a
fatal >>= f = fatal
crashed >>= f = crashed

-- `check(err)`, for a call that gives nothing if it fails.
abbrev pub or_fatal : {A : Type 0} → Option A → End A
or_fatal none = fatal
or_fatal (some a) = value a

-- A row of `loadPoint`: the dimension, the coordinate and the value of the point.
abbrev pub Row : Type 0 → Type 0
Row W = ℤ × W × W

-- `posmap[dim] = val`
unfoldable pub put_dim : {W : Type 0} → ℤ → W → List (ℤ × W) → List (ℤ × W)
put_dim k v [] = (k, v) ∷ []
put_dim k v ((j, u) ∷ m) =
    let rest = put_dim k v m in if eq_ℤ j k then (k, v) ∷ m else (j, u) ∷ rest

-- The loop over the rows. The value is that of the last one.
unfoldable pub read_rows : {W : Type 0} → List (Row W) → List (ℤ × W) → W → List (ℤ × W) × W
unfolding put_dim
read_rows [] m obj = (m, obj)
read_rows ((k, v, o) ∷ rows) m obj = read_rows rows (put_dim k v m) o

-- `pos[dim] = val`: a panic out of range.
unfoldable pub write_dim : {W : Type 0} → ℤ → W → List W → Option (List W)
write_dim (negsuc n) v p = none
write_dim (pos n) v p = if ltb n (length p) then some (set p n v) else none

-- In the order of the map, which Go does not fix.
unfoldable pub write_dims : {W : Type 0} → List (ℤ × W) → List W → End (List W)
unfolding write_dim
write_dims [] p = value p
write_dims ((k, v) ∷ m) p = elim (write_dim k v p) [ none ↦ crashed | some q ↦ write_dims m q ]

pub record Point (W : Type 0) : Type 0 where
  pub pos : List W
  pub val : W

module _ {W : Type 0} ⦃d : Float W⦄ where
  -- `loadPoint`, for what its query gives: the rows, or none if it or the reading of a row fails.
  unfoldable pub load_point : Option (List (Row W)) → End (Point W)
  unfolding read_rows write_dims zeros
  load_point answer = do
    rows ← or_fatal answer
    let r = read_rows rows [] d.nought
    p ← write_dims r.0 (zeros (length r.0))
    value (record { pos = p; val = r.1 })
