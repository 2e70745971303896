-- ===== src/Scen/Interp.antt =====
-- Interpolation and integration, scen/interp.go.
--
-- `sort.Sort` fixes no order among samples with the same X; here the one inserted last comes first.
-- Such samples are not allowed by the comment on `interpolate`.
use cloudlus.Base.{ℕ, zero, suc, ◌+◌, ◌*◌, List, [], ◌∷◌, ◌++◌, ◌==◌, if◌then◌else◌, length, map}
use cloudlus.Base.Int.{pos}
use cloudlus.Scen.Float.{Float}
use cloudlus.Scen.Check.{Result, ok, err, panic, ◌>>=◌}
use cloudlus.Scen.Disrup.{Disruption}

pub record Sample (W : Type 0) : Type 0 where
  pub x : W
  pub y : W

abbrev pub SmoothFn : Type 0 → Type 0
SmoothFn W = W → Result W

module _ {W : Type 0} ⦃d : Float W⦄ where
  unfoldable pub insert_sample : Sample W → List (Sample W) → List (Sample W)
  insert_sample a [] = a ∷ []
  insert_sample a (b ∷ ss) =
      let rest = insert_sample a ss in if d.lt b.x a.x then b ∷ rest else a ∷ b ∷ ss

  unfoldable pub sort_samples : List (Sample W) → List (Sample W)
  unfolding insert_sample
  sort_samples [] = []
  sort_samples (a ∷ ss) = insert_sample a (sort_samples ss)

  -- The line through two samples.
  unfoldable pub line : Sample W → Sample W → W → W
  line a b x = d.add a.y (d.mul (d.div (d.sub x a.x) (d.sub b.x a.x)) (d.sub b.y a.y))

  -- The search for the segment of `x`; the last one serves for all that is beyond.
  unfoldable pub segment : Sample W → List (Sample W) → W → Result W
  unfolding line
  segment a [] x = panic
  segment a (b ∷ []) x = ok (line a b x)
  segment a (b ∷ c ∷ ss) x =
      let rest = segment b (c ∷ ss) x in if d.le x b.x then ok (line a b x) else rest

  -- Fewer than two samples are an index out of range.
  unfoldable pub eval_sorted : List (Sample W) → SmoothFn W
  unfolding segment
  eval_sorted [] x = panic
  eval_sorted (a ∷ ss) x = segment a ss x

  unfoldable pub interpolate : List (Sample W) → SmoothFn W
  unfolding eval_sorted sort_samples
  interpolate ss = eval_sorted (sort_samples ss)

  unfoldable pub product_of : SmoothFn W → SmoothFn W → SmoothFn W
  product_of f g x = do a ← f x; b ← g x; ok (d.mul a b)

  -- The middle of the `i`-th interval.
  unfoldable pub middle : W → W → ℕ → W
  middle x1 dx i = d.add x1 (d.mul (d.add (d.of_int (pos i)) d.half) dx)

  unfoldable pub integrate_from : SmoothFn W → W → W → ℕ → ℕ → W → Result W
  unfolding middle
  integrate_from f x1 dx i zero tot = ok tot
  integrate_from f x1 dx i (suc n) tot = elim (f (middle x1 dx i)) [
    | err e ↦ err e
    | panic ↦ panic
    | ok y ↦ integrate_from f x1 dx (suc i) n (d.add tot (d.mul y dx))
  ]

  unfoldable pub integrate_mid : SmoothFn W → W → W → ℕ → Result W
  unfolding integrate_from
  integrate_mid f x1 x2 n =
      integrate_from f x1 (d.div (d.sub x2 x1) (d.of_int (pos n))) 0 n d.nought

  unfoldable pub sample_from : SmoothFn W → W → W → W → ℕ → ℕ → W → List W → Result (List W)
  unfolding middle
  sample_from f x1 dx area i zero tot xs = ok xs
  sample_from f x1 dx area i (suc n) tot xs = elim (f (middle x1 dx i)) [
    | err e ↦ err e
    | panic ↦ panic
    | ok y ↦ sample_from f x1 dx area (suc i) n (d.add tot (d.mul y dx)) (
        if d.le (d.mul (d.of_int (pos (length xs + 1))) area) (d.add tot (d.mul y dx))
        then xs ++ middle x1 dx i ∷ []
        else xs)
  ]

  unfoldable pub sample_uniform_prob : SmoothFn W → W → W → ℕ → ℕ → Result (List W)
  unfolding integrate_mid sample_from
  sample_uniform_prob f x1 x2 nsample ninterval = do
    tot ← integrate_mid f x1 x2 (ninterval * nsample)
    sample_from f x1 (d.div (d.sub x2 x1) (d.of_int (pos (ninterval * nsample))))
        (d.div tot (d.of_int (pos nsample))) 0 (ninterval * nsample) d.nought []

  abbrev pub no_sample : Sample W
  no_sample = record { x = d.nought; y = d.nought }

  unfoldable pub blanks : ℕ → List (Sample W)
  blanks zero = []
  blanks (suc n) = no_sample ∷ blanks n

  unfoldable pub zip_points : List (Disruption W) → List W → List (Sample W)
  zip_points (p ∷ ps) (y ∷ ys) = record { x = d.of_int p.time; y = y } ∷ zip_points ps ys
  zip_points _ _ = []

  -- `zip`: the points are appended to a slice that has as many zero samples already.
  unfoldable pub zip : List (Disruption W) → List W → Result (List (Sample W))
  unfolding blanks zip_points
  zip ps ys = if length ps == length ys then ok (blanks (length ps) ++ zip_points ps ys) else panic

  unfoldable pub extract_probs : List (Disruption W) → List (Sample W)
  extract_probs ps = map (λ (p : Disruption W). record { x = d.of_int p.time; y = p.prob }) ps
