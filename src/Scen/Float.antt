-- ===== src/Scen/Float.antt =====
-- What the package scen does with a `float64`, as the operations of an interface: their rounding is
-- that of the machine and no part of this program. Laws are stated where a result needs them.
use cloudlus.Base.{Bool}
use cloudlus.Base.Int.{ℤ}

pub record Float (W : Type 0) : Type 0 where
  pub nought : W
  pub one : W
  pub half : W
  -- 1e-10
  pub tiny : W
  pub add : W → W → W
  pub sub : W → W → W
  pub mul : W → W → W
  pub div : W → W → W
  -- `math.Max`, `math.Min` and `math.Floor`
  pub max : W → W → W
  pub min : W → W → W
  pub floor : W → W
  -- `math.Pow`
  pub pow : W → W → W
  pub lt : W → W → Bool
  pub le : W → W → Bool
  pub eq : W → W → Bool
  -- `float64(n)` and `int(x)`
  pub of_int : ℤ → W
  pub to_int : W → ℤ
