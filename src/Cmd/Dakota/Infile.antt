-- ===== src/Cmd/Dakota/Infile.antt =====
-- `genDakotaFile` of cmd/dakotadriver/main.go: what its template gets.
--
-- The template and the random numbers are those of libraries: `random` is the n-th number after the
-- seed, and `render` is the template.
use cloudlus.Base.{
  ℕ, ◌+◌, Bool, not, Option, none, some, List, String, if◌then◌else◌, ltb, length, map, range_from,
}
use cloudlus.Base.Int.{ℤ, pos, negsuc, eq_ℤ}
use cloudlus.Scen.Float.{Float}
use cloudlus.Scen.Model.{Scenario, nvars}
use cloudlus.Scen.Check.{Result, ok, panic, ◌>>=◌}
use cloudlus.Scen.Vars.{lower_bounds}
use cloudlus.Cmd.Dakota.{Flags}

-- The size of the population in `genDakotaFile`.
unfoldable pub population :
    {W : Type 0} ⦃d : Float W⦄ → (String → String → Bool) → Flags → Scenario W → Result ℤ
unfolding lower_bounds
population parses f s = do
  low ← lower_bounds parses s
  let n = 100 + length low
  ok (if not (eq_ℤ f.npop (pos 0)) then f.npop else if ltb n 100 then pos 100 else pos n)

pub record Settings : Type 0 where
  pub maxiter : ℤ
  pub maxeval : ℤ
  pub parallel : ℤ
  pub seed : ℤ
  pub addr : String

-- What the template gets.
pub record DakotaConfig (W : Type 0) : Type 0 where
  pub scenario : Scenario W
  pub max_iter : ℤ
  pub max_eval : ℤ
  pub pop_size : ℤ
  pub max_concurr : ℤ
  pub seed : ℤ
  pub init_point : List W
  pub addr : String

module _ {W : Type 0} ⦃d : Float W⦄ (parses : String → String → Bool) (random : ℤ → ℕ → W) where
  -- A random point: `make` panics for a negative length, and `NVars` may panic.
  unfoldable pub init_point : ℤ → Option ℤ → Result (List W)
  init_point seed none = panic
  init_point seed (some (negsuc n)) = panic
  init_point seed (some (pos n)) = ok (map (random seed) (range_from 0 n))

  unfoldable pub dakota_config : Flags → Settings → Scenario W → Result (DakotaConfig W)
  unfolding population init_point
  dakota_config f c s = do
    n ← population parses f s
    p ← init_point c.seed (nvars s)
    ok (record {
      scenario = s;
      max_iter = c.maxiter;
      max_eval = c.maxeval;
      pop_size = n;
      max_concurr = c.parallel;
      seed = c.seed;
      init_point = p;
      addr = c.addr;
    })

  -- `genDakotaFile`: what is printed. `none` inside is an end by `log.Fatal`, for a scenario that
  -- cannot be loaded or a template that cannot be read or filled.
  unfoldable pub gen_dakota_file :
      Option (Scenario W)
      → Option (DakotaConfig W → Option String)
      → Flags
      → Settings
      → Result (Option String)
  unfolding dakota_config
  gen_dakota_file none render f c = ok none
  gen_dakota_file (some s) none f c = ok none
  gen_dakota_file (some s) (some render) f c = do config ← dakota_config f c s; ok (render config)
