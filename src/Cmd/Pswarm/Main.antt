-- ===== src/Cmd/Pswarm/Main.antt =====
-- `main` and `final` of cmd/pswarmdriver/main.go around the loop of the optimizer.
--
-- The goroutine that ends the program on a signal, the largest step of the mesh and what is printed
-- of the optimizer are left out.
pub mod Restart
use cloudlus.Base.{
  ℕ, Bool, true, false, not, ◌&&◌, ◌||◌, Option, none, some, List, [], ◌∷◌, ◌++◌, String,
  if◌then◌else◌,
}
use cloudlus.Base.Int.{ℤ, pos, ltb_ℤ}
use cloudlus.Scen.Float.{Float}
use cloudlus.Scen.Model.{Scenario}
use cloudlus.Scen.Vars.{lower_bounds, upper_bounds}
use cloudlus.Cmd.Pswarm.{Flags}
use cloudlus.Cmd.Pswarm.Points.{End, value, fatal, crashed, ◌>>=◌, or_fatal}
use cloudlus.Cmd.Pswarm.Solver.{
  Particle, Method, Tables, require, end_of, read_params, first_step, build_iter, load_iter,
}

-- What the calls of the program before the loop return.
pub record World (W : Type 0) : Type 0 where
  pub db_exists : Bool
  pub opens_db : Bool
  pub dials : Bool
  pub scenario : Option (Scenario W)
  pub creates_objlog : Bool
  pub creates_runlog : Bool
  pub tables : Tables W
  pub cpus : ℕ
  pub random : ℤ → List W → List W → End (List (Particle W))

-- The options of the solver.
pub record Solver (W : Type 0) : Type 0 where
  pub method : Method W
  pub step : W
  pub lower : List W
  pub upper : List W
  pub maxiter : ℤ
  pub maxeval : ℤ
  pub maxnoimprove : ℤ

-- A round of the loop: whether the solver has an error then, and whether a new connection is made.
pub record Turn : Type 0 where
  pub failed : Bool
  pub redials : Bool

pub data Action : Type 0 where
  reported reconnected printed : Action

-- The loop: what was done, and whether `log.Fatal` ended it.
unfoldable pub solve : Bool → List Turn → List Action × Bool
solve is_local [] = ([], false)
solve is_local (t ∷ ts) =
    let (rest, ended) = solve is_local ts in
    if not t.failed
    then (printed ∷ rest, ended)
    else if is_local
    then (reported ∷ printed ∷ rest, ended)
    else if t.redials
    then (reported ∷ reconnected ∷ printed ∷ rest, ended)
    else (reported ∷ [], true)

-- `final`: whether the two statements succeed.
unfoldable pub final : Bool → Bool → End (Unit {0})
final creates inserts = do _ ← require creates; require inserts

module _ {W : Type 0} ⦃d : Float W⦄ (parses : String → String → Bool) where
  -- The method and the first step.
  unfoldable pub choose : Flags → World W → List W → List W → W → End (Method W × W)
  unfolding build_iter load_iter
  choose f w low up step =
      if not (ltb_ℤ f.restart (pos 0))
      then load_iter w.tables w.cpus f.is_local low up f.restart
      else (build_iter w.random f low up >>= λ it. value (it, step))

  -- What comes before the loop.
  unfoldable pub prepare : Flags → List String → World W → End (Solver W)
  unfolding read_params lower_bounds upper_bounds first_step choose
  prepare f args w = do
    _ ← require (not (w.db_exists && ltb_ℤ f.restart (pos 0)))
    _ ← require w.opens_db
    _ ← require (f.is_local || w.dials)
    _ ← read_params args
    s ← or_fatal w.scenario
    _ ← require w.creates_objlog
    _ ← require w.creates_runlog
    low ← end_of (lower_bounds parses s)
    up ← end_of (upper_bounds parses s)
    step ← first_step low up
    chosen ← choose f w low up step
    value (record {
      method = chosen.0;
      step = chosen.1;
      lower = low;
      upper = up;
      maxiter = f.maxiter;
      maxeval = f.maxeval;
      maxnoimprove = f.maxnoimprove;
    })

  -- `main`, for the rounds of the loop, whether the solver has an error at the end, and the statements
  -- of `final`.
  unfoldable pub main :
      Flags → List String → World W → List Turn → Bool → Bool → Bool → End (List Action × Bool)
  unfolding prepare solve final
  main f args w ts failed creates inserts = do
    _ ← prepare f args w
    let (done, ended) = solve f.is_local ts
    let all = if failed then done ++ reported ∷ [] else done
    (if ended then value (done, true) else elim (final creates inserts) [
      | value _ ↦ value (all, false)
      | fatal ↦ value (all, true)
      | crashed ↦ crashed
    ])
