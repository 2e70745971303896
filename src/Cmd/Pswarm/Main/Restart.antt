-- ===== src/Cmd/Pswarm/Main/Restart.antt =====
-- A restart of cmd/pswarmdriver/main.go from the database of an earlier run.
use mathlib.Core.List.{Permᴰ}
use cloudlus.Base.{
  ℕ, suc, ◌<◌, ◌≡◌, Bool, true, ◌||◌, Option, some, List, [], ◌∷◌, String, if◌then◌else◌, length,
}
use cloudlus.Base.Int.{ℤ, pos, ◌+ℤ◌}
use cloudlus.Scen.Float.{Float}
use cloudlus.Scen.Model.{Scenario}
use cloudlus.Cmd.Pswarm.{Flags}
use cloudlus.Cmd.Pswarm.Points.{value, Row, Point}
use cloudlus.Cmd.Pswarm.Points.Rows.{rows_of}
use cloudlus.Cmd.Pswarm.Solver.{
  Particle, Method, searching, Tables, read_params, pattern_of, swarm_of,
}
use cloudlus.Cmd.Pswarm.Main.{World}

-- What the optimizer had when it stored an iteration.
pub record Saved (W : Type 0) : Type 0 where
  pub start : Point W
  pub step : W
  pub particles : List (Particle W)

-- A query gives the rows of a point that has a coordinate, in any order.
abbrev pub Answers : {W : Type 0} → Option (List (Row W)) → Point W → Type 0
Answers {W} r p =
    (0 < length p.pos) × ((rows : List (Row W)) × (r ≡ some rows) × Permᴰ rows (rows_of p))

module _ {W : Type 0} ⦃d : Float W⦄ where
  -- The velocity of a particle, as a point: the query gives it the value zero.
  abbrev pub velocity : Particle W → Point W
  velocity p = record { pos = p.vel; val = d.nought }

  -- The rows of the particles from number `i` on.
  abbrev pub HasParticles : Tables W → ℤ → ℕ → List (Particle W) → Type 0
  HasParticles t iter i [] = Unit
  HasParticles t iter i (p ∷ ps) =
      (p.id ≡ i)
      × Answers (t.point_rows iter i) p.point
      × Answers (t.best_rows iter i) p.best
      × Answers (t.velocity_rows iter i) (velocity p)
      × HasParticles t iter (suc i) ps

  -- The database holds the iteration.
  abbrev pub Holds : Tables W → ℤ → Saved W → Type 0
  Holds t iter s =
      (t.indexed ≡ true)
      × Answers (t.pattern_rows iter) s.start
      × (t.pattern_step iter ≡ some s.step)
      × (t.nparticles iter ≡ some (length s.particles))
      × HasParticles t iter 0 s.particles

  -- The method that a restart makes.
  abbrev pub resumed : Flags → ℕ → List W → List W → List Bool → ℤ → Saved W → Method W
  resumed f cpus low up mask iter s =
      let conc = if f.is_local then pos cpus else pos 0 in
      searching (pattern_of s.start (pos (length s.particles)) mask conc)
        (swarm_of s.particles conc low up (some (iter +ℤ pos 1)))

  -- The calls before the loop succeed, for numbers as arguments, and `-restart` is given.
  pub record Restarts (f : Flags) (args : List String) (w : World W) (sc : Scenario W) (n : ℕ)
      : Type 0 where
    pub restart : f.restart ≡ pos n
    pub opened : w.opens_db ≡ true
    pub connected : (f.is_local || w.dials) ≡ true
    pub numbers : (ns : List ℤ) × (read_params args ≡ value ns)
    pub loaded : w.scenario ≡ some sc
    pub objlog : w.creates_objlog ≡ true
    pub runlog : w.creates_runlog ≡ true
