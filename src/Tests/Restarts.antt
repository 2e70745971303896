-- ===== src/Tests/Restarts.antt =====
-- A restart of cmd/pswarmdriver/main.go at a concrete database.
use cloudlus.Base.{ℕ, true, false, some, List, [], ◌∷◌}
use cloudlus.Base.Int.{ℤ, pos}
use cloudlus.Cmd.Pswarm.{Flags}
use cloudlus.Cmd.Pswarm.Points.{value, Row, Point}
use cloudlus.Cmd.Pswarm.Solver.{Particle, Tables}
use cloudlus.Cmd.Pswarm.Main.{World}
use cloudlus.Cmd.Pswarm.Main.Restart.{Saved}
use cloudlus.Tests.Scenarios.{accepted}

abbrev point : ℤ → Point ℤ
point v = record { pos = pos 1 ∷ pos 2 ∷ []; val = v }

-- Its rows, the last one first.
abbrev rows : ℤ → List (Row ℤ)
rows v = (pos 1, pos 2, v) ∷ (pos 0, pos 1, v) ∷ []

abbrev particle : ℕ → Particle ℤ
particle i = record {
  id = i;
  point = point (pos 7);
  best = point (pos 6);
  vel = pos 1 ∷ pos 2 ∷ [];
}

abbrev tables : Tables ℤ
tables = record {
  indexed = true;
  pattern_rows = λ iter. some (rows (pos 5));
  pattern_step = λ iter. some (pos 3);
  nparticles = λ iter. some 2;
  point_rows = λ iter i. some (rows (pos 7));
  best_rows = λ iter i. some (rows (pos 6));
  velocity_rows = λ iter i. some (rows (pos 0));
}

abbrev saved : Saved ℤ
saved = record { start = point (pos 5); step = pos 3; particles = particle 0 ∷ particle 1 ∷ [] }

abbrev flags : Flags
flags = record {
  is_local = true;
  swarmonly = false;
  npar = pos 0;
  ncpu = pos 4;
  maxeval = pos 50_000;
  maxiter = pos 500;
  maxnoimprove = pos 100;
  timeout = pos 0;
  restart = pos 4;
}

abbrev world : World ℤ
world = record {
  db_exists = true;
  opens_db = true;
  dials = false;
  scenario = some accepted;
  creates_objlog = true;
  creates_runlog = true;
  tables = tables;
  cpus = 8;
  random = λ n low up. value [];
}
