-- ===== src/Cmd/Pswarm/Solver.antt =====
-- `main`, `buildIter` and `loadIter` of cmd/pswarmdriver/main.go: what the driver starts its
-- optimizer with, and what it does around it.
--
-- The optimizer is the library optim: the options that the program gives it are data here. The
-- answers of its database to the queries of `loadIter` are functions of the arguments of the
-- queries, and its random particles are an argument.
use cloudlus.Base.{
  ℕ, zero, suc, ◌+◌, Bool, true, false, not, Option, none, some, List, [], ◌∷◌, String,
  if◌then◌else◌, ltb, length,
}
use cloudlus.Base.Int.{ℤ, pos, eq_ℤ, ◌+ℤ◌}
use cloudlus.Base.Numerals.{atoi}
use cloudlus.Scen.Float.{Float}
use cloudlus.Scen.Check.{Result, ok, err, panic}
use cloudlus.Cmd.Pswarm.{Flags}
use cloudlus.Cmd.Pswarm.Points.{End, value, fatal, crashed, ◌>>=◌, or_fatal, Row, Point, load_point}

pub record Particle (W : Type 0) : Type 0 where
  pub id : ℕ
  pub point : Point W
  pub best : Point W
  pub vel : List W

-- What `swarm.New` gets. The iteration is that of `InitIter`, if it is given.
pub record Swarm (W : Type 0) : Type 0 where
  pub population : List (Particle W)
  pub nconcurrent : ℤ
  pub vmax_lower : List W
  pub vmax_upper : List W
  pub init_iter : Option ℤ

-- What `pattern.New` gets, with the swarm as its search method.
pub record Pattern (W : Type 0) : Type 0 where
  pub start : Point W
  pub reset_step : W × W
  pub nsuccess_grow : ℕ
  pub nconcurrent : ℤ
  -- How many random directions are polled, and which coordinates they may change.
  pub npoll : ℤ
  pub mask : List Bool

pub data Method (W : Type 0) : Type 0 where
  only_swarm : Swarm W → Method W
  searching : Pattern W → Swarm W → Method W

-- The answers of the database. `none` is an error.
pub record Tables (W : Type 0) : Type 0 where
  -- `CREATE INDEX`
  pub indexed : Bool
  pub pattern_rows : ℤ → Option (List (Row W))
  pub pattern_step : ℤ → Option W
  pub nparticles : ℤ → Option ℕ
  pub point_rows : ℤ → ℕ → Option (List (Row W))
  pub best_rows : ℤ → ℕ → Option (List (Row W))
  pub velocity_rows : ℤ → ℕ → Option (List (Row W))

-- The number of particles in `buildIter`.
unfoldable pub swarm_size : ℤ → ℕ → ℤ
swarm_size npar nvars =
    let n = 30 + nvars in
    if not (eq_ℤ npar (pos 0)) then npar else if ltb n 30 then pos 30 else pos n

-- `check(err)`, for a call that gives nothing.
abbrev pub require : Bool → End (Unit {0})
require true = value tt
require false = fatal

abbrev pub end_of : {A : Type 0} → Result A → End A
end_of (ok a) = value a
end_of (err e) = crashed
end_of panic = crashed

-- The numbers among the arguments, which the program reads and does not use.
unfoldable pub read_params : List String → End (List ℤ)
read_params [] = value []
read_params (w ∷ ws) = do n ← or_fatal (atoi w); ns ← read_params ws; value (n ∷ ns)

module _ {W : Type 0} ⦃d : Float W⦄ where
  -- The loop `mask[i] = lb[i] < ub[i]`, which panics where there are fewer lower bounds.
  unfoldable pub poll_mask : List W → List W → End (List Bool)
  poll_mask low [] = value []
  poll_mask [] (u ∷ up) = crashed
  poll_mask (l ∷ low) (u ∷ up) = do m ← poll_mask low up; value (d.lt l u ∷ m)

  -- `(ub[0] - lb[0]) / 10`
  unfoldable pub first_step : List W → List W → End W
  first_step (l ∷ low) (u ∷ up) = value (d.div (d.sub u l) (d.of_int (pos 10)))
  first_step _ _ = crashed

  -- `ResetStep(.01, 1.0)`
  abbrev pub reset_steps : W × W
  reset_steps = (d.div d.one (d.of_int (pos 100)), d.one)

  -- `pattern.New` with the options of the program, at a start, with the directions of a poll.
  unfoldable pub pattern_of : Point W → ℤ → List Bool → ℤ → Pattern W
  pattern_of p n mask conc = record {
    start = p;
    reset_step = reset_steps;
    nsuccess_grow = 4;
    nconcurrent = conc;
    npoll = n;
    mask = mask;
  }

  unfoldable pub swarm_of : List (Particle W) → ℤ → List W → List W → Option ℤ → Swarm W
  swarm_of pop conc low up iter = record {
    population = pop;
    nconcurrent = conc;
    vmax_lower = low;
    vmax_upper = up;
    init_iter = iter;
  }

  -- `pop[0].Point`
  unfoldable pub first_point : List (Particle W) → End (Point W)
  first_point [] = crashed
  first_point (p ∷ ps) = value p.point

  -- `buildIter`, where `random` is `swarm.NewPopulationRand`.
  unfoldable pub build_iter :
      (ℤ → List W → List W → End (List (Particle W))) → Flags → List W → List W → End (Method W)
  unfolding poll_mask swarm_size first_point pattern_of swarm_of
  build_iter random f low up = do
    mask ← poll_mask low up
    let n = swarm_size f.npar (length low)
    let conc = if f.is_local then f.ncpu else pos 0
    pop ← random n low up
    let sw = swarm_of pop conc low up none
    (if f.swarmonly
        then value (only_swarm sw)
        else (first_point pop >>= λ p. value (searching (pattern_of p n mask conc) sw)))

  -- One round of the loop over the particles.
  unfoldable pub load_particle : Tables W → ℤ → ℕ → End (Particle W)
  unfolding load_point
  load_particle t iter i = do
    pt ← load_point (t.point_rows iter i)
    best ← load_point (t.best_rows iter i)
    vel ← load_point (t.velocity_rows iter i)
    value (record { id = i; point = pt; best = best; vel = vel.pos })

  -- The particles from number `i` on, `n` of them.
  unfoldable pub load_particles : Tables W → ℤ → ℕ → ℕ → End (List (Particle W))
  unfolding load_particle
  load_particles t iter i zero = value []
  load_particles t iter i (suc n) = do
    p ← load_particle t iter i
    ps ← load_particles t iter (suc i) n
    value (p ∷ ps)

  -- `loadIter`, where `cpus` is `runtime.NumCPU()`.
  unfoldable pub load_iter : Tables W → ℕ → Bool → List W → List W → ℤ → End (Method W × W)
  unfolding load_point load_particles poll_mask pattern_of swarm_of
  load_iter t cpus is_local low up iter = do
    _ ← require t.indexed
    p ← load_point (t.pattern_rows iter)
    step ← or_fatal (t.pattern_step iter)
    mask ← poll_mask low up
    n ← or_fatal (t.nparticles iter)
    pop ← load_particles t iter 0 n
    let conc = if is_local then pos cpus else pos 0
    value (
      searching (pattern_of p (pos n) mask conc) (swarm_of pop conc low up (some (iter +ℤ pos 1))),
      step,
    )
