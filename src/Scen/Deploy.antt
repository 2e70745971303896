-- ===== src/Scen/Deploy.antt =====
-- `TransformVars` of scen/scenario.go: from variables to deployments.
--
-- A map from prototypes to builds is an association list. `PowerCap` visits it in an order that Go
-- does not fix: `order` is any choice of one. An index out of range panics.
use cloudlus.Base.{
  ℕ, suc, ◌*◌, Bool, true, false, ◌&&◌, none, some, List, [], ◌∷◌, ◌++◌, String, if◌then◌else◌,
  length,
}
use cloudlus.Base.Int.{ℤ, pos, ◌+ℤ◌, ltb_ℤ, eq_ℤ}
use cloudlus.Scen.Float.{Float}
use cloudlus.Scen.Model.{
  Facility, Build, Scenario, available, build_alive, nvars_per_period, nvars, period_times,
}
use cloudlus.Scen.Check.{Result, ok, err, panic, ◌>>=◌, wrong_vars, validate}
use cloudlus.Scen.Entries.{entry}
use cloudlus.Scen.Vars.{or_panic, period_fac_order, upper_bounds, lower_bounds, splice}
use text.Mathlib.Text.{◌==◌ as str_eq}

abbrev pub Deploy : Type 0 → Type 0
Deploy W = List (String × List (Build W))

module _ {W : Type 0} where
  unfoldable pub builds_of : String → Deploy W → List (Build W)
  builds_of p [] = []
  builds_of p ((q, bs) ∷ m) = if str_eq q p then bs else builds_of p m

  -- `builds[p] = append(builds[p], b)`
  unfoldable pub append_build : String → Build W → Deploy W → Deploy W
  append_build p b [] = (p, b ∷ []) ∷ []
  append_build p b ((q, bs) ∷ m) =
      let rest = append_build p b m in if str_eq q p then (q, bs ++ b ∷ []) ∷ m else (q, bs) ∷ rest

  unfoldable pub group : List (Build W) → Deploy W → Deploy W
  unfolding append_build
  group [] m = m
  group (b ∷ bs) m = group bs (append_build b.proto b m)

  unfoldable pub count_alive : ℤ → List (Build W) → ℤ → ℤ
  unfolding build_alive
  count_alive t [] n = n
  count_alive t (b ∷ bs) n = count_alive t bs (if build_alive t b then n +ℤ b.n else n)

  -- `naliveproto`
  unfoldable pub nalive : ℤ → List String → Deploy W → ℤ → ℤ
  unfolding count_alive builds_of
  nalive t [] m n = n
  nalive t (p ∷ ps) m n = nalive t ps m (count_alive t (builds_of p m) n)

  -- The build that the three loops append, if it is of at least one facility.
  unfoldable pub add_build : ℤ → Facility W → ℤ → Deploy W → Deploy W
  unfolding append_build
  add_build t f n m =
      if ltb_ℤ (pos 0) n
      then append_build f.proto (record { time = t; proto = f.proto; n = n; life = pos 0; fac = f })
          m
      else m

  -- The last loop: the builds of the map in the order of the facilities.
  unfoldable pub listed_builds : List (Facility W) → Deploy W → List (Build W)
  unfolding builds_of
  listed_builds [] m = []
  listed_builds (f ∷ fs) m = builds_of f.proto m ++ listed_builds fs m

  -- The facilities of the variables after the one for power.
  unfoldable pub after_first : List (Facility W) → List (Facility W)
  after_first [] = []
  after_first (f ∷ fs) = fs

  module _ ⦃d : Float W⦄ where
    unfoldable pub power_of : ℤ → List (Build W) → W → W
    unfolding build_alive
    power_of t [] pow = pow
    power_of t (b ∷ bs) pow =
        power_of t bs (if build_alive t b then d.add pow (d.mul b.fac.cap (d.of_int b.n)) else pow)

    unfoldable pub power_sum : ℤ → Deploy W → W → W
    unfolding power_of
    power_sum t [] pow = pow
    power_sum t ((p, bs) ∷ m) pow = power_sum t m (power_of t bs pow)

    -- A variable within its bounds. NaN stays.
    unfoldable pub clamp : W → W → W → W
    clamp v lo up = if d.lt up v then up else if d.lt v lo then lo else v

    unfoldable pub clamp_all : List W → List W → List W → Result (List W)
    unfolding clamp
    clamp_all [] los ups = ok []
    clamp_all (v ∷ vs) [] ups = panic
    clamp_all (v ∷ vs) (lo ∷ los) [] = panic
    clamp_all (v ∷ vs) (lo ∷ los) (up ∷ ups) = do
      rest ← clamp_all vs los ups
      ok (clamp v lo up ∷ rest)

    -- The number of facilities that are nearest to a wanted capacity.
    unfoldable pub nbuild_for : W → Facility W → ℤ
    nbuild_for want f = d.to_int (d.max d.nought (d.floor (d.add (d.div want f.cap) d.half)))

    -- The loop over the reactors. It ends at the first facility that is none, or is not available.
    -- The result is the index and the facilities that are left, the capacity that is left to build,
    -- and the map.
    unfoldable pub reactor_loop :
        ℤ
        → List W
        → ℕ
        → List (Facility W)
        → W
        → Deploy W
        → Result (ℕ × List (Facility W) × W × Deploy W)
    unfolding entry available nbuild_for add_build
    reactor_loop t vars k [] left m = ok (k, [], left, m)
    reactor_loop t vars k (f ∷ fs) left m = do
      val ← entry vars k
      let n = nbuild_for (d.mul val left) f
      elim (d.lt d.nought f.cap && available t f) [
        | false ↦ ok (k, f ∷ fs, left, m)
        | true ↦
            reactor_loop t vars (suc k) fs (d.sub left (d.mul (d.of_int n) f.cap))
              (add_build t f n m)
      ]

    unfoldable pub add_implicit : ℤ → Facility W → W → Deploy W → Deploy W
    unfolding available nbuild_for add_build
    add_implicit t f left m = if available t f then add_build t f (nbuild_for left f) m else m

    -- The facilities that are missing to a fraction of those that a facility refers to.
    unfoldable pub nbuild_other : ℤ → W → Facility W → Deploy W → ℤ
    unfolding nalive
    nbuild_other t frac f m =
        let haven = d.of_int (nalive t (f.proto ∷ []) m (pos 0)) in
        let needn = d.mul frac (d.of_int (nalive t f.frac_of_protos m (pos 0))) in
        d.to_int (d.floor (d.add (d.max d.nought (d.sub needn haven)) d.half))

    unfoldable pub other_loop : ℤ → List W → ℕ → List (Facility W) → Deploy W → Result (Deploy W)
    unfolding entry available nbuild_other add_build
    other_loop t vars k [] m = ok m
    other_loop t vars k (f ∷ fs) m = do
      frac ← entry vars k
      other_loop t vars (suc k) fs
          (if available t f then add_build t f (nbuild_other t frac f m) m else m)

    module _ (order : Deploy W → Deploy W) where
      unfoldable pub power_cap : ℤ → Deploy W → W
      unfolding power_sum
      power_cap t m = power_sum t (order m) d.nought

      -- The capacity that a period has to add.
      unfoldable pub cap_to_build : W → W → W → W → W
      cap_to_build powervar minpow maxpow curr =
          let lower = d.max curr minpow in
          let range = d.max d.nought (d.sub maxpow lower) in
          d.max (d.sub (d.add (d.mul powervar range) lower) curr) d.nought

      -- One period: `k` is the index of its first variable, `facs` are the facilities of the others.
      unfoldable pub deploy_period :
          ℤ → List W → ℕ → List (Facility W) → Facility W → W → W → Deploy W → Result (Deploy W)
      unfolding entry power_cap cap_to_build reactor_loop add_implicit other_loop
      deploy_period t vars k facs implicit minpow maxpow m = do
        powervar ← entry vars k
        r ← reactor_loop t vars (suc k) facs (cap_to_build powervar minpow maxpow (power_cap t m)) m
        other_loop t vars r.0 r.1 (add_implicit t implicit r.2 r.3)

      unfoldable pub deploy_periods :
          Scenario W
          → List W
          → List (Facility W)
          → Facility W
          → ℕ
          → List ℤ
          → Deploy W
          → Result (Deploy W)
      unfolding entry deploy_period
      deploy_periods s vars facs implicit i [] m = ok m
      deploy_periods s vars facs implicit i (t ∷ ts) m = do
        minpow ← entry s.min_power i
        maxpow ← entry s.max_power i
        m' ← deploy_period t vars (i * nvars_per_period s) facs implicit minpow maxpow m
        deploy_periods s vars facs implicit (suc i) ts m'

      module _ (parses : String → String → Bool) where
        -- The part after the checks, for a scenario that was validated.
        unfoldable pub deploy : Scenario W → List W → Result (Deploy W)
        unfolding splice upper_bounds lower_bounds clamp_all period_fac_order period_times group
            deploy_periods after_first
        deploy s vars = do
          spliced ← splice s vars
          up ← upper_bounds parses s
          low ← lower_bounds parses s
          clamped ← clamp_all spliced low up
          p ← period_fac_order parses s
          ts ← or_panic (period_times s)
          deploy_periods s clamped (after_first p.0) p.1 0 ts (group s.start_builds [])

        -- The test of the number of variables.
        unfoldable pub checked_deploy : Scenario W → List W → Result (Deploy W)
        unfolding deploy nvars
        checked_deploy s vars = elim (nvars s) [
          | none ↦ panic
          | some n ↦
              if eq_ℤ (pos (length vars)) n then deploy s vars else err (wrong_vars (length vars))
        ]

        -- What `TransformVars` leaves in the scenario.
        unfoldable pub keep_builds : Scenario W → Result (Deploy W) → Scenario W × Result (Deploy W)
        unfolding listed_builds
        keep_builds s (ok m) = (record s { builds = listed_builds s.facs m }, ok m)
        keep_builds s (err e) = (s, err e)
        keep_builds s panic = (s, panic)

        -- The rest, with the scenario and the error that `Validate` leaves.
        unfoldable pub after_checks :
            List W → Scenario W × Result (Unit {0}) → Scenario W × Result (Deploy W)
        unfolding checked_deploy keep_builds
        after_checks vars (s, err e) = (s, err e)
        after_checks vars (s, panic) = (s, panic)
        after_checks vars (s, ok u) = keep_builds s (checked_deploy s vars)

        unfoldable pub transform_vars : Scenario W → List W → Scenario W × Result (Deploy W)
        unfolding validate after_checks
        transform_vars s vars = after_checks vars (validate parses s)
