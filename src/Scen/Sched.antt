-- ===== src/Scen/Sched.antt =====
-- `TransformSched` of scen/scenario.go: from deployments to variables, and the counts of builds.
use cloudlus.Base.{
  ℕ, suc, ◌*◌, Bool, true, false, ◌&&◌, none, some, List, [], ◌∷◌, String, if◌then◌else◌,
}
use cloudlus.Base.Int.{ℤ, pos, ◌+ℤ◌, eq_ℤ}
use cloudlus.Scen.Float.{Float}
use cloudlus.Scen.Model.{
  Facility, Build, Scenario, available, prototype, nvars_per_period, nvars, slice_length,
  period_times,
}
use cloudlus.Scen.Check.{Result, ok, err, panic, ◌>>=◌, validate}
use cloudlus.Scen.Entries.{entry, put_entry}
use cloudlus.Scen.Vars.{or_panic, zeros, period_fac_order}
use cloudlus.Scen.Deploy.{Deploy, builds_of, group, nalive, power_cap, after_first}

module _ {W : Type 0} where
  -- `NBuilt`
  unfoldable pub nbuilt : ℤ → List (Build W) → ℤ → ℤ
  nbuilt t [] n = n
  nbuilt t (b ∷ bs) n = nbuilt t bs (if eq_ℤ b.time t then n +ℤ b.n else n)

  module _ ⦃d : Float W⦄ where
    -- `CapBuilt`, which panics at a build of an unknown prototype.
    unfoldable pub cap_built : Scenario W → ℤ → List (Build W) → W → Result W
    unfolding prototype
    cap_built s t [] tot = ok tot
    cap_built s t (b ∷ bs) tot = elim (eq_ℤ b.time t) [
      | false ↦ cap_built s t bs tot
      | true ↦ elim (prototype b.proto s) [
        | none ↦ panic
        | some f ↦ cap_built s t bs (d.add tot (d.mul (d.of_int b.n) f.cap))
      ]
    ]

    -- A number between zero and one.
    unfoldable pub unit_clamp : W → W
    unit_clamp x = d.max d.nought (d.min d.one x)

    -- The variable for the power of a period.
    unfoldable pub power_var : W → W → W → W → W
    unfolding unit_clamp
    power_var currpow capbuilt minpow maxpow =
        let prevpow = d.sub currpow capbuilt in
        let lower = d.max minpow prevpow in
        let range = d.max d.tiny (d.sub maxpow lower) in
        let minbuild = d.max d.nought (d.sub lower prevpow) in
        unit_clamp (d.div (d.sub capbuilt minbuild) range)

    -- The loop over the reactors: the index and the facilities that are left, and the variables.
    unfoldable pub sched_reactors :
        Scenario W
        → ℤ
        → Deploy W
        → ℕ
        → List (Facility W)
        → W
        → List W
        → Result (ℕ × List (Facility W) × List W)
    unfolding cap_built put_entry unit_clamp available builds_of
    sched_reactors s t m k [] left vars = ok (k, [], vars)
    sched_reactors s t m k (f ∷ fs) left vars = elim (d.lt d.nought f.cap && available t f) [
      | false ↦ ok (k, f ∷ fs, vars)
      | true ↦ elim (cap_built s t (builds_of f.proto m) d.nought) [
        | err e ↦ err e
        | panic ↦ panic
        | ok c ↦ (do
          vars' ← put_entry vars k (unit_clamp (d.div c left))
          sched_reactors s t m (suc k) fs (d.sub left c) vars')
      ]
    ]

    unfoldable pub sched_others : ℤ → Deploy W → ℕ → List (Facility W) → List W → Result (List W)
    unfolding put_entry available nalive unit_clamp
    sched_others t m k [] vars = ok vars
    sched_others t m k (f ∷ fs) vars = do
      let nref = nalive t f.frac_of_protos m (pos 0)
      let nhave = nalive t (f.proto ∷ []) m (pos 0)
      vars' ←
          (if available t f
            then put_entry vars k (unit_clamp (d.div (d.of_int nhave) (d.of_int nref)))
            else ok vars)
      sched_others t m (suc k) fs vars'

    module _ (order : Deploy W → Deploy W) where
      unfoldable pub sched_period :
          Scenario W → Deploy W → List (Facility W) → ℤ → ℕ → W → W → List W → Result (List W)
      unfolding cap_built put_entry power_var power_cap sched_reactors sched_others
      sched_period s m facs t k minpow maxpow vars = do
        all_built ← cap_built s t s.builds d.nought
        at_start ← cap_built s t s.start_builds d.nought
        let capbuilt = d.sub all_built at_start
        vars' ← put_entry vars k (power_var (power_cap order t m) capbuilt minpow maxpow)
        r ← sched_reactors s t m (suc k) facs (d.max d.tiny capbuilt) vars'
        sched_others t m r.0 r.1 r.2

      unfoldable pub sched_periods :
          Scenario W → Deploy W → List (Facility W) → ℕ → List ℤ → List W → Result (List W)
      unfolding entry sched_period
      sched_periods s m facs i [] vars = ok vars
      sched_periods s m facs i (t ∷ ts) vars = do
        maxpow ← entry s.max_power i
        minpow ← entry s.min_power i
        vars' ← sched_period s m facs t (i * nvars_per_period s) minpow maxpow vars
        sched_periods s m facs (suc i) ts vars'

      module _ (parses : String → String → Bool) where
        unfoldable pub schedule : Scenario W → Result (List W)
        unfolding period_fac_order nvars zeros period_times sched_periods group after_first
        schedule s = do
          p ← period_fac_order parses s
          n ← or_panic (slice_length (nvars s))
          ts ← or_panic (period_times s)
          sched_periods s (group s.builds []) (after_first p.0) 0 ts (zeros n)

        -- The rest, with the scenario and the error that `Validate` leaves.
        unfoldable pub schedule_checked :
            Scenario W × Result (Unit {0}) → Scenario W × Result (List W)
        unfolding schedule
        schedule_checked (s, err e) = (s, err e)
        schedule_checked (s, panic) = (s, panic)
        schedule_checked (s, ok u) = (s, schedule s)

        unfoldable pub transform_sched : Scenario W → Scenario W × Result (List W)
        unfolding validate schedule_checked
        transform_sched s = schedule_checked (validate parses s)
