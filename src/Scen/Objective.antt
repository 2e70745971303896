-- ===== src/Scen/Objective.antt =====
-- The objective functions of scen/objective.go.
--
-- A query of the database of a simulation is an argument: its result, or its error. The query sums
-- the energy of all agents of the named prototypes.
use cloudlus.Base.{ℕ, zero, suc, List, [], ◌∷◌, String, if◌then◌else◌}
use cloudlus.Base.Int.{pos, pos_part}
use cloudlus.Scen.Float.{Float}
use cloudlus.Scen.Model.{Scenario}
use cloudlus.Scen.Check.{Result, ok, err, ◌>>=◌, bad_name}
use cloudlus.Scen.Deploy.{Deploy, group, power_cap}
use cloudlus.Scen.Ans.{Queries, obj_ans_2014}
use text.Mathlib.Text.{◌==◌ as str_eq}

module _ {W : Type 0} ⦃d : Float W⦄ where
  unfoldable pub total_cap_from : (Deploy W → Deploy W) → Deploy W → ℕ → ℕ → W → W
  unfolding power_cap
  total_cap_from order m t zero tot = tot
  total_cap_from order m t (suc n) tot =
      total_cap_from order m (suc t) n (d.add tot (power_cap order (pos t) m))

  -- The loop `for t := 0; t < SimDur`.
  unfoldable pub total_cap : (Deploy W → Deploy W) → Scenario W → W
  unfolding total_cap_from group
  total_cap order s = total_cap_from order (group s.builds []) 0 (pos_part s.sim_dur) d.nought

  module _ (energy : List String → Result W) (order : Deploy W → Deploy W) where
    unfoldable pub slow_and_fast : Result (W × W)
    slow_and_fast = do
      slow ← energy ("slow_reactor" ∷ "init_slow_reactor" ∷ [])
      fast ← energy ("fast_reactor" ∷ "fast_reactor" ∷ [])
      ok (slow, fast)

    unfoldable pub obj_slow_vs_fast_power : Result W
    unfolding slow_and_fast
    obj_slow_vs_fast_power = do p ← slow_and_fast; ok (d.div p.0 (d.add p.0 p.1))

    unfoldable pub obj_slow_vs_fast_power_penalty : Scenario W → Result W
    unfolding slow_and_fast total_cap
    obj_slow_vs_fast_power_penalty s = do
      p ← slow_and_fast
      let tot = d.add p.0 p.1
      ok (d.div (d.mul (d.div p.0 tot) (total_cap order s)) tot)

    unfoldable pub obj_slow_vs_fast_power_penalty_squared : Scenario W → Result W
    unfolding slow_and_fast total_cap
    obj_slow_vs_fast_power_penalty_squared s = do
      p ← slow_and_fast
      let tot = d.add p.0 p.1
      ok (d.mul (d.div p.0 tot) (d.pow (d.div (total_cap order s) tot) (d.of_int (pos 2))))

    unfoldable pub obj_slow_vs_fast_power_fueled : Scenario W → Result W
    unfolding total_cap
    obj_slow_vs_fast_power_fueled s = do
      slow ← energy ("slow_reactor" ∷ [])
      fast ← energy ("fast_reactor" ∷ [])
      ok (d.div (d.add slow (total_cap order s)) (d.add slow fast))

    -- `CalcObjective` with `ObjFuncs`, once the database is open.
    unfoldable pub calc_objective : Queries W → Scenario W → Result W
    unfolding obj_slow_vs_fast_power obj_slow_vs_fast_power_penalty
        obj_slow_vs_fast_power_penalty_squared obj_slow_vs_fast_power_fueled
    calc_objective q s =
        if str_eq s.obj_func ""
        then obj_slow_vs_fast_power
        else if str_eq s.obj_func "slowvfast"
        then obj_slow_vs_fast_power
        else if str_eq s.obj_func "slowvfast-penalty"
        then obj_slow_vs_fast_power_penalty s
        else if str_eq s.obj_func "slowvfast-penalty2"
        then obj_slow_vs_fast_power_penalty_squared s
        else if str_eq s.obj_func "slowvfast-fueled"
        then obj_slow_vs_fast_power_fueled s
        else if str_eq s.obj_func "ans2014"
        then obj_ans_2014 q s
        else err (bad_name s.obj_func)
