-- ===== src/Scen/Modes.antt =====
-- The modes of an objective, scen/objective.go and scen/objective_disrup.go, and `CalcTotalObjective`
-- of scen/scenario.go.
--
-- `Exec` runs one simulation. A float that goes with an error is always positive infinity, and is
-- left out. Simulations that run at the same time are independent, so only their results count.
use cloudlus.Base.{
  Bool, true, false, Option, none, some, List, [], ◌∷◌, String, if◌then◌else◌, keep,
}
use cloudlus.Base.Int.{ℤ, pos, ltb_ℤ}
use cloudlus.Scen.Float.{Float}
use cloudlus.Scen.Model.{Scenario}
use cloudlus.Scen.Check.{Result, ok, err, panic, ◌>>=◌, failed_run, bad_name}
use cloudlus.Scen.Vars.{or_panic}
use cloudlus.Scen.Disrup.{Disruption, Params, Options, parse_disrup, mod_for_disrup}
use cloudlus.Scen.Interp.{zip, extract_probs, interpolate, product_of, integrate_mid}
use text.Mathlib.Text.{◌==◌ as str_eq}

abbrev pub Exec : Type 0 → Type 0
Exec W = Scenario W → Result W

-- A lookup in a map with texts as keys.
unfoldable pub mode_of : {A : Type 0} → String → List (String × A) → Option A
mode_of name [] = none
mode_of name ((key, a) ∷ m) = if str_eq key name then some a else mode_of name m

-- `CustomConfig`: its entries "disrup-single" and "disrup-multi". A type assertion on an entry that is
-- missing, or of another type, panics: `none`.
pub record Config (W : Type 0) : Type 0 where
  pub single : Option (Params W)
  pub multi : Option (List (Params W))

module _ {W : Type 0} ⦃d : Float W⦄ where
  unfoldable pub sampled : List (Disruption W) → List (Disruption W)
  unfolding keep
  sampled ps = keep (λ (p : Disruption W). p.sample) ps

  -- The value of a run that is not followed by a disruption, and that of one which is.
  unfoldable pub weigh : W → W → W → W
  weigh pre obj best = d.add (d.mul pre obj) (d.mul (d.sub d.one pre) best)

  unfoldable pub aggregate_obj : ℤ → List (Disruption W) → List W → Result W
  unfolding sampled zip extract_probs interpolate product_of integrate_mid
  aggregate_obj simdur ps objs = do
    points ← zip (sampled ps) objs
    let obj_vs_time = interpolate points
    let prob_vs_time = interpolate (extract_probs ps)
    let tend = d.of_int simdur
    objval ← integrate_mid (product_of obj_vs_time prob_vs_time) d.nought tend 10000
    prob ← integrate_mid prob_vs_time d.nought tend 10000
    last ← obj_vs_time tend
    ok (d.add objval (d.mul (d.sub d.one prob) last))

  unfoldable pub parse_all : List (Params W) → Options → Result (List (Disruption W))
  unfolding parse_disrup
  parse_all [] opts = ok []
  parse_all (m ∷ ms) opts = elim (parse_disrup m opts) [
    | err e ↦ err e
    | panic ↦ panic
    | ok p ↦ elim (parse_all ms opts) [ err e ↦ err e | panic ↦ panic | ok ps ↦ ok (p ∷ ps) ]
  ]

  -- The loop of `disrupModeLin`: the `i`-th value goes with the `i`-th of all disruptions.
  unfoldable pub weigh_all : ℤ → List (Disruption W) → List W → List W
  unfolding weigh
  weigh_all simdur (p ∷ ps) (v ∷ vs) =
      let pre = d.div (d.of_int p.time) (d.of_int simdur) in
      weigh (if d.lt pre d.nought then d.one else pre) v p.known_best ∷ weigh_all simdur ps vs
  weigh_all simdur _ vs = vs

  -- The value of one simulation with those of the others. An error of any is the error of all.
  unfoldable pub gather : Result W → Result (List W) → Result (List W)
  gather panic _ = panic
  gather (err e) panic = panic
  gather (err e) (err e') = err (failed_run "")
  gather (err e) (ok vs) = err (failed_run "")
  gather (ok v) panic = panic
  gather (ok v) (err e) = err e
  gather (ok v) (ok vs) = ok (v ∷ vs)

  unfoldable pub run_all : Exec W → List (Scenario W) → Result (List W)
  unfolding gather
  run_all f [] = ok []
  run_all f (c ∷ cs) = gather (f c) (run_all f cs)

  module _ (parses : String → String → Bool) (cfg : Config W) where
    -- The simulations of the sampled disruptions. The changed scenarios are all made before the result
    -- of a run is looked at.
    unfoldable pub mod_all : Scenario W → List (Disruption W) → Result (List (Scenario W))
    unfolding mod_for_disrup
    mod_all s [] = ok []
    mod_all s (p ∷ ps) = elim (mod_for_disrup parses s p) [
      | err e ↦ err e
      | panic ↦ panic
      | ok c ↦ elim (mod_all s ps) [ err e ↦ err e | panic ↦ panic | ok cs ↦ ok (c ∷ cs) ]
    ]

    unfoldable pub run_disrup_sims : Scenario W → Exec W → List (Disruption W) → Result (List W)
    unfolding mod_all run_all sampled
    run_disrup_sims s f ps = do cs ← mod_all s (sampled ps); run_all f cs

    unfoldable pub single_mode : Scenario W → Exec W → Result W
    single_mode s f = f s

    unfoldable pub inf_on_error : Result W → Result W
    inf_on_error (ok v) = ok v
    inf_on_error (err e) = ok (d.div d.one d.nought)
    inf_on_error panic = panic

    -- `doubleMode` ignores errors; the value of a failed run is infinite.
    unfoldable pub double_mode : Scenario W → Exec W → Result W
    unfolding inf_on_error
    double_mode s f = do a ← inf_on_error (f s); b ← inf_on_error (f s); ok (d.add a b)

    unfoldable pub disrup_single_mode : Scenario W → Exec W → Result W
    unfolding parse_disrup mod_for_disrup
    disrup_single_mode s f = do
      m ← or_panic cfg.single
      p ← parse_disrup m (record { wants_prob = false; wants_best = false })
      c ← mod_for_disrup parses s p
      f c

    unfoldable pub disrup_single_mode_lin : Scenario W → Exec W → Result W
    unfolding parse_disrup mod_for_disrup weigh
    disrup_single_mode_lin s f = do
      m ← or_panic cfg.single
      p ← parse_disrup m (record { wants_prob = false; wants_best = true })
      c ← mod_for_disrup parses s p
      v ← f c
      let pre = d.div (d.of_int p.time) (d.of_int s.sim_dur)
      ok (weigh (if ltb_ℤ p.time (pos 0) then d.one else pre) v p.known_best)

    unfoldable pub disrup_mode : Scenario W → Exec W → Result W
    unfolding parse_all run_disrup_sims aggregate_obj
    disrup_mode s f = do
      ms ← or_panic cfg.multi
      ps ← parse_all ms (record { wants_prob = true; wants_best = false })
      vs ← run_disrup_sims s f ps
      aggregate_obj s.sim_dur ps vs

    unfoldable pub disrup_mode_lin : Scenario W → Exec W → Result W
    unfolding parse_all run_disrup_sims weigh_all aggregate_obj
    disrup_mode_lin s f = do
      ms ← or_panic cfg.multi
      ps ← parse_all ms (record { wants_prob = true; wants_best = true })
      vs ← run_disrup_sims s f ps
      aggregate_obj s.sim_dur ps (weigh_all s.sim_dur ps vs)

    -- `Modes`
    unfoldable pub modes : List (String × (Scenario W → Exec W → Result W))
    unfolding single_mode double_mode disrup_single_mode disrup_single_mode_lin disrup_mode
        disrup_mode_lin
    modes =
        ("", single_mode)
        ∷ ("single", single_mode)
        ∷ ("disrup-multi", disrup_mode)
        ∷ ("disrup-multi-lin", disrup_mode_lin)
        ∷ ("disrup-single", disrup_single_mode)
        ∷ ("disrup-single-lin", disrup_single_mode_lin)
        ∷ ("double", double_mode)
        ∷ []

    -- `CalcTotalObjective`: the scenario that it leaves, and the value. The mark that it sets is taken
    -- off when it returns.
    unfoldable pub calc_total_objective : Scenario W → Exec W → Scenario W × Result W
    unfolding mode_of modes
    calc_total_objective s f = if s.single_calc then (s, f s) else elim (mode_of s.obj_mode modes) [
      | none ↦ (s, err (bad_name s.obj_mode))
      | some mode ↦ (record s { single_calc = false }, mode (record s { single_calc = true }) f)
    ]
