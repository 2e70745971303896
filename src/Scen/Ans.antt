-- ===== src/Scen/Ans.antt =====
-- The objective of scen/objective_ans.go: the present value of all costs per energy.
--
-- `Queries` says what reading the file and the queries of the database return: their results, or an
-- error. Rows that were read before an error count for nothing, since the error is returned.
use cloudlus.Base.{ℕ, zero, suc, Option, none, some, List, [], ◌∷◌, String, if◌then◌else◌}
use cloudlus.Base.Int.{ℤ, pos, pos_part}
use cloudlus.Scen.Float.{Float}
use cloudlus.Scen.Model.{Scenario}
use cloudlus.Scen.Check.{Result, ok, err, panic, ◌>>=◌, unreadable, bad_json, bad_json_at}
use cloudlus.Scen.Load.{Decoded, decoded, syntax_error, decode_error}
use cloudlus.Scen.Line.{find_line}
use text.Mathlib.Text.{◌==◌ as str_eq}

pub record AnsFacility (W : Type 0) : Type 0 where
  pub proto : String
  pub cap : W
  pub op_cost : W
  pub capital_cost : W
  pub life : ℤ
  pub build_after : ℤ
  pub waste_discount : W

pub record AnsScenario (W : Type 0) : Type 0 where
  pub sim_dur : ℤ
  pub build_period : ℤ
  pub nuclide_cost : List (String × W)
  pub discount : W
  pub facs : List (AnsFacility W)

pub record Queries (W : Type 0) : Type 0 where
  -- `Load`
  pub load : String → Result (AnsScenario W)
  -- The times at which agents of a prototype are there, and those at which they enter.
  pub op_times : String → Result (List ℤ)
  pub enter_times : String → Result (List ℤ)
  -- `query.AllAgents` and `query.InvAt`: a map of amounts in some order, with the nuclides as texts.
  pub agents : String → Result (List ℕ)
  pub inventory : ℤ → List ℕ → Result (List (String × W))
  -- `query.EnergyProduced` from the start to a time
  pub energy : ℤ → Result W
  -- `nuc.MWh`, and 1e-30
  pub mwh : W
  pub least : W

-- `Load`: the scenario that it leaves in its receiver, and its error.
unfoldable pub load_ans :
    {W : Type 0}
    → (String → Option (List ℕ))
    → (List ℕ → AnsScenario W → Decoded (AnsScenario W))
    → String
    → AnsScenario W
    → AnsScenario W × Result (Unit {0})
unfolding find_line
load_ans read decode fname s = elim (read fname) [
  | none ↦ (s, err unreadable)
  | some bytes ↦ elim (decode bytes s) [
    | decoded s' ↦ (s', ok tt)
    | decode_error s' ↦ (s', err bad_json)
    | syntax_error s' offset ↦ elim (find_line bytes offset) [
      | none ↦ (s', panic)
      | some (line, col) ↦ (s', err (bad_json_at line col))
    ]
  ]
]

module _ {W : Type 0} ⦃d : Float W⦄ where
  -- `PV`
  unfoldable pub present_value : W → ℤ → W → W
  present_value amt nt rate =
      d.div amt (d.pow (d.add d.one (d.div rate (d.of_int (pos 12)))) (d.of_int nt))

  -- A nuclide without an entry costs nothing.
  unfoldable pub cost_of : String → List (String × W) → W
  cost_of nuc [] = d.nought
  cost_of nuc ((n, c) ∷ m) = if str_eq n nuc then c else cost_of nuc m

  unfoldable pub add_costs : W → W → List ℤ → W → W
  unfolding present_value
  add_costs amt rate [] tot = tot
  add_costs amt rate (t ∷ ts) tot = add_costs amt rate ts (d.add tot (present_value amt t rate))

  unfoldable pub add_waste : AnsScenario W → AnsFacility W → ℤ → List (String × W) → W → W
  unfolding present_value cost_of
  add_waste s f t [] tot = tot
  add_waste s f t ((nuc, qty) ∷ mat) tot = add_waste s f t mat (
      d.add tot (
        present_value
          (d.mul (d.mul (cost_of nuc s.nuclide_cost) qty) (d.sub d.one f.waste_discount)) t
          s.discount))

  module _ (q : Queries W) where
    -- The loop over the times of the simulation: `n` are left, the next is `t`.
    unfoldable pub waste_from : AnsScenario W → AnsFacility W → List ℕ → ℕ → ℕ → W → Result W
    unfolding add_waste
    waste_from s f ids t zero tot = ok tot
    waste_from s f ids t (suc n) tot = elim (q.inventory (pos t) ids) [
      | err e ↦ err e
      | panic ↦ panic
      | ok mat ↦ waste_from s f ids (suc t) n (add_waste s f (pos t) mat tot)
    ]

    -- Without agents there is no waste: the query would take all agents of the simulation.
    unfoldable pub waste_of : AnsScenario W → AnsFacility W → List ℕ → W → Result W
    unfolding waste_from
    waste_of s f [] tot = ok tot
    waste_of s f (i ∷ ids) tot = waste_from s f (i ∷ ids) 0 (pos_part s.sim_dur) tot

    unfoldable pub facility_costs : AnsScenario W → AnsFacility W → W → Result W
    unfolding add_costs waste_of
    facility_costs s f tot = do
      ops ← q.op_times f.proto
      enters ← q.enter_times f.proto
      ids ← q.agents f.proto
      waste_of s f ids
          (add_costs f.capital_cost s.discount enters (add_costs f.op_cost s.discount ops tot))

    unfoldable pub all_costs : AnsScenario W → List (AnsFacility W) → W → Result W
    unfolding facility_costs
    all_costs s [] tot = ok tot
    all_costs s (f ∷ fs) tot = elim (facility_costs s f tot) [
      | err e ↦ err e
      | panic ↦ panic
      | ok tot' ↦ all_costs s fs tot'
    ]

    -- `ObjANS2014`
    unfoldable pub obj_ans_2014 : Scenario W → Result W
    unfolding all_costs
    obj_ans_2014 scen = do
      s ← q.load scen.file
      totcost ← all_costs s s.facs d.nought
      joules ← q.energy s.sim_dur
      ok (d.mul (d.div totcost (d.add (d.div joules q.mwh) q.least)) (d.of_int (pos 1_000_000)))
