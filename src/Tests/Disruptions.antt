-- ===== src/Tests/Disruptions.antt =====
-- Results on schedules, splices, disruptions and objectives at concrete values.
use cloudlus.Base.{
  arith, ◌<◌, ltb, ◌&&◌, get_or, ◌+◌, ◌*◌, length, ◌≡◌, refl, true, false, if◌then◌else◌, none,
  some, List, [], ◌∷◌, ◌==◌, keep, leb,
}
use cloudlus.Base.Int.{ℤ, pos, ◌+ℤ◌, ◌-ℤ◌, ◌*ℤ◌, quot}
use cloudlus.Scen.Model.{Scenario, period_times, nvars_per_period, reactors}
use cloudlus.Scen.Check.{ok, err, no_reactor, validate}
use cloudlus.Scen.Vars.{takes_splice, splice}
use cloudlus.Scen.Spliced.{get_or-splice}
use cloudlus.Scen.Deploy.{transform_vars}
use cloudlus.Scen.Sched.{transform_sched}
use cloudlus.Scen.Line.{find_line}
use cloudlus.Scen.Columns.{front, newlines, since_newline, find_line-front}
use cloudlus.Scen.Disrup.{Disruption, disrupt}
use cloudlus.Scen.Modes.{Exec, Config, calc_total_objective}
use cloudlus.Scen.Total.{outcome}
use cloudlus.Scen.Accepted.{sched_vars_accepted}
use cloudlus.Scen.Kill.{survives, disrupt_ends}
use cloudlus.Scen.Marks.{calc_total_objective_marked}
use cloudlus.Tests.Plans.{whole, parses, in_order, slow, fast, plan, starting, choices}

abbrev running : Scenario ℤ
running = record plan {
  builds =
      record starting { fac = slow }
      ∷ record { time = pos 1; proto = "slow"; n = pos 1; life = pos 0; fac = slow }
      ∷ record { time = pos 3; proto = "fast"; n = pos 3; life = pos 0; fac = fast }
      ∷ [];
}

abbrev closing : Disruption ℤ
closing = record {
  time = pos 2;
  kill_proto = "slow";
  build_proto = "fast";
  switch_obj_func = "";
  prob = pos 0;
  sample = false;
  known_best = pos 0;
}

abbrev short_splice : Scenario ℤ
short_splice = record plan { splice_vars = pos 7 ∷ pos 8 ∷ pos 9 ∷ pos 6 ∷ []; splice_time = pos 2 }

abbrev choices_back : List ℤ
choices_back = pos 1 ∷ pos 0 ∷ pos 0 ∷ pos 1 ∷ pos 1 ∷ pos 0 ∷ []

running_scheduled : (transform_sched in_order parses running).1 ≡ ok choices_back
unfolding transform_sched whole
running_scheduled = refl

running_valid : (validate parses running).1 ≡ ok tt
unfolding validate whole
running_valid = refl

sched_vars_accepted_example :
    let s' = (validate parses running).0 in
    (vars : List ℤ) × (transform_sched in_order parses running ≡ (s', ok vars))
    × (length vars ≡ nvars_per_period s' * length s'.min_power)
    × (outcome ((transform_vars in_order parses s' vars).1) ≡ ok tt)
unfolding validate reactors whole
sched_vars_accepted_example =
    sched_vars_accepted in_order parses running slow (fast ∷ []) running_valid refl

abbrev closed : Scenario ℤ
closed = record running {
  builds =
      record starting { fac = slow; life = pos 2 }
      ∷ record { time = pos 1; proto = "slow"; n = pos 1; life = pos 1; fac = slow }
      ∷ record { time = pos 3; proto = "fast"; n = pos 3; life = pos 0; fac = fast }
      ∷ record { time = pos 2; proto = "fast"; n = pos 1; life = pos 0; fac = fast }
      ∷ [];
}

running_closed : disrupt running closing ≡ ok closed
unfolding disrupt ◌+ℤ◌ ◌-ℤ◌
running_closed = refl

disrupt_ends_example : keep (survives closing (pos 2)) closed.builds ≡ []
disrupt_ends_example = disrupt_ends running closed closing (pos 2) running_closed refl refl

short_times : period_times short_splice ≡ some (pos 1 ∷ pos 3 ∷ [])
unfolding period_times ◌+ℤ◌ ◌-ℤ◌ ◌*ℤ◌ quot
short_times = refl

short_spliced :
    splice short_splice choices ≡ ok (pos 7 ∷ pos 8 ∷ pos 9 ∷ pos 1 ∷ pos 1 ∷ pos 0 ∷ [])
unfolding splice whole period_times nvars_per_period
short_spliced = refl

short_vars : nvars_per_period short_splice ≡ 3
unfolding nvars_per_period whole
short_vars = refl

find_line-front_example : find_line (b'a' ∷ b'\n' ∷ b'b' ∷ b'c' ∷ []) 4 ≡ (
    let p = front 4 (b'a' ∷ b'\n' ∷ b'b' ∷ b'c' ∷ []) in
    if leb 4 4
    then some (1 + newlines p, (if newlines p == 0 then 0 else 1) + since_newline p)
    else none)
find_line-front_example = find_line-front (b'a' ∷ b'\n' ∷ b'b' ∷ b'c' ∷ []) 4

-- Two ways to run a simulation: the second one refuses a scenario that is not marked.
abbrev constant : Exec ℤ
constant s = ok s.sim_dur

abbrev marked_only : Exec ℤ
marked_only s = if s.single_calc then ok s.sim_dur else err no_reactor

constant_marked : (c : Scenario ℤ) → c.single_calc ≡ true → constant c ≡ marked_only c
constant_marked c h = rw h refl

abbrev config : Config ℤ
config = record { single = none; multi = none }

calc_total_objective_marked_example :
    calc_total_objective parses config (record plan { obj_mode = "double" }) constant
    ≡ calc_total_objective parses config (record plan { obj_mode = "double" }) marked_only
calc_total_objective_marked_example =
    calc_total_objective_marked parses config constant marked_only constant_marked
      (record plan { obj_mode = "double" })

in_row : 0 < nvars_per_period short_splice
in_row = rw short_vars (omega arith)

in_choices : 1 * nvars_per_period short_splice + 0 < 6
in_choices = rw short_vars (omega arith)

-- The first variable of the second period, at time 3, which is not before the splice time.
get_or-splice_example :
    let q = 1 * nvars_per_period short_splice + 0 in
    get_or (pos 0) (pos 7 ∷ pos 8 ∷ pos 9 ∷ pos 1 ∷ pos 1 ∷ pos 0 ∷ []) q ≡ (
      if ltb q 4 && takes_splice (pos 3) short_splice
      then get_or (pos 0) short_splice.splice_vars q
      else get_or (pos 0) choices q)
unfolding whole
get_or-splice_example =
    get_or-splice short_splice choices (pos 1 ∷ pos 3 ∷ [])
      (pos 7 ∷ pos 8 ∷ pos 9 ∷ pos 1 ∷ pos 1 ∷ pos 0 ∷ []) 1 0 short_times short_spliced
      (omega arith) in_row in_choices
