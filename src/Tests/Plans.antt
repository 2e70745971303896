-- ===== src/Tests/Plans.antt =====
-- Concrete scenarios. Floats are integers here.
use cloudlus.Base.{Bool, false, if◌then◌else◌, List, [], ◌∷◌, String}
use cloudlus.Base.Int.{ℤ, pos, ◌+ℤ◌, ◌-ℤ◌, ◌*ℤ◌, ltb_ℤ, leb_ℤ, eq_ℤ, quot}
use cloudlus.Scen.Float.{Float}
use cloudlus.Scen.Model.{Facility, Build, Scenario, blank}
use cloudlus.Scen.Deploy.{Deploy}
use text.Mathlib.Text.{◌==◌ as str_eq}

instance unfoldable pub whole : Float ℤ
unfolding ◌+ℤ◌ ◌-ℤ◌ ◌*ℤ◌ quot
whole = record {
  nought = pos 0;
  one = pos 1;
  half = pos 0;
  tiny = pos 1;
  add = ◌+ℤ◌;
  sub = ◌-ℤ◌;
  mul = ◌*ℤ◌;
  div = λ a b. if eq_ℤ b (pos 0) then pos 0 else quot a b;
  max = λ a b. if ltb_ℤ a b then b else a;
  min = λ a b. if ltb_ℤ a b then a else b;
  floor = λ a. a;
  pow = λ a b. a;
  lt = λ a b. ltb_ℤ a b;
  le = λ a b. leb_ℤ a b;
  eq = λ a b. eq_ℤ a b;
  of_int = λ a. a;
  to_int = λ a. a;
}

abbrev pub parses : String → String → Bool
parses file path = str_eq path "plant.xml"

abbrev pub in_order : Deploy ℤ → Deploy ℤ
in_order m = m

abbrev pub slow : Facility ℤ
slow = record {
  proto = "slow";
  cap = pos 1;
  life = pos 3;
  build_after = pos 0;
  frac_of_protos = [];
}

abbrev pub fast : Facility ℤ
fast = record {
  proto = "fast";
  cap = pos 1;
  life = pos 0;
  build_after = pos 3;
  frac_of_protos = [];
}

abbrev pub depot : Facility ℤ
depot = record {
  proto = "depot";
  cap = pos 0;
  life = pos 0;
  build_after = pos 0;
  frac_of_protos = "slow" ∷ [];
}

abbrev pub starting : Build ℤ
starting = record { time = pos 0; proto = "slow"; n = pos 2; life = pos 0; fac = blank (pos 0) }

-- Deployments at the times 1 and 3.
abbrev pub plan : Scenario ℤ
plan = record {
  sim_dur = pos 4;
  build_offset = pos 0;
  trailing_dur = pos 0;
  cyclus_tmpl = "plant.xml";
  build_period = pos 2;
  obj_func = "";
  obj_mode = "";
  splice_vars = [];
  splice_time = pos 0;
  single_calc = false;
  facs = slow ∷ fast ∷ depot ∷ [];
  min_power = pos 2 ∷ pos 2 ∷ [];
  max_power = pos 3 ∷ pos 4 ∷ [];
  start_builds = starting ∷ [];
  builds = [];
  file = "plan.json";
  handle = "";
  tmpl = false;
}

abbrev pub choices : List ℤ
choices = pos 1 ∷ pos 0 ∷ pos 1 ∷ pos 1 ∷ pos 1 ∷ pos 0 ∷ []
