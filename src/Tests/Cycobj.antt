-- ===== src/Tests/Cycobj.antt =====
-- The program of cmd/cycobj at concrete tables and scenarios.
use cloudlus.Base.{◌≡◌, refl, true, none, some, List, [], ◌∷◌, String, All, map}
use cloudlus.Base.Int.{ℤ, pos, negsuc}
use cloudlus.Base.Words.{split, trim_space, fields}
use cloudlus.Base.Numerals.{atoi}
use cloudlus.Scen.Model.{Build, lifetime}
use cloudlus.Scen.Check.{ok}
use cloudlus.Cmd.Cycobj.{parse_sched, table_row}
use cloudlus.Cmd.Cycobj.Tables.{IsRow, IsHeader, as_read, parse_sched-table}
use cloudlus.Scen.Check.{◌>>=◌}
use cloudlus.Scen.Model.{Scenario}
use cloudlus.Scen.Load.{decoded, load}
use cloudlus.Scen.Modes.{Config}
use cloudlus.Runscen.{LocalCalls, local_exec, remote_job}
use cloudlus.Cmd.Cycobj.{Flags, World, wrote, no_builds, main}
use cloudlus.Cmd.Cycobj.Command.{command_flags}
use cloudlus.Cmd.Cycobj.Jobs.{job_runs_simulation}
use cloudlus.Base.Words.{is_empty}
use cloudlus.Tests.Plans.{slow, fast, plan, parses, in_order, whole}
use cloudlus.Tests.Remotes.{calls}

abbrev text : String
text =
    "Prototype BuildTime Lifetime Number\nslow      1         3        2\nfast      3         -1       4\n"

abbrev builds : List (Build ℤ)
builds =
    record { time = pos 1; proto = "slow"; n = pos 2; life = pos 0; fac = slow }
    ∷ record { time = pos 3; proto = "fast"; n = pos 4; life = pos 0; fac = fast }
    ∷ []

header : IsHeader "Prototype BuildTime Lifetime Number"
unfolding fields trim_space
header = record {
  first = "Prototype";
  rest = "Lifetime" ∷ "Number" ∷ [];
  filled = refl;
  words = refl;
}

slow-IsRow : IsRow "slow      1         3        2" ("slow", pos 1, pos 3, pos 2)
unfolding fields trim_space atoi
slow-IsRow = record {
  time_word = "1";
  life_word = "3";
  number_word = "2";
  filled = refl;
  words = refl;
  not_header = refl;
  time = refl;
  life = refl;
  count = refl;
}

fast-IsRow : IsRow "fast      3         -1       4" ("fast", pos 3, negsuc 0, pos 4)
unfolding fields trim_space atoi
fast-IsRow = record {
  time_word = "3";
  life_word = "-1";
  number_word = "4";
  filled = refl;
  words = refl;
  not_header = refl;
  time = refl;
  life = refl;
  count = refl;
}

parse_sched-table_example :
    (parse_sched (pos 0) text ≡ ok (map (as_read (pos 0)) builds))
    × All
        (λ (b : Build ℤ). lifetime (record (as_read (pos 0) b) { fac = b.fac }) ≡ lifetime b)
        builds
unfolding table_row lifetime split
parse_sched-table_example =
    parse_sched-table (pos 0) text "Prototype BuildTime Lifetime Number"
      ("slow      1         3        2" ∷ "fast      3         -1       4" ∷ []) builds refl header
      (slow-IsRow, (fast-IsRow, tt))

-- A world in which the scenario file is the plan with two builds, marked, and its simulation takes
-- the value 42.
abbrev marked : Scenario ℤ
marked = record plan { builds = builds; single_calc = true; file = "plan.json" }

abbrev local_calls : LocalCalls ℤ
local_calls = record {
  infile = λ s. ok (60 ∷ []);
  write_file = λ b. true;
  cyclus = λ b. true;
  opens = true;
  simulations = some ((7 ∷ []) ∷ []);
  objective = λ s i. ok (pos 42);
}

abbrev world : World ℤ
world = record {
  stdin = some "";
  read_file = λ n. some [];
  decode = λ b s. decoded marked;
  parse_float = λ w. none;
  calls = calls;
  dials = true;
  local_calls = local_calls;
  encode_job = λ j. none;
  writes = λ n. true;
}

abbrev loaded : Scenario ℤ
unfolding load whole
loaded = (load parses world.read_file world.decode "plan.json" plan).0

loaded_lem : load parses world.read_file world.decode "plan.json" plan ≡ (loaded, ok tt)
unfolding load whole
loaded_lem = refl

abbrev config : Config ℤ
config = record { single = none; multi = none }

job_runs_simulation_example :
    (f : Flags) × (command_flags (remote_job calls plan "obj.dat" (60 ∷ []) (1 ∷ [])).cmd ≡ some f)
    × (main in_order world parses config plan f
        ≡ (local_exec local_calls loaded >>= λ v. ok (wrote "obj.dat" v)))
unfolding load whole no_builds is_empty
job_runs_simulation_example =
    job_runs_simulation parses in_order config world calls plan plan loaded "obj.dat" (60 ∷ [])
      (1 ∷ []) loaded_lem refl refl refl refl
