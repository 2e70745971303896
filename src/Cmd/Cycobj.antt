-- ===== src/Cmd/Cycobj.antt =====
-- cmd/cycobj/main.go: the program that transforms a scenario, or runs it and gives its objective.
--
-- `World` has what the calls of the operating system, of JSON and of the database return, with the
-- records of Runscen for a run here or on a server. An error is an end by `log.Fatal`. The flag `-q`
-- decides whether the writers of the run are nil. Texts are lists of characters.
pub mod Tables
pub mod Command
pub mod Jobs
use cloudlus.Base.{
  ℕ, zero, suc, Bool, true, false, not, ◌&&◌, Option, none, some, List, [], ◌∷◌, ◌++◌, String,
  if◌then◌else◌, ◌==◌, map,
}
use cloudlus.Base.Int.{ℤ, pos}
use cloudlus.Base.Words.{is_empty, split, trim_space, fields}
use cloudlus.Base.Numerals.{atoi}
use cloudlus.Scen.Float.{Float}
use cloudlus.Scen.Model.{Build, Scenario, blank, lifetime}
use cloudlus.Scen.Check.{Result, ok, err, panic, ◌>>=◌, failed_run, validate}
use cloudlus.Scen.Deploy.{Deploy, transform_vars}
use cloudlus.Scen.Sched.{transform_sched}
use cloudlus.Scen.Load.{Decoded, load, print_stats}
use cloudlus.Scen.Modes.{Config}
use cloudlus.Job.{Job}
use cloudlus.Runscen.{
  Calls, LocalCalls, or_failed, unless_failed, first_simulation, build_remote_job, local, remote,
}
use text.Mathlib.Text.{◌==◌ as str_eq}

abbrev pub is_newline : ℕ → Bool
is_newline c = c == 10

-- `fields[i]`
unfoldable pub field : List String → ℕ → Result String
field [] i = panic
field (w ∷ ws) zero = ok w
field (w ∷ ws) (suc i) = field ws i

unfoldable pub number : String → Result ℤ
unfolding atoi
number w = or_failed "number" (atoi w)

-- A build, with the prototype and the numbers in the order in which the line has them.
unfoldable pub build_of : {W : Type 0} → W → List String → Result (Build W)
unfolding field number
build_of z ws = do
  proto ← field ws 0
  t ← number (← field ws 1)
  life ← number (← field ws 2)
  n ← number (← field ws 3)
  ok (record { time = t; proto = proto; n = n; life = life; fac = blank z })

-- One line of `parseSched`: `none` for an empty one and for the header.
unfoldable pub filled_line : {W : Type 0} → W → List String → String → Result (Option (Build W))
unfolding build_of
filled_line z ws second =
    if str_eq second "BuildTime" then ok none else (do b ← build_of z ws; ok (some b))

unfoldable pub sched_line : {W : Type 0} → W → String → Result (Option (Build W))
unfolding field filled_line fields trim_space is_empty
sched_line z l =
    if is_empty (trim_space l)
    then ok none
    else (do second ← field (fields (trim_space l)) 1; filled_line z (fields (trim_space l)) second)

unfoldable pub put_build : {W : Type 0} → Option (Build W) → List (Build W) → List (Build W)
put_build none bs = bs
put_build (some b) bs = b ∷ bs

unfoldable pub sched_lines : {W : Type 0} → W → List String → Result (List (Build W))
unfolding sched_line put_build
sched_lines z [] = ok []
sched_lines z (l ∷ ls) = elim (sched_line z l) [
  | err e ↦ err e
  | panic ↦ panic
  | ok b ↦ elim (sched_lines z ls) [ err e ↦ err e | panic ↦ panic | ok bs ↦ ok (put_build b bs) ]
]

-- `parseSched`
unfoldable pub parse_sched : {W : Type 0} → W → String → Result (List (Build W))
unfolding split sched_lines
parse_sched z text = sched_lines z (split is_newline text)

-- A float of the command line or of a line of text.
unfoldable pub floats : {W : Type 0} → (String → Option W) → List String → Result (List W)
floats parse [] = ok []
floats parse (w ∷ ws) = elim (parse w) [
  | none ↦ err (failed_run "float")
  | some x ↦ elim (floats parse ws) [ err e ↦ err e | panic ↦ panic | ok xs ↦ ok (x ∷ xs) ]
]

unfoldable pub filled_lines : List String → List String
unfolding trim_space is_empty
filled_lines [] = []
filled_lines (l ∷ ls) =
    if is_empty (trim_space l) then filled_lines ls else trim_space l ∷ filled_lines ls

-- `parseVars`
unfoldable pub parse_vars : {W : Type 0} → (String → Option W) → String → Result (List W)
unfolding split filled_lines floats
parse_vars parse text = floats parse (filled_lines (split is_newline text))

pub record Flags : Type 0 where
  pub transform : Bool
  pub sched : Bool
  pub scenfile : String
  pub addr : String
  pub db : String
  pub stats : Bool
  pub gen : Bool
  pub obj : String
  pub args : List String

pub record World (W : Type 0) : Type 0 where
  pub stdin : Option String
  pub read_file : String → Option (List ℕ)
  pub decode : List ℕ → Scenario W → Decoded (Scenario W)
  pub parse_float : String → Option W
  pub calls : Calls W
  pub dials : Bool
  pub local_calls : LocalCalls W
  pub encode_job : Job → Option (List ℕ)
  pub writes : String → Bool

-- What the program prints, or the value that it writes to a file.
pub data Output (W : Type 0) : Type 0 where
  rows : List (ℤ × W × W × W × W) → Output W
  table : List (String × ℤ × ℤ × ℤ) → Output W
  variables : List W → Output W
  job : List ℕ → Output W
  value : W → Output W
  wrote : String → W → Output W

-- `check` on the error of a call that leaves a scenario.
unfoldable pub checked : {A B : Type 0} → A × Result B → Result (A × B)
checked (s, ok b) = ok (s, b)
checked (s, err e) = err e
checked (s, panic) = panic

unfoldable pub no_builds : {W : Type 0} → Scenario W → Bool
no_builds s = elim s.builds [ [] ↦ true | b ∷ bs ↦ false ]

unfoldable pub table_row : {W : Type 0} → Build W → String × ℤ × ℤ × ℤ
unfolding lifetime
table_row b = (b.proto, b.time, lifetime b, b.n)

-- The name of the objective file for `-gen`.
abbrev pub gen_objfile : String
gen_objfile = "cloudlus-cycobj.dat"

module _ {W : Type 0} ⦃d : Float W⦄ (order : Deploy W → Deploy W) (w : World W) where
  unfoldable pub params : Flags → Result (List W)
  unfolding floats parse_vars
  params f = elim f.args [
    | [] ↦ (do text ← or_failed "stdin" w.stdin; parse_vars w.parse_float text)
    | a ∷ as' ↦ floats w.parse_float f.args
  ]

  module _ (parses : String → String → Bool) (cfg : Config W) where
    -- `parseSchedVars`: the scenario that it leaves.
    unfoldable pub with_sched : Flags → Scenario W → Result (Scenario W)
    unfolding parse_sched params transform_vars checked
    with_sched f s =
        if f.sched
        then (do
          text ← or_failed "stdin" w.stdin
          bs ← parse_sched d.nought text
          ok (record s { builds = bs }))
        else (do xs ← params f; r ← checked (transform_vars order parses s xs); ok r.0)

    unfoldable pub parse_sched_vars : Flags → Scenario W → Result (Scenario W)
    unfolding with_sched validate checked
    parse_sched_vars f s = do s' ← with_sched f s; r ← checked (validate parses s'); ok r.0

    -- `runjob`
    unfoldable pub run_job : Flags → Scenario W → Result W
    unfolding local remote checked
    run_job f s =
        if is_empty f.addr
        then (do r ← checked (local parses cfg w.local_calls s); ok r.1)
        else (do r ← checked (remote parses cfg w.calls w.dials s); ok r.1)

    unfoldable pub put_value : Flags → W → Result (Output W)
    put_value f v =
        if is_empty f.obj
        then ok (value v)
        else if w.writes f.obj
        then ok (wrote f.obj v)
        else err (failed_run "write")

    -- The value of a database. The error of `post.Process` is ignored.
    unfoldable pub db_value : Scenario W → Result W
    unfolding first_simulation
    db_value s = do
      u ← unless_failed "open" w.local_calls.opens
      i ← first_simulation (elim w.local_calls.simulations [ none ↦ [] | some ids ↦ ids ])
      w.local_calls.objective s i

    -- The branches of `main`.
    unfoldable pub act : Flags → Scenario W → Result (Output W)
    unfolding print_stats table_row transform_sched build_remote_job db_value run_job put_value
        checked
    act f s =
        if f.stats
        then (do r ← checked (print_stats parses order s); ok (rows r.1))
        else if f.transform && not f.sched
        then ok (table (map table_row s.builds))
        else if f.transform && f.sched
        then (do r ← checked (transform_sched order parses s); ok (variables r.1))
        else if f.gen
        then (do
          j ← build_remote_job w.calls s gen_objfile
          bytes ← or_failed "encode" (w.encode_job j)
          ok (job bytes))
        else if not (is_empty f.db)
        then (do v ← db_value s; ok (value v))
        else (do v ← run_job f s; put_value f v)

    -- `main` after `Load`, with the scenario and the error that it leaves.
    unfoldable pub after_load : Flags → Scenario W × Result (Unit {0}) → Result (Output W)
    unfolding parse_sched_vars act no_builds
    after_load f (s, err e) = err e
    after_load f (s, panic) = panic
    after_load f (s, ok u) = do
      s' ← (if no_builds s && is_empty f.db then parse_sched_vars f s else ok s)
      act f s'

    -- `main`, for the scenario that `&scen.Scenario{}` is.
    unfoldable pub main : Scenario W → Flags → Result (Output W)
    unfolding load after_load
    main zero_scenario f = after_load f (load parses w.read_file w.decode f.scenfile zero_scenario)
