-- ===== src/Cmd/Dakota.antt =====
-- cmd/dakotadriver/main.go: one evaluation of the objective for dakota, and the numbers of its input
-- file.
--
-- The program `cycobj` that is run, and its output, are an argument. `log.Fatal` is `none`. The random
-- numbers and the template of the input file are left out.
pub mod Evaluations
pub mod Infile
use cloudlus.Base.{
  ℕ, ◌+◌, Bool, true, false, not, ◌&&◌, ◌||◌, Option, none, some, List, [], ◌∷◌, ◌++◌, String,
  if◌then◌else◌, ◌==◌, ltb, length, map,
}
use cloudlus.Base.Int.{ℤ, pos, eq_ℤ, ltb_ℤ}
use cloudlus.Base.Words.{split, trim_space}
use cloudlus.Scen.Float.{Float}
use cloudlus.Scen.Model.{Scenario}
use cloudlus.Scen.Check.{Result, ok, err, panic, ◌>>=◌}
use cloudlus.Scen.Vars.{lower_bounds}
use text.Mathlib.Text.{◌==◌ as str_eq, starts_with, find?}

abbrev pub is_line_end : ℕ → Bool
is_line_end c = c == 10

abbrev pub is_blank : ℕ → Bool
is_blank c = c == 32

-- Whether a descriptor is the name `t%v_f%v` of a variable, as far as `ParseParams` looks.
unfoldable pub is_some : {A : Type 0} → Option A → Bool
is_some none = false
is_some (some a) = true

unfoldable pub names_variable : String → Bool
unfolding is_some
names_variable name = starts_with name "t" && is_some (find? name "_f")

-- The value in a line of the file, if it is that of a variable.
unfoldable pub variable_value : List String → Option String
unfolding names_variable
variable_value (v ∷ name ∷ ws) = if names_variable name then some v else none
variable_value _ = none

unfoldable pub add_value : Option String → List String → List String
add_value none vs = vs
add_value (some v) vs = v ∷ vs

-- The loop of `ParseParams`.
unfoldable pub line_values : List String → List String
unfolding split trim_space variable_value add_value
line_values [] = []
line_values (l ∷ ls) =
    add_value (variable_value (map trim_space (split is_blank (trim_space l)))) (line_values ls)

-- `ParseParams`, for what `ReadFile` gives.
unfoldable pub parse_params : Option String → Option (List String)
unfolding split line_values
parse_params none = none
parse_params (some text) = some (line_values (split is_line_end text))

pub record Flags : Type 0 where
  pub scenfile : String
  pub addr : String
  pub npop : ℤ

pub record World (W : Type 0) : Type 0 where
  pub creates : Bool
  pub params_file : Option String
  -- The output of `cycobj` with some arguments, or its failure.
  pub cycobj : List String → Option String
  pub parse_float : String → Option W

abbrev pub penalty : String
penalty = "1e100"

abbrev pub arguments : Flags → List String → List String
arguments f params = "-scen" ∷ f.scenfile ∷ "-addr" ∷ f.addr ∷ params

module _ {W : Type 0} (w : World W) where
  -- What is written for the output of the program.
  unfoldable pub objective_text : Option String → String
  unfolding trim_space is_some
  objective_text none = penalty
  objective_text (some out) = if is_some (w.parse_float (trim_space out)) then out else penalty

  -- `main` without `-gen-infile`: the contents of the objective file.
  unfoldable pub evaluate : Flags → Option String
  unfolding parse_params objective_text
  evaluate f = if not w.creates then none else elim (parse_params w.params_file) [
    | none ↦ some penalty
    | some params ↦ some (objective_text (w.cycobj (arguments f params)))
  ]
