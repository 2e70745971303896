-- ===== src/Cmd/Cycobj/Command.antt =====
-- The flags that cmd/cycobj/main.go gets from the command of a job of runscen/runscen.go.
use cloudlus.Base.{
  ℕ, ◌≡◌, refl, false, Option, none, some, List, [], ◌∷◌, String, if◌then◌else◌, Option-cases, inl,
  inr,
}
use cloudlus.Scen.Model.{Scenario}
use cloudlus.Runscen.{Calls, remote_job}
use cloudlus.Cmd.Cycobj.{Flags}
use text.Mathlib.Text.{◌==◌ as str_eq}

abbrev pub unset : Flags
unset = record {
  transform = false;
  sched = false;
  scenfile = "scenario.json";
  addr = "";
  db = "";
  stats = false;
  gen = false;
  obj = "";
  args = [];
}

-- How the package `flag` reads the flags `-obj` and `-scen` with their values.
unfoldable pub set_flag : String → String → Flags → Option Flags
set_flag name v f =
    if str_eq name "-obj"
    then some (record f { obj = v })
    else if str_eq name "-scen"
    then some (record f { scenfile = v })
    else none

unfoldable pub read_flags : List String → Flags → Option Flags
unfolding set_flag
read_flags [] f = some f
read_flags (name ∷ []) f = none
read_flags (name ∷ v ∷ rest) f = elim (set_flag name v f) [
  | none ↦ none
  | some f' ↦ read_flags rest f'
]

-- The flags of a command with its program.
unfoldable pub command_flags : List String → Option Flags
unfolding read_flags
command_flags [] = none
command_flags (program ∷ args) = read_flags args unset

abbrev pub job_flags : String → String → Flags
job_flags objfile file = record unset { obj = objfile; scenfile = file }

pub command-job_flags :
    {W : Type 0} (c : Calls W) (s : Scenario W) (objfile : String) (tmpl bytes : List ℕ)
    → command_flags (remote_job c s objfile tmpl bytes).cmd ≡ some (job_flags objfile s.file)
unfolding command_flags remote_job
command-job_flags c s objfile tmpl bytes = elim (Option-cases c.arguments) [
  | inl e ↦ rw e refl
  | inr (note, e) ↦ rw e refl
]
