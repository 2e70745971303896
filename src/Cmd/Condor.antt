-- ===== src/Cmd/Condor.antt =====
-- cmd/condorbots/condorbots.go: the files and the submit description for workers on condor.
--
-- The calls of ssh and of the disk are the record `World`. The texts of the two templates and the
-- authentication are left out. A program is the list of what it did, and whether `log.Fatal` ended it.
pub mod Ssh
use cloudlus.Base.{
  ℕ, suc, ◌+◌, Bool, true, false, not, ◌&&◌, Option, none, some, List, [], ◌∷◌, ◌++◌, String, map,
  join, if◌then◌else◌, ◌==◌,
}
use cloudlus.Base.Int.{ℤ, pos, ◌*ℤ◌, ltb_ℤ}
use cloudlus.Base.Words.{is_empty, split}
use text.Mathlib.Text.{◌==◌ as str_eq}

abbrev pub is_slash : ℕ → Bool
is_slash c = c == b'/'

-- The last piece that is not empty.
unfoldable pub last_filled : List String → Option String
unfolding is_empty
last_filled [] = none
last_filled (w ∷ ws) = elim (last_filled ws) [
  | some v ↦ some v
  | none ↦ if is_empty w then none else some w
]

-- `filepath.Base`
unfoldable pub base_name : String → String
unfolding split last_filled
base_name p =
    if is_empty p then "." else elim (last_filled (split is_slash p)) [ none ↦ "/" | some w ↦ w ]

-- `strings.Join(list, ",")`
unfoldable pub join_commas : List String → String
join_commas [] = ""
join_commas (w ∷ []) = w
join_commas (w ∷ v ∷ ws) = join w (join "," (join_commas (v ∷ ws)))

pub record Flags : Type 0 where
  pub addr : String
  pub run : String
  pub n : ℤ
  pub ncpu : ℤ
  pub mem : ℤ
  pub disk : ℤ
  pub classad : String
  pub via : String
  pub dst : String
  pub cpy : Bool
  pub save_local : Bool
  pub wkflags : String
  pub files : List String

pub record CondorConfig : Type 0 where
  pub executable : String
  pub infiles : String
  pub n : ℤ
  pub ncpu : ℤ
  pub memory : ℤ
  pub class_ads : String
  pub disk : ℤ

abbrev pub condor_name : String
condor_name = "condor.submit"

abbrev pub run_file_name : String
run_file_name = "CLOUDLUS_runfile.sh"

-- The files to copy, for the path of the program `cloudlus`, and their names there.
unfoldable pub source_files : Flags → String → List String
unfolding is_empty
source_files f path = f.files ++ (path ∷ (if is_empty f.run then [] else f.run ∷ []))

unfoldable pub condor_config : Flags → List String → CondorConfig
unfolding join_commas is_empty
condor_config f dsts = record {
  executable = run_file_name;
  infiles = join_commas dsts;
  n = f.n;
  ncpu = f.ncpu;
  memory = f.mem;
  class_ads = if is_empty f.classad then "" else join " && " f.classad;
  disk = f.disk *ℤ pos 1024;
}

-- What the program does: a local copy, a connection, a copy to the submit node under a name, and the
-- submission.
pub data Action : Type 0 where
  saved : String → Action
  dialled hopped : String → Action
  copied : String → Action
  submitted : Action

pub record World : Type 0 where
  pub look_path : Option String
  pub templates : Bool
  pub saves : String → Bool
  pub agent : Bool
  pub dials : String → Bool
  pub hops : String → Bool
  pub opens : String → Bool
  pub copies : String → Bool
  pub submits : Bool

-- The actions, and whether the program was ended by an error.
abbrev pub Run : Type 0
Run = List Action × Bool

-- One step, then the rest, unless the step fails.
unfoldable pub step : Bool → Action → Run → Run
step false a rest = ([], true)
step true a rest = (a ∷ rest.0, rest.1)

-- Each file with the name that it gets.
unfoldable pub with_names : List String → List (String × String)
unfolding base_name
with_names files = map (λ p. (p, base_name p)) files

module _ (w : World) where
  -- The loop that copies the listed files.
  unfoldable pub copy_files : List (String × String) → Run → Run
  unfolding step
  copy_files [] rest = rest
  copy_files ((src, dst) ∷ fs) rest =
      step (w.opens src && w.copies dst) (copied dst) (copy_files fs rest)

  unfoldable pub submit_run : Flags → Run
  unfolding step
  submit_run f = if ltb_ℤ (pos 0) f.n then step w.submits submitted ([], false) else ([], false)

  -- The part of `submitssh` on the submit node.
  unfoldable pub copy_all : Flags → List (String × String) → Run
  unfolding step copy_files submit_run
  copy_all f files = step (w.copies condor_name) (copied condor_name) (
      step (w.copies run_file_name) (copied run_file_name)
        (if f.cpy then copy_files files (submit_run f) else submit_run f))

  -- The connection: through the intermediate server if one is given. The destination is not empty.
  unfoldable pub connect : Flags → Run → Run
  unfolding step is_empty
  connect f rest =
      if is_empty f.via
      then step (w.dials f.dst) (dialled f.dst) rest
      else step (w.dials f.via) (dialled f.via) (step (w.hops f.dst) (hopped f.dst) rest)

  -- `submitssh`
  unfoldable pub submit_ssh : Flags → List (String × String) → Run
  unfolding copy_all connect
  submit_ssh f files =
      if not f.cpy && ltb_ℤ f.n (pos 1)
      then ([], false)
      else if not w.agent
      then ([], true)
      else connect f (copy_all f files)

  unfoldable pub save_files : Flags → Run → Run
  unfolding step
  save_files f rest =
      if f.save_local
      then step (w.saves run_file_name) (saved run_file_name)
          (step (w.saves condor_name) (saved condor_name) rest)
      else rest

  -- The end of `main`, which needs a destination.
  unfoldable pub send : Flags → String → Run
  unfolding source_files submit_ssh with_names is_empty
  send f path =
      if is_empty f.dst then ([], true) else submit_ssh f (with_names (source_files f path))

  -- `main`
  unfoldable pub main : Flags → Run
  unfolding save_files send is_empty
  main f = if is_empty f.addr then ([], true) else elim w.look_path [
    | none ↦ ([], true)
    | some path ↦ if not w.templates then ([], true) else save_files f (send f path)
  ]
