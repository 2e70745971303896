-- ===== src/Job/Archive.antt =====
-- The archive of the output files: what `Execute` of cloudlus/job.go writes, and `GetOutfile`.
--
-- The archives are those of the library archive/zip.
pub mod Found
use cloudlus.Base.{Option, none, some, List, [], ◌∷◌, String, if◌then◌else◌}
use cloudlus.Bytes.{Bytes}
use cloudlus.Job.{File, Job}
use cloudlus.Job.Execute.{Env}
use text.Mathlib.Text.{◌==◌ as str_eq}

pub record Zip : Type 0 where
  -- What a writer has written for the entries once it is closed.
  pub pack : List (String × Bytes) → Bytes
  -- The entries that a reader finds, each with what can be read of it.
  pub read : Bytes → Option (List (String × Option Bytes))

-- The entries that the loop of `Execute` makes, up to the first that cannot be created, where
-- `contents` is what gets into the entry of a file.
unfoldable pub entries : Env → (String → Bytes) → List File → List (String × Bytes)
entries e contents [] = []
entries e contents (f ∷ fs) = elim (e.create_error f.name) [
  | some m ↦ []
  | none ↦ (f.name, contents f.name) ∷ entries e contents fs
]

-- The loop of `GetOutfile`: the first entry of the name.
unfoldable pub find_entry : String → List (String × Option Bytes) → Option Bytes
find_entry name [] = none
find_entry name ((n, bytes) ∷ es) = if str_eq n name then bytes else find_entry name es

-- `GetOutfile`, with the reading of its result. `none` is an error.
unfoldable pub get_outfile : Zip → Job → Bytes → String → Option Bytes
unfolding find_entry
get_outfile zip j bytes name = elim (zip.read bytes) [ none ↦ none | some es ↦ find_entry name es ]
