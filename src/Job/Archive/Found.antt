-- ===== src/Job/Archive/Found.antt =====
-- `GetOutfile` of cloudlus/job.go on what `Execute` has written.
use cloudlus.Base.{
  ◌≡◌, refl, ap, Bool, true, false, inl, inr, Option, none, some, List, [], ◌∷◌, map, String,
  if◌then◌else◌, arith, Bool-cases, Option-cases,
}
use cloudlus.Bytes.{Bytes}
use cloudlus.Job.{File, Job, is_complete}
use cloudlus.Job.Execute.{Env, execute}
use cloudlus.Job.Execute.Checks.{is_none}
use cloudlus.Job.Execute.Verdict.{is_complete_end, is_collected, is_complete-execute}
use cloudlus.Job.Archive.{Zip, entries, find_entry, get_outfile}
use text.Mathlib.Text.{◌==◌ as str_eq}
use text.Mathlib.TextEquality.{eq_iff}

-- Whether an output file has the name.
unfoldable pub has_file : String → List File → Bool
has_file name [] = false
has_file name (f ∷ fs) = if str_eq f.name name then true else has_file name fs

-- An entry as a reader finds it that can read all of it.
abbrev pub readable : String × Bytes → String × Option Bytes
readable (n, bytes) = (n, some bytes)

-- The library reads what it has written.
abbrev pub Keeps : Zip → List (String × Bytes) → Type 0
Keeps zip es = zip.read (zip.pack es) ≡ some (map readable es)

find_entry-entries :
    (e : Env) (contents : String → Bytes) (name : String) (fs : List File)
    → is_collected e fs ≡ true
    → find_entry name (map readable (entries e contents fs))
      ≡ (if has_file name fs then some (contents name) else none)
unfolding find_entry entries has_file is_collected is_none
find_entry-entries e contents name [] h = refl
find_entry-entries e contents name (f ∷ fs) h = elim (Option-cases (e.create_error f.name)) [
  | inr (m, c) ↦ absurd (ground (arith, c))
  | inl c ↦ elim (Bool-cases (str_eq f.name name)) [
    | inl same ↦
        rw (c, entries, find_entry, same)
          (ap (λ n. some (contents n)) ((eq_iff f.name name).0 same))
    | inr other ↦
        rw (c, entries, find_entry, other)
          (find_entry-entries e contents name fs (ground (arith, c)))
  ]
]

pub is_collected_complete :
    (e : Env) (j : Job)
    → is_complete j.status ≡ false
    → is_complete_end (execute e j) ≡ true
    → is_collected e j.outfiles ≡ true
is_collected_complete e j n h = let v = is_complete-execute e j n in ground arith

-- For a job that ends as complete, `GetOutfile` finds each output file with what got into its entry,
-- and no other name.
pub get_outfile-entries :
    (zip : Zip) (e : Env) (contents : String → Bytes) (j k : Job) (name : String)
    → is_complete j.status ≡ false
    → is_complete_end (execute e j) ≡ true
    → Keeps zip (entries e contents j.outfiles)
    → get_outfile zip k (zip.pack (entries e contents j.outfiles)) name
      ≡ (if has_file name j.outfiles then some (contents name) else none)
unfolding get_outfile
get_outfile-entries zip e contents j k name n h law =
    rw (get_outfile, law)
      (find_entry-entries e contents name j.outfiles (is_collected_complete e j n h))
