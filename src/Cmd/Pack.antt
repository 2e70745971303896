-- ===== src/Cmd/Pack.antt =====
-- `pack` and `unpack` of cmd/cloudlus/main.go, with `loadJob` and `saveJob`.
--
-- JSON is the record `Formats`. A directory is the list of its entries, in the order in which
-- `Readdir` gives them. `none` is an end by `log.Fatal`. `filepath.Join` of the new directory and a
-- name is part of the record `Disk`.
pub mod Files
pub mod RoundTrip
use cloudlus.Base.{
  Bool, true, false, not, Option, none, some, List, [], ◌∷◌, String, if◌then◌else◌, ◌++◌,
}
use cloudlus.Bytes.{Bytes}
use cloudlus.Job.{File, Job, JobId, new_job, add_infile, add_outfile}
use text.Mathlib.Text.{◌==◌ as str_eq}

-- What `json` makes of jobs and of lists of texts.
pub record Formats : Type 0 where
  pub encode : Job → Option Bytes
  pub decode : Bytes → Option Job
  pub decode_list : Bytes → Option (List String)

-- An entry of the working directory; `contents` is what `ReadFile` gives.
pub record Entry : Type 0 where
  pub name : String
  pub is_dir : Bool
  pub contents : Option Bytes

abbrev pub is_cmd : String → Bool
is_cmd name = str_eq name "cmd.txt"

abbrev pub is_want : String → Bool
is_want name = str_eq name "want.txt"

unfoldable pub with_cmd : Job → Option (List String) → Option Job
with_cmd j none = none
with_cmd j (some cmd) = some (record j { cmd = cmd })

unfoldable pub add_outfiles : List String → Job → Job
unfolding add_outfile
add_outfiles [] j = j
add_outfiles (n ∷ ns) j = add_outfiles ns (add_outfile j n)

unfoldable pub with_wants : Job → Option (List String) → Option Job
unfolding add_outfiles
with_wants j none = none
with_wants j (some names) = some (add_outfiles names j)

module _ (f : Formats) where
  open f use {encode, decode, decode_list}

  -- A file that was read.
  unfoldable pub pack_file : Job → String → Bytes → Option Job
  unfolding with_cmd with_wants add_infile
  pack_file j name contents =
      if is_cmd name
      then with_cmd j (decode_list contents)
      else if is_want name
      then with_wants j (decode_list contents)
      else some (add_infile j name contents)

  -- One round of the loop.
  unfoldable pub pack_entry : Job → Entry → Option Job
  unfolding pack_file
  pack_entry j e =
      if e.is_dir
      then some j
      else elim e.contents [ none ↦ none | some contents ↦ pack_file j e.name contents ]

  unfoldable pub pack_entries : Job → List Entry → Option Job
  unfolding pack_entry
  pack_entries j [] = some j
  pack_entries j (e ∷ es) = elim (pack_entry j e) [ none ↦ none | some k ↦ pack_entries k es ]

  -- `pack`, for the job that `NewJob` makes: what is printed, or written to the file of `-o`.
  unfoldable pub pack : JobId → List Entry → Option Bytes
  unfolding pack_entries new_job
  pack uid es = elim (pack_entries (new_job uid) es) [ none ↦ none | some j ↦ encode j ]

  -- `loadJob`
  unfoldable pub load_job : Bytes → Option Job
  load_job contents = decode contents

-- The disk as `unpack` finds it: what `ReadFile` gives, whether the directory of a job can be made,
-- the path of a file in it, and whether a path can be written.
pub record Disk : Type 0 where
  pub read : String → Option Bytes
  pub mkdir : JobId → Bool
  pub path : JobId → String → String
  pub writes : String → Bool

-- What `unpack` did until it ended: the files it wrote, in order, and whether `log.Fatal` ended it.
pub record Unpacked : Type 0 where
  pub written : List (String × Bytes)
  pub fatal : Bool

-- A loop over files.
unfoldable pub write_all : Disk → JobId → List File → Unpacked → Unpacked
write_all d i [] u = u
write_all d i (g ∷ gs) u = elim (d.writes (d.path i g.name)) [
  | false ↦ record u { fatal = true }
  | true ↦
      write_all d i gs (record u { written = u.written ++ ((d.path i g.name, g.contents) ∷ []) })
]

unfoldable pub unpack_job : Disk → Job → Unpacked → Unpacked
unfolding write_all
unpack_job d j u =
    if not (d.mkdir j.id)
    then record u { fatal = true }
    else (let u' = write_all d j.id j.outfiles u in
        if u'.fatal then u' else write_all d j.id j.infiles u')

unfoldable pub unpack_file : Formats → Disk → Option Bytes → Unpacked → Unpacked
unfolding load_job unpack_job
unpack_file f d none u = record u { fatal = true }
unpack_file f d (some contents) u = elim (load_job f contents) [
  | none ↦ record u { fatal = true }
  | some j ↦ unpack_job d j u
]

-- `unpack`, the loop over its arguments.
unfoldable pub unpack : Formats → Disk → List String → Unpacked → Unpacked
unfolding unpack_file
unpack f d [] u = u
unpack f d (n ∷ ns) u =
    let u' = unpack_file f d (d.read n) u in
    let rest = unpack f d ns u' in if u'.fatal then u' else rest

-- What is at a path after some files were written.
unfoldable pub found : String → List (String × Bytes) → Option Bytes
found p [] = none
found p ((q, contents) ∷ ws) = elim (found p ws) [
  | some later ↦ some later
  | none ↦ if str_eq q p then some contents else none
]
