-- ===== src/Cmd/Pack/Files.antt =====
-- The job that `pack` of cmd/cloudlus/main.go makes of a directory.
use cloudlus.Base.{
  ℕ, ◌≡◌, refl, sym, ap, ◌∙◌, false, not, ◌&&◌, ◌||◌, Option, none, some, List, [], ◌∷◌, ◌++◌,
  String, if◌then◌else◌, length, some_eq, Bool-cases, Option-cases, inl, inr,
}
use mathlib.Core.List.{append-nil, append_assoc}
use cloudlus.Job.{File, Job, add_infile, add_outfile}
use cloudlus.Cmd.Pack.{
  Formats, Entry, is_cmd, is_want, with_cmd, add_outfiles, with_wants, pack_file, pack_entry,
  pack_entries,
}

-- An input file, and one to send back.
abbrev pub infile : String → List ℕ → File
infile name contents = record {
  name = name;
  contents = contents;
  size = length contents;
  cache = false;
}

abbrev pub outfile : String → File
outfile name = record { name = name; contents = []; size = 0; cache = false }

-- The names in a text that `want.txt` holds.
abbrev pub names_in : Option (List String) → List String
names_in none = []
names_in (some names) = names

unfoldable pub outfiles_of : List String → List File
outfiles_of [] = []
outfiles_of (n ∷ ns) = outfile n ∷ outfiles_of ns

-- What an entry gives: input files, output files, and the command in place of an earlier one.
unfoldable pub inputs_of : Entry → List File
inputs_of e = elim e.contents [
  | none ↦ []
  | some c ↦ if e.is_dir || is_cmd e.name || is_want e.name then [] else infile e.name c ∷ []
]

unfoldable pub wanted_of : Formats → Entry → List File
unfolding outfiles_of
wanted_of f e = elim e.contents [
  | none ↦ []
  | some c ↦
      if not e.is_dir && not (is_cmd e.name) && is_want e.name
      then outfiles_of (names_in (f.decode_list c))
      else []
]

unfoldable pub cmd_after : Formats → Entry → List String → List String
cmd_after f e cmd = elim e.contents [
  | none ↦ cmd
  | some c ↦ if not e.is_dir && is_cmd e.name then names_in (f.decode_list c) else cmd
]

unfoldable pub all_inputs : List Entry → List File
unfolding inputs_of
all_inputs [] = []
all_inputs (e ∷ es) = inputs_of e ++ all_inputs es

unfoldable pub all_wanted : Formats → List Entry → List File
unfolding wanted_of
all_wanted f [] = []
all_wanted f (e ∷ es) = wanted_of f e ++ all_wanted f es

unfoldable pub last_cmd : Formats → List Entry → List String → List String
unfolding cmd_after
last_cmd f [] cmd = cmd
last_cmd f (e ∷ es) cmd = last_cmd f es (cmd_after f e cmd)

-- The job with the command and the files of some entries.
abbrev pub filled : Formats → List Entry → Job → Job
filled f es j = record j {
  cmd = last_cmd f es j.cmd;
  infiles = j.infiles ++ all_inputs es;
  outfiles = j.outfiles ++ all_wanted f es;
}

add_outfiles_lem :
    (ns : List String) (j : Job)
    → add_outfiles ns j ≡ record j { outfiles = j.outfiles ++ outfiles_of ns }
unfolding add_outfiles add_outfile outfiles_of
add_outfiles_lem [] j = rw append-nil refl
add_outfiles_lem (n ∷ ns) j = add_outfiles_lem ns (add_outfile j n) ∙ rw append_assoc refl

-- The job after one entry.
abbrev after_entry : Formats → Entry → Job → Job
after_entry f e j = record j {
  cmd = cmd_after f e j.cmd;
  infiles = j.infiles ++ inputs_of e;
  outfiles = j.outfiles ++ wanted_of f e;
}

pack_file-after :
    (f : Formats) (j : Job) (name : String) (c : List ℕ) (k : Job)
    → pack_file f j name c ≡ some k
    → k ≡ after_entry f (record { name = name; is_dir = false; contents = some c }) j
unfolding pack_file with_cmd with_wants add_infile cmd_after inputs_of wanted_of
pack_file-after f j name c k h = elim (Bool-cases (is_cmd name)) [
  | inl e ↦ elim (Option-cases (f.decode_list c)) [
    | inl n ↦ absurd (never (rw (pack_file, e, n) at h))
    | inr (cmd, n) ↦
        rw (e, n, append-nil, append-nil) (sym (some_eq _ _ (rw (pack_file, e, n) at h)))
  ]
  | inr e ↦ elim (Bool-cases (is_want name)) [
    | inl w ↦ elim (Option-cases (f.decode_list c)) [
      | inl n ↦ absurd (never (rw (pack_file, e, w, n) at h))
      | inr (names, n) ↦
          rw (e, w, n, append-nil)
            (sym (some_eq _ _ (rw (pack_file, e, w, n) at h)) ∙ add_outfiles_lem names j)
    ]
    | inr w ↦ rw (e, w, append-nil) (sym (some_eq _ _ (rw (pack_file, e, w) at h)))
  ]
]
  where
    never : none ≡ some k → ⊥
    never q = cc

pack_entry-after :
    (f : Formats) (j : Job) (e : Entry) (k : Job)
    → pack_entry f j e ≡ some k
    → k ≡ after_entry f e j
unfolding pack_entry cmd_after inputs_of wanted_of
pack_entry-after f j e k h = elim (Bool-cases e.is_dir) [
  | inl d ↦ elim (Option-cases e.contents) [
    | inl n ↦ rw (n, append-nil, append-nil) (sym (some_eq _ _ (rw (pack_entry, d) at h)))
    | inr (c, n) ↦ rw (n, d, append-nil, append-nil) (sym (some_eq _ _ (rw (pack_entry, d) at h)))
  ]
  | inr d ↦ elim (Option-cases e.contents) [
    | inl n ↦ absurd (never (rw (pack_entry, d, n) at h))
    | inr (c, n) ↦ rw (d, n) (pack_file-after f j e.name c k (rw (pack_entry, d, n) at h))
  ]
]
  where
    never : none ≡ some k → ⊥
    never q = cc

-- If `pack` is not ended by an error, its job is the new one with these changes only: the input files
-- are the files of the directory but for cmd.txt and want.txt, the output files are those that
-- want.txt names, and the command is that of cmd.txt.
pub pack_entries-filled :
    (f : Formats) (es : List Entry) (j k : Job) → pack_entries f j es ≡ some k → k ≡ filled f es j
unfolding pack_entries all_inputs all_wanted last_cmd
pack_entries-filled f [] j k h = rw (append-nil, append-nil) (sym (some_eq _ _ h))
pack_entries-filled f (e ∷ es) j k h = elim (Option-cases (pack_entry f j e)) [
  | inl n ↦ absurd (never (rw (pack_entries, n) at h))
  | inr (m, n) ↦
      pack_entries-filled f es m k (rw (pack_entries, n) at h)
      ∙ ap (filled f es) (pack_entry-after f j e m n)
      ∙ rw (append_assoc, append_assoc) refl
]
  where
    never : none ≡ some k → ⊥
    never q = cc
