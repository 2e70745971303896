-- ===== src/Cmd/Pack/RoundTrip.antt =====
-- Files that `pack` of cmd/cloudlus/main.go puts in a job and that `unpack` writes again.
use cloudlus.Base.{
  ◌≡◌, ◌≢◌, refl, sym, ap, ◌∙◌, true, false, ◌||◌, Option, none, some, List, [], ◌∷◌, ◌++◌, String,
  All, Bool-cases, Option-cases, inl, inr,
}
use mathlib.Core.Path.{subst}
use mathlib.Core.List.{append-nil, append_assoc}
use text.Mathlib.Text.{◌==◌ as str_eq}
use text.Mathlib.TextEquality.{eq_iff}
use cloudlus.Bytes.{Bytes}
use cloudlus.Store.{saved}
use cloudlus.Job.{File, Job, JobId, new_job}
use cloudlus.Cmd.Pack.{
  Formats, Entry, Disk, Unpacked, is_cmd, is_want, pack_entries, pack, load_job, write_all,
  unpack_job, unpack_file, unpack, found,
}
use cloudlus.Cmd.Pack.Files.{infile, inputs_of, all_inputs, all_wanted, filled, pack_entries-filled}

-- What a loop over files writes if every path can be written.
targets : Disk → JobId → List File → List (String × Bytes)
targets d i [] = []
targets d i (g ∷ gs) = (d.path i g.name, g.contents) ∷ targets d i gs

targets-append :
    (d : Disk) (i : JobId) (gs hs : List File)
    → targets d i (gs ++ hs) ≡ targets d i gs ++ targets d i hs
unfolding targets
targets-append d i [] hs = refl
targets-append d i (g ∷ gs) hs = ap (◌∷◌ (d.path i g.name, g.contents)) (targets-append d i gs hs)

write_all-targets :
    (d : Disk) (i : JobId) (gs : List File) (u : Unpacked)
    → ((p : String) → d.writes p ≡ true)
    → write_all d i gs u ≡ record u { written = u.written ++ targets d i gs }
unfolding write_all targets
write_all-targets d i [] u ok = rw append-nil refl
write_all-targets d i (g ∷ gs) u ok =
    rw (write_all, ok (d.path i g.name))
      (write_all-targets d i gs
          (record u { written = u.written ++ ((d.path i g.name, g.contents) ∷ []) }) ok
        ∙ rw append_assoc refl)

or_else : {A : Type 0} → Option A → Option A → Option A
or_else none o = o
or_else (some a) o = some a

found-append :
    (p : String) (xs ys : List (String × Bytes))
    → found p (xs ++ ys) ≡ or_else (found p ys) (found p xs)
unfolding found or_else
found-append p [] ys = elim (Option-cases (found p ys)) [ inl e ↦ rw e | inr (c, e) ↦ rw e ]
found-append p ((q, c) ∷ xs) ys = elim (Option-cases (found p ys)) [
  | inl e ↦ rw (found-append p xs ys, e) refl
  | inr (b, e) ↦ rw (found-append p xs ys, e) refl
]

str_eq-ne : (p q : String) → p ≢ q → str_eq p q ≡ false
str_eq-ne p q h = elim (Bool-cases (str_eq p q)) [
  | inl e ↦ absurd (h ((eq_iff p q).0 e))
  | inr e ↦ e
]

-- No entry is unpacked to a path.
abbrev pub Misses : Disk → JobId → String → List Entry → Type 0
Misses d i p es = All (λ (g : Entry). d.path i g.name ≢ p) es

found_missed :
    (d : Disk) (i : JobId) (p : String) (es : List Entry)
    → Misses d i p es
    → found p (targets d i (all_inputs es)) ≡ none
unfolding found targets all_inputs inputs_of
found_missed d i p [] h = refl
found_missed d i p (g ∷ es) h = elim (Option-cases g.contents) [
  | inl n ↦ rw n (found_missed d i p es h.1)
  | inr (c, n) ↦ elim (Bool-cases (g.is_dir || is_cmd g.name || is_want g.name)) [
    | inl b ↦ rw (n, b) (found_missed d i p es h.1)
    | inr b ↦ rw (n, b) (rw (found_missed d i p es h.1, str_eq-ne _ _ h.0) refl)
  ]
]

all_inputs-append : (es gs : List Entry) → all_inputs (es ++ gs) ≡ all_inputs es ++ all_inputs gs
unfolding all_inputs
all_inputs-append [] gs = refl
all_inputs-append (e ∷ es) gs =
    ap (λ (l : List File). inputs_of e ++ l) (all_inputs-append es gs)
    ∙ sym (append_assoc (inputs_of e) (all_inputs es) (all_inputs gs))

-- An entry that becomes an input file.
pub record IsInput (e : Entry) (c : Bytes) : Type 0 where
  pub read : e.contents ≡ some c
  pub plain : (e.is_dir || is_cmd e.name || is_want e.name) ≡ false

inputs_of-IsInput : (e : Entry) (c : Bytes) → IsInput e c → inputs_of e ≡ infile e.name c ∷ []
unfolding inputs_of
inputs_of-IsInput e c h = rw (h.read, h.plain) refl

str_eq_self : (p : String) → str_eq p p ≡ true
str_eq_self p = (eq_iff p p).1 refl

found_last :
    (p : String) (c : Bytes) (ws : List (String × Bytes))
    → found p ws ≡ none
    → found p ((p, c) ∷ ws) ≡ some c
unfolding found
found_last p c ws h = rw (h, str_eq_self p) refl

-- The last write to a path, when files before and after it are unpacked.
found_target :
    (d : Disk) (i : JobId) (before after : List Entry) (e : Entry) (c : Bytes)
    → IsInput e c
    → Misses d i (d.path i e.name) after
    → (xs : List (String × Bytes))
    → found (d.path i e.name) (xs ++ targets d i (all_inputs (before ++ e ∷ after))) ≡ some c
unfolding found or_else targets all_inputs
found_target d i before after e c h m xs =
    rw
      (
        found-append,
        all_inputs-append before (e ∷ after),
        inputs_of-IsInput e c h,
        targets-append d i (all_inputs before) (infile e.name c ∷ all_inputs after),
        found-append,
        found_last (d.path i e.name) c (targets d i (all_inputs after))
            (found_missed d i (d.path i e.name) after m),
      )
      refl

-- The job of a directory, and that JSON keeps its exported fields.
abbrev pub packed : Formats → JobId → List Entry → Job
packed f uid es = filled f es (new_job uid)

abbrev pub Keeps : Formats → Job → Type 0
Keeps f j = (b : Bytes) → f.encode j ≡ some b → f.decode b ≡ some (saved j)

load-pack :
    (f : Formats) (uid : JobId) (es : List Entry) (bytes : Bytes)
    → Keeps f (packed f uid es)
    → pack f uid es ≡ some bytes
    → load_job f bytes ≡ some (saved (packed f uid es))
unfolding pack load_job
load-pack f uid es bytes codec h = elim (Option-cases (pack_entries f (new_job uid) es)) [
  | inl n ↦ absurd (never (rw (pack, n) at h))
  | inr (k, n) ↦ codec bytes (
      subst (λ (j : Job). f.encode j ≡ some bytes) (pack_entries-filled f es (new_job uid) k n)
        (rw (pack, n) at h))
]
  where
    never : none ≡ some bytes → ⊥
    never q = cc

-- What is packed is unpacked: if JSON keeps the exported fields of the job, the directory of the job
-- can be made, and every path can be written, `unpack` of the job that `pack` made of a directory is not ended by an error, and each
-- file of the directory, but for cmd.txt and want.txt, is then in the directory of the job with its
-- contents, unless a later entry has the same path there.
pub unpack-pack :
    (f : Formats) (d : Disk) (uid : JobId) (name : String) (bytes : Bytes)
    (before after : List Entry) (e : Entry) (c : Bytes)
    → Keeps f (packed f uid (before ++ e ∷ after))
    → pack f uid (before ++ e ∷ after) ≡ some bytes
    → d.read name ≡ some bytes
    → d.mkdir uid ≡ true
    → ((p : String) → d.writes p ≡ true)
    → IsInput e c
    → Misses d uid (d.path uid e.name) after
    → let u = unpack f d (name ∷ []) (record { written = []; fatal = false }) in
      (u.fatal ≡ false) × (found (d.path uid e.name) u.written ≡ some c)
unfolding unpack unpack_file unpack_job new_job
unpack-pack f d uid name bytes before after e c codec h r mk ok i m =
    let es : List Entry = before ++ e ∷ after in
    let none_yet : Unpacked = record { written = []; fatal = false } in
    let outs : List File = all_wanted f es in
    let o = write_all-targets d uid outs none_yet ok in
    let w =
      write_all-targets d uid (all_inputs es) (record none_yet { written = targets d uid outs })
        ok in
    rw (r, unpack_file, load-pack f uid es bytes codec h, unpack_job, mk, o, w)
      (refl, found_target d uid before after e c i m (targets d uid outs))
