-- ===== src/Server/Outfiles/Sent.antt =====
-- What becomes of output files that a worker sends and a client asks for.
use cloudlus.Base.{
  ◌≡◌, ◌≢◌, refl, sym, ap, ◌∙◌, Bool, true, Option, some, List, [], ◌∷◌, ◌==◌, ==_iff, All, eq_self,
  Bool-cases, Option-cases, inl, inr, ℕ,
}
use mathlib.Core.List.{append-nil}
use mathlib.Core.Path.{subst}
use cloudlus.Bytes.{Bytes}
use cloudlus.Ident.{decode_job_id, hex_encode, id_string}
use cloudlus.Ident.RoundTrip.{decode_job_id-id_string}
use cloudlus.Job.{Job, JobId, IsId}
use cloudlus.Store.{JobStore}
use cloudlus.Server.{Server}
use cloudlus.Server.Calls.{get_call}
use cloudlus.Server.Rest.{Answer, ok}
use cloudlus.Server.Outfiles.{
  Files, put_file, handle_outfile_post, file_answer, file_reply, handle_outfile_get, body_of,
  retrieve_outfile,
}

decode-id_string : (i : JobId) → IsId i → decode_job_id (id_string i) ≡ some i
unfolding hex_encode
decode-id_string i h =
    subst (λ (t : Bytes). decode_job_id t ≡ some i) (append-nil (id_string i))
      (decode_job_id-id_string i [] h tt)

-- The files after a sequence of requests for POST.
unfoldable pub post_all : (JobId → Bool) → List (Bytes × Bytes × Bool) → Files → Files
post_all creates [] fs = fs
post_all creates ((text, bytes, fine) ∷ ps) fs =
    post_all creates ps (handle_outfile_post creates text (bytes, fine) fs).0

-- None of the requests is for an identifier.
abbrev pub Spares : JobId → List (Bytes × Bytes × Bool) → Type 0
Spares i ps = All (λ (p : Bytes × Bytes × Bool). decode_job_id p.0 ≢ some i) ps

post-Spares :
    (creates : JobId → Bool) (text : Bytes) (body : Bytes × Bool) (fs : Files) (i : JobId)
    → decode_job_id text ≢ some i
    → (handle_outfile_post creates text body fs).0 i ≡ fs i
unfolding handle_outfile_post put_file
post-Spares creates text body fs i h = elim (Option-cases (decode_job_id text)) [
  | inl e ↦ rw (handle_outfile_post, e) refl
  | inr (k, e) ↦ elim (Bool-cases (creates k)) [
    | inr c ↦ rw (handle_outfile_post, e, c) refl
    | inl c ↦ elim (Bool-cases (i == k)) [
      | inl q ↦ absurd (h (e ∙ ap some (sym ((==_iff i k).0 q))))
      | inr q ↦ rw (handle_outfile_post, e, c, q) refl
    ]
  ]
]

post_all-Spares :
    (creates : JobId → Bool) (ps : List (Bytes × Bytes × Bool)) (fs : Files) (i : JobId)
    → Spares i ps
    → post_all creates ps fs i ≡ fs i
unfolding post_all
post_all-Spares creates [] fs i h = refl
post_all-Spares creates ((text, bytes, fine) ∷ ps) fs i h =
    post_all-Spares creates ps (handle_outfile_post creates text (bytes, fine) fs).0 i h.1
    ∙ post-Spares creates text (bytes, fine) fs i h.0

post_stores :
    (creates : JobId → Bool) (body : Bytes) (fs : Files) (i : JobId)
    → IsId i
    → creates i ≡ true
    → (handle_outfile_post creates (id_string i) (body, true) fs).0 i ≡ some body
unfolding handle_outfile_post put_file
post_stores creates body fs i h c =
    rw (handle_outfile_post, decode-id_string i h, c, eq_self i) refl

get_answer :
    (store : JobStore) (i : JobId) (ch : ℕ) (fs : Files) (s : Server store.Db)
    (r : Server store.Db × Option Job)
    → IsId i
    → get_call store i ch s ≡ some r
    → handle_outfile_get store (id_string i) ch fs s ≡ some (r.0, file_answer (fs i))
unfolding handle_outfile_get
get_answer store i ch fs s r h g =
    rw (handle_outfile_get, decode-id_string i h) (ap (file_reply (file_answer (fs i))) g)

-- When a worker has sent the output files of a job to the end, and the server could create its file,
-- a client that asks for them gets the same bytes, whatever requests for other jobs are sent between
-- the two, if the dispatcher goes on.
pub retrieve-push :
    (store : JobStore) (creates : JobId → Bool) (message body : Bytes)
    (ps : List (Bytes × Bytes × Bool)) (fs : Files) (i : JobId) (ch : ℕ) (s : Server store.Db)
    (r : Server store.Db × Option Job)
    → IsId i
    → creates i ≡ true
    → Spares i ps
    → get_call store i ch s ≡ some r
    → let fs' = post_all creates ((id_string i, body, true) ∷ ps) fs in
      (a : Answer) × (handle_outfile_get store (id_string i) ch fs' s ≡ some (r.0, a))
      × (retrieve_outfile message (some a) ≡ some body)
unfolding post_all retrieve_outfile body_of file_answer
retrieve-push store creates message body ps fs i ch s r h c sp g =
    let fs1 : Files = (handle_outfile_post creates (id_string i) (body, true) fs).0 in
    (
      ok body,
      get_answer store i ch _ s r h g
          ∙ rw (post_all-Spares creates ps fs1 i sp, post_stores creates body fs i h c) refl,
      refl,
    )
