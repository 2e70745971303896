-- ===== src/Server/Rest/Answers.antt =====
-- What the handlers of cloudlus/server_restful.go answer.
use cloudlus.Base.{ℕ, ◌<◌, ◌≡◌, refl, ap, ◌∙◌, Option, none, some, length, lookup}
use cloudlus.Bytes.{Bytes}
use cloudlus.Time.{Time}
use cloudlus.Ident.RoundTrip.{decode_job_id_short}
use cloudlus.Job.{Job, JobId, IsId}
use cloudlus.Store.{JobStore, saved}
use cloudlus.Server.{Server}
use cloudlus.Server.Dispatch.{Outcome, next}
use cloudlus.Server.Calls.{submitted_job, first_reply, start, get_call}
use cloudlus.Server.Calls.Replies.{start_then_get}
use cloudlus.Server.Rest.{
  Answer, bad_request, created, Json, data_answer, created_answer, answer_job, handle_job_get,
  handle_job_stat, created_job, create_job, handle_job_post,
}

module _ (json : Json) (store : JobStore) where
  open store use {Db}

  -- A request with a text of fewer than 32 bytes for the identifier is answered as a bad request, and
  -- the server is left as it is.
  handle_job_short :
      (text : Bytes) (ch : ℕ) (s : Server Db)
      → length text < 32
      → (handle_job_get json store text ch s ≡ some (s, bad_request))
        × (handle_job_stat json store text ch s ≡ some (s, bad_request))
  unfolding handle_job_get handle_job_stat answer_job
  handle_job_short text ch s h =
      rw (handle_job_get, handle_job_stat, answer_job, decode_job_id_short text h) (refl, refl)

  created_job_found :
      (i : JobId) (c : ℕ) (o : Outcome (Server Db)) (s1 s2 : Server Db) (k : Option Job)
      → o ≡ next s1
      → get_call store i c s1 ≡ some (s2, k)
      → created_job json store i c o ≡ some (s2, created_answer json k)
  unfolding created_job
  created_job_found i c o s1 s2 k a b = ap (created_job json store i c) a ∙ ap answer_of b
    where
      answer_of : Option (Server Db × Option Job) → Option (Server Db × Answer)
      answer_of none = none
      answer_of (some r) = some (r.0, created_answer json r.1)

  create_job_found :
      (now : Time) (j : Job) (ch c : ℕ) (s s1 s2 : Server Db) (k : Option Job)
      → start store now j ch s ≡ next s1
      → get_call store j.id c s1 ≡ some (s2, k)
      → create_job json store now j ch c s ≡ some (s2, created_answer json k)
  unfolding create_job
  create_job_found now j ch c s s1 s2 k a b =
      created_job_found j.id c (start store now j ch s) s1 s2 k a b

  created_answer_ok :
      (k : Job) (bs : Bytes)
      → json.of_job k ≡ some bs
      → created_answer json (some k) ≡ created k.id bs
  unfolding created_answer data_answer
  created_answer_ok k bs e = rw (created_answer, e) refl

  post_job :
      (now : Time) (body : Bytes) (j : Job) (ch c : ℕ) (s : Server Db)
      → json.to_job body ≡ some j
      → handle_job_post json store now body ch c s ≡ create_job json store now j ch c s
  unfolding handle_job_post
  post_job now body j ch c s d = rw (handle_job_post, d) refl

  -- A POST whose body is a job, with an identifier under which no job runs, is answered with the
  -- status 201, the identifier in the location, and the exported fields of the job with the status
  -- queued and the time of the submission.
  pub handle_job_post_created :
      (now : Time) (body bs : Bytes) (j : Job) (ch c : ℕ) (s : Server Db)
      → json.to_job body ≡ some j
      → json.of_job (saved (submitted_job now j)) ≡ some bs
      → IsId j.id
      → lookup j.id s.running ≡ none
      → first_reply c s.sent ≡ none
      → (s' : Server Db) × (handle_job_post json store now body ch c s ≡ some (s', created j.id bs))
  unfolding submitted_job
  handle_job_post_created now body bs j ch c s d e p r f =
      let k = saved (submitted_job now j) in
      let (s1, s2, a, b) = start_then_get store now j ch c s p r f in
      (
        s2,
        post_job now body j ch c s d
            ∙ create_job_found now j ch c s s1 s2 (some k) a b
            ∙ ap (λ (x : Answer). some (s2, x)) (created_answer_ok k bs e),
      )
