-- ===== src/Server/Outfiles.antt =====
-- The output files that a server keeps: `handleOutfiles` of cloudlus/server_restful.go, and
-- `PushOutfile`, `RetrieveOutfile` and `RetrieveOutfileData` of cloudlus/client.go.
--
-- The name of a file is made of the identifier, so the files are a map from identifiers. The body of
-- a request is what arrives of it, and whether it arrives without an error. A connection that breaks
-- while a file is sent is left out.
pub mod Sent
pub mod Archives
use cloudlus.Base.{
  ℕ, Bool, true, false, not, Option, none, some, List, [], ◌∷◌, ◌==◌, String, if◌then◌else◌,
}
use cloudlus.Bytes.{Bytes}
use cloudlus.Ident.{decode_job_id, id_string}
use cloudlus.Job.{Job, JobId}
use cloudlus.Store.{JobStore}
use cloudlus.Server.{Server}
use cloudlus.Server.Calls.{get_call}
use cloudlus.Server.Rest.{Answer, bad_request, ok, created}

abbrev pub Files : Type 0
Files = JobId → Option Bytes

unfoldable pub put_file : JobId → Bytes → Files → Files
put_file i bytes fs k = if k == i then some bytes else fs k

-- The request for POST. A body that breaks off leaves what came of it in the file.
unfoldable pub handle_outfile_post : (JobId → Bool) → Bytes → Bytes × Bool → Files → Files × Answer
unfolding decode_job_id put_file
handle_outfile_post creates text body fs = elim (decode_job_id text) [
  | none ↦ (fs, bad_request)
  | some i ↦
      if not (creates i)
      then (fs, bad_request)
      else (put_file i body.0 fs, if body.1 then ok [] else bad_request)
]

unfoldable pub file_answer : Option Bytes → Answer
file_answer none = bad_request
file_answer (some bytes) = ok bytes

-- The answer for a file, once the lookup of the job has returned.
unfoldable pub file_reply : {A B : Type 0} → Answer → Option (A × B) → Option (A × Answer)
file_reply a none = none
file_reply a (some r) = some (r.0, a)

-- The request for GET. The job is looked up for the log only. `none`: the dispatcher has ended.
unfoldable pub handle_outfile_get :
    (store : JobStore) → Bytes → ℕ → Files → Server store.Db → Option (Server store.Db × Answer)
unfolding decode_job_id get_call file_answer file_reply
handle_outfile_get store text ch fs s = elim (decode_job_id text) [
  | none ↦ some (s, bad_request)
  | some i ↦ file_reply (file_answer (fs i)) (get_call store i ch s)
]

-- The body of an answer; `message` is the text of an error.
unfoldable pub body_of : Bytes → Answer → Bytes
body_of message bad_request = message
body_of message (ok bytes) = bytes
body_of message (created i bytes) = bytes

-- `PushOutfile`: whether it returns no error. `none` is a call that failed, as one does whose body
-- breaks off. The status of an answer is not looked at.
unfoldable pub push_outfile : Option Answer → Bool
push_outfile none = false
push_outfile (some a) = true

-- `RetrieveOutfile`: what can be read, or its error.
unfoldable pub retrieve_outfile : Bytes → Option Answer → Option Bytes
unfolding body_of
retrieve_outfile message none = none
retrieve_outfile message (some a) = some (body_of message a)

-- `RetrieveOutfileData`, where `unzip` is `GetOutfile` with the reading of its result.
unfoldable pub retrieve_outfile_data :
    (Job → Bytes → String → Option Bytes) → Bytes → Option Answer → Job → String → Option Bytes
unfolding retrieve_outfile
retrieve_outfile_data unzip message answer j fname = elim (retrieve_outfile message answer) [
  | none ↦ none
  | some bytes ↦ unzip j bytes fname
]
