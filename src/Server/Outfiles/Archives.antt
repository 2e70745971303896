-- ===== src/Server/Outfiles/Archives.antt =====
-- The output files of a job, from the worker that ran it to a client that asks for one by name:
-- cloudlus/job.go, cloudlus/server_restful.go and cloudlus/client.go together.
use cloudlus.Base.{
  ℕ, ◌≡◌, ap, ◌∙◌, Bool, true, false, Option, none, some, List, ◌∷◌, String, if◌then◌else◌,
}
use cloudlus.Bytes.{Bytes}
use cloudlus.Ident.{id_string}
use cloudlus.Job.{Job, JobId, IsId, is_complete}
use cloudlus.Job.Execute.{Env, execute}
use cloudlus.Job.Execute.Verdict.{is_complete_end}
use cloudlus.Job.Archive.{Zip, entries, get_outfile}
use cloudlus.Job.Archive.Found.{Keeps, has_file, get_outfile-entries}
use cloudlus.Store.{JobStore}
use cloudlus.Server.{Server}
use cloudlus.Server.Calls.{get_call}
use cloudlus.Server.Rest.{Answer}
use cloudlus.Server.Outfiles.{Files, handle_outfile_get, retrieve_outfile, retrieve_outfile_data}
use cloudlus.Server.Outfiles.Sent.{post_all, Spares, retrieve-push}

unzipped :
    (unzip : Job → Bytes → String → Option Bytes) (message body : Bytes) (a : Answer) (k : Job)
    (name : String)
    → retrieve_outfile message (some a) ≡ some body
    → retrieve_outfile_data unzip message (some a) k name ≡ unzip k body name
unfolding retrieve_outfile_data retrieve_outfile
unzipped unzip message body a k name e =
    ap
      (λ (o : Option Bytes). elim o as (λ x. Option Bytes) [
        | none ↦ none
        | some bytes ↦ unzip k bytes name
      ])
      e

-- For a job that ends as complete: once the worker has sent its archive to the end, and the server
-- could create the file, a client that asks for a file of the job by name gets what got into the
-- entry of this file if it is an output file of the job, and an error if not, whatever requests for
-- other jobs come between, if the dispatcher goes on and the archive library reads what it wrote.
pub retrieve_outfile_data-execute :
    (store : JobStore) (creates : JobId → Bool) (message : Bytes) (ps : List (Bytes × Bytes × Bool))
    (fs : Files) (ch : ℕ) (s : Server store.Db) (r : Server store.Db × Option Job) (zip : Zip)
    (e : Env) (contents : String → Bytes) (j k : Job) (name : String)
    → is_complete j.status ≡ false
    → is_complete_end (execute e j) ≡ true
    → Keeps zip (entries e contents j.outfiles)
    → IsId j.id
    → creates j.id ≡ true
    → Spares j.id ps
    → get_call store j.id ch s ≡ some r
    → let bytes = zip.pack (entries e contents j.outfiles) in
      let fs' = post_all creates ((id_string j.id, bytes, true) ∷ ps) fs in
      (a : Answer) × (handle_outfile_get store (id_string j.id) ch fs' s ≡ some (r.0, a))
      × (retrieve_outfile_data (get_outfile zip) message (some a) k name
          ≡ (if has_file name j.outfiles then some (contents name) else none))
retrieve_outfile_data-execute store creates message ps fs ch s r zip e contents j k name n h law i c
      sp g =
    let bytes = zip.pack (entries e contents j.outfiles) in
    let (a, answer, body) = retrieve-push store creates message bytes ps fs j.id ch s r i c sp g in
    (
      a,
      answer,
      unzipped (get_outfile zip) message bytes a k name body
          ∙ get_outfile-entries zip e contents j k name n h law,
    )
