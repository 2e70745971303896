-- ===== src/Tests/Rests.antt =====
-- Output files that are sent and asked for, at a concrete job.
use cloudlus.Base.{◌≡◌, ◌≢◌, refl, none, some, [], ◌∷◌, lookup, true, false, arith}
use cloudlus.Ident.{decode_job_id, id_string}
use cloudlus.Server.{Server, new_server, job_to, nbanned_workers}
use cloudlus.Server.Dispatch.{find_job}
use cloudlus.Server.Calls.{first_reply, reply_job, get_call}
use cloudlus.Server.Rest.{Answer}
use cloudlus.Server.Outfiles.{Files, handle_outfile_get, retrieve_outfile_data}
use cloudlus.Server.Outfiles.Sent.{post_all}
use cloudlus.Server.Outfiles.Archives.{retrieve_outfile_data-execute}
use cloudlus.Job.{Job}
use cloudlus.Job.Execute.{
  execute, checked, setup, enter_dir, write_files, launch, wait, after_select, collect,
  close_archive, conclude,
}
use cloudlus.Job.Execute.Verdict.{is_complete_end}
use cloudlus.Job.Archive.{Zip, entries, get_outfile}
use cloudlus.Job.Archive.Found.{has_file}
use cloudlus.Tests.Executions.{fine}
use cloudlus.Tests.Samples.{MemoryDb, memory, empty_db, echo}

abbrev no_files : Files
no_files i = none

-- The server after a lookup of a job that it does not know.
abbrev asked : Server MemoryDb
unfolding new_server
asked = record (new_server empty_db []) { sent = job_to 11 none ∷ [] }

asked_lem : get_call memory 258 11 (new_server empty_db []) ≡ some (asked, none)
unfolding get_call asked new_server lookup first_reply nbanned_workers find_job reply_job
asked_lem = refl

not_an_id : decode_job_id (b'x' ∷ []) ≢ some 258
unfolding decode_job_id
not_an_id q = cc

-- A job with one output file, and a library for its archive.
abbrev echo_out : Job
unfolding echo
echo_out = record (echo 258) {
  outfiles = record { name = "out.txt"; contents = []; size = 0; cache = false } ∷ [];
}

abbrev one_file : Zip
one_file = record {
  pack = λ es. b'P' ∷ [];
  read = λ bytes. some (("out.txt", some (7 ∷ 8 ∷ [])) ∷ []);
}

retrieve_outfile_data-execute_example :
    (a : Answer) × (handle_outfile_get memory
        (id_string 258)
        11
        (post_all (λ i. true) ((id_string 258, b'P' ∷ [], true) ∷ []) no_files)
        (new_server empty_db [])
      ≡ some (asked, a))
    × (retrieve_outfile_data (get_outfile one_file) (b'?' ∷ []) (some a) echo_out "out.txt"
        ≡ some (7 ∷ 8 ∷ []))
unfolding echo entries has_file is_complete_end execute checked setup enter_dir write_files launch
    wait after_select collect close_archive conclude
retrieve_outfile_data-execute_example =
    retrieve_outfile_data-execute memory (λ i. true) (b'?' ∷ []) [] no_files 11
      (new_server empty_db []) (asked, none) one_file fine (λ name. 7 ∷ 8 ∷ []) echo_out echo_out
      "out.txt" refl refl refl (omega arith) refl tt asked_lem
