-- ===== src/Server/Dashboard.antt =====
-- The handlers of cloudlus/dashboard.go, and `getjob` of cloudlus/server_restful.go.
--
-- `sort.Sort` and the templates of the pages are arguments. A handler that writes to a connection
-- which breaks is left out. The page of the default input file is its text.
use cloudlus.Base.{ℕ, Bool, Option, none, some, List, [], ◌∷◌, ◌++◌, String, ltb, map}
use cloudlus.Bytes.{Bytes, be_bytes}
use cloudlus.Ident.{hex_decode, copy_bytes, as_id, id_string}
use cloudlus.Time.{Time}
use cloudlus.Job.{Job, Status}
use cloudlus.Store.{JobStore}
use cloudlus.Server.{Server}
use cloudlus.Server.Calls.{get_call}

pub record JobData : Type 0 where
  pub id : Bytes
  pub status : Status
  pub submitted : Time
  pub host : String

unfoldable pub job_data : String → Job → JobData
unfolding id_string
job_data host j = record {
  id = id_string j.id;
  status = j.status;
  submitted = j.submitted;
  host = host;
}

-- `Less` of `BySubmitted`: the job that was submitted last comes first.
unfoldable pub submitted_later : Job → Job → Bool
submitted_later a b = ltb b.submitted a.submitted

abbrev pub ncompleted : ℕ
ncompleted = 100

-- A list of jobs that could not be read is empty.
unfoldable pub or_empty : Option (List Job) → List Job
or_empty none = []
or_empty (some js) = js

-- `dashboard`: the rows of its table. `current` and `recent` are those of the database.
unfoldable pub dashboard_rows :
    {D : Type 0}
    → ((Job → Job → Bool) → List Job → List Job)
    → (D → Option (List Job))
    → (ℕ → D → Option (List Job))
    → String
    → Server D
    → List JobData
unfolding job_data submitted_later or_empty
dashboard_rows sort current recent host s =
    map (job_data host) (
      sort submitted_later (or_empty (current s.alljobs) ++ or_empty (recent ncompleted s.alljobs)))

-- What a page comes to: an error, or its text.
pub data Page : Type 0 where
  failure : Page
  page : Bytes → Page

-- `dashboard`, `dashmain` and `dashreset` after their data is there: a template may fail.
unfoldable pub template_page : {A : Type 0} → (A → Option Bytes) → A → Page
template_page render a = elim (render a) [ none ↦ failure | some bytes ↦ page bytes ]

module _ (store : JobStore) where
  open store use {Db}

  -- `getjob`: an identifier is not checked for its length. `none` outside: the dispatcher has ended.
  unfoldable pub get_job_text : Bytes → ℕ → Server Db → Option (Server Db × Option Job)
  unfolding hex_decode copy_bytes get_call
  get_job_text text ch s = elim (hex_decode text) [
    | none ↦ some (s, none)
    | some uid ↦ get_call store (as_id (copy_bytes (be_bytes 16 0) uid)) ch s
  ]

  -- The text of the page for a job without input files.
  unfoldable pub infile_page : Bytes → Option Job → Page
  infile_page no_input none = failure
  infile_page no_input (some j) = elim j.infiles [ [] ↦ page no_input | f ∷ fs ↦ page f.contents ]

  -- `dashboardInfile`. `getjob` never returns nil without an error.
  unfoldable pub dashboard_infile : Bytes → Bytes → ℕ → Server Db → Option (Server Db × Page)
  unfolding get_job_text infile_page
  dashboard_infile no_input text ch s = elim (get_job_text text ch s) [
    | none ↦ none
    | some r ↦ some (r.0, infile_page no_input r.1)
  ]

  -- `dashboardOutput`, where `bytes_of` gives the bytes of a text.
  unfoldable pub output_page : (String → Bytes) → Option Job → Page
  output_page bytes_of none = failure
  output_page bytes_of (some j) = page (bytes_of j.stdout ++ bytes_of j.stderr)

  unfoldable pub dashboard_output :
      (String → Bytes) → Bytes → ℕ → Server Db → Option (Server Db × Page)
  unfolding get_job_text output_page
  dashboard_output bytes_of text ch s = elim (get_job_text text ch s) [
    | none ↦ none
    | some r ↦ some (r.0, output_page bytes_of r.1)
  ]
