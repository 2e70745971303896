-- ===== src/Job.antt =====
-- cloudlus/job.go: the job record, its constructors and its small methods.
--
-- `Job` has the fields of the Go struct but `log`, the writer that a worker logs to. An identifier,
-- `[16]byte` in Go, is the number that its bytes spell, most significant first. The status, a
-- string in Go, is one of the four constants or any other text, as a job decoded from JSON may have.
-- Texts are measured in bytes by `len`. `uuid.NewRandom` is the argument `uid` of the constructors.
pub mod Execute
pub mod Archive
pub mod Process
pub mod Size
use Prim.Native.String
use Prim.Native.String.{len}
use text.Mathlib.Text.{◌==◌ as str_eq}
use cloudlus.Base.{
  ℕ, ◌+◌, ◌*◌, ◌<◌, String, Bool, true, false, ◌||◌, Option, none, some, List, [], ◌∷◌, ◌++◌, ◌==◌,
  length, if◌then◌else◌,
}
use cloudlus.Base.Int.{pos}
use cloudlus.Time.{Time, Duration, second}

abbrev pub JobId : Type 0
JobId = ℕ

abbrev pub WorkerId : Type 0
WorkerId = ℕ

-- The numbers of 16 bytes: 2 ^ 128 and what lies below.
abbrev pub id_limit : ℕ
id_limit = 340_282_366_920_938_463_463_374_607_431_768_211_456

abbrev pub IsId : JobId → Type 0
IsId i = i < id_limit

pub data Status : Type 0 where
  queued running complete failed : Status
  other : String → Status

pub record File : Type 0 where
  pub name : String
  pub contents : List ℕ
  pub size : ℕ
  pub cache : Bool

pub record Job : Type 0 where
  pub id : JobId
  pub cmd : List String
  pub infiles : List File
  pub outfiles : List File
  pub status : Status
  pub stdout : String
  pub stderr : String
  pub timeout : Duration
  pub submitted : Time
  pub fetched : Time
  pub started : Time
  pub cmd_dur : Duration
  pub finished : Time
  pub worker_id : WorkerId
  pub note : String
  pub dir : String
  pub wd : String
  pub whitelist : List String

abbrev pub is_queued : Status → Bool
is_queued queued = true
is_queued _ = false

abbrev pub is_complete : Status → Bool
is_complete complete = true
is_complete _ = false

abbrev pub is_failed : Status → Bool
is_failed failed = true
is_failed _ = false

-- Whether a list names an identifier: the inner loop of `cleanQueue` in cloudlus/server.go.
unfoldable pub named : JobId → List JobId → Bool
named i [] = false
named i (d ∷ ds) = if i == d then true else named i ds

-- `j.Done()`
abbrev pub done : Job → Bool
done j = is_complete j.status || is_failed j.status

abbrev pub default_infile : String
default_infile = "input.xml"

abbrev pub default_timeout : Duration
default_timeout = pos (600 * second)

unfoldable pub new_job : JobId → Job
new_job uid = record {
  id = uid;
  cmd = [];
  infiles = [];
  outfiles = [];
  status = other "";
  stdout = "";
  stderr = "";
  timeout = default_timeout;
  submitted = 0;
  fetched = 0;
  started = 0;
  cmd_dur = pos 0;
  finished = 0;
  worker_id = 0;
  note = "";
  dir = "";
  wd = "";
  whitelist = [];
}

unfoldable pub new_job_cmd : JobId → String → List String → Job
unfolding new_job
new_job_cmd uid cmd args = record (new_job uid) { cmd = cmd ∷ args }

unfoldable pub add_outfile : Job → String → Job
add_outfile j fname = record j {
  outfiles = j.outfiles ++ record { name = fname; contents = []; size = 0; cache = false } ∷ [];
}

unfoldable pub add_infile : Job → String → List ℕ → Job
add_infile j fname contents = record j { infiles = j.infiles ++ file ∷ [] }
  where
    file : File
    file = record { name = fname; contents = contents; size = length contents; cache = false }

unfoldable pub add_infile_cached : Job → String → List ℕ → Job
add_infile_cached j fname contents = record j { infiles = j.infiles ++ file ∷ [] }
  where
    file : File
    file = record { name = fname; contents = contents; size = length contents; cache = true }

unfoldable pub new_job_default : JobId → List ℕ → Job
unfolding new_job_cmd add_outfile add_infile
new_job_default uid contents =
    add_infile (add_outfile (new_job_cmd uid "cyclus" (default_infile ∷ [])) "cyclus.sqlite")
      default_infile contents

-- `j.Whitelist(cmds...)`
unfoldable pub add_whitelist : Job → List String → Job
add_whitelist j cmds = record j { whitelist = j.whitelist ++ cmds }

-- The bytes of the input files, and the recorded sizes of the output files.
unfoldable pub infile_bytes : List File → ℕ
infile_bytes [] = 0
infile_bytes (f ∷ fs) = length f.contents + infile_bytes fs

unfoldable pub outfile_bytes : List File → ℕ
outfile_bytes [] = 0
outfile_bytes (f ∷ fs) = f.size + outfile_bytes fs

-- `j.Size()`, with sums that stay far below 2 ^ 63.
unfoldable pub size : Job → ℕ
unfolding infile_bytes outfile_bytes
size j = len j.stdout + len j.stderr + infile_bytes j.infiles + outfile_bytes j.outfiles + 12 * 8

pub record JobStat : Type 0 where
  pub id : JobId
  pub cmd : List String
  pub status : Status
  pub size : ℕ
  pub stdout : String
  pub stderr : String
  pub submitted : Time
  pub started : Time
  pub finished : Time

unfoldable pub new_job_stat : Job → JobStat
new_job_stat j = record {
  id = j.id;
  cmd = j.cmd;
  status = j.status;
  size = size j;
  stdout = j.stdout;
  stderr = j.stderr;
  submitted = j.submitted;
  started = j.started;
  finished = j.finished;
}

-- The loop of `Execute` over the white list.
unfoldable pub listed : String → List String → Bool
listed cmd [] = false
listed cmd (w ∷ ws) = if str_eq cmd w then true else listed cmd ws
