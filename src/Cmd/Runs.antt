-- ===== src/Cmd/Runs.antt =====
-- `run` and `retrieve` of cmd/cloudlus/main.go, and `submit` and `submitInfile`, which call `run`.
--
-- `Calls` says what the calls of the client, of JSON and of the disk return. The calls that `Start` of
-- cloudlus/client.go makes run beside the loop of `run`: a list of turns says in which order they
-- return and the loop receives. A call sets the error of the client and sends its job in one turn.
pub mod Saved
use cloudlus.Base.{
  Bool, true, false, not, ◌&&◌, Option, none, some, List, [], ◌∷◌, ◌++◌, String, if◌then◌else◌, map,
}
use cloudlus.Bytes.{Bytes, be_bytes}
use cloudlus.Ident.{hex_decode, copy_bytes, as_id}
use cloudlus.Job.{Job, JobId, new_job_default}
use cloudlus.Client.{start_result}

pub record Calls : Type 0 where
  pub read_file : String → Option Bytes
  pub stdin : Option Bytes
  pub decode : Bytes → Option Job
  pub encodes : Job → Bool
  pub dials : Bool
  pub submits : Job → Bool
  pub retrieve : JobId → Option Job
  pub outfiles : JobId → Option Bytes
  pub writes_result : JobId → Bool
  pub creates_outdata : JobId → Bool
  pub copies : Bytes → Bool

-- What the program does that can be seen: a line on the log, a file, or a line of output.
pub data Action : Type 0 where
  complain : Action
  save_result save_outdata : JobId → Action
  print_id print_result print_outdata : JobId → Action

-- `stdin`: the text is read if no file is named. `none` inside is nil, outside is `log.Fatal`.
unfoldable pub stdin_text : Calls → List String → Option (Option Bytes)
stdin_text c (n ∷ ns) = some none
stdin_text c [] = elim c.stdin [ none ↦ none | some bytes ↦ some (some bytes) ]

-- The loops of `submit` and `submitInfile` over file names, with what makes a job of a text.
unfoldable pub load_jobs : Calls → (Bytes → Option Job) → List String → Option (List Job)
load_jobs c make [] = some []
load_jobs c make (n ∷ ns) = elim (c.read_file n) [
  | none ↦ none
  | some bytes ↦ elim (make bytes) [
    | none ↦ none
    | some j ↦ elim (load_jobs c make ns) [ none ↦ none | some js ↦ some (j ∷ js) ]
  ]
]

unfoldable pub jobs_of : Calls → (Bytes → Option Job) → List String → Option (List Job)
unfolding stdin_text load_jobs
jobs_of c make names = elim (stdin_text c names) [
  | none ↦ none
  | some none ↦ load_jobs c make names
  | some (some bytes) ↦ elim (make bytes) [ none ↦ none | some j ↦ some (j ∷ []) ]
]

-- The jobs of `submit`, and those of `submitInfile`, whose identifiers come from `uid`.
unfoldable pub submit_jobs : Calls → List String → Option (List Job)
unfolding jobs_of
submit_jobs c names = jobs_of c c.decode names

unfoldable pub infile_jobs : Calls → (Bytes → JobId) → List String → Option (List Job)
unfolding jobs_of new_job_default
infile_jobs c uid names = jobs_of c (λ bytes. some (new_job_default (uid bytes) bytes)) names

-- `run` with the flag `async`: what it prints, and the jobs that the server took. The error of
-- `Submit` is ignored.
unfoldable pub taken : Calls → List Job → List Job
taken c [] = []
taken c (j ∷ js) = if c.submits j then j ∷ taken c js else taken c js

unfoldable pub run_async : Calls → List Job → Option (List Action × List Job)
unfolding taken
run_async c js = if c.dials then some (map (λ j. print_id j.id) js, taken c js) else none

-- The function that saves the output files, and the line that is printed after it.
unfoldable pub save_outfiles : Calls → JobId → List Action
save_outfiles c i = elim (c.outfiles i) [
  | none ↦ complain ∷ print_result i ∷ []
  | some bytes ↦
      if c.creates_outdata i && c.copies bytes
      then save_outdata i ∷ print_outdata i ∷ []
      else complain ∷ print_outdata i ∷ []
]

-- A received job: `none` is an end by `log.Fatal`, in `saveJob`.
unfoldable pub save_job : Calls → Job → Option (List Action)
unfolding save_outfiles
save_job c j =
    if not (c.encodes j)
    then none
    else if c.writes_result j.id
    then some (save_result j.id ∷ save_outfiles c j.id)
    else some (complain ∷ [])

pub data Turn : Type 0 where
  returns : Option Job → Turn
  receives : Turn

-- The error of the client, the channel, and what was done.
pub record Waits : Type 0 where
  pub failed : Bool
  pub channel : List (Option Job)
  pub actions : List Action

pub data Progress : Type 0 where
  going : Waits → Progress
  ended crashed : List Action → Progress

-- One round of the loop, with the value that it received. A nil job without an error is a panic.
unfoldable pub receive : Calls → Waits → Option Job → Progress
unfolding save_job
receive c w r = elim w.failed [
  | true ↦ going (record w { actions = w.actions ++ (complain ∷ []) })
  | false ↦ elim r [
    | none ↦ crashed w.actions
    | some j ↦ elim (save_job c j) [
      | none ↦ ended w.actions
      | some acts ↦ going (record w { actions = w.actions ++ acts })
    ]
  ]
]

-- The loop waits while the channel is empty.
unfoldable pub receive_first : Calls → Waits → List (Option Job) → Progress
unfolding receive
receive_first c w [] = going w
receive_first c w (r ∷ rs) = receive c (record w { channel = rs }) r

unfoldable pub turn : Calls → Waits → Turn → Progress
unfolding start_result receive_first
turn c w (returns answer) =
    (let (result, failed) = start_result answer in
      going (record w { failed = failed; channel = w.channel ++ (result ∷ []) }))
turn c w receives = receive_first c w w.channel

unfoldable pub run_turns : Calls → List Turn → Waits → Progress
unfolding turn
run_turns c [] w = going w
run_turns c (t ∷ ts) w = elim (turn c w t) [
  | going w' ↦ run_turns c ts w'
  | ended acts ↦ ended acts
  | crashed acts ↦ crashed acts
]

abbrev pub waiting : Waits
waiting = record { failed = false; channel = []; actions = [] }

-- `run` without the flag: `none` if the server cannot be dialled.
unfoldable pub run_sync : Calls → List Turn → Option Progress
unfolding run_turns
run_sync c ts = if c.dials then some (run_turns c ts waiting) else none

-- The loop of `retrieve`. An identifier is not checked for its length.
unfoldable pub retrieve_one : Calls → Bytes → Option (List Action)
unfolding hex_decode copy_bytes
retrieve_one c arg = elim (hex_decode arg) [
  | none ↦ some (complain ∷ [])
  | some uid ↦ elim (c.retrieve (as_id (copy_bytes (be_bytes 16 0) uid))) [
    | none ↦ some (complain ∷ [])
    | some j ↦
        if not (c.encodes j)
        then none
        else if c.writes_result j.id
        then some (save_result j.id ∷ [])
        else some (complain ∷ [])
  ]
]

unfoldable pub retrieve_all : Calls → List Bytes → Option (List Action)
unfolding retrieve_one
retrieve_all c [] = some []
retrieve_all c (a ∷ args) = elim (retrieve_one c a) [
  | none ↦ none
  | some done ↦ elim (retrieve_all c args) [ none ↦ none | some rest ↦ some (done ++ rest) ]
]

-- `retrieve`
unfoldable pub retrieve_jobs : Calls → List Bytes → Option (List Action)
unfolding retrieve_all
retrieve_jobs c [] = none
retrieve_jobs c (a ∷ args) = if c.dials then retrieve_all c (a ∷ args) else none
