-- ===== src/Server/Rest.antt =====
-- The handlers of jobs in cloudlus/server_restful.go.
--
-- A handler takes what the request holds: the text of an identifier, which is the end of the path,
-- or the body. JSON is the argument `json`. `httperror` answers with the status 400 whatever code it
-- is given. The headers other than the location of a new job are left out.
pub mod Answers
use cloudlus.Base.{ℕ, Bool, Option, none, some, List, if◌then◌else◌}
use cloudlus.Bytes.{Bytes}
use cloudlus.Time.{Time}
use cloudlus.Ident.{decode_job_id}
use cloudlus.Job.{Job, JobId, JobStat, done, new_job_stat, new_job_default}
use cloudlus.Store.{JobStore}
use cloudlus.Server.{Server, Stats}
use cloudlus.Server.Dispatch.{Outcome, next, stopped, panicked}
use cloudlus.Server.Calls.{start, get_call, reset_call}

pub data Answer : Type 0 where
  bad_request : Answer
  ok : Bytes → Answer
  -- The status 201, with the identifier in the location.
  created : JobId → Bytes → Answer

pub record Json : Type 0 where
  pub of_job : Job → Option Bytes
  pub of_stat : JobStat → Option Bytes
  pub to_job : Bytes → Option Job

-- The answer with the data of `json.Marshal`.
unfoldable pub data_answer : (Bytes → Answer) → Option Bytes → Answer
data_answer f none = bad_request
data_answer f (some bs) = f bs

module _ (json : Json) where
  unfoldable pub job_answer : Option Job → Answer
  unfolding data_answer
  job_answer none = bad_request
  job_answer (some j) =
      data_answer ok (if done j then json.of_job j else json.of_stat (new_job_stat j))

  unfoldable pub stat_answer : Option Job → Answer
  unfolding data_answer
  stat_answer none = bad_request
  stat_answer (some j) = data_answer ok (json.of_stat (new_job_stat j))

  unfoldable pub created_answer : Option Job → Answer
  unfolding data_answer
  created_answer none = bad_request
  created_answer (some j) = data_answer (created j.id) (json.of_job j)

  module _ (store : JobStore) where
    open store use {Db}

    -- The lookup that two handlers start with. `none`: the dispatcher has ended.
    unfoldable pub answer_job :
        (Option Job → Answer) → Bytes → ℕ → Server Db → Option (Server Db × Answer)
    unfolding decode_job_id get_call
    answer_job f text ch s = elim (decode_job_id text) [
      | none ↦ some (s, bad_request)
      | some i ↦ elim (get_call store i ch s) [ none ↦ none | some r ↦ some (r.0, f r.1) ]
    ]

    -- `handleJob` for GET, and `handleJobStat`.
    unfoldable pub handle_job_get : Bytes → ℕ → Server Db → Option (Server Db × Answer)
    unfolding answer_job job_answer
    handle_job_get text ch s = answer_job job_answer text ch s

    unfoldable pub handle_job_stat : Bytes → ℕ → Server Db → Option (Server Db × Answer)
    unfolding answer_job stat_answer
    handle_job_stat text ch s = answer_job stat_answer text ch s

    -- The `Get` of `createJob`, after its `Start`.
    unfoldable pub created_job : JobId → ℕ → Outcome (Server Db) → Option (Server Db × Answer)
    unfolding get_call created_answer
    created_job i c (next s) = elim (get_call store i c s) [
      | none ↦ none
      | some r ↦ some (r.0, created_answer r.1)
    ]
    created_job i c (stopped s) = none
    created_job i c panicked = none

    -- `createJob`, with the channels of its two calls.
    unfoldable pub create_job : Time → Job → ℕ → ℕ → Server Db → Option (Server Db × Answer)
    unfolding start created_job
    create_job now j ch c s = created_job j.id c (start store now j ch s)

    -- `handleJob` for POST.
    unfoldable pub handle_job_post : Time → Bytes → ℕ → ℕ → Server Db → Option (Server Db × Answer)
    unfolding create_job
    handle_job_post now body ch c s = elim (json.to_job body) [
      | none ↦ some (s, bad_request)
      | some j ↦ create_job now j ch c s
    ]

    -- `handleSubmitInfile`, for a job with a new identifier.
    unfoldable pub handle_submit_infile :
        Time → JobId → Bytes → ℕ → ℕ → Server Db → Option (Server Db × Answer)
    unfolding create_job
    handle_submit_infile now id body ch c s = create_job now (new_job_default id body) ch c s

    -- `handleReset`
    unfoldable pub handle_reset : Server Db → Outcome (Server Db)
    unfolding reset_call
    handle_reset s = reset_call store s

-- `handleServerStats`, where `of_stats` is the JSON of the statistics.
unfoldable pub handle_server_stats : {D : Type 0} → (Stats → Option Bytes) → Server D → Answer
unfolding data_answer
handle_server_stats of_stats s = data_answer ok (of_stats s.stats)
