-- ===== src/Tests/Calls.antt =====
-- Calls of the server, and the way of one job, at concrete values.
use cloudlus.Base.{◌≡◌, refl, none, some, [], ◌∷◌, lookup, arith}
use cloudlus.Job.{Job, complete}
use cloudlus.Store.{saved}
use cloudlus.Server.{Server, new_server, job_to, closed, is_banned}
use cloudlus.Server.Dispatch.{submit, fetch, push, next, start_job, dispatcher}
use cloudlus.Server.Lifecycle.{job_lifecycle}
use cloudlus.Server.Calls.{first_reply, run_call}
use cloudlus.Server.Calls.Runs.{run_call_returns}
use cloudlus.Tests.Samples.{MemoryDb, memory, empty_db, noon, echo}

-- The result of job 1.
abbrev result : Job
unfolding echo
result = record (echo 1) { status = complete; stdout = "1"; worker_id = 7 }

job_lifecycle_example :
    (s : Server MemoryDb) × (dispatcher memory
        (submit (echo 1) (some 11) ∷ fetch 7 21 noon noon ∷ push result ∷ [])
        (new_server empty_db [])
      ≡ next s)
    × (s.sent
        ≡ closed 11 ∷ job_to 11 (some result) ∷ job_to 21 (some (start_job noon (echo 1))) ∷ [])
    × (s.alljobs 1 ≡ some (saved result))
    × (s.queue ≡ [])
    × (lookup 1 s.running ≡ none)
    × (lookup 1 s.submitchans ≡ none)
unfolding echo result new_server is_banned lookup
job_lifecycle_example =
    job_lifecycle memory (echo 1) result 11 21 7 noon noon (new_server empty_db []) refl refl refl
      omega arith

run_call_returns_example :
    (s : Server MemoryDb) × (run_call memory noon
        (echo 1)
        11
        (fetch 7 21 noon noon ∷ push result ∷ [])
        (new_server empty_db [])
      ≡ some (s, some (some result)))
    × (s.alljobs 1 ≡ some (saved result))
unfolding echo result new_server is_banned lookup first_reply
run_call_returns_example =
    run_call_returns memory noon noon noon (echo 1) result 11 21 7 (new_server empty_db []) refl
      refl refl omega arith refl (λ e. omega (arith, e))
