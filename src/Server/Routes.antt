-- ===== src/Server/Routes.antt =====
-- The patterns that `NewServer` of cloudlus/server.go gives to its `http.ServeMux`.
use cloudlus.Base.{Bool, List, [], ◌∷◌, ◌++◌, String, if◌then◌else◌}

pub data Handler : Type 0 where
  dash_main dash_reset handle_reset handle_job handle_job_stat handle_submit_infile : Handler
  handle_outfiles handle_server_stats dashboard dashboard_infile dashboard_output : Handler
  dashboard_default_infile rpc_server : Handler

-- The patterns in the order in which they are registered. The calls of RPC come last, and only if
-- they share the address of the other requests; `rpc_path` is `rpc.DefaultRPCPath`.
unfoldable pub routes : String → Bool → List (String × Handler)
routes rpc_path same_addr =
    (("/", dash_main)
      ∷ ("/reset", dash_reset)
      ∷ ("/reset/", dash_reset)
      ∷ ("/api/v1/reset-queue", handle_reset)
      ∷ ("/api/v1/job", handle_job)
      ∷ ("/api/v1/job/", handle_job)
      ∷ ("/api/v1/job-stat/", handle_job_stat)
      ∷ ("/api/v1/job-infile", handle_submit_infile)
      ∷ ("/api/v1/job-outfiles/", handle_outfiles)
      ∷ ("/api/v1/server-stats/", handle_server_stats)
      ∷ ("/dashboard", dashboard)
      ∷ ("/dashboard/", dashboard)
      ∷ ("/dashboard/infile/", dashboard_infile)
      ∷ ("/dashboard/output/", dashboard_output)
      ∷ ("/dashboard/default-infile", dashboard_default_infile)
      ∷ [])
    ++ (if same_addr then (rpc_path, rpc_server) ∷ [] else [])
