-- ===== src/Server/Failures.antt =====
-- Which requests to the server of cloudlus/server.go leave the counts of failed jobs of workers alone.
use cloudlus.Base.{ℕ, ◌≡◌, refl, ◌∙◌, Option, none, some, List, [], ◌∷◌, arith}
use cloudlus.Job.{Job}
use cloudlus.Time.{Time}
use cloudlus.Store.{JobStore}
use cloudlus.Server.{Server, Beat}
use cloudlus.Server.Finish.{finish_job}
use cloudlus.Server.Beats.{
  check_one, check_beats, check_waiter, check_waiters, checkbeat, check_timeout, heartbeat,
}
use cloudlus.Server.Dispatch.{finish_all}

module _ (store : JobStore) where
  open store use {Db}

  pub finish_all_failures :
      (js : List Job) (s : Server Db) → (finish_all store js s).worker_failures ≡ s.worker_failures
  unfolding finish_all finish_job
  finish_all_failures [] s = refl
  finish_all_failures (j ∷ js) s = finish_all_failures js _

  -- An optional state has the failures of another state, if it is there.
  abbrev pub Keeps : Server Db → Option (Server Db) → Type 0
  Keeps s none = Unit
  Keeps s (some t) = t.worker_failures ≡ s.worker_failures

  pub check_one-Keeps : (now : Time) (i : ℕ) (s : Server Db) → Keeps s (check_one store now i s)
  unfolding check_one
  check_one-Keeps now i s = ground arith

  pub chain-Keeps :
      (s : Server Db) (r : Option (Server Db)) (f : Server Db → Option (Server Db))
      → Keeps s r
      → ((t : Server Db) → Keeps t (f t))
      → Keeps s (elim r [ none ↦ none | some s' ↦ f s' ])
  chain-Keeps s none f h k = tt
  chain-Keeps s (some t) f h k = compose t (f t) h (k t)
    where
      compose :
          (t : Server Db) (r : Option (Server Db))
          → t.worker_failures ≡ s.worker_failures
          → Keeps t r
          → Keeps s r
      compose t none h k = tt
      compose t (some u) h k = k ∙ h

  pub check_beats-Keeps :
      (now : Time) (is : List ℕ) (s : Server Db) → Keeps s (check_beats store now is s)
  unfolding check_beats
  check_beats-Keeps now [] s = refl
  check_beats-Keeps now (i ∷ is) s =
      chain-Keeps s (check_one store now i s) (check_beats store now is) (check_one-Keeps now i s)
        (check_beats-Keeps now is)

  pub check_waiters_failures :
      (is : List ℕ) (s : Server Db) → (check_waiters store is s).worker_failures ≡ s.worker_failures
  unfolding check_waiters check_waiter
  check_waiters_failures [] s = refl
  check_waiters_failures (i ∷ is) s =
      ground (arith, check_waiters_failures is (check_waiter store i s))

  pub checkbeat-Keeps :
      (now : Time) (is ws : List ℕ) (s : Server Db) → Keeps s (checkbeat store now is ws s)
  unfolding checkbeat
  checkbeat-Keeps now is ws s =
      chain-Keeps s (check_beats store now is s) (λ t. some (check_waiters store ws t))
        (check_beats-Keeps now is s) (check_waiters_failures ws)

  pub heartbeat_failures :
      (now : Time) (b : Beat) (s : Server Db)
      → (heartbeat store now b s).worker_failures ≡ s.worker_failures
  unfolding heartbeat check_timeout finish_job
  heartbeat_failures now b s = ground arith
