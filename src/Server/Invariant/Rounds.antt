-- ===== src/Server/Invariant/Rounds.antt =====
-- Every round of the dispatcher keeps the server sound, and none panics.
use cloudlus.Base.{Option, none, some, List, [], ◌∷◌, All}
use cloudlus.Job.{Job}
use cloudlus.Store.{JobStore}
use cloudlus.Server.{Server, new_server}
use cloudlus.Server.Dispatch.{
  Event, tick, reset, kill, submit, retrieve, push, fetch, beat, Outcome, next, stopped, panicked,
  refresh, select, round, dispatcher,
}
use cloudlus.Server.Queue.{AllQueued}
use cloudlus.Server.Invariant.{IsSound, new_server-IsSound}
use cloudlus.Server.Invariant.Checks.{IsSome, checkbeat-IsSome}
use cloudlus.Server.Invariant.Requests.{
  IsLegal, sent-IsSound, heartbeat-IsSound, accept-IsSound, serve-IsSound, receive-IsSound,
  reset_queue-IsSound,
}

abbrev pub OutcomeSound : {D : Type 0} → Outcome (Server D) → Type 0
OutcomeSound (next s) = IsSound s
OutcomeSound (stopped s) = IsSound s
OutcomeSound panicked = ⊥

module _ (store : JobStore) where
  open store use {Db}

  outcome_of-IsSome :
      (r : Option (Server Db))
      → IsSome r
      → OutcomeSound (elim r [ none ↦ panicked | some s ↦ next s ])
  outcome_of-IsSome none h = h
  outcome_of-IsSome (some s) h = h

  -- One branch of the `select`, in a sound server.
  select-IsSound :
      (e : Event) (s : Server Db) → IsLegal e → IsSound s → OutcomeSound (select store e s)
  unfolding select
  select-IsSound (tick now is ws) s l v = outcome_of-IsSome _ (checkbeat-IsSome store now is ws s v)
  select-IsSound reset s l v = reset_queue-IsSound store s v
  select-IsSound kill s l v = v
  select-IsSound (submit j ch) s l v = accept-IsSound store j ch s l v
  select-IsSound (retrieve i ch) s l v = sent-IsSound store _ s v
  select-IsSound (push j) s l v = receive-IsSound store j s v
  select-IsSound (fetch w ch t u) s l v = serve-IsSound store w ch t u s v
  select-IsSound (beat now b) s l v = heartbeat-IsSound store now b s v

  pub refresh-IsSound : (s : Server Db) → IsSound s → IsSound (refresh store s)
  unfolding refresh
  refresh-IsSound s v = record {
    synced = v.synced;
    labelled = v.labelled;
    all_queued = v.all_queued;
    served = v.served;
  }

  pub round-IsSound :
      (e : Event) (s : Server Db) → IsLegal e → IsSound s → OutcomeSound (round store e s)
  unfolding round
  round-IsSound e s l v = select-IsSound e _ l (refresh-IsSound s v)

  chain-OutcomeSound :
      (o : Outcome (Server Db)) (f : Server Db → Outcome (Server Db))
      → OutcomeSound o
      → ((s : Server Db) → IsSound s → OutcomeSound (f s))
      → OutcomeSound (elim o [ next s' ↦ f s' | stopped s' ↦ stopped s' | panicked ↦ panicked ])
  chain-OutcomeSound (next s) f h k = k s h
  chain-OutcomeSound (stopped s) f h k = h
  chain-OutcomeSound panicked f h k = h

  dispatcher-IsSound_from :
      (es : List Event) (s : Server Db)
      → All IsLegal es
      → IsSound s
      → OutcomeSound (dispatcher store es s)
  unfolding dispatcher
  dispatcher-IsSound_from [] s l v = v
  dispatcher-IsSound_from (e ∷ es) s l v =
      chain-OutcomeSound (round store e s) (dispatcher store es) (round-IsSound e s l.0 v)
        (λ s' v'. dispatcher-IsSound_from es s' l.1 v')

  -- A server that starts on a queue of queued jobs never panics, whatever requests come, if each
  -- submitted job has the status queued and an identifier of 16 bytes, and in whatever order its maps
  -- are visited. In every state that it ends in, `jobinfo` and `running` have the same keys, a
  -- running job has its key and the status running, all jobs in the queue have the status queued,
  -- and the job of each waiting client is running or in the queue.
  pub dispatcher-IsSound :
      (d : Db) (q : List Job) (es : List Event)
      → AllQueued q
      → All IsLegal es
      → OutcomeSound (dispatcher store es (new_server d q))
  dispatcher-IsSound d q es h l = dispatcher-IsSound_from es _ l (new_server-IsSound d q h)
