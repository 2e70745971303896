-- ===== src/Server/Invariant/Checks.antt =====
-- `checkbeat` of cloudlus/server.go never panics on a sound server and leaves it sound.
use cloudlus.Base.{
  ◌≡◌, refl, sym, ◌∙◌, inl, inr, Option, none, some, List, [], ◌∷◌, lookup, arith, Bool-cases,
  Option-cases,
}
use cloudlus.Base.Int.{ltb_ℤ}
use cloudlus.Time.{Time, sub_time}
use cloudlus.Job.{JobId}
use cloudlus.Store.{JobStore}
use cloudlus.Server.{Server, beat_limit}
use cloudlus.Server.Beats.{check_one, check_beats, check_waiter, check_waiters, checkbeat}
use cloudlus.Server.Invariant.{has, IsSound}
use cloudlus.Server.Invariant.Steps.{has-some, has_of_some, requeue-IsSound}

-- A sound server whose operation succeeded.
abbrev pub IsSome : {D : Type 0} → Option (Server D) → Type 0
IsSome none = ⊥
IsSome (some s) = IsSound s

module _ (store : JobStore) where
  open store use {Db}

  pub check_one-IsSome :
      (now : Time) (i : JobId) (s : Server Db) → IsSound s → IsSome (check_one store now i s)
  unfolding check_one
  check_one-IsSome now i s v = elim (Option-cases (lookup i s.jobinfo)) [
    | inl e ↦ rw (e, check_one) v
    | inr (b, e) ↦ elim (Bool-cases (ltb_ℤ beat_limit (sub_time now b.time))) [
      | inl late ↦
          let (j, r) = has-some i s.running (sym (v.synced i) ∙ has_of_some i s.jobinfo e) in
          rw (e, check_one, late, r) (requeue-IsSound store i j s r v)
      | inr fine ↦ rw (e, check_one, fine) v
    ]
  ]

  pub chain-IsSome :
      (r : Option (Server Db)) (f : Server Db → Option (Server Db))
      → IsSome r
      → ((s : Server Db) → IsSound s → IsSome (f s))
      → IsSome (elim r [ none ↦ none | some s' ↦ f s' ])
  chain-IsSome none f h k = h
  chain-IsSome (some s) f h k = k s h

  pub check_beats-IsSome :
      (now : Time) (is : List JobId) (s : Server Db)
      → IsSound s
      → IsSome (check_beats store now is s)
  unfolding check_beats
  check_beats-IsSome now [] s v = v
  check_beats-IsSome now (i ∷ is) s v =
      chain-IsSome (check_one store now i s) _ (check_one-IsSome now i s v)
        (λ s' v'. check_beats-IsSome now is s' v')

  -- In a sound server no client waits for a dropped job.
  pub check_waiter_none : (i : JobId) (s : Server Db) → IsSound s → check_waiter store i s ≡ s
  unfolding check_waiter has
  check_waiter_none i s v = ground (arith, v.synced i, v.served i)

  pub check_waiters_none :
      (is : List JobId) (s : Server Db) → IsSound s → check_waiters store is s ≡ s
  unfolding check_waiters
  check_waiters_none [] s v = refl
  check_waiters_none (i ∷ is) s v = rw (check_waiter_none i s v) (check_waiters_none is s v)

  pub checkbeat-IsSome :
      (now : Time) (is ws : List JobId) (s : Server Db)
      → IsSound s
      → IsSome (checkbeat store now is ws s)
  unfolding checkbeat
  checkbeat-IsSome now is ws s v =
      chain-IsSome (check_beats store now is s) (λ s'. some (check_waiters store ws s'))
        (check_beats-IsSome now is s v) (λ s' v'. rw (check_waiters_none ws s' v') v')
