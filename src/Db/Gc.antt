-- ===== src/Db/Gc.antt =====
-- Garbage collection, `GC` of cloudlus/util.go.
use cloudlus.Base.{
  ℕ, ◌+◌, ◌-◌, ◌≤◌, ◌<◌, ◌≡◌, refl, ap, ◌⊎◌, inl, inr, Bool, true, false, not, ◌&&◌, Option, none,
  some, List, [], ◌∷◌, ◌++◌, ◌==◌, ==_iff, ltb, if◌then◌else◌, All, arith, Option-cases,
}
use cloudlus.Base.Int.{pos}
use cloudlus.Time.{int64_half, sub_time, Time, Duration}
use cloudlus.Bytes.{Bytes}
use cloudlus.Job.{done, Job, JobId, IsId}
use cloudlus.Db.{
  Leveldb, Codec, IsHealthy, GcResult, id_bytes, notjob, get_job, is_purgeable, purge, db_size,
  count_jobs, gc_loop, gc,
}
use cloudlus.Db.Index.{get_job-purge}

-- The number of jobs that a collection has looked at.
abbrev pub looked_at : {S : Type 0} → GcResult S → Option ℕ
looked_at r = elim r.nremain [ none ↦ none | some n ↦ some (r.npurged + n) ]

module _ (db : Leveldb) (codec : Codec) where
  open db use {S, entries}

  gc_loop_counts :
      (now : Time) (age : Duration) (es : List (Bytes × Bytes)) (fine : Bool) (s : S) (np nr : ℕ)
      → let r = gc_loop db codec now age es fine s np nr in
        (r.nremain ≡ none) ⊎ (looked_at r ≡ some (np + nr + count_jobs db codec es))
  unfolding gc_loop count_jobs
  gc_loop_counts now age [] fine s np nr = inr (ground arith)
  gc_loop_counts now age ((k, v) ∷ es) fine s np nr = elim (Option-cases (codec.decode v)) [
    | inl e ↦ ground (arith, e, gc_loop_counts now age es fine s np nr)
    | inr (j, e) ↦ ground (
      arith,
      e,
      gc_loop_counts now age es fine s np nr,
      gc_loop_counts now age es fine s np (nr + 1),
      gc_loop_counts now age es fine (purge db codec k j s) (np + 1) nr,
    )
  ]

  -- A collection whose remaining jobs are counted has looked at every job that the database listed:
  -- those it purged and those that remain make up the number of jobs.
  gc_counts :
      (limit : ℕ) (age : Duration) (now : Time) (s : S) (n : ℕ)
      → let r = gc db codec limit age now s in
        r.nremain ≡ some n → r.npurged + n ≡ count_jobs db codec (entries [] s).0
  unfolding gc
  gc_counts limit age now s n h = elim (Option-cases (db_size db codec s)) [
    | inl e ↦ ground (arith, e, h)
    | inr (m, e) ↦
        ground (arith, e, h, gc_loop_counts now age (entries [] s).0 (entries [] s).1 s 0 0)
  ]

  -- What the iterator shows in a state: an entry of an index, or that of a job under its own
  -- identifier, which reading the key gives too.
  abbrev pub IsShown : S → Bytes × Bytes → Type 0
  IsShown s (k, v) =
      (notjob k ≡ true)
      ⊎ ((j : Job) × (codec.decode v ≡ some j)
          × (k ≡ id_bytes j.id)
          × IsId j.id
          × (db.read k s ≡ some v))

  -- Whether an entry holds a job with an identifier that may be removed.
  unfoldable pub expires : Time → Duration → JobId → Bytes × Bytes → Bool
  expires now age i (k, v) = if notjob k then false else elim (codec.decode v) [
    | none ↦ false
    | some j ↦ i == j.id && is_purgeable db codec now age j
  ]

  unfoldable pub any_expires : Time → Duration → JobId → List (Bytes × Bytes) → Bool
  any_expires now age i [] = false
  any_expires now age i (e ∷ es) = if expires now age i e then true else any_expires now age i es

  module _ (healthy : IsHealthy db) where
    gc_loop_effect :
        (now : Time) (age : Duration) (i : JobId) (es : List (Bytes × Bytes)) (fine : Bool)
        (s0 s : S) (np nr : ℕ)
        → IsId i
        → All (IsShown s0) es
        → get_job db codec i (gc_loop db codec now age es fine s np nr).state
          ≡ (if any_expires now age i es then none else get_job db codec i s)
    unfolding gc_loop any_expires expires
    gc_loop_effect now age i [] fine s0 s np nr p h = refl
    gc_loop_effect now age i ((k, v) ∷ es) fine s0 s np nr p (inl index, h) =
        ground (arith, gc_loop_effect now age i es fine s0 s np nr p h)
    gc_loop_effect now age i ((k, v) ∷ es) fine s0 s np nr p (inr (j, e, own, q, r), h) = ground (
      arith,
      e,
      own,
      gc_loop_effect now age i es fine s0 s np nr p h,
      gc_loop_effect now age i es fine s0 s np (nr + 1) p h,
      gc_loop_effect now age i es fine s0 (purge db codec k j s) (np + 1) nr p h,
      get_job-purge db codec healthy i j.id j s p q,
      ==_iff i j.id,
      ==_iff j.id i,
    )

    -- Whether a collection looks at the jobs at all.
    unfoldable pub collects : ℕ → S → Bool
    unfolding db_size
    collects limit s = elim (db_size db codec s) [ none ↦ false | some n ↦ not (ltb n limit) ]

    gc_effect :
        (limit : ℕ) (age : Duration) (now : Time) (i : JobId) (s : S)
        → IsId i
        → All (IsShown s) (entries [] s).0
        → get_job db codec i (gc db codec limit age now s).state ≡ (
            if collects limit s && any_expires now age i (entries [] s).0
            then none
            else get_job db codec i s)
    unfolding gc collects
    gc_effect limit age now i s p h =
        ground (arith, gc_loop_effect now age i (entries [] s).0 (entries [] s).1 s s 0 0 p h)

    spared :
        (now : Time) (age : Duration) (i : JobId) (j : Job) (s : S) (es : List (Bytes × Bytes))
        → All (IsShown s) es
        → get_job db codec i s ≡ some j
        → is_purgeable db codec now age j ≡ false
        → any_expires now age i es ≡ false
    unfolding any_expires expires get_job
    spared now age i j s [] h g n = refl
    spared now age i j s ((k, v) ∷ es) (inl index, h) g n =
        ground (arith, spared now age i j s es h g n)
    spared now age i j s ((k, v) ∷ es) (inr (m, e, own, q, r), h) g n =
        ground (arith, e, own, q, r, g, n, spared now age i j s es h g n, ==_iff i m.id)

    spared_purgeable :
        (a : ℕ) (now : Time) (j : Job)
        → (done j ≡ false) ⊎ (now ≤ j.finished + a)
        → is_purgeable db codec now (pos a) j ≡ false
    unfolding is_purgeable sub_time
    spared_purgeable a now j (inl h) = ground (arith, h)
    spared_purgeable a now j (inr h) = grind (arith, h)

    -- When every entry under a key that does not look like that of an index is a job that decodes
    -- under the key of its own identifier, garbage collection loses no job that is not done or that
    -- ended at most the purge age ago: what was found under an identifier is found there afterwards.
    pub gc_spares :
        (limit a : ℕ) (now : Time) (i : JobId) (j : Job) (s : S)
        → IsId i
        → All (IsShown s) (entries [] s).0
        → get_job db codec i s ≡ some j
        → (done j ≡ false) ⊎ (now ≤ j.finished + a)
        → get_job db codec i (gc db codec limit (pos a) now s).state ≡ some j
    gc_spares limit a now i j s p h g n = ground (
      arith,
      gc_effect limit (pos a) now i s p h,
      spared now (pos a) i j s (entries [] s).0 h g (spared_purgeable a now j n),
    )

    found :
        (now : Time) (age : Duration) (j : Job) (k v : Bytes) (before after : List (Bytes × Bytes))
        → notjob k ≡ false
        → codec.decode v ≡ some j
        → is_purgeable db codec now age j ≡ true
        → any_expires now age j.id (before ++ ((k, v) ∷ after)) ≡ true
    unfolding any_expires expires
    found now age j k v [] after a b c = ground (arith, ==_iff j.id j.id)
    found now age j k v (e ∷ before) after a b c =
        ground (arith, found now age j k v before after a b c)

    due_purgeable :
        (a : ℕ) (now : Time) (j : Job)
        → done j ≡ true
        → j.finished + a < now
        → a < int64_half - 1
        → is_purgeable db codec now (pos a) j ≡ true
    unfolding is_purgeable sub_time
    due_purgeable a now j d h k = grind (arith, d)

    -- When the database has at least `limit` bytes, and every entry under a key that does not look
    -- like that of an index is a job that decodes under the key of its own identifier, garbage
    -- collection removes every job that is done, ended longer ago than the purge age, which is below
    -- the largest duration, and is among those entries.
    pub gc_removes :
        (limit a : ℕ) (now : Time) (j : Job) (v : Bytes) (before after : List (Bytes × Bytes))
        (s : S)
        → IsId j.id
        → All (IsShown s) (entries [] s).0
        → collects limit s ≡ true
        → (entries [] s).0 ≡ before ++ ((id_bytes j.id, v) ∷ after)
        → notjob (id_bytes j.id) ≡ false
        → codec.decode v ≡ some j
        → done j ≡ true
        → j.finished + a < now
        → a < int64_half - 1
        → get_job db codec j.id (gc db codec limit (pos a) now s).state ≡ none
    gc_removes limit a now j v before after s p h c m n d e u k = ground (
      arith,
      gc_effect limit (pos a) now j.id s p h,
      found now (pos a) j (id_bytes j.id) v before after n d (due_purgeable a now j e u k),
      ap (any_expires now (pos a) j.id) m,
    )
