-- ===== src/Tests/Databases.antt =====
-- The job database at concrete jobs.
use cloudlus.Base.{List, All, ◌+◌, ◌*◌, ◌≡◌, refl, true, none, some, [], ◌∷◌, inl, inr, arith}
use cloudlus.Time.{second, unix_nonneg, unix, sub_time}
use cloudlus.Base.Int.{pos}
use cloudlus.Bytes.{Bytes, bytes_less, bytes_equal, be_bytes, starts_with}
use cloudlus.Store.{saved}
use cloudlus.Db.{
  gc_loop, db_size, sum_sizes, is_purgeable, put_current, put_finished, current_key, id_bytes,
  finish_key, notjob, purge, put_job, get_job, gc,
}
use cloudlus.Db.Access.{get_job-put_job}
use cloudlus.Db.History.{latest, put_all, get_job-put_all}
use cloudlus.Db.Index.{is_current, is_pending, put_job-IsIndexed}
use cloudlus.Db.Gc.{gc_spares, gc_removes, IsShown, collects}
use cloudlus.Tests.Samples.{noon}
use cloudlus.Tests.Stores.{
  Memory, memory_db, memory_db-IsHealthy, test_codec, ended_job, ended_job-IsEncoded, no_entries,
  two_ended,
}

get_job-put_job_example :
    ((put_job memory_db test_codec (ended_job 1 noon) no_entries).1 ≡ true)
    × (get_job memory_db test_codec 1 (put_job memory_db test_codec (ended_job 1 noon) no_entries).0
        ≡ some (saved (ended_job 1 noon)))
unfolding ended_job
get_job-put_job_example =
    get_job-put_job memory_db test_codec memory_db-IsHealthy 1 (ended_job 1 noon) no_entries
      (ended_job-IsEncoded 1 noon) omega arith omega arith

get_job-put_all_example :
    get_job memory_db test_codec 1 (
      put_all memory_db test_codec (ended_job 1 noon ∷ ended_job 1 (noon + second) ∷ []) no_entries)
    ≡ latest 1
        (ended_job 1 noon ∷ ended_job 1 (noon + second) ∷ [])
        (get_job memory_db test_codec 1 no_entries)
unfolding ended_job
get_job-put_all_example =
    get_job-put_all memory_db test_codec memory_db-IsHealthy 1
      (ended_job 1 noon ∷ ended_job 1 (noon + second) ∷ []) no_entries
      (ended_job-IsEncoded 1 noon, (ended_job-IsEncoded 1 (noon + second), tt))
      (omega arith, (omega arith, tt)) omega arith

put_job-IsIndexed_example :
    is_current memory_db test_codec memory_db-IsHealthy 1
      (put_job memory_db test_codec (ended_job 1 noon) no_entries).0
    ≡ is_pending memory_db test_codec memory_db-IsHealthy 1
        (put_job memory_db test_codec (ended_job 1 noon) no_entries).0
unfolding ended_job is_current is_pending get_job
put_job-IsIndexed_example =
    put_job-IsIndexed memory_db test_codec memory_db-IsHealthy 1 (ended_job 1 noon) no_entries
      (ended_job-IsEncoded 1 noon) omega arith omega arith refl

-- The entries of `two_ended` after the first one.
abbrev two_ended_rest : List (Bytes × Bytes)
two_ended_rest =
    (id_bytes 2, 2 ∷ (noon + 60 * second) ∷ [])
    ∷ (finish_key (ended_job 1 noon), id_bytes 1)
    ∷ (finish_key (ended_job 2 (noon + 60 * second)), id_bytes 2)
    ∷ []

-- Job 1 put twice as complete, and then purged.
abbrev twice_ended : Memory
twice_ended =
    purge memory_db test_codec (id_bytes 1) (ended_job 1 (noon + 60 * second))
      (put_job memory_db test_codec (ended_job 1 (noon + 60 * second))
        (put_job memory_db test_codec (ended_job 1 noon) no_entries).0).0

-- What the iterator shows for a job under its own identifier, and for an index.
two_ended-IsShown : All (IsShown memory_db test_codec two_ended) (memory_db.entries [] two_ended).0
unfolding gc gc_loop db_size sum_sizes notjob starts_with is_purgeable purge put_job put_current
    put_finished finish_key current_key bytes_equal bytes_less be_bytes unix unix_nonneg ended_job
    sub_time
two_ended-IsShown = (
  inr (ended_job 1 noon, refl, refl, omega arith, refl),
  (
    inr (ended_job 2 (noon + 60 * second), refl, refl, omega arith, refl),
    (inl refl, (inl refl, tt)),
  ),
)

gc_spares_example :
    get_job memory_db test_codec 2
      (gc memory_db test_codec 0 (pos (90 * second)) (noon + 120 * second) two_ended).state
    ≡ some (ended_job 2 (noon + 60 * second))
unfolding get_job gc gc_loop db_size sum_sizes notjob starts_with is_purgeable purge put_job
    put_current put_finished finish_key current_key bytes_equal bytes_less be_bytes unix unix_nonneg
    ended_job sub_time
gc_spares_example =
    gc_spares memory_db test_codec memory_db-IsHealthy 0 (90 * second) (noon + 120 * second) 2
      (ended_job 2 (noon + 60 * second)) two_ended omega arith two_ended-IsShown refl
      (inr omega arith)

gc_removes_example :
    get_job memory_db test_codec 1
      (gc memory_db test_codec 0 (pos (90 * second)) (noon + 120 * second) two_ended).state
    ≡ none
unfolding collects gc gc_loop db_size sum_sizes notjob starts_with is_purgeable purge put_job
    put_current put_finished finish_key current_key bytes_equal bytes_less be_bytes unix unix_nonneg
    ended_job sub_time
gc_removes_example =
    gc_removes memory_db test_codec memory_db-IsHealthy 0 (90 * second) (noon + 120 * second)
      (ended_job 1 noon) (1 ∷ noon ∷ []) [] two_ended_rest two_ended omega arith two_ended-IsShown
      refl refl refl refl refl omega arith omega arith
