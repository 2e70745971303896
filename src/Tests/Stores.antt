-- ===== src/Tests/Stores.antt =====
-- A key-value store in memory, and a codec for the jobs of the tests.
use cloudlus.Base.{◌+◌, ◌*◌, refl, true, Option, none, some, List, [], ◌∷◌, if◌then◌else◌}
use cloudlus.Time.{Time, second}
use cloudlus.Bytes.{Bytes, bytes_equal, bytes_less, starts_with}
use cloudlus.Job.{Job, JobId, complete, new_job_cmd}
use cloudlus.Db.{Leveldb, Codec, IsHealthy, IsEncoded, put_job}
use cloudlus.Tests.Samples.{echo, noon}

-- The keys in their order, and what is stored.
pub record Memory : Type 0 where
  pub keys : List Bytes
  pub value : Bytes → Option Bytes

abbrev place : Bytes → List Bytes → List Bytes
place k [] = k ∷ []
place k (l ∷ ls) =
    let rest = place k ls in
    if bytes_equal k l then l ∷ ls else if bytes_less k l then k ∷ l ∷ ls else l ∷ rest

abbrev without : Bytes → List Bytes → List Bytes
without k [] = []
without k (l ∷ ls) = let rest = without k ls in if bytes_equal k l then rest else l ∷ rest

abbrev listing : Bytes → (Bytes → Option Bytes) → List Bytes → List (Bytes × Bytes)
listing p f [] = []
listing p f (k ∷ ks) =
    let rest = listing p f ks in
    if starts_with p k then elim (f k) [ none ↦ rest | some v ↦ (k, v) ∷ rest ] else rest

abbrev pub memory_db : Leveldb
memory_db = record {
  S = Memory;
  read = λ k s. s.value k;
  write = λ k v s. (
    record { keys = place k s.keys; value = λ l. if bytes_equal k l then some v else s.value l },
    true,
  );
  delete = λ k s. (
    record { keys = without k s.keys; value = λ l. if bytes_equal k l then none else s.value l },
    true,
  );
  entries = λ p s. (listing p s.value s.keys, true);
}

abbrev pub memory_db-IsHealthy : IsHealthy memory_db
memory_db-IsHealthy = record {
  write_ok = λ k v s. refl;
  read-write = λ k l v s. refl;
  read-delete = λ k l s. refl;
}

-- A complete job, and the time at which it ended.
unfoldable pub ended_job : JobId → Time → Job
unfolding echo new_job_cmd
ended_job i t = record (echo i) { status = complete; finished = t }

abbrev pub test_codec : Codec
test_codec = record { encode = λ j. some (j.id ∷ j.finished ∷ []); decode = decode_test }
  where
    decode_test : Bytes → Option Job
    decode_test [] = none
    decode_test (i ∷ []) = none
    decode_test (i ∷ t ∷ bs) = some (ended_job i t)

abbrev pub no_entries : Memory
no_entries = record { keys = []; value = λ k. none }

pub ended_job-IsEncoded : (i : JobId) (t : Time) → IsEncoded test_codec (ended_job i t)
unfolding ended_job
ended_job-IsEncoded i t = (i ∷ t ∷ [], refl, refl)

-- Two jobs that ended a minute apart.
abbrev pub two_ended : Memory
two_ended =
    (put_job memory_db test_codec (ended_job 2 (noon + 60 * second))
      (put_job memory_db test_codec (ended_job 1 noon) no_entries).0).0
