-- ===== src/Db/Access.antt =====
-- `Put` and `Get` of cloudlus/util.go: what is put is found, and the database is a job store.
use cloudlus.Base.{◌≡◌, ◌≢◌, refl, true, some, ◌==◌, if◌then◌else◌, arith}
use cloudlus.Bytes.{Bytes}
use cloudlus.Job.{Job, JobId, IsId}
use cloudlus.Store.{JobStore, saved}
use cloudlus.Db.{
  Leveldb, Codec, IsHealthy, IsEncoded, id_bytes, finish_key, current_key, put_current,
  put_finished, put_job, get_job,
}
use cloudlus.Db.Keys.{bytes_equal-id_bytes, id_bytes-ne-current_key, id_bytes-ne-finish_key}

module _ (db : Leveldb) (codec : Codec) (healthy : IsHealthy db) where
  open db use {S, read, write, delete}

  put_current_ok : (j : Job) (s : S) → (put_current db codec j s).1 ≡ true
  unfolding put_current
  put_current_ok j s = ground (arith, healthy.write_ok (current_key j) (id_bytes j.id) s)

  put_finished_ok : (j : Job) (s : S) → (put_finished db codec j s).1 ≡ true
  unfolding put_finished
  put_finished_ok j s = ground (arith, healthy.write_ok (finish_key j) (id_bytes j.id) s)

  -- The three steps of `Put`, none of which fails.
  pub put_job_steps :
      (j : Job) (s : S)
      → IsEncoded codec j
      → (bs : Bytes) × (put_job db codec j s ≡ (
        (write (id_bytes j.id) bs (put_finished db codec j (put_current db codec j s).0).0).0,
        true,
      ))
        × (codec.decode bs ≡ some (saved j))
  unfolding put_job
  put_job_steps j s (bs, e, f) = (
    bs,
    ground (
      arith,
      e,
      put_current_ok j s,
      put_finished_ok j (put_current db codec j s).0,
      healthy.write_ok (id_bytes j.id) bs (put_finished db codec j (put_current db codec j s).0).0,
    ),
    f,
  )

  -- The indexes leave the entries of jobs alone.
  read-put_current :
      (i : JobId) (j : Job) (s : S)
      → read (id_bytes i) (put_current db codec j s).0 ≡ read (id_bytes i) s
  unfolding put_current
  read-put_current i j s = ground (
    arith,
    healthy.read-write (current_key j) (id_bytes i) (id_bytes j.id) s,
    healthy.read-delete (current_key j) (id_bytes i) s,
    id_bytes-ne-current_key i j,
  )

  read-put_finished :
      (i : JobId) (j : Job) (s : S)
      → read (id_bytes i) (put_finished db codec j s).0 ≡ read (id_bytes i) s
  unfolding put_finished
  read-put_finished i j s = ground (
    arith,
    healthy.read-write (finish_key j) (id_bytes i) (id_bytes j.id) s,
    id_bytes-ne-finish_key i j,
  )

  -- For a job that the codec keeps, `Put` succeeds, `Get` then finds the exported fields of the job, and finds under every other
  -- identifier what it found before.
  pub get_job-put_job :
      (i : JobId) (j : Job) (s : S)
      → IsEncoded codec j
      → IsId i
      → IsId j.id
      → ((put_job db codec j s).1 ≡ true)
        × (get_job db codec i (put_job db codec j s).0
            ≡ (if j.id == i then some (saved j) else get_job db codec i s))
  unfolding get_job
  get_job-put_job i j s c p q =
      let (bs, e, f) = put_job_steps j s c in
      let t = (put_finished db codec j (put_current db codec j s).0).0 in
      rw e (
        refl,
        ground (
          arith,
          f,
          healthy.read-write (id_bytes j.id) (id_bytes i) bs t,
          bytes_equal-id_bytes j.id i q p,
          read-put_finished i j (put_current db codec j s).0,
          read-put_current i j s,
        ),
      )

  -- The database is what the server asks for, over a store whose calls succeed and a codec that
  -- keeps all jobs.
  module _ (all_encoded : (j : Job) → IsEncoded codec j) where
    pub get_job-put_job_self :
        (j : Job) (s : S)
        → IsId j.id
        → get_job db codec j.id (put_job db codec j s).0 ≡ some (saved j)
    get_job-put_job_self j s p = ground (arith, get_job-put_job j.id j s (all_encoded j) p p)

    pub get_job-put_job_ne :
        (j : Job) (i : JobId) (s : S)
        → IsId j.id
        → IsId i
        → j.id ≢ i
        → get_job db codec i (put_job db codec j s).0 ≡ get_job db codec i s
    get_job-put_job_ne j i s p q n = ground (arith, get_job-put_job i j s (all_encoded j) q p)

    unfoldable pub job_store : JobStore
    unfolding put_job get_job
    job_store = record {
      Db = S;
      put = λ j s. (put_job db codec j s).0;
      get = get_job db codec;
      get-put = get_job-put_job_self;
      get-put_ne = get_job-put_job_ne;
    }
