-- ===== src/Db/Index.antt =====
-- The two indexes of cloudlus/util.go: the current jobs, and the finished jobs by time.
use cloudlus.Base.{
  ◌/◌, ◌<◌, ◌≡◌, ◌∙◌, Bool, true, false, not, none, some, List, [], ◌∷◌, ◌++◌, ◌==◌, ==_iff,
  if◌then◌else◌, arith,
}
use cloudlus.Time.{second, int64_half, unix_nonneg}
use cloudlus.Bytes.{bytes_equal}
use cloudlus.Job.{named, Job, JobId, IsId, done}
use cloudlus.Db.{
  Leveldb, Codec, IsHealthy, IsEncoded, curr_prefix, id_bytes, finish_key, current_key, put_current,
  put_finished, put_job, get_job, get_all, purge,
}
use cloudlus.Db.Keys.{
  bytes_equal_refl, bytes_equal-id_bytes, bytes_equal-current_key, id_bytes-ne-current_key,
  id_bytes-ne-finish_key, finish_key-ne, finish_key-ne-id_bytes, finish_key-ne-current_key,
  current_key-ne-finish_key, current_key-ne-id_bytes,
}
use cloudlus.Db.Access.{put_job_steps, get_job-put_job}

module _ (db : Leveldb) (codec : Codec) (healthy : IsHealthy db) where
  open db use {S, read, write, delete}

  -- Whether the index of current jobs lists an identifier.
  unfoldable pub is_current : JobId → S → Bool
  is_current i s = elim (read (curr_prefix ++ id_bytes i) s) [ none ↦ false | some v ↦ true ]

  -- Whether the database has a job that is not done.
  unfoldable pub is_pending : JobId → S → Bool
  is_pending i s = elim (get_job db codec i s) [ none ↦ false | some j ↦ not (done j) ]

  is_current-put_current :
      (i : JobId) (j : Job) (s : S)
      → IsId i
      → IsId j.id
      → is_current i (put_current db codec j s).0
        ≡ (if j.id == i then not (done j) else is_current i s)
  unfolding is_current put_current current_key
  is_current-put_current i j s p q = ground (
    arith,
    healthy.read-write (current_key j) (curr_prefix ++ id_bytes i) (id_bytes j.id) s,
    healthy.read-delete (current_key j) (curr_prefix ++ id_bytes i) s,
    bytes_equal-current_key j i q p,
  )

  is_current-put_job :
      (i : JobId) (j : Job) (s : S)
      → IsEncoded codec j
      → IsId i
      → IsId j.id
      → is_current i (put_job db codec j s).0 ≡ (if j.id == i then not (done j) else is_current i s)
  unfolding is_current put_finished
  is_current-put_job i j s c p q =
      let (bs, e, f) = put_job_steps db codec healthy j s c in
      let t = (put_current db codec j s).0 in
      rw e (
        ground (
          arith,
          healthy.read-write (id_bytes j.id) (curr_prefix ++ id_bytes i) bs
              (put_finished db codec j t).0,
          healthy.read-write (finish_key j) (curr_prefix ++ id_bytes i) (id_bytes j.id) t,
          current_key-ne-id_bytes i j.id,
          current_key-ne-finish_key i j,
          is_current-put_current i j s p q,
        ))

  -- If the index of current jobs lists an identifier exactly when the database has a job under it
  -- that is not done, it does so after a `Put` of a job that the codec keeps.
  pub put_job-IsIndexed :
      (i : JobId) (j : Job) (s : S)
      → IsEncoded codec j
      → IsId i
      → IsId j.id
      → is_current i s ≡ is_pending i s
      → is_current i (put_job db codec j s).0 ≡ is_pending i (put_job db codec j s).0
  unfolding is_pending
  put_job-IsIndexed i j s c p q h =
      ground
        (arith, is_current-put_job i j s c p q, (get_job-put_job db codec healthy i j s c p q).1)

  read_finish_key-put_job :
      (j k : Job) (s : S)
      → IsEncoded codec k
      → bytes_equal (finish_key k) (finish_key j) ≡ false
      → read (finish_key j) (put_job db codec k s).0 ≡ read (finish_key j) s
  unfolding put_finished put_current
  read_finish_key-put_job j k s c n =
      let (bs, e, f) = put_job_steps db codec healthy k s c in
      let t = (put_current db codec k s).0 in
      rw e (
        ground (
          arith,
          n,
          healthy.read-write (id_bytes k.id) (finish_key j) bs (put_finished db codec k t).0,
          healthy.read-write (finish_key k) (finish_key j) (id_bytes k.id) t,
          healthy.read-write (current_key k) (finish_key j) (id_bytes k.id) s,
          healthy.read-delete (current_key k) (finish_key j) s,
          finish_key-ne-id_bytes j k.id,
          finish_key-ne-current_key j k,
        ))

  read_finish_key-put_job_self :
      (j : Job) (s : S)
      → IsEncoded codec j
      → done j ≡ true
      → unix_nonneg j.finished ≡ true
      → read (finish_key j) (put_job db codec j s).0 ≡ some (id_bytes j.id)
  unfolding put_finished
  read_finish_key-put_job_self j s c d u =
      let (bs, e, f) = put_job_steps db codec healthy j s c in
      let t = (put_current db codec j s).0 in
      rw e (
        ground (
          arith,
          healthy.read-write (id_bytes j.id) (finish_key j) bs (put_finished db codec j t).0,
          healthy.read-write (finish_key j) (finish_key j) (id_bytes j.id) t,
          finish_key-ne-id_bytes j j.id,
          bytes_equal_refl (finish_key j),
        ))

  read_finish_key-purge :
      (j k : Job) (i : JobId) (s : S)
      → bytes_equal (finish_key k) (finish_key j) ≡ false
      → read (finish_key j) (purge db codec (id_bytes i) k s) ≡ read (finish_key j) s
  unfolding purge
  read_finish_key-purge j k i s n =
      let t = (delete (id_bytes i) s).0 in
      ground (
        arith,
        healthy.read-delete (current_key k) (finish_key j) (delete (finish_key k) t).0,
        healthy.read-delete (finish_key k) (finish_key j) t,
        healthy.read-delete (id_bytes i) (finish_key j) s,
        finish_key-ne-id_bytes j i,
        finish_key-ne-current_key j k,
      )

  pub get_job-purge :
      (i m : JobId) (k : Job) (s : S)
      → IsId i
      → IsId m
      → get_job db codec i (purge db codec (id_bytes m) k s)
        ≡ (if m == i then none else get_job db codec i s)
  unfolding get_job purge
  get_job-purge i m k s p q =
      let t = (delete (id_bytes m) s).0 in
      ground (
        arith,
        healthy.read-delete (current_key k) (id_bytes i) (delete (finish_key k) t).0,
        healthy.read-delete (finish_key k) (id_bytes i) t,
        healthy.read-delete (id_bytes m) (id_bytes i) s,
        id_bytes-ne-current_key i k,
        id_bytes-ne-finish_key i k,
        bytes_equal-id_bytes m i q p,
      )

  get_all_missing :
      (i : JobId) (is : List JobId) (s : S)
      → get_job db codec i s ≡ none
      → named i is ≡ true
      → get_all db codec is s ≡ none
  unfolding get_all named
  get_all_missing i [] s h n = cc
  get_all_missing i (k ∷ is) s h n = ground (arith, ==_iff i k, get_all_missing i is s h)

  -- A job that is put as done twice, in different seconds, and then removed by garbage collection
  -- leaves its first entry in the index of finished jobs, which names a job that the database no
  -- longer has; so every listing of jobs that includes this entry fails.
  pub stale_finish_entry :
      (j k : Job) (is : List JobId) (s : S)
      → IsEncoded codec j
      → IsEncoded codec k
      → IsId j.id
      → k.id ≡ j.id
      → done j ≡ true
      → unix_nonneg j.finished ≡ true
      → j.finished / second < k.finished / second
      → k.finished / second < int64_half
      → named j.id is ≡ true
      → let s' = purge db codec (id_bytes k.id) k (put_job db codec k (put_job db codec j s).0).0 in
        (read (finish_key j) s' ≡ some (id_bytes j.id))
        × (get_job db codec j.id s' ≡ none)
        × (get_all db codec is s' ≡ none)
  stale_finish_entry j k is s cj ck p same d u lt small n =
      let ne = finish_key-ne j k u lt small in
      let s1 = (put_job db codec j s).0 in
      let s2 = (put_job db codec k s1).0 in
      let gone : get_job db codec j.id (purge db codec (id_bytes k.id) k s2) ≡ none =
        ground (arith, get_job-purge j.id k.id k s2 p (rw same p)) in
      (
        read_finish_key-purge j k k.id s2 ne
            ∙ read_finish_key-put_job j k s1 ck ne
            ∙ read_finish_key-put_job_self j s cj d u,
        gone,
        get_all_missing j.id is _ gone n,
      )
