-- ===== src/Db.antt =====
-- The job database of cloudlus/util.go, over a key-value store.
--
-- The store (goleveldb) and JSON are no code of this program: they are the records `Leveldb` and
-- `Codec` that the definitions take. Each call of the store says whether it succeeded, and an
-- iterator gives the entries that it saw and whether it met no error. What the results rely on is
-- in `IsHealthy` and `IsEncoded`. `os.Remove` of output files is left out.
pub mod Open
pub mod Keys
pub mod Access
pub mod History
pub mod Index
pub mod Gc
use cloudlus.Base.{
  ℕ, zero, suc, ◌+◌, ◌≡◌, Bool, true, false, not, ◌&&◌, ◌||◌, Option, none, some, List, [], ◌∷◌,
  ◌++◌, ◌==◌, ltb, if◌then◌else◌, length, keep,
}
use cloudlus.Base.Int.{pos, ltb_ℤ}
use cloudlus.Time.{Time, Duration, sub_time, unix, unix_nonneg}
use cloudlus.Bytes.{Bytes, be_bytes, be_number, bytes_equal, starts_with}
use cloudlus.Job.{Job, JobId, IsId, done}
use cloudlus.Store.{saved}

pub record Leveldb : Type 1 where
  pub S : Type 0
  pub read : Bytes → S → Option Bytes
  pub write : Bytes → Bytes → S → S × Bool
  pub delete : Bytes → S → S × Bool
  -- The entries whose keys start with a prefix, in the order of the keys.
  pub entries : Bytes → S → List (Bytes × Bytes) × Bool

pub record Codec : Type 0 where
  pub encode : Job → Option Bytes
  pub decode : Bytes → Option Job

-- `finishPrefix` and `currPrefix`: "finish-" and "curr-".
abbrev pub finish_prefix : Bytes
finish_prefix = b'f' ∷ b'i' ∷ b'n' ∷ b'i' ∷ b's' ∷ b'h' ∷ b'-' ∷ []

abbrev pub curr_prefix : Bytes
curr_prefix = b'c' ∷ b'u' ∷ b'r' ∷ b'r' ∷ b'-' ∷ []

-- The 16 bytes of an identifier.
abbrev pub id_bytes : JobId → Bytes
id_bytes i = be_bytes 16 i

-- `copy(id[:], value)`: into an array of zeros, as much as there is room for.
unfoldable pub pad : ℕ → Bytes → Bytes
pad zero bs = []
pad (suc n) [] = 0 ∷ pad n []
pad (suc n) (b ∷ bs) = b ∷ pad n bs

unfoldable pub id_of : Bytes → JobId
unfolding pad
id_of bs = be_number 0 (pad 16 bs)

unfoldable pub finish_key : Job → Bytes
finish_key j = finish_prefix ++ (be_bytes 8 (unix j.finished) ++ (b'-' ∷ id_bytes j.id))

unfoldable pub current_key : Job → Bytes
current_key j = curr_prefix ++ id_bytes j.id

-- The keys of this database have at least 16 bytes, so the slices of `notjob` are in range.
unfoldable pub notjob : Bytes → Bool
notjob key = if starts_with finish_prefix key then true else starts_with curr_prefix key

-- The last `n` entries, or all if there are no more: `ids[len(ids)-n:]`.
unfoldable pub last_of : ℕ → List JobId → List JobId
last_of n [] = []
last_of n (i ∷ is) = if ltb n (length (i ∷ is)) then last_of n is else i ∷ is

pub record GcResult (S : Type 0) : Type 0 where
  pub state : S
  pub npurged : ℕ
  -- `none` is -1: the number is not known.
  pub nremain : Option ℕ
  pub succeeded : Bool

module _ (db : Leveldb) (codec : Codec) where
  open db use {S, read, write, delete, entries}
  open codec use {encode, decode}

  -- The current index: its error is that of the `Put`, and an error of `Delete` is ignored.
  unfoldable pub put_current : Job → S → S × Bool
  put_current j s =
      if done j
      then ((delete (current_key j) s).0, true)
      else write (current_key j) (id_bytes j.id) s

  -- The index by the time of the end.
  unfoldable pub put_finished : Job → S → S × Bool
  put_finished j s =
      if done j && unix_nonneg j.finished then write (finish_key j) (id_bytes j.id) s else (s, true)

  -- `Put`: the new state, and whether there was no error.
  unfoldable pub put_job : Job → S → S × Bool
  put_job j s = elim (encode j) [
    | none ↦ (s, false)
    | some bs ↦
        let (s1, fine) = put_current j s in
        if not fine
        then (s1, false)
        else (let (s2, fine') = put_finished j s1 in
            if not fine' then (s2, false) else write (id_bytes j.id) bs s2)
  ]

  -- `Get`: `none` is an error.
  unfoldable pub get_job : JobId → S → Option Job
  get_job i s = elim (read (id_bytes i) s) [ none ↦ none | some bs ↦ decode bs ]

  unfoldable pub get_all : List JobId → S → Option (List Job)
  get_all [] s = some []
  get_all (i ∷ is) s = elim (get_job i s) [
    | none ↦ none
    | some j ↦ elim (get_all is s) [ none ↦ none | some js ↦ some (j ∷ js) ]
  ]

  -- The identifiers that an index lists.
  unfoldable pub listed_ids : List (Bytes × Bytes) → List JobId
  listed_ids [] = []
  listed_ids ((k, v) ∷ es) = id_of v ∷ listed_ids es

  unfoldable pub current : S → Option (List Job)
  unfolding get_all listed_ids
  current s =
      let (es, fine) = entries curr_prefix s in if not fine then none else get_all (listed_ids es) s

  unfoldable pub recent : ℕ → S → Option (List Job)
  unfolding get_all listed_ids last_of
  recent n s =
      let (es, fine) = entries finish_prefix s in
      if not fine then none else get_all (last_of n (listed_ids es)) s

  unfoldable pub sum_sizes : List (Bytes × Bytes) → ℕ
  sum_sizes [] = 0
  sum_sizes ((k, v) ∷ es) = length v + sum_sizes es

  -- `Size`
  unfoldable pub db_size : S → Option ℕ
  unfolding sum_sizes
  db_size s = let (es, fine) = entries [] s in if fine then some (sum_sizes es) else none

  unfoldable pub count_jobs : List (Bytes × Bytes) → ℕ
  count_jobs [] = 0
  count_jobs ((k, v) ∷ es) = if notjob k then count_jobs es else count_jobs es + 1

  -- `Count`
  unfoldable pub db_count : S → Option ℕ
  unfolding count_jobs
  db_count s = let (es, fine) = entries [] s in if fine then some (count_jobs es) else none

  unfoldable pub decode_jobs : List (Bytes × Bytes) → Option (List Job)
  decode_jobs [] = some []
  decode_jobs ((k, v) ∷ es) =
      let rest = decode_jobs es in
      if notjob k then rest else elim (decode v) [
        | none ↦ none
        | some j ↦ elim rest [ none ↦ none | some js ↦ some (j ∷ js) ]
      ]

  -- `Failed`, which returns the jobs of every status.
  unfoldable pub failed_jobs : S → Option (List Job)
  unfolding decode_jobs
  failed_jobs s = let (es, fine) = entries [] s in if fine then decode_jobs es else none

  -- Whether a job may be removed.
  unfoldable pub is_purgeable : Time → Duration → Job → Bool
  is_purgeable now age j = done j && ltb_ℤ age (sub_time now j.finished)

  -- The three deletions, under the key that the iterator saw.
  unfoldable pub purge : Bytes → Job → S → S
  purge key j s = (delete (current_key j) (delete (finish_key j) (delete key s).0).0).0

  unfoldable pub gc_loop : Time → Duration → List (Bytes × Bytes) → Bool → S → ℕ → ℕ → GcResult S
  unfolding is_purgeable purge
  gc_loop now age [] fine s np nr = record {
    state = s;
    npurged = np;
    nremain = some nr;
    succeeded = fine;
  }
  gc_loop now age ((k, v) ∷ es) fine s np nr = elim (notjob k) [
    | true ↦ gc_loop now age es fine s np nr
    | false ↦ elim (decode v) [
      | none ↦ record { state = s; npurged = np; nremain = none; succeeded = false }
      | some j ↦ elim (is_purgeable now age j) [
        | true ↦ gc_loop now age es fine (purge k j s) (np + 1) nr
        | false ↦ gc_loop now age es fine s np (nr + 1)
      ]
    ]
  ]

  -- `GC`
  unfoldable pub gc : ℕ → Duration → Time → S → GcResult S
  unfolding gc_loop db_size
  gc limit age now s = elim (db_size s) [
    | none ↦ record { state = s; npurged = 0; nremain = none; succeeded = false }
    | some n ↦
        if ltb n limit
        then record { state = s; npurged = 0; nremain = none; succeeded = true }
        else (let (es, fine) = entries [] s in gc_loop now age es fine s 0 0)
  ]

-- A store whose calls succeed: a write or a deletion shows at its key and nowhere else.
pub record IsHealthy (db : Leveldb) : Type 0 where
  pub write_ok : (k v : Bytes) (s : db.S) → (db.write k v s).1 ≡ true
  pub read-write :
      (k l v : Bytes) (s : db.S)
      → db.read l (db.write k v s).0 ≡ (if bytes_equal k l then some v else db.read l s)
  pub read-delete :
      (k l : Bytes) (s : db.S)
      → db.read l (db.delete k s).0 ≡ (if bytes_equal k l then none else db.read l s)

-- JSON keeps the exported fields of a job. It does not of each job: a text that is not UTF-8 comes
-- back changed, and a time after the year 9999 is an error.
abbrev pub IsEncoded : Codec → Job → Type 0
IsEncoded codec j = (bs : Bytes) × (codec.encode j ≡ some bs) × (codec.decode bs ≡ some (saved j))
