-- ===== src/Db/History.antt =====
-- The database of cloudlus/util.go as a map from identifiers to jobs: what `Get` finds after a history of
-- `Put`s.
use cloudlus.Base.{◌≡◌, refl, ◌∙◌, ap, Option, some, List, [], ◌∷◌, All, ◌==◌, if◌then◌else◌}
use cloudlus.Job.{Job, JobId, IsId}
use cloudlus.Store.{saved}
use cloudlus.Db.{Leveldb, Codec, IsHealthy, IsEncoded, put_job, get_job}
use cloudlus.Db.Access.{get_job-put_job}

-- The specification: a map in which an entry takes the place of the one before it.
unfoldable pub latest : JobId → List Job → Option Job → Option Job
latest i [] found = found
latest i (j ∷ js) found = latest i js (if j.id == i then some (saved j) else found)

module _ (db : Leveldb) (codec : Codec) where
  open db use {S}

  unfoldable pub put_all : List Job → S → S
  unfolding put_job
  put_all [] s = s
  put_all (j ∷ js) s = put_all js (put_job db codec j s).0

  -- For jobs that the codec keeps, over a store whose calls succeed: after any history of Puts, Get finds
  -- under each identifier the exported fields of the job that was put last under it, and what it
  -- found at first if none was.
  pub get_job-put_all :
      (healthy : IsHealthy db) (i : JobId) (js : List Job) (s : S)
      → All (IsEncoded codec) js
      → All (λ (j : Job). IsId j.id) js
      → IsId i
      → get_job db codec i (put_all js s) ≡ latest i js (get_job db codec i s)
  unfolding put_all latest
  get_job-put_all healthy i [] s c q p = refl
  get_job-put_all healthy i (j ∷ js) s c q p =
      get_job-put_all healthy i js (put_job db codec j s).0 c.1 q.1 p
      ∙ ap (latest i js) (get_job-put_job db codec healthy i j s c.0 p q.0).1
