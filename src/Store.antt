-- ===== src/Store.antt =====
-- What the server (cloudlus/server.go) asks of its job database (cloudlus/util.go): `Put` and `Get`.
--
-- The server ignores the errors of `Put`, so an operation here always yields a store. The two laws
-- are those of a database whose writes succeed. `saved` is what is left of a job that went through
-- JSON: the fields that Go does not export are not stored.
use cloudlus.Base.{
  ◌≡◌, ◌≢◌, inl, inr, Option, some, [], ◌==◌, ==_iff, if◌then◌else◌, Bool-cases, arith,
}
use cloudlus.Job.{Job, JobId, IsId}

abbrev pub saved : Job → Job
saved j = record j { dir = ""; wd = ""; whitelist = [] }

pub record JobStore : Type 1 where
  pub Db : Type 0
  pub put : Job → Db → Db
  pub get : JobId → Db → Option Job
  pub get-put : (j : Job) (d : Db) → IsId j.id → get j.id (put j d) ≡ some (saved j)
  pub get-put_ne :
      (j : Job) (i : JobId) (d : Db) → IsId j.id → IsId i → j.id ≢ i → get i (put j d) ≡ get i d

-- The laws as one equation.
module _ (store : JobStore) where
  open store use {Db, put, get, get-put, get-put_ne}

  pub get-put_if :
      (i : JobId) (j : Job) (d : Db)
      → IsId j.id
      → IsId i
      → get i (put j d) ≡ (if j.id == i then some (saved j) else get i d)
  get-put_if i j d p q = elim (Bool-cases (j.id == i)) [
    | inl same ↦ rw (same, ← (==_iff j.id i).0 same) (get-put j d p)
    | inr other ↦ rw other (get-put_ne j i d p q (λ e. ground arith))
  ]
