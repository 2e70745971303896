-- ===== src/Db/Keys.antt =====
-- The keys of cloudlus/util.go: the three kinds do not meet, and each spells its job.
use cloudlus.Base.{
  ℕ, zero, suc, ◌/◌, ◌<◌, ◌≡◌, ◌≢◌, refl, sym, ap, ◌∙◌, inl, inr, true, false, [], ◌∷◌, ◌++◌, ◌==◌,
  ==_iff, length, length-append, arith, Bool-cases,
}
use cloudlus.Time.{second, int64_half, int64_mod, unix, unix_nonneg}
use cloudlus.Bytes.{Bytes, be_bytes, be_number, bytes_equal, bytes_less, starts_with}
use cloudlus.Bytes.Digits.{length-be_bytes, be_number-be_bytes}
use cloudlus.Bytes.Order.{bytes_less-append, bytes_less-be_bytes}
use cloudlus.Job.{Job, JobId, IsId}
use cloudlus.Db.{finish_prefix, curr_prefix, id_bytes, pad, id_of, finish_key, current_key, notjob}

bytes_equal-length : (a b : Bytes) → bytes_equal a b ≡ true → length a ≡ length b
unfolding bytes_equal
bytes_equal-length [] [] h = refl
bytes_equal-length [] (y ∷ b) h = cc
bytes_equal-length (x ∷ a) [] h = cc
bytes_equal-length (x ∷ a) (y ∷ b) h = ground (arith, bytes_equal-length a b)

bytes_equal-of_length : (a b : Bytes) → length a ≢ length b → bytes_equal a b ≡ false
bytes_equal-of_length a b h = elim (Bool-cases (bytes_equal a b)) [
  | inl e ↦ absurd (h (bytes_equal-length a b e))
  | inr e ↦ e
]

pub bytes_equal_refl : (a : Bytes) → bytes_equal a a ≡ true
unfolding bytes_equal
bytes_equal_refl [] = refl
bytes_equal_refl (x ∷ a) = ground (arith, bytes_equal_refl a)

bytes_equal-eq : (a b : Bytes) → bytes_equal a b ≡ true → a ≡ b
unfolding bytes_equal
bytes_equal-eq [] [] h = refl
bytes_equal-eq [] (y ∷ b) h = cc
bytes_equal-eq (x ∷ a) [] h = cc
bytes_equal-eq (x ∷ a) (y ∷ b) h = ground (arith, bytes_equal-eq a b)

bytes_equal-append : (k a b : Bytes) → bytes_equal (k ++ a) (k ++ b) ≡ bytes_equal a b
unfolding bytes_equal
bytes_equal-append [] a b = refl
bytes_equal-append (x ∷ k) a b = ground (arith, bytes_equal-append k a b)

-- Byte strings of 16 bytes are equal as the identifiers are.
pub bytes_equal-id_bytes :
    (i k : JobId) → IsId i → IsId k → bytes_equal (id_bytes i) (id_bytes k) ≡ (i == k)
bytes_equal-id_bytes i k p q = elim (Bool-cases (i == k)) [
  | inl same ↦ rw same (rw ((==_iff i k).0 same) (bytes_equal_refl (id_bytes k)))
  | inr other ↦ elim (Bool-cases (bytes_equal (id_bytes i) (id_bytes k))) [
    | inl e ↦
        let same : i ≡ k =
          sym (be_number-be_bytes 16 i p)
          ∙ ap (be_number 0) (bytes_equal-eq (id_bytes i) (id_bytes k) e)
          ∙ be_number-be_bytes 16 k q in
        absurd (ground arith)
    | inr e ↦ rw other e
  ]
]

-- The keys of the index of current jobs are equal as the identifiers are.
pub bytes_equal-current_key :
    (j : Job) (i : JobId)
    → IsId j.id
    → IsId i
    → bytes_equal (current_key j) (curr_prefix ++ id_bytes i) ≡ (j.id == i)
unfolding current_key
bytes_equal-current_key j i p q =
    bytes_equal-append curr_prefix (id_bytes j.id) (id_bytes i) ∙ bytes_equal-id_bytes j.id i p q

length-id_bytes : (i : JobId) → length (id_bytes i) ≡ 16
length-id_bytes i = length-be_bytes 16 i

length-current_key : (j : Job) → length (current_key j) ≡ 21
unfolding current_key
length-current_key j = omega (arith, length-id_bytes j.id)

length-finish_key : (j : Job) → length (finish_key j) ≡ 32
unfolding finish_key
length-finish_key j = omega (
  arith,
  length-append (be_bytes 8 (unix j.finished)) (b'-' ∷ id_bytes j.id),
  length-be_bytes 8 (unix j.finished),
  length-id_bytes j.id,
)

pub id_bytes-ne-current_key :
    (i : JobId) (j : Job) → bytes_equal (current_key j) (id_bytes i) ≡ false
id_bytes-ne-current_key i j =
    bytes_equal-of_length _ _ (λ e. omega (arith, length-id_bytes i, length-current_key j))

pub id_bytes-ne-finish_key : (i : JobId) (j : Job) → bytes_equal (finish_key j) (id_bytes i) ≡ false
id_bytes-ne-finish_key i j =
    bytes_equal-of_length _ _ (λ e. omega (arith, length-id_bytes i, length-finish_key j))

length-current : (i : JobId) → length (curr_prefix ++ id_bytes i) ≡ 21
length-current i = omega (arith, length-id_bytes i)

-- The key of a current job is not the key of a job or of a finished one.
pub current_key-ne-finish_key :
    (i : JobId) (k : Job) → bytes_equal (finish_key k) (curr_prefix ++ id_bytes i) ≡ false
current_key-ne-finish_key i k =
    bytes_equal-of_length _ _ (λ e. omega (arith, length-current i, length-finish_key k))

pub current_key-ne-id_bytes :
    (i k : JobId) → bytes_equal (id_bytes k) (curr_prefix ++ id_bytes i) ≡ false
current_key-ne-id_bytes i k =
    bytes_equal-of_length _ _ (λ e. omega (arith, length-current i, length-id_bytes k))

pad-of_length : (n : ℕ) (bs : Bytes) → length bs ≡ n → pad n bs ≡ bs
unfolding pad
pad-of_length zero [] h = refl
pad-of_length zero (b ∷ bs) h = absurd (omega arith)
pad-of_length (suc n) [] h = absurd (omega arith)
pad-of_length (suc n) (b ∷ bs) h = ap (◌∷◌ b) (pad-of_length n bs (omega arith))

-- The value that an index stores for a job is read back as the job's identifier.
id_of-id_bytes : (i : JobId) → IsId i → id_of (id_bytes i) ≡ i
unfolding id_of
id_of-id_bytes i h =
    rw (pad-of_length 16 (id_bytes i) (length-id_bytes i)) (be_number-be_bytes 16 i h)

starts_with-append : (p k : Bytes) → starts_with p (p ++ k) ≡ true
unfolding starts_with
starts_with-append [] k = refl
starts_with-append (x ∷ p) k = ground (arith, starts_with-append p k)

pub notjob-finish_key : (j : Job) → notjob (finish_key j) ≡ true
unfolding notjob finish_key
notjob-finish_key j =
    rw (starts_with-append finish_prefix (be_bytes 8 (unix j.finished) ++ (b'-' ∷ id_bytes j.id)))

pub notjob-current_key : (j : Job) → notjob (current_key j) ≡ true
unfolding notjob current_key starts_with
notjob-current_key j = refl

bytes_less_asym : (a b : Bytes) → bytes_less a b ≡ true → bytes_less b a ≡ false
unfolding bytes_less
bytes_less_asym [] [] h = cc
bytes_less_asym (x ∷ a) [] h = cc
bytes_less_asym [] (y ∷ b) h = refl
bytes_less_asym (x ∷ a) (y ∷ b) h = ground (arith, bytes_less_asym a b)

-- The keys of the index of finished jobs are in the order of the seconds in which the jobs finished,
-- for jobs that finished in 1970 or later, and before the seconds pass 2 ^ 63.
finish_key_order :
    (j k : Job)
    → unix_nonneg j.finished ≡ true
    → j.finished / second < k.finished / second
    → k.finished / second < int64_half
    → (bytes_less (finish_key j) (finish_key k) ≡ true)
      × (bytes_less (finish_key k) (finish_key j) ≡ false)
unfolding finish_key unix_nonneg
finish_key_order j k h lt small = (less, bytes_less_asym _ _ less)
  where
    earlier : unix j.finished < unix k.finished
    earlier = unfold unix in ground arith

    bounded : unix k.finished < int64_mod
    bounded = unfold unix in omega arith

    less :
        bytes_less
          (finish_prefix ++ (be_bytes 8 (unix j.finished) ++ (b'-' ∷ id_bytes j.id)))
          (finish_prefix ++ (be_bytes 8 (unix k.finished) ++ (b'-' ∷ id_bytes k.id)))
        ≡ true
    less =
        bytes_less-append finish_prefix _ _
        ∙ bytes_less-be_bytes 8 (unix j.finished) (unix k.finished) _ _ earlier bounded

pub finish_key-ne-current_key : (j k : Job) → bytes_equal (current_key k) (finish_key j) ≡ false
finish_key-ne-current_key j k =
    bytes_equal-of_length _ _ (λ e. omega (arith, length-current_key k, length-finish_key j))

pub finish_key-ne-id_bytes : (j : Job) (i : JobId) → bytes_equal (id_bytes i) (finish_key j) ≡ false
finish_key-ne-id_bytes j i =
    bytes_equal-of_length _ _ (λ e. omega (arith, length-id_bytes i, length-finish_key j))

bytes_less_irrefl : (a : Bytes) → bytes_less a a ≡ false
unfolding bytes_less
bytes_less_irrefl [] = refl
bytes_less_irrefl (x ∷ a) = ground (arith, bytes_less_irrefl a)

-- Jobs that finished in different seconds have different keys.
pub finish_key-ne :
    (j k : Job)
    → unix_nonneg j.finished ≡ true
    → j.finished / second < k.finished / second
    → k.finished / second < int64_half
    → bytes_equal (finish_key k) (finish_key j) ≡ false
finish_key-ne j k h lt small = elim (Bool-cases (bytes_equal (finish_key k) (finish_key j))) [
  | inl e ↦
      let less = (finish_key_order j k h lt small).0 in
      let same : bytes_less (finish_key j) (finish_key k) ≡ false =
        rw (bytes_equal-eq (finish_key k) (finish_key j) e) (bytes_less_irrefl (finish_key j)) in
      absurd (ground arith)
  | inr e ↦ e
]
