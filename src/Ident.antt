-- ===== src/Ident.antt =====
-- `JobId` and `WorkerId` of cloudlus/util.go as text.
--
-- A text is the list of its bytes. The two types have the same methods.
-- `hex.EncodeToString` writes two digits, in lower case, for each byte, and
-- `hex.DecodeString` reads pairs of digits of either case.
pub mod Hex
pub mod RoundTrip
use cloudlus.Base.{
  ℕ, zero, suc, ◌+◌, ◌-◌, ◌*◌, ◌/◌, ◌%◌, Bool, true, false, ◌&&◌, Option, none, some, List, [], ◌∷◌,
  ◌++◌, ◌==◌, ltb, leb, if◌then◌else◌, length,
}
use cloudlus.Bytes.{Bytes, be_bytes, be_number}
use cloudlus.Job.{JobId, WorkerId}

-- The digit of a number below 16, and the number of a digit.
unfoldable pub hex_digit : ℕ → ℕ
hex_digit n = if ltb n 10 then 48 + n else 87 + n

unfoldable pub hex_value : ℕ → Option ℕ
hex_value c =
    if leb 48 c && leb c 57
    then some (c - 48)
    else if leb 97 c && leb c 102
    then some (c - 87)
    else if leb 65 c && leb c 70
    then some (c - 55)
    else none

unfoldable pub hex_encode : Bytes → Bytes
unfolding hex_digit
hex_encode [] = []
hex_encode (b ∷ bs) = hex_digit (b / 16) ∷ hex_digit (b % 16) ∷ hex_encode bs

-- The byte of two digits.
unfoldable pub hex_pair : ℕ → ℕ → Option ℕ
unfolding hex_value
hex_pair c d = elim (hex_value c) [
  | none ↦ none
  | some a ↦ elim (hex_value d) [ none ↦ none | some b ↦ some (16 * a + b) ]
]

-- `none` for a text of odd length or with another byte than a digit.
unfoldable pub hex_decode : Bytes → Option Bytes
unfolding hex_pair
hex_decode [] = some []
hex_decode (c ∷ []) = none
hex_decode (c ∷ d ∷ cs) = elim (hex_pair c d) [
  | none ↦ none
  | some b ↦ elim (hex_decode cs) [ none ↦ none | some bs ↦ some (b ∷ bs) ]
]

-- `String`
unfoldable pub id_string : JobId → Bytes
unfolding hex_encode
id_string i = hex_encode (be_bytes 16 i)

-- `copy(dst, src)`: as many bytes as both have.
unfoldable pub copy_bytes : Bytes → Bytes → Bytes
copy_bytes [] src = []
copy_bytes (d ∷ ds) [] = d ∷ ds
copy_bytes (d ∷ ds) (s ∷ ss) = s ∷ copy_bytes ds ss

abbrev pub as_id : Bytes → JobId
as_id bs = be_number 0 bs

-- `DecodeJobId`: `none` is an error. Bytes after the sixteenth are left unread.
unfoldable pub decode_job_id : Bytes → Option JobId
unfolding hex_decode copy_bytes
decode_job_id s = elim (hex_decode s) [
  | none ↦ none
  | some buf ↦ if ltb (length buf) 16 then none else some (as_id (copy_bytes (be_bytes 16 0) buf))
]

-- `strings.Trim(s, "\"")`
unfoldable pub trim_left : Bytes → Bytes
trim_left [] = []
trim_left (c ∷ cs) = let rest = trim_left cs in if c == 34 then rest else c ∷ cs

-- A quote stays if something that stays follows it.
unfoldable pub put_unless_last : ℕ → Bytes → Bytes
put_unless_last c [] = if c == 34 then [] else c ∷ []
put_unless_last c (d ∷ ds) = c ∷ d ∷ ds

unfoldable pub trim_right : Bytes → Bytes
unfolding put_unless_last
trim_right [] = []
trim_right (c ∷ cs) = put_unless_last c (trim_right cs)

unfoldable pub marshal_id : JobId → Bytes
unfolding id_string
marshal_id i = 34 ∷ (id_string i ++ (34 ∷ []))

-- `UnmarshalJSON`: the identifier that it leaves in its receiver, and whether there is no error. A
-- text that is too short changes the bytes it has before the error.
unfoldable pub unmarshal_id : Bytes → JobId → JobId × Bool
unfolding hex_decode copy_bytes trim_left trim_right
unmarshal_id text i = elim (hex_decode (trim_right (trim_left text))) [
  | none ↦ (i, false)
  | some bs ↦ (as_id (copy_bytes (be_bytes 16 i) bs), leb 16 (length bs))
]

-- The methods of `WorkerId`.
unfoldable pub worker_string : WorkerId → Bytes
unfolding hex_encode
worker_string w = hex_encode (be_bytes 16 w)

unfoldable pub marshal_worker : WorkerId → Bytes
unfolding worker_string
marshal_worker w = 34 ∷ (worker_string w ++ (34 ∷ []))

unfoldable pub unmarshal_worker : Bytes → WorkerId → WorkerId × Bool
unfolding hex_decode copy_bytes trim_left trim_right
unmarshal_worker text w = elim (hex_decode (trim_right (trim_left text))) [
  | none ↦ (w, false)
  | some bs ↦ (as_id (copy_bytes (be_bytes 16 w) bs), leb 16 (length bs))
]
