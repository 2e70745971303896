-- ===== src/Ident/RoundTrip.antt =====
-- Identifiers of cloudlus/util.go are read back from their text and their JSON.
use cloudlus.Base.{
  ℕ, zero, suc, ◌+◌, ◌<◌, ◌≤◌, ◌≡◌, refl, sym, ap, ◌∙◌, true, false, none, some, [], ◌∷◌, ◌++◌, ltb,
  leb, length, All, All-append, arith, Option-cases, inl, inr,
}
use mathlib.Core.List.{append-nil}
use cloudlus.Bytes.{Bytes, be_bytes}
use cloudlus.Bytes.Digits.{be_number-be_bytes, length-be_bytes}
use cloudlus.Job.{JobId, IsId}
use cloudlus.Ident.{
  hex_encode, hex_decode, id_string, copy_bytes, as_id, decode_job_id, trim_left, trim_right,
  marshal_id, unmarshal_id,
}
use cloudlus.Ident.Hex.{
  hex_decode-hex_encode, hex_encode-Unquoted, hex_encode_append, trim_quoted, length-hex_decode,
}

be_bytes-IsByte : (k n : ℕ) → All (λ (b : ℕ). b < 256) (be_bytes k n)
unfolding be_bytes
be_bytes-IsByte zero n = tt
be_bytes-IsByte (suc k) n = (omega arith, be_bytes-IsByte k n)

-- A copy of more bytes than there is room for takes the first ones.
copy_bytes-append : (ds as' bs : Bytes) → length as' ≡ length ds → copy_bytes ds (as' ++ bs) ≡ as'
unfolding copy_bytes
copy_bytes-append [] [] bs h = refl
copy_bytes-append [] (a ∷ as') bs h = absurd (omega arith)
copy_bytes-append (d ∷ ds) [] bs h = absurd (omega arith)
copy_bytes-append (d ∷ ds) (a ∷ as') bs h = ap (◌∷◌ a) (copy_bytes-append ds as' bs (omega arith))

length_append : (as' bs : Bytes) → length (as' ++ bs) ≡ length as' + length bs
length_append [] bs = omega arith
length_append (a ∷ as') bs = omega (arith, length_append as' bs)

as_id-copy_bytes :
    (i k : JobId) (extra : Bytes)
    → IsId i
    → as_id (copy_bytes (be_bytes 16 k) (be_bytes 16 i ++ extra)) ≡ i
as_id-copy_bytes i k extra h =
    rw
      (copy_bytes-append (be_bytes 16 k) (be_bytes 16 i) extra
        (length-be_bytes 16 i ∙ sym (length-be_bytes 16 k)))
      (be_number-be_bytes 16 i h)

not_few : (n : ℕ) → 16 ≤ n → ltb n 16 ≡ false
not_few n h = ground arith

few : (n : ℕ) → n < 16 → ltb n 16 ≡ true
few n h = ground arith

enough : (n : ℕ) → 16 ≤ n → leb 16 n ≡ true
enough n h = ground arith

decode_job_id_long :
    (s buf : Bytes)
    → hex_decode s ≡ some buf
    → 16 ≤ length buf
    → decode_job_id s ≡ some (as_id (copy_bytes (be_bytes 16 0) buf))
unfolding decode_job_id
decode_job_id_long s buf e h = rw (decode_job_id, e) (rw (not_few (length buf) h) refl)

-- The text of an identifier is decoded to the identifier, and so is this text with any more bytes
-- in hexadecimal after it.
pub decode_job_id-id_string :
    (i : JobId) (extra : Bytes)
    → IsId i
    → All (λ (b : ℕ). b < 256) extra
    → decode_job_id (id_string i ++ hex_encode extra) ≡ some i
unfolding id_string
decode_job_id-id_string i extra h x =
    let bs = be_bytes 16 i ++ extra in
    let e : hex_decode (hex_encode (be_bytes 16 i) ++ hex_encode extra) ≡ some bs =
      rw (← hex_encode_append (be_bytes 16 i) extra)
        (hex_decode-hex_encode bs (All-append _ (be_bytes 16 i) extra (be_bytes-IsByte 16 i) x)) in
    decode_job_id_long _ bs e
      (omega (arith, length_append (be_bytes 16 i) extra, length-be_bytes 16 i))
    ∙ ap some (as_id-copy_bytes i 0 extra h)

-- A text with fewer than 32 bytes is not decoded.
pub decode_job_id_short : (s : Bytes) → length s < 32 → decode_job_id s ≡ none
unfolding decode_job_id
decode_job_id_short s h = elim (Option-cases (hex_decode s)) [
  | inl e ↦ rw (decode_job_id, e) refl
  | inr (bs, e) ↦
      rw (decode_job_id, e) (rw (few (length bs) (omega (arith, length-hex_decode s bs e))) refl)
]

unmarshal_id_long :
    (text bs : Bytes) (k : JobId)
    → hex_decode (trim_right (trim_left text)) ≡ some bs
    → 16 ≤ length bs
    → unmarshal_id text k ≡ (as_id (copy_bytes (be_bytes 16 k) bs), true)
unfolding unmarshal_id
unmarshal_id_long text bs k e h = rw (unmarshal_id, e) (rw (enough (length bs) h) refl)

-- The JSON of an identifier is read back, whatever the receiver held before.
pub unmarshal_id-marshal_id : (i k : JobId) → IsId i → unmarshal_id (marshal_id i) k ≡ (i, true)
unfolding marshal_id id_string
unmarshal_id-marshal_id i k h =
    let e : hex_decode (trim_right (trim_left (marshal_id i))) ≡ some (be_bytes 16 i) =
      rw (trim_quoted (hex_encode (be_bytes 16 i)) (hex_encode-Unquoted (be_bytes 16 i)))
        (hex_decode-hex_encode (be_bytes 16 i) (be_bytes-IsByte 16 i)) in
    unmarshal_id_long (marshal_id i) (be_bytes 16 i) k e (omega (arith, length-be_bytes 16 i))
    ∙ ap (λ (j : JobId). (j, true)) (rw (← append-nil (be_bytes 16 i)) (as_id-copy_bytes i k [] h))
