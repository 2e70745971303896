-- ===== src/Ident/Hex.antt =====
-- The hexadecimal digits of cloudlus/util.go (encoding/hex) are read back.
use cloudlus.Base.{
  ℕ, ◌*◌, ◌/◌, ◌%◌, ◌<◌, ◌≡◌, refl, false, some, [], ◌∷◌, ◌++◌, ◌==◌, length, All, arith, ap,
  Option-cases, inl, inr,
}
use cloudlus.Bytes.{Bytes}
use cloudlus.Ident.{
  hex_digit, hex_value, hex_encode, hex_pair, hex_decode, trim_left, trim_right, put_unless_last,
}

pub hex_value-hex_digit : (n : ℕ) → n < 16 → hex_value (hex_digit n) ≡ some n
unfolding hex_value hex_digit
hex_value-hex_digit n h = ground (arith, h)

hex_pair-hex_digit : (b : ℕ) → b < 256 → hex_pair (hex_digit (b / 16)) (hex_digit (b % 16)) ≡ some b
unfolding hex_pair
hex_pair-hex_digit b h =
    ground
      (arith, hex_value-hex_digit (b / 16) omega arith, hex_value-hex_digit (b % 16) omega arith)

-- What is encoded is decoded to the same bytes.
pub hex_decode-hex_encode :
    (bs : Bytes) → All (λ (b : ℕ). b < 256) bs → hex_decode (hex_encode bs) ≡ some bs
unfolding hex_decode hex_encode
hex_decode-hex_encode [] h = refl
hex_decode-hex_encode (b ∷ bs) (p, h) =
    ground (arith, hex_pair-hex_digit b p, hex_decode-hex_encode bs h)

-- No digit is a quote.
pub hex_encode-Unquoted : (bs : Bytes) → All (λ (c : ℕ). (c == 34) ≡ false) (hex_encode bs)
unfolding hex_encode hex_digit
hex_encode-Unquoted [] = tt
hex_encode-Unquoted (b ∷ bs) = (ground arith, (ground arith, hex_encode-Unquoted bs))

trim_left-unquoted :
    (cs : Bytes)
    → All (λ (c : ℕ). (c == 34) ≡ false) cs
    → trim_right (trim_left (cs ++ (34 ∷ []))) ≡ trim_right (cs ++ (34 ∷ []))
unfolding trim_left trim_right put_unless_last
trim_left-unquoted [] h = refl
trim_left-unquoted (c ∷ cs) (p, h) = ground (arith, p)

put_unless_last-unquoted : (c : ℕ) (cs : Bytes) → (c == 34) ≡ false → put_unless_last c cs ≡ c ∷ cs
unfolding put_unless_last
put_unless_last-unquoted c [] p = ground (arith, p)
put_unless_last-unquoted c (d ∷ ds) p = refl

trim_right-quoted :
    (cs : Bytes) → All (λ (c : ℕ). (c == 34) ≡ false) cs → trim_right (cs ++ (34 ∷ [])) ≡ cs
unfolding trim_right
trim_right-quoted [] h = refl
trim_right-quoted (c ∷ cs) (p, h) = rw (trim_right-quoted cs h) (put_unless_last-unquoted c cs p)

-- Trimming takes the quotes off a text without quotes of its own.
pub trim_quoted :
    (cs : Bytes)
    → All (λ (c : ℕ). (c == 34) ≡ false) cs
    → trim_right (trim_left (34 ∷ (cs ++ (34 ∷ [])))) ≡ cs
unfolding trim_left
trim_quoted cs h = ground (arith, trim_left-unquoted cs h, trim_right-quoted cs h)

-- A text that is decoded has two digits for each byte.
pub length-hex_decode : (s bs : Bytes) → hex_decode s ≡ some bs → length s ≡ 2 * length bs
unfolding hex_decode
length-hex_decode [] bs h = ground (arith, h)
length-hex_decode (c ∷ []) bs h = ground (arith, h)
length-hex_decode (c ∷ d ∷ cs) bs h = elim (Option-cases (hex_pair c d)) [
  | inl e ↦ ground (arith, h, e)
  | inr (b, e) ↦ elim (Option-cases (hex_decode cs)) [
    | inl f ↦ ground (arith, h, e, f)
    | inr (t, f) ↦ ground (arith, h, e, f, length-hex_decode cs t f)
  ]
]

pub hex_encode_append : (as' bs : Bytes) → hex_encode (as' ++ bs) ≡ hex_encode as' ++ hex_encode bs
unfolding hex_encode
hex_encode_append [] bs = refl
hex_encode_append (a ∷ as') bs =
    ap (λ (t : Bytes). hex_digit (a / 16) ∷ hex_digit (a % 16) ∷ t) (hex_encode_append as' bs)
