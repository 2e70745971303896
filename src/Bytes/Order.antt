-- ===== src/Bytes/Order.antt =====
-- The order of byte strings that hold big-endian numbers.
use native.Mathlib.Nat.{pow-suc, mod-lt, mod-eq_of_lt, mul-le-mul_right}
use cloudlus.Base.{
  ℕ, zero, suc, ◌+◌, ◌*◌, ◌/◌, ◌%◌, ◌^◌, ◌≤◌, ◌<◌, ◌≡◌, refl, true, [], ◌∷◌, ◌++◌, arith,
}
use cloudlus.Bytes.{Bytes, be_bytes, bytes_less}
use cloudlus.Bytes.Digits.{pow_positive, split_digit}

-- A larger digit outweighs all that is below it.
digit_decides : (a b p r s : ℕ) → a < b → r < p → a * p + r < b * p + s
digit_decides a b p r s h k = let t : suc a * p ≤ b * p = mul-le-mul_right p h in omega arith

-- The common start of two byte strings does not count.
pub bytes_less-append : (k xs ys : Bytes) → bytes_less (k ++ xs) (k ++ ys) ≡ bytes_less xs ys
unfolding bytes_less
bytes_less-append [] xs ys = refl
bytes_less-append (b ∷ bs) xs ys = ground (arith, bytes_less-append bs xs ys)

bytes_less-be_bytes_mod :
    (k m n : ℕ) (xs ys : Bytes)
    → m % 256 ^ k < n % 256 ^ k
    → bytes_less (be_bytes k m ++ xs) (be_bytes k n ++ ys) ≡ true
unfolding bytes_less be_bytes
bytes_less-be_bytes_mod zero m n xs ys h = absurd (omega arith)
bytes_less-be_bytes_mod (suc k) m n xs ys h = ground (
  arith,
  digits,
  pow_positive k,
  mod-lt m {m = 256 ^ k},
  mod-lt n {m = 256 ^ k},
  digit_decides (n / 256 ^ k % 256) (m / 256 ^ k % 256) (256 ^ k) (n % 256 ^ k) (m % 256 ^ k),
  bytes_less-be_bytes_mod k m n xs ys,
)
  where
    digits : m / 256 ^ k % 256 * 256 ^ k + m % 256 ^ k < n / 256 ^ k % 256 * 256 ^ k + n % 256 ^ k
    digits = rw (← split_digit m (256 ^ k), ← split_digit n (256 ^ k), ← pow-suc 256 k) h

-- Numbers that have that many digits are ordered as their byte strings are, whatever follows them.
pub bytes_less-be_bytes :
    (k m n : ℕ) (xs ys : Bytes)
    → m < n
    → n < 256 ^ k
    → bytes_less (be_bytes k m ++ xs) (be_bytes k n ++ ys) ≡ true
bytes_less-be_bytes k m n xs ys h l =
    let p : m % 256 ^ k ≡ m = mod-eq_of_lt (omega arith) in
    let q : n % 256 ^ k ≡ n = mod-eq_of_lt l in bytes_less-be_bytes_mod k m n xs ys (omega arith)
