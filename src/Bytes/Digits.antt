-- ===== src/Bytes/Digits.antt =====
-- Big-endian digits spell their number.
use native.Mathlib.Nat.{pow-suc, mod_def, div-div-eq-div-mul, div-add-mod, mod-eq_of_lt}
use cloudlus.Base.{ℕ, zero, suc, ◌+◌, ◌*◌, ◌/◌, ◌%◌, ◌^◌, ◌<◌, ◌≡◌, refl, ap, ◌∙◌, length, arith}
use cloudlus.Bytes.{be_bytes, be_number}

pub length-be_bytes : (k n : ℕ) → length (be_bytes k n) ≡ k
unfolding be_bytes
length-be_bytes zero n = refl
length-be_bytes (suc k) n = ap suc (length-be_bytes k n)

pub pow_positive : (k : ℕ) → 0 < 256 ^ k
pow_positive zero = omega arith
pow_positive (suc k) = rw (pow-suc 256 k) (omega (arith, pow_positive k))

-- The last digits of a number: one digit, and those below it.
pub split_digit : (n p : ℕ) → n % (p * 256) ≡ n / p % 256 * p + n % p
split_digit n p = omega (
  arith,
  mod_def n (p * 256),
  div-div-eq-div-mul n p 256,
  div-add-mod n p,
  ap (λ x. p * 256 * x) (div-div-eq-div-mul n p 256),
  ap (λ x. p * x) (div-add-mod (n / p) 256),
)

be_number-be_bytes_acc : (k n acc : ℕ) → be_number acc (be_bytes k n) ≡ acc * 256 ^ k + n % 256 ^ k
unfolding be_bytes be_number
be_number-be_bytes_acc zero n acc = omega arith
be_number-be_bytes_acc (suc k) n acc =
    be_number-be_bytes_acc k n (acc * 256 + n / 256 ^ k % 256)
    ∙ rw (pow-suc 256 k) (omega (arith, split_digit n (256 ^ k)))

-- Reading back as many digits as the number has gives the number.
pub be_number-be_bytes : (k n : ℕ) → n < 256 ^ k → be_number 0 (be_bytes k n) ≡ n
be_number-be_bytes k n h = omega (arith, be_number-be_bytes_acc k n 0, mod-eq_of_lt h)
