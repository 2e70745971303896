-- ===== src/Base/Numerals.antt =====
-- `strconv.Atoi` of Go, for an `int` of 64 bits.
use Prim.Native.Nat.{ℕ, ◌+◌, ◌-◌, ◌*◌, ◌^◌}
use Prim.Native.String.{String}
use Prim.Native.Char.{code}
use mathlib.Core.Bool.{Bool, ◌&&◌}
use mathlib.Core.Option.{Option, none, some}
use cloudlus.Base.Tests.{◌==◌, leb, if◌then◌else◌}
use cloudlus.Base.Int.{ℤ, pos, sub_ℕ}

abbrev is_digit : ℕ → Bool
is_digit c = leb b'0' c && leb c b'9'

-- The number that decimal digits spell, after those read so far.
unfoldable pub digits : ℕ → String → Option ℕ
digits acc String.[] = some acc
digits acc (String.◌∷◌ c s) =
    let rest = digits (acc * 10 + (code c - b'0')) s in if is_digit (code c) then rest else none

-- At least one digit.
unfoldable pub magnitude : String → Option ℕ
unfolding digits
magnitude String.[] = none
magnitude (String.◌∷◌ c s) = digits 0 (String.◌∷◌ c s)

-- A number above the limit is an error of range.
unfoldable pub in_range : ℕ → (ℕ → ℤ) → Option ℕ → Option ℤ
in_range limit sign none = none
in_range limit sign (some n) = if leb n limit then some (sign n) else none

unfoldable pub atoi : String → Option ℤ
unfolding magnitude in_range
atoi String.[] = none
atoi (String.◌∷◌ c s) =
    if code c == b'-'
    then in_range (2 ^ 63) (λ n. sub_ℕ 0 n) (magnitude s)
    else if code c == b'+'
    then in_range (2 ^ 63 - 1) pos (magnitude s)
    else in_range (2 ^ 63 - 1) pos (magnitude (String.◌∷◌ c s))
