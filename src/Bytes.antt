-- ===== src/Bytes.antt =====
-- Byte strings: lists of numbers below 256, as Go's `[]byte` and `[16]byte`.
pub mod Order
pub mod Digits
use cloudlus.Base.{
  ℕ, zero, suc, ◌+◌, ◌*◌, ◌/◌, ◌%◌, ◌^◌, ◌<◌, ◌≡◌, Bool, true, false, ◌&&◌, List, [], ◌∷◌, ◌++◌,
  ◌==◌, ltb, if◌then◌else◌,
}

abbrev pub Bytes : Type 0
Bytes = List ℕ

-- The big-endian digits of a number, as many as are asked for: `binary.BigEndian.PutUint64` for
-- eight of them, and the array of an identifier for 16.
unfoldable pub be_bytes : ℕ → ℕ → Bytes
be_bytes zero n = []
be_bytes (suc k) n = (n / 256 ^ k) % 256 ∷ be_bytes k n

-- The number that big-endian digits spell, after those read so far.
unfoldable pub be_number : ℕ → Bytes → ℕ
be_number acc [] = acc
be_number acc (b ∷ bs) = be_number (acc * 256 + b) bs

-- `bytes.Equal`
unfoldable pub bytes_equal : Bytes → Bytes → Bool
bytes_equal [] [] = true
bytes_equal (a ∷ as') (b ∷ bs) = a == b && bytes_equal as' bs
bytes_equal _ _ = false

-- `bytes.Compare(a, b) < 0`, the order of keys in the database.
unfoldable pub bytes_less : Bytes → Bytes → Bool
bytes_less _ [] = false
bytes_less [] (b ∷ bs) = true
bytes_less (a ∷ as') (b ∷ bs) = if ltb a b then true else (a == b && bytes_less as' bs)

unfoldable pub starts_with : Bytes → Bytes → Bool
starts_with [] k = true
starts_with (p ∷ ps) [] = false
starts_with (p ∷ ps) (k ∷ ks) = p == k && starts_with ps ks
