-- ===== src/Scen/Columns.antt =====
-- The line and column of an offset, findLine of scen/scenario.go, from the bytes before it.
use cloudlus.Base.{
  ℕ, zero, suc, ◌+◌, ◌≡◌, refl, not, ◌&&◌, none, some, List, [], ◌∷◌, length, leb, ◌==◌, arith,
  if◌then◌else◌,
}
use cloudlus.Scen.Line.{find_line_from, find_line}

-- The first `n` bytes.
unfoldable pub front : ℕ → List ℕ → List ℕ
front zero bytes = []
front (suc n) [] = []
front (suc n) (b ∷ bytes) = b ∷ front n bytes

unfoldable pub newlines : List ℕ → ℕ
newlines [] = 0
newlines (b ∷ bytes) = if b == b'\n' then suc (newlines bytes) else newlines bytes

-- The number of bytes after the last newline.
unfoldable pub since_newline : List ℕ → ℕ
unfolding newlines
since_newline [] = 0
since_newline (b ∷ bytes) =
    if not (b == b'\n') && (newlines bytes == 0) then suc (length bytes) else since_newline bytes

since-none : (bytes : List ℕ) → newlines bytes ≡ 0 → since_newline bytes ≡ length bytes
unfolding newlines since_newline
since-none [] h = refl
since-none (b ∷ bytes) h = ground (arith, since-none bytes)

find_line_from-front :
    (bytes : List ℕ) (n line col : ℕ)
    → let p = front n bytes in
      find_line_from bytes n line col ≡ (
        if leb n (length bytes)
        then some (line + newlines p, (if newlines p == 0 then col else 1) + since_newline p)
        else none)
unfolding find_line_from front newlines since_newline
find_line_from-front bytes zero line col = ground arith
find_line_from-front [] (suc n) line col = ground arith
find_line_from-front (b ∷ bytes) (suc n) line col = ground (
  arith,
  find_line_from-front bytes n (if b == b'\n' then line + 1 else line)
      (if b == b'\n' then 1 else col + 1),
  since-none (front n bytes),
)

-- Within the data, the line is one more than the newlines before the offset, and the column counts the
-- bytes after the last of these; it starts at one, but at zero on the first line. Beyond the data
-- the call panics.
pub find_line-front :
    (bytes : List ℕ) (n : ℕ)
    → let p = front n bytes in
      find_line bytes n ≡ (
        if leb n (length bytes)
        then some (1 + newlines p, (if newlines p == 0 then 0 else 1) + since_newline p)
        else none)
unfolding find_line
find_line-front bytes n = find_line_from-front bytes n 1 0
