-- ===== src/Scen/Line.antt =====
-- `findLine` of scen/scenario.go: the line and column of a byte offset.
use cloudlus.Base.{ℕ, zero, suc, ◌+◌, Option, none, some, List, [], ◌∷◌, ◌==◌, if◌then◌else◌}

-- The loop, with the bytes that are left and the number to read. `none` is the panic at the end of
-- the data.
unfoldable pub find_line_from : List ℕ → ℕ → ℕ → ℕ → Option (ℕ × ℕ)
find_line_from bytes zero line col = some (line, col)
find_line_from [] (suc n) line col = none
find_line_from (b ∷ bytes) (suc n) line col =
    find_line_from bytes n (if b == b'\n' then line + 1 else line)
      (if b == b'\n' then 1 else col + 1)

unfoldable pub find_line : List ℕ → ℕ → Option (ℕ × ℕ)
unfolding find_line_from
find_line bytes n = find_line_from bytes n 1 0
