-- ===== src/Base/Words.antt =====
-- Texts that are taken apart: the functions `Split`, `TrimSpace` and `Fields` of Go's `strings`.
pub mod Laws
use Prim.Native.Nat.{ℕ}
use Prim.Native.String
use Prim.Native.String.{String}
use Prim.Native.Char.{Char, code}
use mathlib.Core.Bool.{Bool, true, false, not, ◌&&◌, ◌||◌}
use mathlib.Core.List.{List, [], ◌∷◌}
use cloudlus.Base.Tests.{◌==◌, leb, if◌then◌else◌}
use cloudlus.Base.Lists.{keep}

-- `unicode.IsSpace`
unfoldable pub is_space : ℕ → Bool
is_space c =
    (leb 9 c && leb c 13)
    || c == 32
    || c == 0x85
    || c == 0xA0
    || c == 0x1680
    || (leb 0x2000 c && leb c 0x200A)
    || c == 0x2028
    || c == 0x2029
    || c == 0x202F
    || c == 0x205F
    || c == 0x3000

unfoldable pub is_empty : String → Bool
is_empty String.[] = true
is_empty (String.◌∷◌ c s) = false

-- A character in front of the first piece.
unfoldable pub extend : Char → List String → List String
extend c [] = String.◌∷◌ c String.[] ∷ []
extend c (w ∷ ws) = String.◌∷◌ c w ∷ ws

-- The pieces between the characters that pass the test: one more than there are of these.
unfoldable pub split : (ℕ → Bool) → String → List String
unfolding extend
split p String.[] = String.[] ∷ []
split p (String.◌∷◌ c s) =
    let rest = split p s in if p (code c) then String.[] ∷ rest else extend c rest

-- `strings.TrimSpace`
unfoldable pub trim_start : String → String
unfolding is_space
trim_start String.[] = String.[]
trim_start (String.◌∷◌ c s) =
    let rest = trim_start s in if is_space (code c) then rest else String.◌∷◌ c s

-- A space stays if something that stays follows it.
unfoldable pub put_before : Char → String → String
unfolding is_space
put_before c String.[] = if is_space (code c) then String.[] else String.◌∷◌ c String.[]
put_before c (String.◌∷◌ d s) = String.◌∷◌ c (String.◌∷◌ d s)

unfoldable pub trim_end : String → String
unfolding put_before
trim_end String.[] = String.[]
trim_end (String.◌∷◌ c s) = put_before c (trim_end s)

unfoldable pub trim_space : String → String
unfolding trim_start trim_end
trim_space s = trim_end (trim_start s)

-- `strings.Fields`
unfoldable pub fields : String → List String
unfolding split is_space is_empty keep
fields s = keep (λ w. not (is_empty w)) (split is_space s)
