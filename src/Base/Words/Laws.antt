-- ===== src/Base/Words/Laws.antt =====
-- What `split` and `trim_space` leave of a text.
use Prim.Native.Nat.{ℕ}
use Prim.Native.String.{String}
use Prim.Native.Char.{Char, code}
use mathlib.Core.Path.{◌≡◌, refl, ap, ◌∙◌}
use mathlib.Core.Logic.{inl, inr}
use mathlib.Core.Bool.{Bool, false, ◌||◌}
use mathlib.Core.List.{List, [], ◌∷◌}
use native.Mathlib.Omega.{arith}
use cloudlus.Base.Tests.{Bool-cases}
use cloudlus.Base.Lists.{All}
use cloudlus.Base.Words.{is_space, extend, split, trim_start, put_before, trim_end, trim_space}

-- Whether a character of a text passes a test.
unfoldable pub has : (ℕ → Bool) → String → Bool
has p String.[] = false
has p (String.◌∷◌ c s) = p (code c) || has p s

lacks-extend :
    (p : ℕ → Bool) (c : Char) (ws : List String)
    → p (code c) ≡ false
    → All (λ w. has p w ≡ false) ws
    → All (λ w. has p w ≡ false) (extend c ws)
unfolding has extend
lacks-extend p c [] e h = (rw e, tt)
lacks-extend p c (w ∷ ws) e h = (rw e h.0, h.1)

-- No piece has a character at which the text is split.
pub lacks-split : (p : ℕ → Bool) (s : String) → All (λ w. has p w ≡ false) (split p s)
unfolding has split
lacks-split p String.[] = (refl, tt)
lacks-split p (String.◌∷◌ c s) = elim (Bool-cases (p (code c))) [
  | inl e ↦ rw e (refl, lacks-split p s)
  | inr e ↦ rw e (lacks-extend p c (split p s) e (lacks-split p s))
]

lacks-trim_start : (p : ℕ → Bool) (s : String) → has p s ≡ false → has p (trim_start s) ≡ false
unfolding has trim_start
lacks-trim_start p String.[] h = refl
lacks-trim_start p (String.◌∷◌ c s) h = ground (arith, lacks-trim_start p s)

lacks-put_before :
    (p : ℕ → Bool) (c : Char) (s : String)
    → p (code c) ≡ false
    → has p s ≡ false
    → has p (put_before c s) ≡ false
unfolding has put_before
lacks-put_before p c String.[] e h = elim (Bool-cases (is_space (code c))) [
  | inl s ↦ rw s refl
  | inr s ↦ rw s (rw e refl)
]
lacks-put_before p c (String.◌∷◌ d s) e h = rw e h

lacks-trim_end : (p : ℕ → Bool) (s : String) → has p s ≡ false → has p (trim_end s) ≡ false
unfolding has trim_end
lacks-trim_end p String.[] h = refl
lacks-trim_end p (String.◌∷◌ c s) h =
    lacks-put_before p c (trim_end s) (ground arith) (lacks-trim_end p s (ground arith))

pub lacks-trim_space : (p : ℕ → Bool) (s : String) → has p s ≡ false → has p (trim_space s) ≡ false
unfolding trim_space
lacks-trim_space p s h = lacks-trim_end p (trim_start s) (lacks-trim_start p s h)

trim_end-put_before :
    (c : Char) (s : String) → trim_end s ≡ s → trim_end (put_before c s) ≡ put_before c s
unfolding trim_end put_before
trim_end-put_before c String.[] h = elim (Bool-cases (is_space (code c))) [
  | inl e ↦ rw e
  | inr e ↦ rw (e, e)
]
trim_end-put_before c (String.◌∷◌ d s) h = ap (put_before c) h

trim_end_idem : (s : String) → trim_end (trim_end s) ≡ trim_end s
unfolding trim_end
trim_end_idem String.[] = refl
trim_end_idem (String.◌∷◌ c s) = trim_end-put_before c (trim_end s) (trim_end_idem s)

trim_start-put_before :
    (c : Char) (s : String)
    → is_space (code c) ≡ false
    → trim_start (put_before c s) ≡ put_before c s
unfolding trim_start put_before
trim_start-put_before c String.[] e = rw (e, e)
trim_start-put_before c (String.◌∷◌ d s) e = rw e

trim_start-trim_end : (s : String) → trim_start (trim_end (trim_start s)) ≡ trim_end (trim_start s)
unfolding trim_start trim_end
trim_start-trim_end String.[] = refl
trim_start-trim_end (String.◌∷◌ c s) = elim (Bool-cases (is_space (code c))) [
  | inl e ↦ rw e (trim_start-trim_end s)
  | inr e ↦ rw e (trim_start-put_before c (trim_end s) e)
]

-- Trimming twice is trimming once.
pub trim_space_idem : (s : String) → trim_space (trim_space s) ≡ trim_space s
unfolding trim_space
trim_space_idem s = ap trim_end (trim_start-trim_end s) ∙ trim_end_idem (trim_start s)
