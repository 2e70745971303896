-- ===== src/Scen/Lifetimes.antt =====
-- The arithmetic of `Alive` in scen/scenario.go, for a life that is cut short at a time.
use cloudlus.Base.{◌≡◌, true, false, arith}
use cloudlus.Base.Int.{ℤ, pos, ◌+ℤ◌, ◌-ℤ◌, ltb_ℤ, leb_ℤ}
use cloudlus.Scen.Model.{alive}

pub cut_after : (b t u : ℤ) → ltb_ℤ b t ≡ true → leb_ℤ t u ≡ true → alive b u (t -ℤ b) ≡ false
unfolding alive ◌-ℤ◌ ◌+ℤ◌
cut_after b t u h k = ground arith

pub cut_before :
    (b t u l : ℤ)
    → alive b t l ≡ true
    → ltb_ℤ b t ≡ true
    → ltb_ℤ u t ≡ true
    → alive b u (t -ℤ b) ≡ alive b u l
unfolding alive ◌-ℤ◌ ◌+ℤ◌
cut_before b t u l h p k = ground arith

pub dead_after :
    (b t u l : ℤ) → alive b t l ≡ false → ltb_ℤ b t ≡ true → leb_ℤ t u ≡ true → alive b u l ≡ false
unfolding alive ◌+ℤ◌
dead_after b t u l h p k = ground arith

pub unborn : (b t u l : ℤ) → ltb_ℤ b t ≡ false → ltb_ℤ u t ≡ true → alive b u l ≡ false
unfolding alive
unborn b t u l h k = ground arith

pub irrefl : (t : ℤ) → ltb_ℤ t t ≡ false
irrefl t = ground arith

pub positive_rest : (b t : ℤ) → ltb_ℤ b t ≡ true → ltb_ℤ (pos 0) (t -ℤ b) ≡ true
unfolding ◌-ℤ◌
positive_rest b t h = ground arith
