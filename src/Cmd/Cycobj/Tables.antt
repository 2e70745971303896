-- ===== src/Cmd/Cycobj/Tables.antt =====
-- The table of deployments that cmd/cycobj/main.go prints, and reads again with `-sched`.
use cloudlus.Base.{◌≡◌, refl, false, none, some, List, [], ◌∷◌, ◌++◌, String, All, map, arith}
use cloudlus.Base.Int.{ℤ}
use cloudlus.Base.Words.{is_empty, split, trim_space, fields}
use cloudlus.Base.Numerals.{atoi}
use cloudlus.Scen.Model.{Build, blank, lifetime}
use cloudlus.Scen.Check.{ok}
use cloudlus.Cmd.Cycobj.{
  is_newline, field, number, build_of, filled_line, sched_line, put_build, sched_lines, parse_sched,
  table_row,
}
use text.Mathlib.Text.{◌==◌ as str_eq}

-- A line with four words, of which the last three are these numbers.
pub record IsRow (l : String) (row : String × ℤ × ℤ × ℤ) : Type 0 where
  pub time_word : String
  pub life_word : String
  pub number_word : String
  pub filled : is_empty (trim_space l) ≡ false
  pub words : fields (trim_space l) ≡ row.0 ∷ time_word ∷ life_word ∷ number_word ∷ []
  pub not_header : str_eq time_word "BuildTime" ≡ false
  pub time : atoi time_word ≡ some row.1
  pub life : atoi life_word ≡ some row.2
  pub count : atoi number_word ≡ some row.3

-- The header, with the name of its second column.
pub record IsHeader (l : String) : Type 0 where
  pub first : String
  pub rest : List String
  pub filled : is_empty (trim_space l) ≡ false
  pub words : fields (trim_space l) ≡ first ∷ "BuildTime" ∷ rest

module _ {W : Type 0} where
  -- Each line is the row of a build.
  abbrev pub Prints : List String → List (Build W) → Type 0
  Prints [] [] = Unit
  Prints [] (b ∷ bs) = ⊥
  Prints (l ∷ ls) [] = ⊥
  Prints (l ∷ ls) (b ∷ bs) = IsRow l (table_row b) × Prints ls bs

  -- A build as it is read: its lifetime is written out, and it has no facility.
  abbrev pub as_read : W → Build W → Build W
  as_read z b = record { time = b.time; proto = b.proto; n = b.n; life = lifetime b; fac = blank z }

  sched_line-row :
      (z : W) (l : String) (b : Build W)
      → IsRow l (table_row b)
      → sched_line z l ≡ ok (some (as_read z b))
  unfolding sched_line field filled_line build_of number table_row
  sched_line-row z l b r = rw (r.filled, r.words, r.not_header, r.time, r.life, r.count) refl

  sched_lines_end : (z : W) → sched_lines z ("" ∷ []) ≡ ok []
  unfolding sched_lines sched_line put_build trim_space is_empty
  sched_lines_end z = refl

  sched_lines-rows :
      (z : W) (ls : List String) (bs : List (Build W))
      → Prints ls bs
      → sched_lines z (ls ++ ("" ∷ [])) ≡ ok (map (as_read z) bs)
  unfolding sched_lines put_build
  sched_lines-rows z [] [] h = sched_lines_end z
  sched_lines-rows z [] (b ∷ bs) h = absurd h
  sched_lines-rows z (l ∷ ls) [] h = absurd h
  sched_lines-rows z (l ∷ ls) (b ∷ bs) h =
      rw (sched_lines, sched_line-row z l b h.0, sched_lines-rows z ls bs h.1) refl

  sched_line-header : (z : W) (l : String) → IsHeader l → sched_line z l ≡ ok none
  unfolding sched_line field filled_line
  sched_line-header z l h = rw (h.filled, h.words) refl

  lifetime-as_read :
      (z : W) (b : Build W) → lifetime (record (as_read z b) { fac = b.fac }) ≡ lifetime b
  unfolding lifetime
  lifetime-as_read z b = ground arith

  lifetimes-as_read :
      (z : W) (bs : List (Build W))
      → All (λ (b : Build W). lifetime (record (as_read z b) { fac = b.fac }) ≡ lifetime b) bs
  lifetimes-as_read z [] = tt
  lifetimes-as_read z (b ∷ bs) = (lifetime-as_read z b, lifetimes-as_read z bs)

  -- If a text is the header, then lines with the rows that `-transform` prints for some builds, then
  -- the end of the last line, and each row has exactly four fields, the prototype, so that it has no
  -- space in it, and numerals that are read as the time, the lifetime and the number, reading the
  -- text with `-sched` gives builds with the same prototypes, times and numbers, in the same order.
  -- With its facility each of them has the lifetime that it had.
  pub parse_sched-table :
      (z : W) (text header : String) (ls : List String) (bs : List (Build W))
      → split is_newline text ≡ header ∷ (ls ++ ("" ∷ []))
      → IsHeader header
      → Prints ls bs
      → (parse_sched z text ≡ ok (map (as_read z) bs))
        × All (λ (b : Build W). lifetime (record (as_read z b) { fac = b.fac }) ≡ lifetime b) bs
  unfolding parse_sched sched_lines put_build
  parse_sched-table z text header ls bs lines h p = (
    rw (lines, sched_lines, sched_line-header z header h, sched_lines-rows z ls bs p) refl,
    lifetimes-as_read z bs,
  )
