-- ===== src/Db/Open.antt =====
-- `NewDB` of cloudlus/util.go.
use cloudlus.Base.{◌*◌, Option, none, some, String, if◌then◌else◌}
use cloudlus.Base.Int.{ℤ, pos}
use cloudlus.Time.{Duration, second}
use text.Mathlib.Text.{◌==◌ as str_eq}

-- A database over a store, which is nil if it was not opened.
pub record Opened (S : Type 0) : Type 0 where
  pub store : Option S
  pub limit : ℤ
  pub purge_age : Duration

-- The record of `NewDB`, which purges jobs after half an hour.
unfoldable pub over : {S : Type 0} → Option S → ℤ → Opened S
over s limit = record { store = s; limit = limit; purge_age = pos (1800 * second) }

-- The first two arguments are what opening a store in memory, and one in a directory, returns. An error
-- is returned for a directory only.
unfoldable pub new_db :
    {S : Type 0} → Option S → (String → Option S) → String → ℤ → Option (Opened S)
unfolding over
new_db memory file path limit =
    if str_eq path ""
    then some (over memory limit)
    else elim (file path) [ none ↦ none | some s ↦ some (over (some s) limit) ]
