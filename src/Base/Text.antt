-- ===== src/Base/Text.antt =====
-- Texts joined by `+`, under a name that does not clash with the one for lists.
use Prim.Native.String.{String, ◌++◌}

abbrev pub join : String → String → String
join s t = s ++ t
