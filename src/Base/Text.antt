-- ===== src/Base/Text.antt =====
-- String constants as the bytes that they hold.
use Prim.Native.Char.{code}
use Prim.Native.String.{String}
use mathlib.Core.List.{[], ◌∷◌}
use ko_ls.Base.Order.{Bytes}

-- The UTF-8 bytes of an ASCII text.
abbrev pub codes : String → Bytes
codes String.[] = []
codes (String.◌∷◌ c s) = code c ∷ codes s
