-- ===== src/Base/Text.antt =====
-- The texts of the source.
use Prim.Native.Nat.{ℕ}
use Prim.Native.String.{String}
use Prim.Native.Char.{code}
use mathlib.Core.List.{List, [], ◌∷◌, ◌++◌}
use illinix_operating_system.Base.Memory.{Reader, bytes_at}

-- The characters of a text.
abbrev pub codes : String → List ℕ
codes String.[] = []
codes (String.◌∷◌ c s) = code c ∷ codes s

-- A pointer to the text, with its 0 byte.
abbrev pub text : String → Reader
text s = bytes_at (codes s ++ 0 ∷ [])
