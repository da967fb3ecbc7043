-- ===== src/Base/Texts.antt =====
-- Texts of the source as lists of bytes.
use Prim.Native.Char.{code}
use Prim.Native.String.{String}
use mellivora_os.Base.{ℕ, List, [], ◌∷◌}

-- The bytes of an ASCII text.
abbrev pub codes : String → List ℕ
codes String.[] = []
codes (String.◌∷◌ c s) = code c ∷ codes s
