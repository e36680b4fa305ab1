-- ===== src/Text/Literals.antt =====
-- String literals of the source as bytes.
use Prim.Native.Char.{code}
use Prim.Native.String.{String}
use csf303_computer_networks.Prelude.{ℕ, List, [], ◌∷◌}

abbrev pub codes : String → List ℕ
codes String.[] = []
codes (String.◌∷◌ c s) = code c ∷ codes s
