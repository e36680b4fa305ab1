-- ===== src/Prelude/CString.antt =====
-- C strings: what a string function reads from an array of bytes.
use Prim.Native.Nat.{ℕ, zero, suc, ◌<◌}
use mathlib.Core.Path.{◌≡◌, refl}
use mathlib.Core.List.{List, [], ◌∷◌, ◌++◌}
use mathlib.Core.Option
use mathlib.Core.Option.{Option, none, some}
use native.Mathlib.Omega.{arith}
use csf303_computer_networks.Prelude.Lists.{All}

-- The bytes up to the first NUL. `none` is a read past the end of the array.
unfoldable pub c_string : List ℕ → Option (List ℕ)
c_string [] = none
c_string (zero ∷ bs) = some []
c_string (suc b ∷ bs) = Option.map (λ s. suc b ∷ s) (c_string bs)

abbrev pub IsText : List ℕ → Type 0
IsText = All (λ b. 0 < b)

pub c_string-append : (text rest : List ℕ) → IsText text → c_string (text ++ 0 ∷ rest) ≡ some text
unfolding c_string
c_string-append [] rest h = refl
c_string-append (zero ∷ bs) rest h = absurd (omega arith)
c_string-append (suc b ∷ bs) rest h = rw (c_string-append bs rest h.1)
