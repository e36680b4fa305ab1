-- ===== src/Text/Lines.antt =====
-- `fgets`: the next line of a file, with its newline, cut to the size of the array.
use csf303_computer_networks.Prelude.{
  ℕ, zero, suc, ◌<◌, ◌≡◌, refl, false, List, [], ◌∷◌, ◌++◌, if◌then◌else◌, ◌==◌, arith, length, All,
}

abbrev pub newline : ℕ
newline = 10

-- At most `n` bytes, up to a newline, and what is left.
unfoldable pub take_line : ℕ → List ℕ → List ℕ × List ℕ
take_line zero bs = ([], bs)
take_line (suc n) [] = ([], [])
take_line (suc n) (b ∷ bs) =
    let (line, rest) = take_line n bs in
    if b == newline then (newline ∷ [], bs) else (b ∷ line, rest)

abbrev pub IsLine : List ℕ → Type 0
IsLine = All (λ b. (b == newline) ≡ false)

pub take_line-append :
    (n : ℕ) (line rest : List ℕ)
    → IsLine line
    → length line < n
    → take_line n (line ++ newline ∷ rest) ≡ (line ++ newline ∷ [], rest)
unfolding take_line
take_line-append zero line rest h fits = absurd (omega arith)
take_line-append (suc n) [] rest h fits = refl
take_line-append (suc n) (b ∷ line) rest h fits =
    rw (h.0, take_line-append n line rest h.1 (omega arith)) refl
