-- ===== src/Text/Numerals.antt =====
-- A printed number as a word of a text.
use csf303_computer_networks.Prelude.{
  ℕ, ◌<◌, ◌≡◌, ap, sym, ◌∙◌, subst, false, ◌==◌, some, List, [], ◌∷◌, ◌++◌, arith, All-mono, IsText,
}
use csf303_computer_networks.Prelude.Int.{ℤ}
use csf303_computer_networks.Text.Numbers.{print_int}
use csf303_computer_networks.Text.Numbers.Printed.{IsNumeral, print_int-IsNumeral, print_int-cons}
use csf303_computer_networks.Text.Words.{strtok, IsWord, strtok-word, strtok_last}

pub print_int-IsText : (z : ℤ) → IsText (print_int z)
print_int-IsText z =
    All-mono IsNumeral (λ b. 0 < b) (print_int z) (λ c h. ground arith) (print_int-IsNumeral z)

pub print_int-IsWord : (z : ℤ) → IsWord b' ' (print_int z)
print_int-IsWord z =
    All-mono IsNumeral (λ c. (c == b' ') ≡ false) (print_int z) (λ c h. ground arith)
      (print_int-IsNumeral z)

pub strtok-print_int :
    (z : ℤ) (rest : List ℕ) → strtok b' ' (print_int z ++ b' ' ∷ rest) ≡ some (print_int z, rest)
strtok-print_int z rest =
    let (c, cs, e) = print_int-cons z in
    let w : IsWord b' ' (c ∷ cs) = subst (IsWord b' ') e (print_int-IsWord z) in
    ap (λ l. strtok b' ' (l ++ b' ' ∷ rest)) e
    ∙ strtok-word b' ' c cs rest w
    ∙ ap (λ l. some (l, rest)) (sym e)

pub strtok_last-print_int : (z : ℤ) → strtok b' ' (print_int z) ≡ some (print_int z, [])
strtok_last-print_int z =
    let (c, cs, e) = print_int-cons z in
    let w : IsWord b' ' (c ∷ cs) = subst (IsWord b' ') e (print_int-IsWord z) in
    ap (strtok b' ') e ∙ strtok_last b' ' c cs w ∙ ap (λ l. some (l, [])) (sym e)
