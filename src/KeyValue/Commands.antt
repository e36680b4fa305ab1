-- ===== src/KeyValue/Commands.antt =====
-- The words of a command: a name and up to two numbers, as a client writes them.
use csf303_computer_networks.Prelude.{
  ℕ, suc, ◌-◌, ◌<◌, ◌≡◌, refl, true, false, ◌==◌, ◌||◌, some, List, [], ◌∷◌, ◌++◌, arith, length,
  take-all, replicate, All, IsText, c_string-append, ok,
}
use csf303_computer_networks.Prelude.Int.{ℤ}
use csf303_computer_networks.Text.Numbers.{is_digit, print_int, in_int}
use csf303_computer_networks.Text.Numbers.Printed.{atoi-print_int, IsNumeral, print_int-IsNumeral}
use csf303_computer_networks.Text.Words.{same_text}
use csf303_computer_networks.KeyValue.{buffersize, Child, number_word, received}
use csf303_computer_networks.Text.Numerals.{strtok-print_int, strtok_last-print_int}

-- The next number of a command, and the last.
pub number_word-next :
    (c : Child) (z : ℤ) (rest : List ℕ)
    → in_int z ≡ true
    → number_word (record c { saved = print_int z ++ b' ' ∷ rest })
      ≡ ok (z, record c { substring = print_int z; saved = rest })
unfolding number_word
number_word-next c z rest h = rw (strtok-print_int z rest, number_word, atoi-print_int z h) refl

pub number_word_last :
    (c : Child) (z : ℤ)
    → in_int z ≡ true
    → number_word (record c { saved = print_int z })
      ≡ ok (z, record c { substring = print_int z; saved = [] })
unfolding number_word
number_word_last c z h = rw (strtok_last-print_int z, number_word, atoi-print_int z h) refl

-- No number is the name of a command.
numeral_other :
    (cs : List ℕ) (w : ℕ) (ws : List ℕ)
    → All IsNumeral cs
    → (is_digit w || w == b'-') ≡ false
    → same_text cs (w ∷ ws) ≡ false
unfolding same_text
numeral_other [] w ws h other = refl
numeral_other (c ∷ cs) w ws h other =
    let differ : (c == w) ≡ false = ground (arith, h.0) in rw differ refl

pub print_int-other :
    (z : ℤ) (w : ℕ) (ws : List ℕ)
    → (is_digit w || w == b'-') ≡ false
    → same_text (print_int z) (w ∷ ws) ≡ false
print_int-other z w ws other = numeral_other (print_int z) w ws (print_int-IsNumeral z) other

-- A short message with no NUL is received as it was sent.
pub received_lem :
    (text : List ℕ) → IsText text → length text < buffersize → received text ≡ some text
unfolding received
received_lem text h short =
    let fill : 32 - length text ≡ suc (31 - length text) = omega arith in
    rw (take-all 32 text (omega arith), fill)
      (c_string-append text (replicate (31 - length text) 0) h)
