-- ===== src/GuessGame/Answers.antt =====
-- lab3/guess game/server.c: a guess is read rightly over what an answer has left in the buffer.
use csf303_computer_networks.Prelude.{
  ℕ, zero, suc, ◌≤◌, ◌<◌, ◌≡◌, refl, ap, sym, ◌∙◌, Bool, true, false, some, List, [], ◌∷◌, ◌++◌,
  append_assoc, arith, length, take, drop, take-all, length-append, drop-append_of_le, All,
  All-append, All-drop, IsText, c_string, c_string-append, ok,
}
use csf303_computer_networks.Prelude.Int.{ℤ, pos}
use csf303_computer_networks.Text.Literals.{codes}
use csf303_computer_networks.Text.Numbers.{print_int, is_digit, starts_digit, in_int, atoi}
use csf303_computer_networks.Text.Numbers.Printed.{scan_number-print_int}
use csf303_computer_networks.Text.Numerals.{print_int-IsText}
use csf303_computer_networks.GuessGame.{answer, receive, read_guess}

-- What an answer leaves in `msg`.
pub record HoldsAnswer (msg : List ℕ) : Type 0 where
  pub hit : Bool
  pub number : ℕ
  pub rest : List ℕ
  pub held : msg ≡ answer hit number ++ 0 ∷ rest

abbrev IsLetter : ℕ → Type 0
IsLetter c = is_digit c ≡ false

no_digit-drop :
    (xs rest : List ℕ) (k : ℕ)
    → All IsLetter xs
    → k < length xs
    → starts_digit (drop k (xs ++ rest)) ≡ false
no_digit-drop [] rest k h lt = absurd (omega arith)
no_digit-drop (x ∷ xs) rest zero h lt = h.0
no_digit-drop (x ∷ xs) rest (suc k) h lt = no_digit-drop xs rest k h.1 (omega arith)

no_digit-drop-All : (xs : List ℕ) (k : ℕ) → All IsLetter xs → starts_digit (drop k xs) ≡ false
no_digit-drop-All [] zero h = refl
no_digit-drop-All [] (suc k) h = refl
no_digit-drop-All (x ∷ xs) zero h = h.0
no_digit-drop-All (x ∷ xs) (suc k) h = no_digit-drop-All xs k h.1

answer-no_digit :
    (hit : Bool) (number k : ℕ) → k ≤ 7 → starts_digit (drop k (answer hit number)) ≡ false
unfolding answer
answer-no_digit true number k le =
    no_digit-drop-All (codes "correct") k (refl, (refl, (refl, (refl, (refl, (refl, (refl, tt)))))))
answer-no_digit false number k le =
    no_digit-drop (codes "Incorrect") (b' ' ∷ print_int (pos number)) k
      (refl, (refl, (refl, (refl, (refl, (refl, (refl, (refl, (refl, tt))))))))) (omega arith)

pub answer-IsText : (hit : Bool) (number : ℕ) → IsText (answer hit number)
unfolding answer
answer-IsText true number = omega arith
answer-IsText false number =
    All-append (λ b. 0 < b) (codes "Incorrect ") (print_int (pos number)) (omega arith)
      (print_int-IsText (pos number))

answer-long : (hit : Bool) (number : ℕ) → 7 ≤ length (answer hit number)
unfolding answer
answer-long true number = omega arith
answer-long false number =
    omega (arith, length-append (codes "Incorrect ") (print_int (pos number)))

atoi-print_int_over :
    (z : ℤ) (rest : List ℕ)
    → in_int z ≡ true
    → starts_digit rest ≡ false
    → atoi (print_int z ++ rest) ≡ ok z
unfolding atoi
atoi-print_int_over z rest int stop = rw (scan_number-print_int z rest int stop, atoi, int) refl

-- A guess of up to seven characters is read over the rest of any answer.
pub read_guess-print_int :
    (guess : ℤ) (msg : List ℕ)
    → in_int guess ≡ true
    → length (print_int guess) ≤ 7
    → HoldsAnswer msg
    → read_guess (receive (print_int guess) msg) ≡ ok guess
unfolding read_guess receive
read_guess-print_int guess msg int short h =
    let text : List ℕ = print_int guess in
    let old : List ℕ = answer h.hit h.number in
    let whole : take 32 text ≡ text = take-all 32 text (omega arith) in
    let behind : drop (length text) msg ≡ drop (length text) old ++ 0 ∷ h.rest =
      ap (drop (length text)) h.held
      ∙ drop-append_of_le (length text) old (0 ∷ h.rest)
          (omega (arith, answer-long h.hit h.number)) in
    let string : c_string (text ++ drop (length text) msg) ≡ some (text ++ drop (length text) old) =
      ap (λ l. c_string (text ++ l)) behind
      ∙ ap c_string (sym (append_assoc text (drop (length text) old) (0 ∷ h.rest)))
      ∙ c_string-append (text ++ drop (length text) old) h.rest (
          All-append (λ b. 0 < b) text (drop (length text) old) (print_int-IsText guess)
            (All-drop (λ b. 0 < b) (length text) old (answer-IsText h.hit h.number))) in
    let read =
      atoi-print_int_over guess (drop (length text) old) int
        (answer-no_digit h.hit h.number (length text) short) in
    rw (whole, string, read_guess, read) refl
