-- ===== src/GuessGame/Game.antt =====
-- lab3/guess game: a guess, its answer, and what the client makes of it.
use csf303_computer_networks.Prelude.{
  ℕ, ◌+◌, ◌≤◌, ◌≡◌, refl, ap, Bool, true, false, some, List, [], arith, length, take, take-all,
  drop, length-append, c_string-append, if◌then◌else◌, ltb, ok,
}
use csf303_computer_networks.Prelude.Int.{ℤ, pos, int_eq}
use csf303_computer_networks.Text.Literals.{codes}
use csf303_computer_networks.Text.Numbers.{print_int, in_int}
use csf303_computer_networks.Text.Numbers.Printed.{length-print_int}
use csf303_computer_networks.Text.Words.{same_text, strtok-word}
use csf303_computer_networks.Text.Numerals.{strtok_last-print_int}
use csf303_computer_networks.GuessGame.{
  message, generate_random_number, receive, store_text, answer, round,
}
use csf303_computer_networks.GuessGame.Client.{
  Shown, right, wrong, second_word, show_answer, read_answer,
}
use csf303_computer_networks.GuessGame.Client
use csf303_computer_networks.GuessGame.Answers.{HoldsAnswer, answer-IsText, read_guess-print_int}

-- What a player should be shown.
abbrev pub outcome : ℤ → ℕ → Shown
outcome guess number =
    if int_eq guess (pos number) then right else wrong (some (print_int (pos number)))

second_word-answer :
    (number : ℕ) → second_word (answer false number) ≡ some (print_int (pos number))
unfolding second_word answer
second_word-answer number =
    rw
      (
        strtok-word b' ' b'I' (codes "ncorrect") (print_int (pos number))
            (refl, (refl, (refl, (refl, (refl, (refl, (refl, (refl, (refl, tt))))))))),
        second_word,
        strtok_last-print_int (pos number),
      )
      refl

show_answer-answer :
    (hit : Bool) (number : ℕ)
    → show_answer (answer hit number)
      ≡ (if hit then right else wrong (some (print_int (pos number))))
unfolding show_answer answer same_text
show_answer-answer true number = refl
show_answer-answer false number = ap wrong (second_word-answer number)

length-answer : (hit : Bool) (number : ℕ) → length (answer hit number) ≤ 21
unfolding answer
length-answer true number = omega arith
length-answer false number = omega (
  arith,
  length-append (codes "Incorrect ") (print_int (pos number)),
  length-print_int (pos number),
)

read_answer-answer :
    (hit : Bool) (number : ℕ)
    → read_answer (message (answer hit number))
      ≡ ok (if hit then right else wrong (some (print_int (pos number))))
unfolding read_answer
read_answer-answer hit number =
    let whole : take 31 (answer hit number) ≡ answer hit number =
      take-all 31 (answer hit number) (omega (arith, length-answer hit number)) in
    rw (whole, c_string-append (answer hit number) [] (answer-IsText hit number), read_answer)
      (ap ok (show_answer-answer hit number))

-- A game over a buffer that an earlier answer is in, with calls that succeed, for a guess that is
-- an int and is typed with up to seven characters: the number drawn is from 1 to 6, the client is
-- shown that the guess is right if it is that number, and else the number, and the buffer again has
-- an answer in it.
pub round-main :
    (r : ℕ) (guess : ℤ) (msg : List ℕ)
    → in_int guess ≡ true
    → length (print_int guess) ≤ 7
    → HoldsAnswer msg
    → (1 ≤ generate_random_number r 1 6)
      × (generate_random_number r 1 6 ≤ 6)
      × ((msg' text : List ℕ) × (round true r (message (print_int guess)) msg ≡ ok (msg', text))
          × (Client.main true true (print_int guess) true (message text)
              ≡ ok (outcome guess (generate_random_number r 1 6)))
          × HoldsAnswer msg')
unfolding round Client.main generate_random_number store_text
round-main r guess msg int short h =
    let number = generate_random_number r 1 6 in
    let hit = int_eq guess (pos number) in
    let read = read_guess-print_int guess msg int short h in
    let fits : ltb (length (print_int guess)) 32 ≡ true = ground arith in
    (
      omega arith,
      omega arith,
      (
        store_text (answer hit number) (receive (print_int guess) msg),
        answer hit number,
        rw (read, round) refl,
        rw (fits, Client.main) (read_answer-answer hit number),
        record {
          hit = hit;
          number = number;
          rest = drop (length (answer hit number) + 1) (receive (print_int guess) msg);
          held = refl;
        },
      ),
    )
