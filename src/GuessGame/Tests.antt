-- ===== src/GuessGame/Tests.antt =====
-- A game behind another: the buffer holds `Incorrect 3`.
use csf303_computer_networks.Prelude.{
  ◌≡◌, ◌≤◌, refl, true, false, List, ◌++◌, ℕ, ok, replicate, arith,
}
use csf303_computer_networks.Prelude.Int.{pos}
use csf303_computer_networks.Text.Literals.{codes}
use csf303_computer_networks.Text.Numbers.{print_int, in_int, digits}
use csf303_computer_networks.GuessGame.{message, round, answer, generate_random_number}
use csf303_computer_networks.GuessGame.Client.{right, wrong}
use csf303_computer_networks.GuessGame.Client
use csf303_computer_networks.GuessGame.Answers.{HoldsAnswer}
use csf303_computer_networks.GuessGame.Game.{outcome, round-main}

abbrev left_over : List ℕ
left_over = codes "Incorrect 3" ++ replicate 21 0

left_over-HoldsAnswer : HoldsAnswer left_over
unfolding answer print_int digits
left_over-HoldsAnswer = record { hit = false; number = 3; rest = replicate 20 0; held = refl }

drawn : generate_random_number 9 1 6 ≡ 4
unfolding generate_random_number
drawn = refl

round-main_example :
    (1 ≤ generate_random_number 9 1 6)
    × (generate_random_number 9 1 6 ≤ 6)
    × ((msg' text : List ℕ) × (round true 9 (message (print_int (pos 4))) left_over
          ≡ ok (msg', text))
        × (Client.main true true (print_int (pos 4)) true (message text)
            ≡ ok (outcome (pos 4) (generate_random_number 9 1 6)))
        × HoldsAnswer msg')
unfolding in_int print_int digits
round-main_example = round-main 9 (pos 4) left_over refl (omega arith) left_over-HoldsAnswer
