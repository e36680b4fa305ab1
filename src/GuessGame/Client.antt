-- ===== src/GuessGame/Client.antt =====
-- lab3/guess game/client.c: one guess, and what the client says of the answer.
use csf303_computer_networks.Prelude.{
  ℕ, ◌-◌, Bool, Option, none, some, List, [], ◌∷◌, ◌++◌, if◌then◌else◌, ltb, length, take, c_string,
  Result, ok, err, socket_failed, connect_failed, sendto_failed, recvfrom_failed, overread,
  overflow, guard, ◌>>◌,
}
use csf303_computer_networks.Text.Literals.{codes}
use csf303_computer_networks.Text.Words.{same_text, strtok}
use csf303_computer_networks.GuessGame.{Arrival, recv_error, message}

abbrev pub bufsize : ℕ
bufsize = 32

-- What is shown: that the guess was right, or the second word of the answer, where there is one.
pub data Shown : Type 0 where
  right : Shown
  wrong : Option (List ℕ) → Shown

unfoldable pub second_word : List ℕ → Option (List ℕ)
second_word text = elim (strtok b' ' text) [
  | none ↦ none
  | some (word, rest) ↦ elim (strtok b' ' rest) [ none ↦ none | some (word', rest') ↦ some word' ]
]

unfoldable pub show_answer : List ℕ → Shown
show_answer text = if same_text text (codes "correct") then right else wrong (second_word text)

-- `recvBuffer` as a string: 31 bytes at most, and a NUL.
unfoldable pub read_answer : Arrival → Result Shown
read_answer recv_error = err recvfrom_failed
read_answer (message bytes) = elim (c_string (take (bufsize - 1) bytes ++ 0 ∷ [])) [
  | none ↦ err overread
  | some text ↦ ok (show_answer text)
]

-- `main`, for the line that `gets` reads.
unfoldable pub main : Bool → Bool → List ℕ → Bool → Arrival → Result Shown
main socket_ok connect_ok line send_ok a = do
  guard socket_ok socket_failed
  guard connect_ok connect_failed
  guard (ltb (length line) bufsize) overflow
  guard send_ok sendto_failed
  read_answer a
