-- ===== src/GuessGame.antt =====
-- lab3/guess game: a server that draws a number from 1 to 6, and a client that guesses it.
pub mod Client
pub mod Answers
pub mod Game
mod Tests
use csf303_computer_networks.Prelude.{
  ℕ, ◌+◌, ◌-◌, ◌%◌, Bool, none, some, List, [], ◌∷◌, ◌++◌, if◌then◌else◌, length, take, drop,
  c_string, Result, ok, err, socket_failed, bind_failed, listen_failed, sendto_failed,
  recvfrom_failed, overread, guard, ◌>>=◌, ◌>>◌,
}
use csf303_computer_networks.Prelude.Int.{ℤ, pos, int_eq}
use csf303_computer_networks.Text.Literals.{codes}
use csf303_computer_networks.Text.Numbers.{print_int, atoi}

abbrev pub buffersize : ℕ
buffersize = 32

-- What `recv` comes back with.
pub data Arrival : Type 0 where
  recv_error : Arrival
  message : List ℕ → Arrival

-- For the value `r` that `rand()` returned.
unfoldable pub generate_random_number : ℕ → ℕ → ℕ → ℕ
generate_random_number r lower_bound upper_bound = lower_bound + r % (upper_bound - lower_bound + 1)

-- `recv` into the 32 bytes of `msg`, which keeps what it held behind them.
unfoldable pub receive : List ℕ → List ℕ → List ℕ
receive bytes msg = let got = take buffersize bytes in got ++ drop (length got) msg

-- `sprintf`
unfoldable pub store_text : List ℕ → List ℕ → List ℕ
store_text text msg = text ++ (0 ∷ drop (length text + 1) msg)

unfoldable pub answer : Bool → ℕ → List ℕ
answer hit number = if hit then codes "correct" else codes "Incorrect " ++ print_int (pos number)

-- `atoi(msg)`
unfoldable pub read_guess : List ℕ → Result ℤ
read_guess msg = elim (c_string msg) [ none ↦ err overread | some text ↦ atoi text ]

-- One pass of the loop: what `msg` then holds, and what is sent.
unfoldable pub round : Bool → ℕ → Arrival → List ℕ → Result (List ℕ × List ℕ)
round send_ok r recv_error msg = err recvfrom_failed
round send_ok r (message bytes) msg =
    let number = generate_random_number r 1 6 in
    do
      guess ← read_guess (receive bytes msg)
      guard send_ok sendto_failed
      ok (
        store_text (answer (int_eq guess (pos number)) number) (receive bytes msg),
        answer (int_eq guess (pos number)) number,
      )

-- `main` up to its loop; `msg` is not initialised.
unfoldable pub main : Bool → Bool → Bool → List ℕ → Result (List ℕ)
main socket_ok bind_ok listen_ok raw = do
  guard socket_ok socket_failed
  guard bind_ok bind_failed
  guard listen_ok listen_failed
  ok raw
