-- ===== src/KeyValue/Client.antt =====
-- lab5/exercise_2_key_value/client_key.c: the client, which types commands and shows the replies.
use csf303_computer_networks.Prelude.{
  ℕ, ◌-◌, ◌<◌, ◌≡◌, refl, ap, ◌∙◌, Bool, true, false, none, some, List, [], ◌∷◌, ◌++◌,
  if◌then◌else◌, ltb, arith, length, take, take-all, IsText, c_string, c_string-append, Result, ok,
  err, socket_failed, connect_failed, sendto_failed, recvfrom_failed, overread, overflow, guard,
  ◌>>◌, ◌>>=◌,
}
use csf303_computer_networks.Text.Literals.{codes}
use csf303_computer_networks.Text.Words.{same_text}
use csf303_computer_networks.KeyValue.{Status, running, finished, Arrival, recv_error, message}

abbrev pub bufsize : ℕ
bufsize = 32

-- The replies that the client has shown.
pub record Client : Type 0 where
  pub shown : List (List ℕ)

-- `recvBuffer` as a string: 31 bytes at most, and a NUL.
unfoldable pub shown_text : List ℕ → Result (List ℕ)
shown_text bytes = elim (c_string (take (bufsize - 1) bytes ++ 0 ∷ [])) [
  | none ↦ err overread
  | some text ↦ ok text
]

-- What is done with the reply: `Goodbye` ends the process.
unfoldable pub handle_reply : Arrival → Client → Result (Status × Client)
handle_reply recv_error c = err recvfrom_failed
handle_reply (message bytes) c = do
  text ← shown_text bytes
  if same_text (codes "Goodbye") text
      then ok (finished, c)
      else ok (running, record c { shown = c.shown ++ text ∷ [] })

-- One pass of the loop: `gets`, which writes beyond the array where a line does not fit, `send` and
-- `recv`.
unfoldable pub round : Bool → List ℕ → Arrival → Client → Result (Status × Client)
round send_ok line a c = do
  guard (ltb (length line) bufsize) overflow
  guard send_ok sendto_failed
  handle_reply a c

-- `main` up to its loop.
unfoldable pub main : Bool → Bool → Result Client
main socket_ok connect_ok = do
  guard socket_ok socket_failed
  guard connect_ok connect_failed
  ok (record { shown = [] })

-- A short text is shown as it was sent, unless it is `Goodbye`.
pub round-shows :
    (line text : List ℕ) (c : Client)
    → length line < bufsize
    → IsText text
    → length text < bufsize
    → same_text (codes "Goodbye") text ≡ false
    → round true line (message text) c ≡ ok (running, record c { shown = c.shown ++ text ∷ [] })
unfolding round handle_reply shown_text c_string
round-shows line text c fits h short other =
    let room : ltb (length line) 32 ≡ true = ground arith in
    let read : c_string (take 31 text ++ 0 ∷ []) ≡ some text =
      ap (λ l. c_string (l ++ 0 ∷ [])) (take-all 31 text (omega arith))
      ∙ c_string-append text [] h in
    rw (room, read, other) refl
