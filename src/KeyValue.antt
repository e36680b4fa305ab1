-- ===== src/KeyValue.antt =====
-- lab5/exercise_2_key_value/server_key.c: a server for a file of pairs, one child process for each
-- client.
pub mod Table
pub mod Loops
pub mod Commands
pub mod Answer
pub mod Session
mod Keys
pub mod Refines
pub mod Faults
pub mod Client
pub mod Exchange
mod Tests
use csf303_computer_networks.Prelude.{
  ℕ, zero, suc, ◌+◌, ◌-◌, Bool, true, false, Option, none, some, List, [], ◌∷◌, ◌++◌, if◌then◌else◌,
  ◌==◌, length, take, replicate, c_string, Result, ok, err, socket_failed, option_failed,
  bind_failed, listen_failed, sendto_failed, recvfrom_failed, fopen_failed, null_file, null_pointer,
  overread, bad_line, rename_failed, guard, ◌>>=◌, ◌>>◌,
}
use csf303_computer_networks.Prelude.Int.{ℤ, pos, negsuc}
pub use csf303_computer_networks.Prelude.Int.{int_eq}
use csf303_computer_networks.Text.Literals.{codes}
use csf303_computer_networks.Text.Numbers.{print_int, scan_number, as_int, atoi}
use csf303_computer_networks.Text.Words.{same_text, strtok}
use csf303_computer_networks.Text.Lines.{newline, take_line}

abbrev pub buffersize : ℕ
buffersize = 32

-- `sizeof(line)`
abbrev pub line_size : ℕ
line_size = 100

-- What the operating system decides, at the n-th reply: whether the file can be opened for
-- appending, the temporary file for writing, whether `rename` and `send` succeed.
pub record Os : Type 0 where
  pub append_ok : ℕ → Bool
  pub temp_ok : ℕ → Bool
  pub rename_ok : ℕ → Bool
  pub send_ok : ℕ → Bool

-- A child process: database.txt, where there is one, the token that `substring` points to, the rest
-- of the message that `strtok` has saved, and the replies, oldest first.
pub record Child : Type 0 where
  pub file : Option (List ℕ)
  pub substring : List ℕ
  pub saved : List ℕ
  pub replies : List (List ℕ)

-- `finished`: the `break` behind `goodbye` has left the inner loop, the one that reads commands.
-- What the child does then, a second `close` and the head of the outer loop, is not modelled.
pub data Status : Type 0 where
  running finished : Status

pub data Arrival : Type 0 where
  recv_error : Arrival
  message : List ℕ → Arrival

-- `send`: a text that is not sent whole ends the process.
unfoldable pub reply : Os → List ℕ → Child → Result Child
reply os text c =
    if os.send_ok (length c.replies)
    then ok (record c { replies = c.replies ++ text ∷ [] })
    else err sendto_failed

-- `substring = strtok(NULL, " ")` and `atoi(substring)`, which reads through a NULL.
unfoldable pub number_word : Child → Result (ℤ × Child)
number_word c = elim (strtok b' ' c.saved) [
  | none ↦ err null_pointer
  | some (word, rest) ↦ do z ← atoi word; ok (z, record c { substring = word; saved = rest })
]

abbrev pub bytes_of : Option (List ℕ) → List ℕ
bytes_of none = []
bytes_of (some bytes) = bytes

-- `fprintf(fp, "%d %d\n", key, value)`
abbrev pub print_pair : ℤ → ℤ → List ℕ
print_pair key value = print_int key ++ (b' ' ∷ print_int value ++ newline ∷ [])

unfoldable pub put : Os → Child → Result Child
put os c =
    if same_text c.substring (codes "put")
    then (do
      (key, c₁) ← number_word c
      (value, c₂) ← number_word c₁
      guard (os.append_ok (length c₂.replies)) fopen_failed
      reply os (codes "Pair added to database")
          (record c₂ { file = some (bytes_of c₂.file ++ print_pair key value) }))
    else ok c

-- `sscanf(line, "%d", &key) != 1` ends the process.
unfoldable pub scan_key : List ℕ → Result (ℤ × List ℕ)
scan_key line = elim (scan_number line) [
  | none ↦ err bad_line
  | some (z, rest) ↦ do key ← as_int z; ok (key, rest)
]

-- `sscanf(line, "%d %d", &key, &value) != 2` ends the process.
unfoldable pub scan_pair : List ℕ → Result (ℤ × ℤ)
scan_pair line = do (key, rest) ← scan_key line; (value, _) ← scan_key rest; ok (key, value)

-- The loop of `get`, over what is left of the file, for `fuel` lines at most.
unfoldable pub find_value : ℕ → ℤ → List ℕ → Result (Option ℤ)
find_value zero wanted bytes = ok none
find_value (suc fuel) wanted [] = ok none
find_value (suc fuel) wanted (b ∷ bs) =
    let (line, rest) = take_line (line_size - 1) (b ∷ bs) in
    let others = find_value fuel wanted rest in
    do (key, value) ← scan_pair line; if int_eq key wanted then ok (some value) else others

abbrev pub open_read : Option (List ℕ) → Result (List ℕ)
open_read none = err fopen_failed
open_read (some bytes) = ok bytes

abbrev pub value_text : Option ℤ → List ℕ
value_text none = codes "KEY NOT FOUND"
value_text (some value) = print_int value

unfoldable pub get : Os → Child → Result Child
get os c =
    if same_text c.substring (codes "get")
    then (do
      (wanted, c₁) ← number_word c
      bytes ← open_read c₁.file
      found ← find_value (length bytes) wanted bytes
      reply os (value_text found) c₁)
    else ok c

-- `fputs(line, tfp)`: a line up to its first NUL.
abbrev pub put_line : List ℕ → List ℕ
put_line line = bytes_of (c_string (line ++ 0 ∷ []))

-- The loop of `del`: the lines that go to the temporary file.
unfoldable pub keep_lines : ℕ → ℤ → List ℕ → Result (List ℕ)
keep_lines zero unwanted bytes = ok []
keep_lines (suc fuel) unwanted [] = ok []
keep_lines (suc fuel) unwanted (b ∷ bs) =
    let (line, rest) = take_line (line_size - 1) (b ∷ bs) in
    let others = keep_lines fuel unwanted rest in
    do
      (key, _) ← scan_key line
      kept ← others
      ok (if int_eq key unwanted then kept else put_line line ++ kept)

unfoldable pub del : Os → Child → Result Child
del os c =
    if same_text c.substring (codes "del")
    then (do
      (unwanted, c₁) ← number_word c
      bytes ← open_read c₁.file
      guard (os.temp_ok (length c₁.replies)) null_file
      kept ← keep_lines (length bytes) unwanted bytes
      guard (os.rename_ok (length c₁.replies)) rename_failed
      reply os (codes "key deleted") (record c₁ { file = some kept }))
    else ok c

unfoldable pub bye : Os → Child → Result (Status × Child)
bye os c =
    if same_text c.substring (codes "bye")
    then (do c' ← reply os (codes "goodbye") c; ok (finished, c'))
    else ok (running, c)

-- `msg` after `recv`: it was cleared, and has no NUL behind 32 bytes.
unfoldable pub received : List ℕ → Option (List ℕ)
received bytes =
    let got = take buffersize bytes in c_string (got ++ replicate (buffersize - length got) 0)

-- The first token; `strcmp` reads through a NULL.
unfoldable pub first_word : List ℕ → Child → Result Child
first_word text c = elim (strtok b' ' text) [
  | none ↦ err null_pointer
  | some (word, rest) ↦ ok (record c { substring = word; saved = rest })
]

-- The four tests stand one behind the other, on whatever `substring` points to by then.
unfoldable pub commands : Os → Child → Result (Status × Child)
commands os c = do c₁ ← put os c; c₂ ← get os c₁; c₃ ← del os c₂; bye os c₃

-- One pass of the child's loop.
unfoldable pub round : Os → Arrival → Child → Result (Status × Child)
round os recv_error c = err recvfrom_failed
round os (message bytes) c = elim (received bytes) [
  | none ↦ err overread
  | some text ↦ do c' ← first_word text c; commands os c'
]

-- The inner loop, for the messages that come; `bye` leaves it.
unfoldable pub run : Os → List Arrival → Child → Result (Status × Child)
run os [] c = ok (running, c)
run os (a ∷ rest) c = do
  (status, c') ← round os a c
  elim status [ finished ↦ ok (finished, c') | running ↦ run os rest c' ]

-- `main` up to its loop. A child finds the file as the others have left it.
unfoldable pub main : Bool → Bool → Bool → Bool → Option (List ℕ) → Result Child
main socket_ok option_ok bind_ok listen_ok file = do
  guard socket_ok socket_failed
  guard option_ok option_failed
  guard bind_ok bind_failed
  guard listen_ok listen_failed
  ok (record { file = file; substring = []; saved = []; replies = [] })
