-- ===== src/KeyValue/Answer.antt =====
-- The commands of a client on a table in memory, and what the client is told.
use csf303_computer_networks.Prelude.{
  ℕ, ◌≤◌, ◌<◌, ◌≡◌, refl, true, some, List, [], ◌∷◌, ◌++◌, arith, length, length-append, All-append,
  IsText, ok,
}
use csf303_computer_networks.Prelude.Int.{ℤ}
use csf303_computer_networks.Text.Literals.{codes}
use csf303_computer_networks.Text.Numbers.{print_int, in_int}
use csf303_computer_networks.Text.Numbers.Printed.{length-print_int}
use csf303_computer_networks.Text.Words.{strtok, strtok-word, strtok_last}
use csf303_computer_networks.KeyValue.{Os, Child, Status, running, finished, first_word, value_text}
use csf303_computer_networks.KeyValue.Table.{Table, encode, first_value, remove_key}
use csf303_computer_networks.Text.Numerals.{print_int-IsText}

pub data Command : Type 0 where
  put_pair : ℤ → ℤ → Command
  get_value del_key : ℤ → Command
  say_bye : Command

-- What a client types.
abbrev pub line_of : Command → List ℕ
line_of (put_pair key value) = codes "put" ++ b' ' ∷ (print_int key ++ b' ' ∷ print_int value)
line_of (get_value key) = codes "get" ++ b' ' ∷ print_int key
line_of (del_key key) = codes "del" ++ b' ' ∷ print_int key
line_of say_bye = codes "bye"

-- What the table becomes. A second pair of a key goes behind the first.
abbrev pub apply : Command → Table → Table
apply (put_pair key value) t = t ++ (key, value) ∷ []
apply (get_value key) t = t
apply (del_key key) t = remove_key key t
apply say_bye t = t

-- What the client is told.
abbrev pub answer : Command → Table → List ℕ
answer (put_pair key value) t = codes "Pair added to database"
answer (get_value key) t = value_text (first_value key t)
answer (del_key key) t = codes "key deleted"
answer say_bye t = codes "goodbye"

abbrev pub status_of : Command → Status
status_of say_bye = finished
status_of cmd = running

abbrev pub IsCommand : Command → Type 0
IsCommand (put_pair key value) = (in_int key ≡ true) × (in_int value ≡ true)
IsCommand (get_value key) = in_int key ≡ true
IsCommand (del_key key) = in_int key ≡ true
IsCommand say_bye = Unit

-- A system whose calls all succeed.
pub record IsCalm (os : Os) : Type 0 where
  pub appends : (n : ℕ) → os.append_ok n ≡ true
  pub temps : (n : ℕ) → os.temp_ok n ≡ true
  pub renames : (n : ℕ) → os.rename_ok n ≡ true
  pub sends : (n : ℕ) → os.send_ok n ≡ true

-- Behind a command: the file of the new table, and one reply more.
pub record Answers (cmd : Command) (t : Table) (c c' : Child) : Type 0 where
  pub file : c'.file ≡ some (encode (apply cmd t))
  pub replies : c'.replies ≡ c.replies ++ answer cmd t ∷ []

-- The name of a command, and what stands behind it.
abbrev pub name_of : Command → List ℕ
name_of (put_pair key value) = codes "put"
name_of (get_value key) = codes "get"
name_of (del_key key) = codes "del"
name_of say_bye = codes "bye"

abbrev pub numbers_of : Command → List ℕ
numbers_of (put_pair key value) = print_int key ++ b' ' ∷ print_int value
numbers_of (get_value key) = print_int key
numbers_of (del_key key) = print_int key
numbers_of say_bye = []

pub line-IsText : (cmd : Command) → IsText (line_of cmd)
line-IsText (put_pair key value) =
    All-append (λ b. 0 < b) (codes "put") (b' ' ∷ (print_int key ++ b' ' ∷ print_int value))
      (omega arith)
      (
        omega arith,
        All-append (λ b. 0 < b) (print_int key) (b' ' ∷ print_int value) (print_int-IsText key)
            (omega arith, print_int-IsText value),
      )
line-IsText (get_value key) =
    All-append (λ b. 0 < b) (codes "get") (b' ' ∷ print_int key) (omega arith)
      (omega arith, print_int-IsText key)
line-IsText (del_key key) =
    All-append (λ b. 0 < b) (codes "del") (b' ' ∷ print_int key) (omega arith)
      (omega arith, print_int-IsText key)
line-IsText say_bye = omega arith

pub length-line : (cmd : Command) → length (line_of cmd) ≤ 27
length-line (put_pair key value) = omega (
  arith,
  length-append (print_int key) (b' ' ∷ print_int value),
  length-print_int key,
  length-print_int value,
)
length-line (get_value key) = omega (arith, length-print_int key)
length-line (del_key key) = omega (arith, length-print_int key)
length-line say_bye = omega arith

strtok-line : (cmd : Command) → strtok b' ' (line_of cmd) ≡ some (name_of cmd, numbers_of cmd)
strtok-line (put_pair key value) =
    strtok-word b' ' b'p' (codes "ut") (print_int key ++ b' ' ∷ print_int value)
      (refl, (refl, (refl, tt)))
strtok-line (get_value key) =
    strtok-word b' ' b'g' (codes "et") (print_int key) (refl, (refl, (refl, tt)))
strtok-line (del_key key) =
    strtok-word b' ' b'd' (codes "el") (print_int key) (refl, (refl, (refl, tt)))
strtok-line say_bye = strtok_last b' ' b'b' (codes "ye") (refl, (refl, (refl, tt)))

pub first_word-line :
    (cmd : Command) (c : Child)
    → first_word (line_of cmd) c ≡ ok (record c { substring = name_of cmd; saved = numbers_of cmd })
unfolding first_word
first_word-line cmd c = rw (strtok-line cmd, first_word) refl
