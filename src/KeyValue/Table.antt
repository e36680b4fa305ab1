-- ===== src/KeyValue/Table.antt =====
-- The table that database.txt stands for: pairs in the order in which they were put.
use csf303_computer_networks.Prelude.{
  ℕ, ◌≤◌, ◌<◌, ◌≡◌, refl, ap, sym, ◌-◌, ◌∙◌, true, false, ◌==◌, Option, none, some, List, [], ◌∷◌,
  ◌++◌, append_assoc, if◌then◌else◌, arith, length, length-append, All, All-append, All-mono,
  IsText, ok,
}
use csf303_computer_networks.Prelude.Int.{ℤ}
use csf303_computer_networks.Text.Numbers.{print_int, skip_space, scan_number, in_int}
use csf303_computer_networks.Text.Numbers.Printed.{
  scan_number-print_int, length-print_int, IsNumeral, print_int-IsNumeral,
}
use csf303_computer_networks.Text.Lines.{newline, take_line, IsLine, take_line-append}
use csf303_computer_networks.KeyValue.{line_size, print_pair, int_eq, scan_key, scan_pair}

abbrev pub Table : Type 0
Table = List (ℤ × ℤ)

-- The bytes of the file.
unfoldable pub encode : Table → List ℕ
encode [] = []
encode ((key, value) ∷ t) = print_pair key value ++ encode t

-- The value of the oldest pair with a key.
unfoldable pub first_value : ℤ → Table → Option ℤ
first_value wanted [] = none
first_value wanted ((key, value) ∷ t) =
    let later = first_value wanted t in if int_eq key wanted then some value else later

-- The table without the pairs of a key.
unfoldable pub remove_key : ℤ → Table → Table
remove_key unwanted [] = []
remove_key unwanted ((key, value) ∷ t) =
    let later = remove_key unwanted t in if int_eq key unwanted then later else (key, value) ∷ later

-- All keys and values are ints.
abbrev pub IsTable : Table → Type 0
IsTable = All (λ e. (in_int e.0 ≡ true) × (in_int e.1 ≡ true))

abbrev pair_text : ℤ → ℤ → List ℕ
pair_text key value = print_int key ++ b' ' ∷ print_int value

pair_line : (key value : ℤ) → print_pair key value ≡ pair_text key value ++ newline ∷ []
pair_line key value = sym (append_assoc (print_int key) (b' ' ∷ print_int value) (newline ∷ []))

print_int-IsLine : (z : ℤ) → IsLine (print_int z)
print_int-IsLine z =
    All-mono IsNumeral (λ b. (b == newline) ≡ false) (print_int z) (λ c h. ground arith)
      (print_int-IsNumeral z)

print_int-IsText : (z : ℤ) → IsText (print_int z)
print_int-IsText z =
    All-mono IsNumeral (λ b. 0 < b) (print_int z) (λ c h. ground arith) (print_int-IsNumeral z)

pair_text-IsLine : (key value : ℤ) → IsLine (pair_text key value)
pair_text-IsLine key value =
    All-append (λ b. (b == newline) ≡ false) (print_int key) (b' ' ∷ print_int value)
      (print_int-IsLine key) (refl, print_int-IsLine value)

pub print_pair-IsText : (key value : ℤ) → IsText (print_pair key value)
print_pair-IsText key value =
    All-append (λ b. 0 < b) (print_int key) (b' ' ∷ (print_int value ++ newline ∷ []))
      (print_int-IsText key)
      (
        omega arith,
        All-append (λ b. 0 < b) (print_int value) (newline ∷ []) (print_int-IsText value)
            (omega arith, tt),
      )

length-pair_text : (key value : ℤ) → length (pair_text key value) ≤ 23
length-pair_text key value = omega (
  arith,
  length-append (print_int key) (b' ' ∷ print_int value),
  length-print_int key,
  length-print_int value,
)

-- `fgets` reads one pair at a time.
pub take_line-pair :
    (key value : ℤ) (rest : List ℕ)
    → take_line (line_size - 1) (print_pair key value ++ rest) ≡ (print_pair key value, rest)
take_line-pair key value rest =
    ap (λ l. take_line 99 (l ++ rest)) (pair_line key value)
    ∙ ap (take_line 99) (append_assoc (pair_text key value) (newline ∷ []) rest)
    ∙ take_line-append 99 (pair_text key value) rest (pair_text-IsLine key value)
        (omega (arith, length-pair_text key value))
    ∙ ap (λ l. (l, rest)) (sym (pair_line key value))

scan_number-space : (cs : List ℕ) → scan_number (b' ' ∷ cs) ≡ scan_number cs
unfolding scan_number skip_space
scan_number-space cs = refl

-- `sscanf` reads the pair that `fprintf` wrote.
pub scan_key-pair :
    (key value : ℤ)
    → in_int key ≡ true
    → scan_key (print_pair key value) ≡ ok (key, b' ' ∷ (print_int value ++ newline ∷ []))
unfolding scan_key
scan_key-pair key value h =
    rw (scan_number-print_int key (b' ' ∷ (print_int value ++ newline ∷ [])) h refl, scan_key, h)
      refl

scan_second :
    (value : ℤ)
    → in_int value ≡ true
    → scan_key (b' ' ∷ (print_int value ++ newline ∷ [])) ≡ ok (value, newline ∷ [])
unfolding scan_key
scan_second value h =
    rw
      (
        scan_number-space (print_int value ++ newline ∷ []),
        scan_number-print_int value (newline ∷ []) h refl,
        scan_key,
        h,
      )
      refl

-- The line that `put` writes for a pair of ints is read back by `get` as that pair.
pub scan_pair-print_pair :
    (key value : ℤ)
    → in_int key ≡ true
    → in_int value ≡ true
    → scan_pair (print_pair key value) ≡ ok (key, value)
unfolding scan_pair
scan_pair-print_pair key value hk hv =
    let second : scan_key (b' ' ∷ (print_int value ++ newline ∷ [])) ≡ ok (value, newline ∷ []) =
      scan_second value hv in
    rw (scan_key-pair key value hk, second) refl

pub print_pair-pos : (key value : ℤ) → 0 < length (print_pair key value)
print_pair-pos key value =
    omega (arith, length-append (print_int key) (b' ' ∷ (print_int value ++ newline ∷ [])))
