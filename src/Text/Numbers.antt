-- ===== src/Text/Numbers.antt =====
-- `%d` of printf and scanf, and `atoi`: whole numbers in decimal.
pub mod Printed
use csf303_computer_networks.Prelude.{
  ℕ, zero, suc, ◌+◌, ◌-◌, ◌*◌, ◌/◌, ◌%◌, ◌^◌, ◌≤◌, ◌<◌, ◌≡◌, refl, ap, ◌∙◌, Bool, true, false, ◌&&◌,
  ◌||◌, Option, none, some, List, [], ◌∷◌, ◌++◌, append_assoc, if◌then◌else◌, ltb, leb, ◌==◌,
  Bool-cases, inl, inr, arith, length, length-append, All, All-append, Result, ok, err, overflow,
}
use csf303_computer_networks.Prelude.Int.{ℤ, pos, negsuc, neg}

abbrev pub is_digit : ℕ → Bool
is_digit c = leb b'0' c && leb c b'9'

-- `isspace` in the C locale.
abbrev pub is_space : ℕ → Bool
is_space c = c == b' ' || (leb 9 c && leb c 13)

-- The last `fuel` decimal digits of a number, with no zeros before the first; an int has ten.
unfoldable pub digits : ℕ → ℕ → List ℕ
digits zero n = []
digits (suc fuel) n =
    let more = digits fuel (n / 10) in
    if ltb n 10 then (b'0' + n) ∷ [] else more ++ (b'0' + n % 10) ∷ []

abbrev pub int_digits : ℕ
int_digits = 10

-- What `%d` prints for an int.
unfoldable pub print_int : ℤ → List ℕ
print_int (pos n) = digits int_digits n
print_int (negsuc n) = b'-' ∷ digits int_digits (suc n)

-- The number that the digits at the front go on with, and what is behind them.
unfoldable pub scan_digits : ℕ → List ℕ → ℕ × List ℕ
scan_digits n [] = (n, [])
scan_digits n (c ∷ cs) =
    let more = scan_digits (n * 10 + (c - b'0')) cs in if is_digit c then more else (n, c ∷ cs)

abbrev pub starts_digit : List ℕ → Bool
starts_digit [] = false
starts_digit (c ∷ cs) = is_digit c

unfoldable pub skip_space : List ℕ → List ℕ
skip_space [] = []
skip_space (c ∷ cs) = let more = skip_space cs in if is_space c then more else c ∷ cs

abbrev signed : (ℕ → ℤ) → List ℕ → Option (ℤ × List ℕ)
signed sign cs =
    let (n, rest) = scan_digits 0 cs in if starts_digit cs then some (sign n, rest) else none

-- A sign, or none, and the digits.
unfoldable pub scan_signed : List ℕ → Option (ℤ × List ℕ)
scan_signed [] = none
scan_signed (c ∷ cs) =
    if c == b'-' then signed neg cs else if c == b'+' then signed pos cs else signed pos (c ∷ cs)

-- `%d`: spaces are skipped; `none` where there is no number.
unfoldable pub scan_number : List ℕ → Option (ℤ × List ℕ)
scan_number cs = scan_signed (skip_space cs)

-- Whether an int holds the number.
unfoldable pub in_int : ℤ → Bool
in_int (pos n) = ltb n (2 ^ 31)
in_int (negsuc n) = ltb n (2 ^ 31)

abbrev pub as_int : ℤ → Result ℤ
as_int z = if in_int z then ok z else err overflow

-- `atoi`: 0 where there is no number. A number that an int does not hold is undefined behaviour.
unfoldable pub atoi : List ℕ → Result ℤ
atoi cs = elim (scan_number cs) [ none ↦ ok (pos 0) | some (z, rest) ↦ as_int z ]
