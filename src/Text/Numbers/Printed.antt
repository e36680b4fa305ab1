-- ===== src/Text/Numbers/Printed.antt =====
-- A number that was printed is read back, and how a printed number looks.
use csf303_computer_networks.Prelude.{
  ℕ, zero, suc, ◌+◌, ◌-◌, ◌*◌, ◌/◌, ◌%◌, ◌^◌, ◌≤◌, ◌<◌, ◌≡◌, refl, ap, ◌∙◌, true, false, ◌||◌, some,
  List, [], ◌∷◌, ◌++◌, append-nil, ltb, ◌==◌, Bool-cases, inl, inr, arith, length, length-append,
  All, All-append, All-mono, ok,
}
use csf303_computer_networks.Prelude.Int.{ℤ, pos, negsuc, neg}
use csf303_computer_networks.Text.Numbers.{
  is_digit, is_space, digits, int_digits, print_int, scan_digits, starts_digit, skip_space,
  scan_signed, scan_number, in_int, atoi,
}

-- 10 ^ fuel, in a form that arithmetic reads.
power : ℕ → ℕ
power zero = 1
power (suc fuel) = 10 * power fuel

abbrev IsDigit : ℕ → Type 0
IsDigit c = is_digit c ≡ true

digits-IsDigit : (fuel n : ℕ) → All IsDigit (digits fuel n)
unfolding digits
digits-IsDigit zero n = tt
digits-IsDigit (suc fuel) n = elim (Bool-cases (ltb n 10)) [
  | inl small ↦ rw (small, digits) (ground arith, tt)
  | inr large ↦
      rw (large, digits)
        (All-append IsDigit (digits fuel (n / 10)) ((b'0' + n % 10) ∷ [])
          (digits-IsDigit fuel (n / 10)) (ground arith, tt))
]

length-digits : (fuel n : ℕ) → length (digits fuel n) ≤ fuel
unfolding digits
length-digits zero n = omega arith
length-digits (suc fuel) n = elim (Bool-cases (ltb n 10)) [
  | inl small ↦ rw (small, digits) (omega arith)
  | inr large ↦
      rw (large, digits)
        (omega (
          arith,
          length-append (digits fuel (n / 10)) ((b'0' + n % 10) ∷ []),
          length-digits fuel (n / 10),
        ))
]

-- The number that digits stand for, behind the number `n`.
value : ℕ → List ℕ → ℕ
value n [] = n
value n (c ∷ cs) = value (n * 10 + (c - b'0')) cs

value-snoc : (n : ℕ) (cs : List ℕ) (c : ℕ) → value n (cs ++ c ∷ []) ≡ value n cs * 10 + (c - b'0')
unfolding value
value-snoc n [] c = refl
value-snoc n (d ∷ cs) c = value-snoc (n * 10 + (d - b'0')) cs c

value-digits : (fuel n : ℕ) → n < power fuel → value 0 (digits fuel n) ≡ n
unfolding digits power value
value-digits zero n h = omega arith
value-digits (suc fuel) n h = elim (Bool-cases (ltb n 10)) [
  | inl small ↦ rw (small, digits) (omega arith)
  | inr large ↦
      let shorter : value 0 (digits fuel (n / 10)) ≡ n / 10 =
        value-digits fuel (n / 10) (omega arith) in
      rw (large, digits)
        (omega (arith, value-snoc 0 (digits fuel (n / 10)) (b'0' + n % 10), shorter))
]

scan_digits-append :
    (n : ℕ) (cs rest : List ℕ)
    → All IsDigit cs
    → starts_digit rest ≡ false
    → scan_digits n (cs ++ rest) ≡ (value n cs, rest)
unfolding scan_digits value
scan_digits-append n [] [] h stop = refl
scan_digits-append n [] (c ∷ rest) h stop = rw stop
scan_digits-append n (c ∷ cs) rest h stop =
    rw (h.0, scan_digits-append (n * 10 + (c - b'0')) cs rest h.1 stop)

-- A printed number has a first digit.
record Printed (cs : List ℕ) : Type 0 where
  first : ℕ
  others : List ℕ
  split : cs ≡ first ∷ others
  digit : IsDigit first

Printed-append : (cs rest : List ℕ) → Printed cs → Printed (cs ++ rest)
Printed-append cs rest p = record {
  first = p.first;
  others = p.others ++ rest;
  split = ap (λ l. l ++ rest) p.split;
  digit = p.digit;
}

digits-Printed : (fuel n : ℕ) → Printed (digits (suc fuel) n)
unfolding digits
digits-Printed zero n = elim (Bool-cases (ltb n 10)) [
  | inl small ↦
      rw (small, digits)
        (record { first = b'0' + n; others = []; split = refl; digit = ground arith })
  | inr large ↦
      rw (large, digits)
        (record { first = b'0' + n % 10; others = []; split = refl; digit = ground arith })
]
digits-Printed (suc fuel) n = elim (Bool-cases (ltb n 10)) [
  | inl small ↦
      rw (small, digits)
        (record { first = b'0' + n; others = []; split = refl; digit = ground arith })
  | inr large ↦
      rw (large, digits)
        (Printed-append (digits (suc fuel) (n / 10)) ((b'0' + n % 10) ∷ [])
          (digits-Printed fuel (n / 10)))
]

scan_digits-digits :
    (n : ℕ) (rest : List ℕ)
    → n < power int_digits
    → starts_digit rest ≡ false
    → scan_digits 0 (digits int_digits n ++ rest) ≡ (n, rest)
scan_digits-digits n rest h stop =
    scan_digits-append 0 (digits int_digits n) rest (digits-IsDigit int_digits n) stop
    ∙ ap (λ k. (k, rest)) (value-digits int_digits n h)

starts_digit-Printed : (cs : List ℕ) → Printed cs → starts_digit cs ≡ true
starts_digit-Printed cs p = ap starts_digit p.split ∙ p.digit

-- Digits are read as a number, with no sign in front of them.
scan_digits-number :
    (cs rest : List ℕ) (n : ℕ)
    → Printed cs
    → scan_digits 0 cs ≡ (n, rest)
    → scan_number cs ≡ some (pos n, rest)
unfolding scan_number scan_signed skip_space
scan_digits-number cs rest n p e =
    let plain : is_space p.first ≡ false = ground (arith, p.digit) in
    let no_minus : (p.first == b'-') ≡ false = ground (arith, p.digit) in
    let no_plus : (p.first == b'+') ≡ false = ground (arith, p.digit) in
    rw p.split
      (rw (plain, no_minus, no_plus, p.digit) (ap (λ r. some (pos r.0, r.1)) (rw p.split at e)))

minus_number :
    (cs rest : List ℕ) (n : ℕ)
    → Printed cs
    → scan_digits 0 cs ≡ (suc n, rest)
    → scan_number (b'-' ∷ cs) ≡ some (negsuc n, rest)
unfolding scan_number scan_signed skip_space
minus_number cs rest n p e = rw (starts_digit-Printed cs p) (ap (λ r. some (neg r.0, r.1)) e)

bounded : (n : ℕ) → n ≤ 2 ^ 31 → n < power int_digits
unfolding power
bounded n h = omega arith

-- What `%d` prints for an int, `%d` reads, up to the next character that is no digit.
pub scan_number-print_int :
    (z : ℤ) (rest : List ℕ)
    → in_int z ≡ true
    → starts_digit rest ≡ false
    → scan_number (print_int z ++ rest) ≡ some (z, rest)
unfolding print_int in_int
scan_number-print_int (pos n) rest h stop =
    let all = digits-Printed 9 n in
    scan_digits-number (digits int_digits n ++ rest) rest n
      (Printed-append (digits int_digits n) rest all)
      (scan_digits-digits n rest (bounded n (ground arith)) stop)
scan_number-print_int (negsuc n) rest h stop =
    minus_number (digits int_digits (suc n) ++ rest) rest n
      (Printed-append (digits int_digits (suc n)) rest (digits-Printed 9 (suc n)))
      (scan_digits-digits (suc n) rest (bounded (suc n) (ground arith)) stop)

pub atoi-print_int : (z : ℤ) → in_int z ≡ true → atoi (print_int z) ≡ ok z
unfolding atoi
atoi-print_int z h =
    let read : scan_number (print_int z) ≡ some (z, []) =
      rw append-nil at (scan_number-print_int z [] h refl) in
    rw (read, atoi, h) refl

-- An int is printed in 11 characters at most.
pub length-print_int : (z : ℤ) → length (print_int z) ≤ 11
unfolding print_int
length-print_int (pos n) = omega (arith, length-digits 10 n)
length-print_int (negsuc n) = omega (arith, length-digits 10 (suc n))

-- It has digits, and a minus in front.
abbrev pub IsNumeral : ℕ → Type 0
IsNumeral c = (is_digit c || c == b'-') ≡ true

pub print_int-IsNumeral : (z : ℤ) → All IsNumeral (print_int z)
unfolding print_int
print_int-IsNumeral (pos n) =
    All-mono IsDigit IsNumeral (digits 10 n) (λ c h. ground arith) (digits-IsDigit 10 n)
print_int-IsNumeral (negsuc n) = (
  refl,
  All-mono IsDigit IsNumeral (digits 10 (suc n)) (λ c h. ground arith) (digits-IsDigit 10 (suc n)),
)

pub print_int-cons : (z : ℤ) → (c : ℕ) × (cs : List ℕ) × (print_int z ≡ c ∷ cs)
unfolding print_int
print_int-cons (pos n) = let p = digits-Printed 9 n in (p.first, p.others, p.split)
print_int-cons (negsuc n) = (b'-', digits 10 (suc n), refl)
