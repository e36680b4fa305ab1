-- ===== src/KeyValue/Loops.antt =====
-- The loops of `get` and `del` on a file of pairs.
use csf303_computer_networks.Prelude.{
  ℕ, zero, suc, ◌-◌, ◌≤◌, ◌<◌, ◌≡◌, refl, ap, sym, ◌∙◌, true, false, Bool, Bool-cases, inl, inr,
  Option, some, List, [], ◌∷◌, ◌++◌, append_assoc, if◌then◌else◌, arith, length, length-append,
  c_string-append, ok, Result,
}
use csf303_computer_networks.Prelude.Int.{ℤ}
use csf303_computer_networks.Text.Numbers.{print_int}
use csf303_computer_networks.Text.Lines.{newline, take_line}
use csf303_computer_networks.KeyValue.{
  line_size, print_pair, int_eq, scan_key, scan_pair, find_value, keep_lines, put_line, bytes_of,
}
use csf303_computer_networks.KeyValue.Table.{
  Table, encode, first_value, remove_key, IsTable, take_line-pair, scan_key-pair,
  scan_pair-print_pair, print_pair-pos, print_pair-IsText,
}

pub encode-append : (t u : Table) → encode (t ++ u) ≡ encode t ++ encode u
unfolding encode
encode-append [] u = refl
encode-append ((key, value) ∷ t) u =
    ap (λ l. print_pair key value ++ l) (encode-append t u)
    ∙ sym (append_assoc (print_pair key value) (encode t) (encode u))

-- Every pair has a byte at least, so that the length of the file is fuel enough.
pub length-encode : (t : Table) → length t ≤ length (encode t)
unfolding encode
length-encode [] = omega arith
length-encode ((key, value) ∷ t) = omega (
  arith,
  length-encode t,
  length-append (print_pair key value) (encode t),
  print_pair-pos key value,
)

-- One pass of `get`, where the line is a pair.
find_value-line :
    (fuel : ℕ) (wanted key value : ℤ) (bytes line rest : List ℕ)
    → 0 < length bytes
    → take_line (line_size - 1) bytes ≡ (line, rest)
    → scan_pair line ≡ ok (key, value)
    → find_value (suc fuel) wanted bytes
      ≡ (if int_eq key wanted then ok (some value) else find_value fuel wanted rest)
unfolding find_value
find_value-line fuel wanted key value [] line rest more cut read = absurd (omega arith)
find_value-line fuel wanted key value (b ∷ bs) line rest more cut read = rw (cut, read) refl

keep_lines-line :
    (fuel : ℕ) (unwanted key : ℤ) (bytes line rest behind kept : List ℕ)
    → 0 < length bytes
    → take_line (line_size - 1) bytes ≡ (line, rest)
    → scan_key line ≡ ok (key, behind)
    → keep_lines fuel unwanted rest ≡ ok kept
    → keep_lines (suc fuel) unwanted bytes
      ≡ ok (if int_eq key unwanted then kept else put_line line ++ kept)
unfolding keep_lines
keep_lines-line fuel unwanted key [] line rest behind kept more cut read others =
    absurd (omega arith)
keep_lines-line fuel unwanted key (b ∷ bs) line rest behind kept more cut read others =
    rw (cut, read, others) refl

pair-more : (key value : ℤ) (rest : List ℕ) → 0 < length (print_pair key value ++ rest)
pair-more key value rest =
    omega (arith, length-append (print_pair key value) rest, print_pair-pos key value)

found-or :
    (test : Bool) (value : ℤ) {later : Result (Option ℤ)} {o : Option ℤ}
    → later ≡ ok o
    → (if test then ok (some value) else later) ≡ ok (if test then some value else o)
found-or true value e = refl
found-or false value e = e

-- On the file of a table of ints, with a pass for each pair at least, the loop of `get` ends and
-- returns what a look-up of the key in the table does: the value of its oldest pair.
pub find_value-encode :
    (fuel : ℕ) (wanted : ℤ) (t : Table)
    → IsTable t
    → length t ≤ fuel
    → find_value fuel wanted (encode t) ≡ ok (first_value wanted t)
unfolding encode first_value find_value
find_value-encode zero wanted [] h enough = refl
find_value-encode (suc fuel) wanted [] h enough = refl
find_value-encode zero wanted (e ∷ t) h enough = absurd (omega arith)
find_value-encode (suc fuel) wanted ((key, value) ∷ t) h enough =
    find_value-line fuel wanted key value (print_pair key value ++ encode t) (print_pair key value)
      (encode t) (pair-more key value (encode t)) (take_line-pair key value (encode t))
      (scan_pair-print_pair key value h.0.0 h.0.1)
    ∙ found-or (int_eq key wanted) value (find_value-encode fuel wanted t h.1 (omega arith))

put_line-pair : (key value : ℤ) → put_line (print_pair key value) ≡ print_pair key value
put_line-pair key value =
    ap bytes_of (c_string-append (print_pair key value) [] (print_pair-IsText key value))

kept-encode :
    (key value unwanted : ℤ) (t : Table)
    → (if int_eq key unwanted
        then encode (remove_key unwanted t)
        else put_line (print_pair key value) ++ encode (remove_key unwanted t))
      ≡ encode (remove_key unwanted ((key, value) ∷ t))
unfolding encode remove_key
kept-encode key value unwanted t = elim (Bool-cases (int_eq key unwanted)) [
  | inl same ↦ rw same refl
  | inr other ↦ rw (other, put_line-pair key value) refl
]

-- On the file of a table of ints, with a pass for each pair at least, the loop of `del` ends and
-- leaves the file of the table without the pairs of the key.
pub keep_lines-encode :
    (fuel : ℕ) (unwanted : ℤ) (t : Table)
    → IsTable t
    → length t ≤ fuel
    → keep_lines fuel unwanted (encode t) ≡ ok (encode (remove_key unwanted t))
unfolding encode remove_key keep_lines
keep_lines-encode zero unwanted [] h enough = refl
keep_lines-encode (suc fuel) unwanted [] h enough = refl
keep_lines-encode zero unwanted (e ∷ t) h enough = absurd (omega arith)
keep_lines-encode (suc fuel) unwanted ((key, value) ∷ t) h enough =
    keep_lines-line fuel unwanted key (print_pair key value ++ encode t) (print_pair key value)
      (encode t) (b' ' ∷ (print_int value ++ newline ∷ [])) (encode (remove_key unwanted t))
      (pair-more key value (encode t)) (take_line-pair key value (encode t))
      (scan_key-pair key value h.0.0) (keep_lines-encode fuel unwanted t h.1 (omega arith))
    ∙ ap ok (kept-encode key value unwanted t)
