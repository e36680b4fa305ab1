-- ===== src/KeyValue/Exchange.antt =====
-- A command and its answer at the client.
use csf303_computer_networks.Prelude.{
  ℕ, ◌<◌, ◌≡◌, refl, true, false, Option, none, some, List, [], ◌∷◌, ◌++◌, arith, length, All,
  IsText, ok, ◌==◌,
}
use csf303_computer_networks.Prelude.Int.{ℤ}
use csf303_computer_networks.Text.Literals.{codes}
use csf303_computer_networks.Text.Numbers.{print_int}
use csf303_computer_networks.Text.Numbers.Printed.{length-print_int, IsNumeral, print_int-IsNumeral}
use csf303_computer_networks.Text.Words.{same_text}
use csf303_computer_networks.KeyValue.{running, message, value_text}
use csf303_computer_networks.KeyValue.Table.{Table, first_value}
use csf303_computer_networks.Text.Numerals.{print_int-IsText}
use csf303_computer_networks.KeyValue.Answer.{
  Command, put_pair, get_value, del_key, say_bye, line_of, answer, length-line,
}
use csf303_computer_networks.KeyValue.Client
use csf303_computer_networks.KeyValue.Client.{Client, round-shows}

-- A text that the client shows: short, with no NUL, and not what ends it.
record IsShown (text : List ℕ) : Type 0 where
  bytes : IsText text
  short : length text < 32
  other : same_text (codes "Goodbye") text ≡ false

goodbye_numeral : (cs : List ℕ) → All IsNumeral cs → same_text (codes "Goodbye") cs ≡ false
unfolding same_text
goodbye_numeral [] h = refl
goodbye_numeral (c ∷ cs) h =
    let differ : (b'G' == c) ≡ false = ground (arith, h.0) in rw differ refl

value_text-IsShown : (o : Option ℤ) → IsShown (value_text o)
unfolding same_text
value_text-IsShown none = record { bytes = omega arith; short = omega arith; other = refl }
value_text-IsShown (some z) = record {
  bytes = print_int-IsText z;
  short = omega (arith, length-print_int z);
  other = goodbye_numeral (print_int z) (print_int-IsNumeral z);
}

answer-IsShown : (cmd : Command) (t : Table) → IsShown (answer cmd t)
unfolding same_text
answer-IsShown (put_pair key value) t = record {
  bytes = omega arith;
  short = omega arith;
  other = refl;
}
answer-IsShown (get_value key) t = value_text-IsShown (first_value key t)
answer-IsShown (del_key key) t = record { bytes = omega arith; short = omega arith; other = refl }
answer-IsShown say_bye t = record { bytes = omega arith; short = omega arith; other = refl }

-- The client shows the answer to any command whole, and goes on: also behind the answer to `bye`.
pub round-answer :
    (cmd : Command) (t : Table) (c : Client)
    → Client.round true (line_of cmd) (message (answer cmd t)) c
      ≡ ok (running, record c { shown = c.shown ++ answer cmd t ∷ [] })
round-answer cmd t c =
    let a = answer-IsShown cmd t in
    round-shows (line_of cmd) (answer cmd t) c (omega (arith, length-line cmd)) a.bytes a.short
      a.other
