-- ===== src/KeyValue/Tests.antt =====
-- A session: two pairs of a key are put, the key is asked for and deleted, and a fault.
use csf303_computer_networks.Prelude.{
  ◌≡◌, refl, true, List, [], ◌∷◌, ◌++◌, map, none, some, ok, err, null_pointer, arith,
  if◌then◌else◌, All,
}
use csf303_computer_networks.Prelude.Int.{pos, negsuc}
use csf303_computer_networks.Text.Literals.{codes}
use csf303_computer_networks.Text.Numbers.{print_int, digits, in_int}
use csf303_computer_networks.KeyValue.{
  Os, Child, running, finished, message, round, run, int_eq, value_text, scan_pair, print_pair,
  find_value, keep_lines,
}
use csf303_computer_networks.KeyValue.Table.{
  Table, scan_pair-print_pair, encode, first_value, remove_key,
}
use csf303_computer_networks.KeyValue.Answer.{
  Command, put_pair, get_value, del_key, line_of, IsCommand, IsCalm, Answers,
}
use csf303_computer_networks.KeyValue.Loops.{find_value-encode, keep_lines-encode}
use csf303_computer_networks.KeyValue.Session.{round-Answers}
use csf303_computer_networks.KeyValue.Refines.{
  apply_all, answers, status_all, run-answers, run-del_get, run-put_get,
}
use csf303_computer_networks.KeyValue.Faults.{put_get_line, put_get-crashes}
use csf303_computer_networks.KeyValue.Client
use csf303_computer_networks.KeyValue.Exchange.{round-answer}
use csf303_computer_networks.KeyValue.Answer.{say_bye}

abbrev calm : Os
calm = record {
  append_ok = λ _. true;
  temp_ok = λ _. true;
  rename_ok = λ _. true;
  send_ok = λ _. true;
}

calm-IsCalm : IsCalm calm
calm-IsCalm = record {
  appends = λ _. refl;
  temps = λ _. refl;
  renames = λ _. refl;
  sends = λ _. refl;
}

abbrev table : Table
table = (pos 1, negsuc 4) ∷ (pos 2, pos 70) ∷ []

abbrev child : Child
child = record { file = some (encode table); substring = []; saved = []; replies = [] }

encode_lem : encode table ≡ codes "1 -5\n2 70\n"
unfolding encode print_int digits
encode_lem = refl

round-Answers_example :
    (c' : Child) × (round calm (message (codes "get 2")) child ≡ ok (running, c'))
    × Answers (get_value (pos 2)) table child c'
unfolding print_int digits in_int
round-Answers_example =
    round-Answers calm calm-IsCalm (get_value (pos 2)) child table refl
      ((refl, refl), ((refl, refl), tt)) refl

-- The last command is behind the `bye`.
abbrev cmds : List Command
cmds =
    put_pair (pos 1) (pos 9)
    ∷ get_value (pos 1)
    ∷ del_key (pos 1)
    ∷ get_value (pos 1)
    ∷ say_bye
    ∷ del_key (pos 2)
    ∷ []

cmds-IsCommand : All IsCommand cmds
unfolding in_int
cmds-IsCommand = ((refl, refl), (refl, (refl, (refl, (tt, (refl, tt))))))

run-answers_example :
    (c' : Child) × (run calm (map (λ cmd. message (line_of cmd)) cmds) child
      ≡ ok (status_all cmds, c'))
    × (c'.file ≡ some (encode (apply_all cmds table)))
    × (c'.replies ≡ [] ++ answers cmds table)
unfolding in_int
run-answers_example =
    run-answers calm calm-IsCalm cmds child table refl ((refl, refl), ((refl, refl), tt))
      cmds-IsCommand

answers_lem :
    answers cmds table
    ≡ codes "Pair added to database"
      ∷ codes "-5"
      ∷ codes "key deleted"
      ∷ codes "KEY NOT FOUND"
      ∷ codes "goodbye"
      ∷ []
unfolding answers print_int digits first_value remove_key
answers_lem = refl

apply_all_lem : (status_all cmds ≡ finished) × (apply_all cmds table ≡ (pos 2, pos 70) ∷ [])
unfolding apply_all status_all remove_key
apply_all_lem = (refl, refl)

scan_pair-print_pair_example : scan_pair (print_pair (pos 70) (negsuc 4)) ≡ ok (pos 70, negsuc 4)
unfolding in_int
scan_pair-print_pair_example = scan_pair-print_pair (pos 70) (negsuc 4) refl refl

run-del_get_example :
    (c' : Child) × (run calm
        (message (line_of (del_key (pos 1))) ∷ message (line_of (get_value (pos 1))) ∷ [])
        child
      ≡ ok (running, c'))
    × (c'.replies
        ≡ []
          ++ (codes "key deleted"
              ∷ value_text (if int_eq (pos 1) (pos 1) then none else first_value (pos 1) table)
              ∷ []))
unfolding in_int
run-del_get_example =
    run-del_get calm calm-IsCalm child table refl ((refl, refl), ((refl, refl), tt)) (pos 1) (pos 1)
      refl refl

run-put_get_example :
    (c' : Child) × (run calm
        (message (line_of (put_pair (pos 1) (pos 9))) ∷ message (line_of (get_value (pos 1))) ∷ [])
        child
      ≡ ok (running, c'))
    × (c'.replies ≡ [] ++ (codes "Pair added to database" ∷ print_int (negsuc 4) ∷ []))
unfolding in_int first_value
run-put_get_example =
    run-put_get calm calm-IsCalm child table refl ((refl, refl), ((refl, refl), tt)) (pos 1) (pos 9)
      (pos 1) (negsuc 4) refl refl refl refl

put_get-crashes_example : round calm (message (put_get_line (pos 3))) child ≡ err null_pointer
unfolding in_int
put_get-crashes_example = put_get-crashes calm calm-IsCalm child (pos 3) refl

round-answer_example :
    Client.round true (codes "bye") (message (codes "goodbye")) (record { shown = [] })
    ≡ ok (running, record { shown = codes "goodbye" ∷ [] })
round-answer_example = round-answer say_bye table (record { shown = [] })

find_value-encode_example : find_value 9 (pos 2) (encode table) ≡ ok (first_value (pos 2) table)
unfolding in_int
find_value-encode_example =
    find_value-encode 9 (pos 2) table ((refl, refl), ((refl, refl), tt)) (omega arith)

keep_lines-encode_example :
    keep_lines 9 (pos 2) (encode table) ≡ ok (encode (remove_key (pos 2) table))
unfolding in_int
keep_lines-encode_example =
    keep_lines-encode 9 (pos 2) table ((refl, refl), ((refl, refl), tt)) (omega arith)
