-- ===== src/KeyValue/Faults.antt =====
-- Where the server does not do what the table says.
use csf303_computer_networks.Prelude.{
  ℕ, ◌≤◌, ◌<◌, ◌≡◌, refl, true, some, List, [], ◌∷◌, ◌++◌, arith, length, length-append, All-append,
  IsText, ok, err, null_pointer,
}
use csf303_computer_networks.Prelude.Int.{ℤ, pos}
use csf303_computer_networks.Text.Literals.{codes}
use csf303_computer_networks.Text.Numbers.{
  print_int, in_int, atoi, scan_number, scan_signed, skip_space,
}
use csf303_computer_networks.Text.Numbers.Printed.{length-print_int}
use csf303_computer_networks.Text.Words.{same_text, strtok, strtok-word, skip_to_word, take_word}
use csf303_computer_networks.KeyValue.{
  Os, Child, message, reply, number_word, put, get, commands, first_word, round, print_pair,
  bytes_of,
}
use csf303_computer_networks.KeyValue.Commands.{number_word-next, received_lem}
use csf303_computer_networks.Text.Numerals.{print_int-IsText}
use csf303_computer_networks.KeyValue.Answer.{IsCalm}

-- `put key get`
abbrev pub put_get_line : ℤ → List ℕ
put_get_line key = codes "put" ++ b' ' ∷ (print_int key ++ b' ' ∷ codes "get")

put_get-IsText : (key : ℤ) → IsText (put_get_line key)
put_get-IsText key =
    All-append (λ b. 0 < b) (codes "put") (b' ' ∷ (print_int key ++ b' ' ∷ codes "get"))
      (omega arith)
      (
        omega arith,
        All-append (λ b. 0 < b) (print_int key) (b' ' ∷ codes "get") (print_int-IsText key)
            (omega arith),
      )

length-put_get : (key : ℤ) → length (put_get_line key) ≤ 19
length-put_get key =
    omega (arith, length-append (print_int key) (b' ' ∷ codes "get"), length-print_int key)

module _ (os : Os) (calm : IsCalm os) (c : Child) (key : ℤ) (int : in_int key ≡ true) where
  abbrev named : Child
  named = record c { substring = codes "put"; saved = print_int key ++ b' ' ∷ codes "get" }

  -- The pair is there and the client has its reply, and `substring` is `get`.
  abbrev put_done : Child
  put_done = record c {
    file = some (bytes_of c.file ++ print_pair key (pos 0));
    substring = codes "get";
    saved = [];
    replies = c.replies ++ codes "Pair added to database" ∷ [];
  }

  first_word-named : first_word (put_get_line key) c ≡ ok named
  unfolding first_word
  first_word-named =
      let token =
        strtok-word b' ' b'p' (codes "ut") (print_int key ++ b' ' ∷ codes "get")
          (refl, (refl, (refl, tt))) in
      rw (token, first_word) refl

  get_word :
      (d : Child)
      → number_word (record d { saved = codes "get" })
        ≡ ok (pos 0, record d { substring = codes "get"; saved = [] })
  unfolding number_word strtok skip_to_word take_word atoi scan_number scan_signed skip_space
  get_word d = refl

  put-put_done : put os named ≡ ok put_done
  unfolding put same_text reply
  put-put_done =
      rw
        (
          number_word-next (record c { substring = codes "put" }) key (codes "get") int,
          get_word (record c { substring = print_int key }),
          calm.appends (length c.replies),
          calm.sends (length c.replies),
        )
        refl

  get_fails : get os put_done ≡ err null_pointer
  unfolding get same_text number_word strtok skip_to_word
  get_fails = refl

  -- Whatever the file holds and with calls that succeed, the pass for `put key get` with an int
  -- ends at a NULL pointer: the test for `get` finds the last word of the `put`.
  pub put_get-crashes : round os (message (put_get_line key)) c ≡ err null_pointer
  unfolding round commands
  put_get-crashes =
      rw
        (
          received_lem (put_get_line key) (put_get-IsText key) (omega (arith, length-put_get key)),
          round,
          first_word-named,
          put-put_done,
          get_fails,
        )
        refl
