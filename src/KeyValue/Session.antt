-- ===== src/KeyValue/Session.antt =====
-- The server against a table in memory: every command does to the file what it does to the table.
use csf303_computer_networks.Prelude.{
  ℕ, ◌≡◌, refl, ap, sym, ◌∙◌, false, some, List, [], ◌∷◌, ◌++◌, append-nil, arith, length, ok,
}
use csf303_computer_networks.Prelude.Int.{ℤ}
use csf303_computer_networks.Text.Literals.{codes}
use csf303_computer_networks.Text.Numbers.{print_int}
use csf303_computer_networks.Text.Words.{same_text}
use csf303_computer_networks.KeyValue.{
  Os, Child, running, finished, message, reply, put, get, del, bye, commands, round, print_pair,
  value_text,
}
use csf303_computer_networks.KeyValue.Table.{Table, encode, first_value, remove_key, IsTable}
use csf303_computer_networks.KeyValue.Loops.{
  encode-append, length-encode, find_value-encode, keep_lines-encode,
}
use csf303_computer_networks.KeyValue.Commands.{
  number_word-next, number_word_last, print_int-other, received_lem,
}
use csf303_computer_networks.KeyValue.Answer.{
  Command, put_pair, get_value, del_key, say_bye, line_of, status_of, IsCommand, IsCalm, Answers,
  name_of, numbers_of, line-IsText, length-line, first_word-line,
}

get-put : same_text (codes "get") (codes "put") ≡ false
unfolding same_text
get-put = refl

del-put : same_text (codes "del") (codes "put") ≡ false
unfolding same_text
del-put = refl

del-get : same_text (codes "del") (codes "get") ≡ false
unfolding same_text
del-get = refl

bye-put : same_text (codes "bye") (codes "put") ≡ false
unfolding same_text
bye-put = refl

bye-get : same_text (codes "bye") (codes "get") ≡ false
unfolding same_text
bye-get = refl

bye-del : same_text (codes "bye") (codes "del") ≡ false
unfolding same_text
bye-del = refl

module _ (os : Os) (calm : IsCalm os) where
  reply-ok :
      (text : List ℕ) (c : Child)
      → reply os text c ≡ ok (record c { replies = c.replies ++ text ∷ [] })
  unfolding reply
  reply-ok text c = rw (calm.sends (length c.replies)) refl

  bye-ok :
      (c : Child)
      → bye os (record c { substring = codes "bye" })
        ≡ ok (
          finished,
          record c { substring = codes "bye"; replies = c.replies ++ codes "goodbye" ∷ [] },
        )
  unfolding bye same_text
  bye-ok c = rw (reply-ok (codes "goodbye") (record c { substring = codes "bye" })) refl

  put_skips : (c : Child) → same_text c.substring (codes "put") ≡ false → put os c ≡ ok c
  unfolding put
  put_skips c h = rw h refl

  get_skips : (c : Child) → same_text c.substring (codes "get") ≡ false → get os c ≡ ok c
  unfolding get
  get_skips c h = rw h refl

  del_skips : (c : Child) → same_text c.substring (codes "del") ≡ false → del os c ≡ ok c
  unfolding del
  del_skips c h = rw h refl

  bye_skips : (c : Child) → same_text c.substring (codes "bye") ≡ false → bye os c ≡ ok (running, c)
  unfolding bye
  bye_skips c h = rw h refl

  put_command :
      (c : Child) (key value : ℤ) (t : Table)
      → IsCommand (put_pair key value)
      → (c' : Child) × (put os (record c {
        file = some (encode t);
        substring = codes "put";
        saved = print_int key ++ b' ' ∷ print_int value;
      })
          ≡ ok c')
        × (c'.substring ≡ print_int value)
        × Answers (put_pair key value) t c c'
  unfolding put same_text encode
  put_command c key value t h =
      let c₀ : Child = record c { file = some (encode t) } in
      let c₁ : Child = record c₀ { substring = print_int key; saved = print_int value } in
      let c₂ : Child = record c₀ { substring = print_int value; saved = [] } in
      let c₃ : Child = record c₂ { file = some (encode t ++ print_pair key value) } in
      (
        record c₃ { replies = c.replies ++ codes "Pair added to database" ∷ [] },
        rw
            (
              number_word-next (record c₀ { substring = codes "put" }) key (print_int value) h.0,
              number_word_last c₁ value h.1,
              calm.appends (length c.replies),
            )
            (reply-ok (codes "Pair added to database") c₃),
        refl,
        record {
          file = ap some (
              ap (λ l. encode t ++ l) (sym (append-nil (print_pair key value)))
              ∙ sym (encode-append t ((key, value) ∷ [])));
          replies = refl;
        },
      )

  get_command :
      (c : Child) (key : ℤ) (t : Table)
      → IsTable t
      → IsCommand (get_value key)
      → (c' : Child) × (get os
            (record c { file = some (encode t); substring = codes "get"; saved = print_int key })
          ≡ ok c')
        × (c'.substring ≡ print_int key)
        × Answers (get_value key) t c c'
  unfolding get same_text
  get_command c key t ints h =
      let c₀ : Child = record c { file = some (encode t) } in
      let c₁ : Child = record c₀ { substring = print_int key; saved = [] } in
      (
        record c₁ { replies = c.replies ++ value_text (first_value key t) ∷ [] },
        rw
            (
              number_word_last (record c₀ { substring = codes "get" }) key h,
              find_value-encode (length (encode t)) key t ints (length-encode t),
            )
            (reply-ok (value_text (first_value key t)) c₁),
        refl,
        record { file = refl; replies = refl },
      )

  del_command :
      (c : Child) (key : ℤ) (t : Table)
      → IsTable t
      → IsCommand (del_key key)
      → (c' : Child) × (del os
            (record c { file = some (encode t); substring = codes "del"; saved = print_int key })
          ≡ ok c')
        × (c'.substring ≡ print_int key)
        × Answers (del_key key) t c c'
  unfolding del same_text
  del_command c key t ints h =
      let c₀ : Child = record c { file = some (encode t) } in
      let c₁ : Child = record c₀ { substring = print_int key; saved = [] } in
      let c₂ : Child = record c₁ { file = some (encode (remove_key key t)) } in
      (
        record c₂ { replies = c.replies ++ codes "key deleted" ∷ [] },
        rw
            (
              number_word_last (record c₀ { substring = codes "del" }) key h,
              calm.temps (length c.replies),
              keep_lines-encode (length (encode t)) key t ints (length-encode t),
              calm.renames (length c.replies),
            )
            (reply-ok (codes "key deleted") c₂),
        refl,
        record { file = refl; replies = refl },
      )

  -- Behind a number no other test holds.
  get-del-bye-skip :
      (c : Child) (z : ℤ)
      → c.substring ≡ print_int z
      → (get os c ≡ ok c) × (del os c ≡ ok c) × (bye os c ≡ ok (running, c))
  get-del-bye-skip c z e = (
    get_skips c (ap (λ w. same_text w (codes "get")) e ∙ print_int-other z b'g' (codes "et") refl),
    del_skips c (ap (λ w. same_text w (codes "del")) e ∙ print_int-other z b'd' (codes "el") refl),
    bye_skips c (ap (λ w. same_text w (codes "bye")) e ∙ print_int-other z b'b' (codes "ye") refl),
  )

  abbrev begun : Child → Table → List ℕ → List ℕ → Child
  begun c t name rest = record c { file = some (encode t); substring = name; saved = rest }

  commands_lem :
      (cmd : Command) (c : Child) (t : Table)
      → IsTable t
      → IsCommand cmd
      → (c' : Child) × (commands os (begun c t (name_of cmd) (numbers_of cmd))
          ≡ ok (status_of cmd, c'))
        × Answers cmd t c c'
  unfolding commands
  commands_lem (put_pair key value) c t ints h =
      let (c', e, num, a) = put_command c key value t h in
      let (g, d, b) = get-del-bye-skip c' value num in (c', rw (e, g, d) b, a)
  commands_lem (get_value key) c t ints h =
      let p : put os (begun c t (codes "get") (print_int key))
          ≡ ok (begun c t (codes "get") (print_int key)) =
        put_skips (begun c t (codes "get") (print_int key)) get-put in
      let (c', e, num, a) = get_command c key t ints h in
      let (g, d, b) = get-del-bye-skip c' key num in (c', rw (p, e, d) b, a)
  commands_lem (del_key key) c t ints h =
      let c₀ : Child = begun c t (codes "del") (print_int key) in
      let p : put os c₀ ≡ ok c₀ = put_skips c₀ del-put in
      let g : get os c₀ ≡ ok c₀ = get_skips c₀ del-get in
      let (c', e, num, a) = del_command c key t ints h in
      let (_, _, b) = get-del-bye-skip c' key num in (c', rw (p, g, e) b, a)
  commands_lem say_bye c t ints h =
      let c₀ : Child = begun c t (codes "bye") [] in
      let p : put os c₀ ≡ ok c₀ = put_skips c₀ bye-put in
      let g : get os c₀ ≡ ok c₀ = get_skips c₀ bye-get in
      let d : del os c₀ ≡ ok c₀ = del_skips c₀ bye-del in
      (
        record c₀ { replies = c.replies ++ codes "goodbye" ∷ [] },
        rw (p, g, d) (bye-ok (record c₀ { substring = [] })),
        record { file = refl; replies = refl },
      )

  round-held :
      (cmd : Command) (c : Child) (t : Table)
      → IsTable t
      → IsCommand cmd
      → (c' : Child) × (round os (message (line_of cmd)) (record c { file = some (encode t) })
          ≡ ok (status_of cmd, c'))
        × Answers cmd t c c'
  unfolding round
  round-held cmd c t ints h =
      let c₀ : Child = record c { file = some (encode t) } in
      let (c', e, a) = commands_lem cmd c t ints h in
      (
        c',
        rw
            (
              received_lem (line_of cmd) (line-IsText cmd) (omega (arith, length-line cmd)),
              round,
              first_word-line cmd c₀,
            )
            e,
        a,
      )

  -- On a file that holds a table of ints, with calls that succeed: a command whose numbers are ints
  -- is answered as the table says, and the file then holds what the command makes of the table. The
  -- child goes on, but for `bye`.
  pub round-Answers :
      (cmd : Command) (c : Child) (t : Table)
      → c.file ≡ some (encode t)
      → IsTable t
      → IsCommand cmd
      → (c' : Child) × (round os (message (line_of cmd)) c ≡ ok (status_of cmd, c'))
        × Answers cmd t c c'
  round-Answers cmd c t held ints h =
      let (c', e, a) = round-held cmd c t ints h in
      (c', ap (λ f. round os (message (line_of cmd)) (record c { file = f })) held ∙ e, a)
