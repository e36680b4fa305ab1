-- ===== src/KeyValue/Refines.antt =====
-- Whole sessions of the server against the table, and what the table says of the keys.
use csf303_computer_networks.Prelude.{
  ℕ, ◌≡◌, ◌⊎◌, refl, ap, sym, ◌∙◌, true, Bool-cases, inl, inr, none, some, List, [], ◌∷◌, ◌++◌,
  append_assoc, append-nil, map, if◌then◌else◌, All, All-append, ok,
}
use csf303_computer_networks.Prelude.Int.{ℤ}
use csf303_computer_networks.Text.Literals.{codes}
use csf303_computer_networks.Text.Numbers.{in_int, print_int}
use csf303_computer_networks.KeyValue.{
  Os, Child, Arrival, Status, running, finished, message, round, run, int_eq, value_text,
}
use csf303_computer_networks.KeyValue.Table.{Table, encode, first_value, remove_key, IsTable}
use csf303_computer_networks.KeyValue.Keys.{first_value-put, first_value-remove_key}
use csf303_computer_networks.KeyValue.Answer.{
  Command, put_pair, get_value, del_key, say_bye, line_of, apply, answer, status_of, IsCommand,
  IsCalm,
}
use csf303_computer_networks.KeyValue.Session.{round-Answers}

abbrev IsInts : ℤ × ℤ → Type 0
IsInts e = (in_int e.0 ≡ true) × (in_int e.1 ≡ true)

remove_key-IsTable : (key : ℤ) (t : Table) → IsTable t → IsTable (remove_key key t)
unfolding remove_key
remove_key-IsTable key [] h = tt
remove_key-IsTable key ((k, v) ∷ t) h = elim (Bool-cases (int_eq k key)) [
  | inl same ↦ rw same (remove_key-IsTable key t h.1)
  | inr other ↦ rw other (h.0, remove_key-IsTable key t h.1)
]

apply-IsTable : (cmd : Command) (t : Table) → IsCommand cmd → IsTable t → IsTable (apply cmd t)
apply-IsTable (put_pair key value) t c h = All-append IsInts t ((key, value) ∷ []) h (c, tt)
apply-IsTable (get_value key) t c h = h
apply-IsTable (del_key key) t c h = remove_key-IsTable key t h
apply-IsTable say_bye t c h = h

-- A sequence of commands on the table, and all that the client is told: what is behind a `bye` does
-- nothing.
unfoldable pub apply_all : List Command → Table → Table
apply_all [] t = t
apply_all (cmd ∷ rest) t = elim (status_of cmd) [
  | running ↦ apply_all rest (apply cmd t)
  | finished ↦ apply cmd t
]

unfoldable pub answers : List Command → Table → List (List ℕ)
answers [] t = []
answers (cmd ∷ rest) t = elim (status_of cmd) [
  | running ↦ answer cmd t ∷ answers rest (apply cmd t)
  | finished ↦ answer cmd t ∷ []
]

-- Whether there is a `bye` among them.
unfoldable pub status_all : List Command → Status
status_all [] = running
status_all (cmd ∷ rest) = elim (status_of cmd) [ running ↦ status_all rest | finished ↦ finished ]

abbrev messages : List Command → List Arrival
messages cmds = map (λ cmd. message (line_of cmd)) cmds

-- What the server's loop does with the messages of the commands.
abbrev pub RunsAs : Os → List Command → Table → Child → Type 0
RunsAs os cmds t c =
    (c' : Child) × (run os (messages cmds) c ≡ ok (status_all cmds, c'))
    × (c'.file ≡ some (encode (apply_all cmds t)))
    × (c'.replies ≡ c.replies ++ answers cmds t)

runs_on :
    (os : Os) (cmd : Command) (rest : List Command) (c c₁ : Child) (t : Table)
    → status_of cmd ≡ running
    → round os (message (line_of cmd)) c ≡ ok (status_of cmd, c₁)
    → c₁.replies ≡ c.replies ++ answer cmd t ∷ []
    → RunsAs os rest (apply cmd t) c₁
    → RunsAs os (cmd ∷ rest) t c
unfolding run apply_all answers status_all
runs_on os cmd rest c c₁ t on e told (c', e', file, replies) =
    let went : round os (message (line_of cmd)) c ≡ ok (running, c₁) =
      e ∙ ap (λ st. ok (st, c₁)) on in
    rw (on, status_all, apply_all, answers)
      (
        c',
        rw went e',
        file,
        replies
            ∙ ap (λ l. l ++ answers rest (apply cmd t)) told
            ∙ append_assoc c.replies (answer cmd t ∷ []) (answers rest (apply cmd t)),
      )

stops_at :
    (os : Os) (cmd : Command) (rest : List Command) (c c₁ : Child) (t : Table)
    → status_of cmd ≡ finished
    → round os (message (line_of cmd)) c ≡ ok (status_of cmd, c₁)
    → c₁.file ≡ some (encode (apply cmd t))
    → c₁.replies ≡ c.replies ++ answer cmd t ∷ []
    → RunsAs os (cmd ∷ rest) t c
unfolding run apply_all answers status_all
stops_at os cmd rest c c₁ t over e held told =
    let went : round os (message (line_of cmd)) c ≡ ok (finished, c₁) =
      e ∙ ap (λ st. ok (st, c₁)) over in
    rw (over, status_all, apply_all, answers) (c₁, rw went, held, told)

status_cases : (st : Status) → (st ≡ running) ⊎ (st ≡ finished)
status_cases running = inl refl
status_cases finished = inr refl

-- A session of any commands with int numbers, with calls that succeed, on a file that holds a table
-- of ints: up to the first `bye`, that one included, the replies are the answers of the table, in
-- order, and the file holds the table that is left; the server leaves its loop at that `bye` and
-- reads nothing that comes behind it, and without a `bye` it stays in its loop.
pub run-answers :
    (os : Os) (calm : IsCalm os) (cmds : List Command) (c : Child) (t : Table)
    → c.file ≡ some (encode t)
    → IsTable t
    → All IsCommand cmds
    → (c' : Child) × (run os (map (λ cmd. message (line_of cmd)) cmds) c ≡ ok (status_all cmds, c'))
      × (c'.file ≡ some (encode (apply_all cmds t)))
      × (c'.replies ≡ c.replies ++ answers cmds t)
unfolding run apply_all answers status_all
run-answers os calm [] c t held ints h = (c, refl, held, sym (append-nil c.replies))
run-answers os calm (cmd ∷ rest) c t held ints h =
    let (c₁, e, a) = round-Answers os calm cmd c t held ints h.0 in
    elim (status_cases (status_of cmd)) [
      | inl on ↦
          runs_on os cmd rest c c₁ t on e a.replies
            (run-answers os calm rest c₁ (apply cmd t) a.file (apply-IsTable cmd t h.0 ints) h.1)
      | inr over ↦ stops_at os cmd rest c c₁ t over e a.file a.replies
    ]

module _ (os : Os) (calm : IsCalm os) (c : Child) (t : Table) (held : c.file ≡ some (encode t))
    (ints : IsTable t) where
  -- On a file that holds a table of ints, with calls that succeed: behind a `del` of a key, a `get`
  -- is told that there is no such key if it asks for that one, and the value as before if it asks
  -- for another.
  pub run-del_get :
      (key wanted : ℤ)
      → in_int key ≡ true
      → in_int wanted ≡ true
      → (c' : Child) × (run os
            (message (line_of (del_key key)) ∷ message (line_of (get_value wanted)) ∷ [])
            c
          ≡ ok (running, c'))
        × (c'.replies
            ≡ c.replies
              ++ (codes "key deleted"
                  ∷ value_text (if int_eq wanted key then none else first_value wanted t)
                  ∷ []))
  unfolding answers status_all
  run-del_get key wanted int int' =
      let (c', e, _, replies) =
        run-answers os calm (del_key key ∷ get_value wanted ∷ []) c t held ints (int, (int', tt)) in
      (
        c',
        e,
        replies
            ∙ ap (λ o. c.replies ++ (codes "key deleted" ∷ value_text o ∷ []))
                (first_value-remove_key wanted key t),
      )

  -- On a file that holds a table of ints, with calls that succeed: behind a `put` of any pair, a
  -- `get` of a key that had a value before is told that value, also if it is the key of the pair.
  pub run-put_get :
      (key value wanted older : ℤ)
      → in_int key ≡ true
      → in_int value ≡ true
      → in_int wanted ≡ true
      → first_value wanted t ≡ some older
      → (c' : Child) × (run os
            (message (line_of (put_pair key value)) ∷ message (line_of (get_value wanted)) ∷ [])
            c
          ≡ ok (running, c'))
        × (c'.replies ≡ c.replies ++ (codes "Pair added to database" ∷ print_int older ∷ []))
  unfolding answers status_all
  run-put_get key value wanted older int₁ int₂ int₃ found =
      let (c', e, _, replies) =
        run-answers os calm (put_pair key value ∷ get_value wanted ∷ []) c t held ints
          ((int₁, int₂), (int₃, tt)) in
      (
        c',
        e,
        replies
            ∙ ap (λ o. c.replies ++ (codes "Pair added to database" ∷ value_text o ∷ []))
                (first_value-put wanted key value older t found),
      )
