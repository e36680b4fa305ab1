-- ===== src/Merge/Turns.antt =====
-- Practice - 2023/server.c: the four states are the turns of two receivers of stop and wait.
use csf303_computer_networks.Prelude.{
  ℕ, ◌+◌, ◌/◌, ◌%◌, ◌<◌, ◌≡◌, refl, ap, sym, subst, ◌∙◌, Bool, true, false, Bool-cases, not, ◌==◌,
  inl, inr, if◌then◌else◌, List, [], ◌∷◌, ◌++◌, arith,
}
use csf303_computer_networks.Merge.{Packet, Server, first, second, socket_of}
use csf303_computer_networks.Merge.System.{
  Channel, served, System, Holds, every_other, keeps_next, first_bit,
}
use csf303_computer_networks.Merge.Serves.{
  Served, dropped, new, old, dropped-Holds, new-Holds, old-Holds,
}

every_other-snoc :
    {A : Type 0} (keep : Bool) (xs : List A) (x : A)
    → every_other keep (xs ++ x ∷ [])
      ≡ (if keeps_next keep xs then every_other keep xs ++ x ∷ [] else every_other keep xs)
unfolding every_other keeps_next
every_other-snoc true [] x = refl
every_other-snoc false [] x = refl
every_other-snoc true (y ∷ xs) x = elim (Bool-cases (keeps_next false xs)) [
  | inl on ↦ rw on (ap (λ l. y ∷ l) (every_other-snoc false xs x ∙ rw on refl))
  | inr off ↦ rw off (ap (λ l. y ∷ l) (every_other-snoc false xs x ∙ rw off refl))
]
every_other-snoc false (y ∷ xs) x = every_other-snoc true xs x

every_other-kept :
    {A : Type 0} (keep : Bool) (xs : List A) (x : A)
    → keeps_next keep xs ≡ true
    → every_other keep (xs ++ x ∷ []) ≡ every_other keep xs ++ x ∷ []
every_other-kept keep xs x on = every_other-snoc keep xs x ∙ rw on refl

every_other-left :
    {A : Type 0} (keep : Bool) (xs : List A) (x : A)
    → keeps_next keep xs ≡ false
    → every_other keep (xs ++ x ∷ []) ≡ every_other keep xs
every_other-left keep xs x off = every_other-snoc keep xs x ∙ rw off refl

keeps_next-snoc :
    {A : Type 0} (keep : Bool) (xs : List A) (x : A)
    → keeps_next keep (xs ++ x ∷ []) ≡ not (keeps_next keep xs)
unfolding keeps_next
keeps_next-snoc keep [] x = refl
keeps_next-snoc keep (y ∷ xs) x = keeps_next-snoc (not keep) xs x

-- The server's four states are the places of two stop-and-wait receivers that take turns.
pub record Inv (s : System) : Type 0 where
  pub state_lt : s.server.state < 4
  pub turn_one : keeps_next true s.server.taken ≡ (s.server.state % 2 == 0)
  pub turn_two : keeps_next false s.server.taken ≡ not (s.server.state % 2 == 0)
  pub one : Holds s.one (first_bit s.server.state) (every_other true s.server.taken)
  pub two : Holds s.two (s.server.state / 2) (every_other false s.server.taken)

socket-even : (n : ℕ) → socket_of n ≡ first → (n % 2 == 0) ≡ true
socket-even n e = elim (Bool-cases (n % 2 == 0)) [
  | inl even ↦ even
  | inr odd ↦ let clash : second ≡ first = rw odd at e in absurd (cc)
]

socket-odd : (n : ℕ) → socket_of n ≡ second → (n % 2 == 0) ≡ false
socket-odd n e = elim (Bool-cases (n % 2 == 0)) [
  | inl even ↦ let clash : first ≡ second = rw even at e in absurd (cc)
  | inr odd ↦ odd
]

Holds-eq :
    {s : Channel} {b b' : ℕ} {taken taken' : List Packet}
    → b ≡ b'
    → taken ≡ taken'
    → Holds s b taken
    → Holds s b' taken'
Holds-eq {s} {b} {b'} {taken} {taken'} e f h =
    subst (λ l. Holds s b' l) f (subst (λ x. Holds s x taken) e h)

module _ (s : System) (pkt : Packet) (rest : List Packet) (inv : Inv s) where
  pub read_one-Inv :
      {v : Server} {out : List Packet}
      → socket_of s.server.state ≡ first
      → s.one.to_server ≡ pkt ∷ rest
      → Served pkt s.server v out
      → Inv (record s { one = served s.one rest out; server = v })
  read_one-Inv {v} {out} due head (dropped same sent) =
      subst (λ l. Inv (record s { one = served s.one rest l; server = v })) sent
        (subst (λ x. Inv (record s { one = served s.one rest []; server = x })) same
          (record {
            state_lt = inv.state_lt;
            turn_one = inv.turn_one;
            turn_two = inv.turn_two;
            one = dropped-Holds s.one pkt rest _ _ head inv.one;
            two = inv.two;
          }))
  read_one-Inv {v} {out} due head (old ack echo other same sent) =
      let even = socket-even s.server.state due in
      subst (λ l. Inv (record s { one = served s.one rest l; server = v })) sent
        (subst (λ x. Inv (record s { one = served s.one rest (ack ∷ []); server = x })) same
          (record {
            state_lt = inv.state_lt;
            turn_one = inv.turn_one;
            turn_two = inv.turn_two;
            one =
                old-Holds s.one pkt rest _ _ head inv.one ack echo
                  (λ e. other (e ∙ ground (arith, inv.state_lt)));
            two = inv.two;
          }))
  read_one-Inv {v} {out} due head (new ack bytes echo num wrote same sent) =
      let even = socket-even s.server.state due in
      let lt = inv.state_lt in
      let on : keeps_next true s.server.taken ≡ true = inv.turn_one ∙ even in
      let off : keeps_next false s.server.taken ≡ false = inv.turn_two ∙ ap not even in
      let later : ((s.server.state + 1) % 4 % 2 == 0) ≡ false = ground arith in
      subst (λ l. Inv (record s { one = served s.one rest l; server = v })) sent
        (subst (λ x. Inv (record s { one = served s.one rest (ack ∷ []); server = x })) same
          (record {
            state_lt = omega arith;
            turn_one = keeps_next-snoc true s.server.taken pkt ∙ ap not on ∙ sym later;
            turn_two = keeps_next-snoc false s.server.taken pkt ∙ ap not off ∙ ap not (sym later);
            one =
                Holds-eq (ground arith) (sym (every_other-kept true s.server.taken pkt on))
                  (new-Holds s.one pkt rest _ _ head inv.one ack echo (num ∙ ground arith));
            two =
                Holds-eq (ground arith) (sym (every_other-left false s.server.taken pkt off))
                  inv.two;
          }))

  pub read_two-Inv :
      {v : Server} {out : List Packet}
      → socket_of s.server.state ≡ second
      → s.two.to_server ≡ pkt ∷ rest
      → Served pkt s.server v out
      → Inv (record s { two = served s.two rest out; server = v })
  read_two-Inv {v} {out} due head (dropped same sent) =
      subst (λ l. Inv (record s { two = served s.two rest l; server = v })) sent
        (subst (λ x. Inv (record s { two = served s.two rest []; server = x })) same
          (record {
            state_lt = inv.state_lt;
            turn_one = inv.turn_one;
            turn_two = inv.turn_two;
            one = inv.one;
            two = dropped-Holds s.two pkt rest _ _ head inv.two;
          }))
  read_two-Inv {v} {out} due head (old ack echo other same sent) =
      subst (λ l. Inv (record s { two = served s.two rest l; server = v })) sent
        (subst (λ x. Inv (record s { two = served s.two rest (ack ∷ []); server = x })) same
          (record {
            state_lt = inv.state_lt;
            turn_one = inv.turn_one;
            turn_two = inv.turn_two;
            one = inv.one;
            two = old-Holds s.two pkt rest _ _ head inv.two ack echo other;
          }))
  read_two-Inv {v} {out} due head (new ack bytes echo num wrote same sent) =
      let odd = socket-odd s.server.state due in
      let lt = inv.state_lt in
      let off : keeps_next true s.server.taken ≡ false = inv.turn_one ∙ odd in
      let on : keeps_next false s.server.taken ≡ true = inv.turn_two ∙ ap not odd in
      let later : ((s.server.state + 1) % 4 % 2 == 0) ≡ true = ground arith in
      subst (λ l. Inv (record s { two = served s.two rest l; server = v })) sent
        (subst (λ x. Inv (record s { two = served s.two rest (ack ∷ []); server = x })) same
          (record {
            state_lt = omega arith;
            turn_one = keeps_next-snoc true s.server.taken pkt ∙ ap not off ∙ sym later;
            turn_two = keeps_next-snoc false s.server.taken pkt ∙ ap not on ∙ ap not (sym later);
            one =
                Holds-eq (ground arith) (sym (every_other-left true s.server.taken pkt off))
                  inv.one;
            two =
                Holds-eq (ground arith) (sym (every_other-kept false s.server.taken pkt on))
                  (new-Holds s.two pkt rest _ _ head inv.two ack echo num);
          }))
