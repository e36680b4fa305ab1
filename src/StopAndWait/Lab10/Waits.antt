-- ===== src/StopAndWait/Lab10/Waits.antt =====
-- Lab10/client.c: the cases 1 and 3 of the loop wait for an ACK, and the whole loop.
use csf303_computer_networks.Prelude.{
  ℕ, ◌+◌, ◌-◌, ◌/◌, ◌%◌, ◌<◌, ◌≡◌, ap, sym, subst, ◌∙◌, inl, inr, Bool, true, false, Bool-cases,
  ◌==◌, ◌||◌, ◌&&◌, ==→eq, List, [], ◌∷◌, ◌++◌, append-nil, arith, ok, >>=-eq-ok, ok-pair, ok-eq,
}
use csf303_computer_networks.StopAndWait.Spec.{Net, Sender, idle, waiting, IsSafe, resting}
use csf303_computer_networks.StopAndWait.Spec
use csf303_computer_networks.StopAndWait.Scan.{Packet}
use csf303_computer_networks.StopAndWait.Lab10.{
  Client, Status, running, Event, select_error, timed_out, recv_error, readable, send_next,
  handle_ack, handle_timeout, wait_ack, waits, sends, round,
}
use csf303_computer_networks.StopAndWait.Lab10.System.{
  System, IsNoRead, sender_of, view, IsCoherent, Simulates, sender_waits, sender_idles, moved,
}
use csf303_computer_networks.StopAndWait.Lab10.Sends.{send_next-Simulates}

-- The number that is waited for is the packet's; the second test of `handle_ack` adds nothing.
after_ack : (n k : ℕ) → (n == 1 || n == 3) ≡ true → k ≡ (n - 1) / 2 → (n + 1) % 4 / 2 ≡ 1 - k
after_ack n k on e = ground arith

after_ack-idle :
    (n : ℕ) → (n == 1 || n == 3) ≡ true → ((n + 1) % 4 == 1 || (n + 1) % 4 == 3) ≡ false
after_ack-idle n on = ground arith

no_other :
    (n k : ℕ) → (n == 1 || n == 3) ≡ true → (k == (n - 1) / 2) ≡ false → (k == 1 && n == 3) ≡ false
no_other n k on other = ground arith

acked-Simulates :
    (s : System) (ack : Packet) (rest : List Packet)
    → waits s.client ≡ true
    → IsCoherent s
    → s.to_client ≡ ack ∷ rest
    → (ack.seq_no == (s.client.state - 1) / 2) ≡ true
    → Simulates s (record s {
      client = record s.client { state = (s.client.state + 1) % 4 };
      to_client = rest;
    })
acked-Simulates s ack rest on co head same =
    let c' : Client = record s.client { state = (s.client.state + 1) % 4 } in
    let t : System = record s { client = c'; to_client = rest } in
    let p : Packet = s.client.pkt in
    let off : waits c' ≡ false = after_ack-idle s.client.state on in
    let num : ack.seq_no ≡ p.seq_no = ==→eq ack.seq_no _ same ∙ sym (co.number on) in
    let back : sender_of c' ≡ idle (1 - p.seq_no) =
      sender_idles c' off ∙ ap idle (after_ack s.client.state p.seq_no on (co.number on)) in
    record {
      moves = inl (
          moved s t (record (view t) { sender = idle (1 - p.seq_no) })
            (ap (λ x. record (view t) { sender = x }) (sym back))
            (Spec.receive_ack (view s) p ack rest (sender_waits s.client on) head num));
      coherent = record { states = omega arith; bits = co.bits; number = λ h. absurd (cc) };
    }

handle_ack-Simulates :
    (s : System) (ack : Packet) (rest : List Packet) {c : Client}
    → waits s.client ≡ true
    → IsCoherent s
    → s.to_client ≡ ack ∷ rest
    → handle_ack ack ((s.client.state - 1) / 2) ((s.client.state + 1) % 4) s.client ≡ c
    → Simulates s (record s { client = c; to_server = s.to_server ++ []; to_client = rest })
unfolding handle_ack
handle_ack-Simulates s ack rest {c} on co head e =
    subst (λ l. Simulates s (record s { client = c; to_server = l; to_client = rest }))
      (sym (append-nil s.to_server))
      (subst (λ x. Simulates s (record s { client = x; to_client = rest })) e
        (elim (Bool-cases (ack.seq_no == (s.client.state - 1) / 2)) [
          | inr other ↦
              rw (other, no_other s.client.state ack.seq_no on other, handle_ack)
                (record {
                  moves = inl (Spec.lose_ack (view s) [] ack rest head);
                  coherent = record { states = co.states; bits = co.bits; number = co.number };
                })
          | inl same ↦ rw (same, handle_ack) (acked-Simulates s ack rest on co head same)
        ]))

resent-Simulates :
    (s : System) (send_ok : Bool) {c : Client} {out : List Packet}
    → waits s.client ≡ true
    → IsCoherent s
    → handle_timeout send_ok s.client ≡ ok (c, out)
    → Simulates s (record s { client = c; to_server = s.to_server ++ out })
unfolding handle_timeout
resent-Simulates s false on co e = absurd (cc)
resent-Simulates s true {c} {out} on co e =
    let (same, sent) = ok-pair s.client c (s.client.pkt ∷ []) out e in
    subst (λ l. Simulates s (record s { client = c; to_server = s.to_server ++ l })) sent
      (subst
        (λ x. Simulates s (record s { client = x; to_server = s.to_server ++ s.client.pkt ∷ [] }))
        same
        (record {
          moves = inl (Spec.timeout (view s) s.client.pkt (sender_waits s.client on));
          coherent = record { states = co.states; bits = co.bits; number = co.number };
        }))

-- A state that waits takes its branch.
waits-not_sends : (n : ℕ) → (n == 1 || n == 3) ≡ true → (n == 0 || n == 2) ≡ false
waits-not_sends n h = ground arith

neither : (n : ℕ) → n < 4 → (n == 0 || n == 2) ≡ false → (n == 1 || n == 3) ≡ true
neither n lt h = ground arith

round-sends :
    (send_ok : Bool) (ev : Event) (c : Client) {st : Status} {c' : Client} {out : List Packet}
    → sends c ≡ true
    → round send_ok ev c ≡ ok (st, (c', out))
    → ◌≡◌ {A = Status × (Client × List Packet)} (send_next c) (st, (c', out))
unfolding round
round-sends send_ok ev c even e = ok-eq (send_next c) _ (rw (even, round) at e)

round-waits :
    (send_ok : Bool) (ev : Event) (c : Client) {st : Status} {c' : Client} {out : List Packet}
    → waits c ≡ true
    → round send_ok ev c ≡ ok (st, (c', out))
    → wait_ack send_ok ev c ≡ ok (c', out)
unfolding round
round-waits send_ok ev c {st} {c'} {out} on e =
    let (o, e₁, e₂) =
      >>=-eq-ok (wait_ack send_ok ev c) _ (rw (waits-not_sends c.state on, on, round) at e) in
    let (_, same) = ok-pair running st o (c', out) e₂ in e₁ ∙ ap ok same

waited-Simulates :
    (s : System) (send_ok : Bool) (ev : Event) {c : Client} {out : List Packet}
    → waits s.client ≡ true
    → IsNoRead s.client ev
    → IsCoherent s
    → wait_ack send_ok ev s.client ≡ ok (c, out)
    → Simulates s (record s { client = c; to_server = s.to_server ++ out })
unfolding wait_ack
waited-Simulates s send_ok select_error on quiet co e = absurd (cc)
waited-Simulates s send_ok recv_error on quiet co e = absurd (cc)
waited-Simulates s send_ok timed_out on quiet co e = resent-Simulates s send_ok on co e
waited-Simulates s send_ok (readable ack) on quiet co e = absurd (cc)

pub client_pass-Simulates :
    (s : System) (send_ok : Bool) (ev : Event) (st : Status) (c : Client) (out : List Packet)
    → IsNoRead s.client ev
    → IsCoherent s
    → round send_ok ev s.client ≡ ok (st, (c, out))
    → Simulates s (record s { client = c; to_server = s.to_server ++ out })
client_pass-Simulates s send_ok ev st c out quiet co e = elim (Bool-cases (sends s.client)) [
  | inl even ↦ send_next-Simulates s even co (round-sends send_ok ev s.client even e)
  | inr odd ↦
      let on : waits s.client ≡ true = neither s.client.state co.states odd in
      waited-Simulates s send_ok ev on quiet co (round-waits send_ok ev s.client on e)
]

pub client_read-Simulates :
    (s : System) (send_ok : Bool) (ack : Packet) (rest : List Packet) (st : Status) (c : Client)
    (out : List Packet)
    → waits s.client ≡ true
    → s.to_client ≡ ack ∷ rest
    → IsCoherent s
    → round send_ok (readable ack) s.client ≡ ok (st, (c, out))
    → Simulates s (record s { client = c; to_server = s.to_server ++ out; to_client = rest })
unfolding wait_ack
client_read-Simulates s send_ok ack rest st c out on head co e =
    let h : Client =
      handle_ack ack ((s.client.state - 1) / 2) ((s.client.state + 1) % 4) s.client in
    let (same, sent) = ok-pair h c [] out (round-waits send_ok (readable ack) s.client on e) in
    subst
      (λ l. Simulates s (record s { client = c; to_server = s.to_server ++ l; to_client = rest }))
      sent (handle_ack-Simulates s ack rest on co head same)
