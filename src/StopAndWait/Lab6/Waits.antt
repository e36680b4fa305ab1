-- ===== src/StopAndWait/Lab6/Waits.antt =====
-- lab6/udp_client.c: the cases 1 and 3 of the loop wait for an ACK, and the whole loop.
use csf303_computer_networks.Prelude.{
  ℕ, ◌-◌, ◌/◌, ◌≤◌, ◌<◌, ◌≡◌, refl, ap, sym, subst, ◌∙◌, ◌⊎◌, inl, inr, Bool, true, false,
  Bool-cases, ◌==◌, ◌||◌, ==→eq, if◌then◌else◌, List, [], ◌∷◌, ◌++◌, append-nil, arith, ok, ok-pair,
  All-append,
}
use csf303_computer_networks.StopAndWait.Spec.{
  Net, Sender, idle, waiting, IsSafe, resting, All-remove,
}
use csf303_computer_networks.StopAndWait.Spec
use csf303_computer_networks.StopAndWait.Lab6.{
  Packet, Client, Event, select_error, timed_out, recv_error, readable, send_next, handle_ack,
  wait_ack, waits, sends, round, drop_packet,
}
use csf303_computer_networks.StopAndWait.Lab6.System.{
  System, IsNoRead, sender_of, view, IsBit, IsCoherent, Simulates, sender_waits, sender_idles,
  moved,
}
use csf303_computer_networks.StopAndWait.Lab6.Sends.{send_next-Simulates}

-- The state behind the ACK of the packet that is waited for.
abbrev after : ℕ → ℕ
after n = if n == 1 then 2 else 0

after-idle : (n : ℕ) → (after n == 1 || after n == 3) ≡ false
after-idle n = ground arith

after-half : (n k : ℕ) → (n == 1 || n == 3) ≡ true → k ≡ (n - 1) / 2 → after n / 2 ≡ 1 - k
after-half n k on e = ground arith

acked-Simulates :
    (s : System) (ack : Packet) (rest : List Packet)
    → waits s.client ≡ true
    → IsCoherent s
    → s.to_client ≡ ack ∷ rest
    → ack.sq_no ≡ (s.client.state - 1) / 2
    → Simulates s
        (record s { client = record s.client { state = after s.client.state }; to_client = rest })
acked-Simulates s ack rest on co head same =
    let c' : Client = record s.client { state = after s.client.state } in
    let t : System = record s { client = c'; to_client = rest } in
    let p : Packet = s.client.send_pkt in
    let off : waits c' ≡ false = after-idle s.client.state in
    let num : ack.sq_no ≡ p.sq_no = same ∙ sym (co.number on) in
    let back : sender_of c' ≡ idle (1 - p.sq_no) =
      sender_idles c' off ∙ ap idle (after-half s.client.state p.sq_no on (co.number on)) in
    record {
      moves = inl (
          moved s t (record (view t) { sender = idle (1 - p.sq_no) })
            (ap (λ x. record (view t) { sender = x }) (sym back))
            (Spec.receive_ack (view s) p ack rest (sender_waits s.client on) head num));
      coherent = record {
        states = ground arith;
        bits = co.bits;
        number = λ h. absurd (cc);
        small = co.small;
      };
    }

-- What `handle_ack` does in a state that waits.
abbrev ackd : Packet → Client → Client
ackd ack c = if ack.sq_no == (c.state - 1) / 2 then record c { state = after c.state } else c

handle_ack-ackd :
    (r : ℕ) (ack : Packet) (c : Client)
    → waits c ≡ true
    → (handle_ack r ack c ≡ c) ⊎ (handle_ack r ack c ≡ ackd ack c)
unfolding handle_ack
handle_ack-ackd r ack c on = elim (Bool-cases (drop_packet r)) [
  | inl dropped ↦ inl (rw (dropped, handle_ack) refl)
  | inr kept ↦ elim (Bool-cases (c.state == 1)) [
    | inl one ↦ let n : c.state ≡ 1 = ==→eq c.state 1 one in inr (rw (kept, handle_ack) (rw n refl))
    | inr three ↦ let n : c.state ≡ 3 = ground arith in inr (rw (kept, handle_ack) (rw n refl))
  ]
]

-- An ACK that changes nothing is as good as lost.
ignored-Simulates :
    (s : System) (ack : Packet) (rest : List Packet)
    → IsCoherent s
    → s.to_client ≡ ack ∷ rest
    → Simulates s (record s { to_client = rest })
ignored-Simulates s ack rest co head = record {
  moves = inl (Spec.lose_ack (view s) [] ack rest head);
  coherent = record { states = co.states; bits = co.bits; number = co.number; small = co.small };
}

ackd-Simulates :
    (s : System) (ack : Packet) (rest : List Packet)
    → waits s.client ≡ true
    → IsCoherent s
    → s.to_client ≡ ack ∷ rest
    → Simulates s (record s { client = ackd ack s.client; to_client = rest })
ackd-Simulates s ack rest on co head = elim (Bool-cases (ack.sq_no == (s.client.state - 1) / 2)) [
  | inl same ↦ rw same (acked-Simulates s ack rest on co head (==→eq ack.sq_no _ same))
  | inr other ↦ rw other (ignored-Simulates s ack rest co head)
]

handle_ack-Simulates :
    (s : System) (r : ℕ) (ack : Packet) (rest : List Packet)
    → waits s.client ≡ true
    → IsCoherent s
    → s.to_client ≡ ack ∷ rest
    → Simulates s (record s { client = handle_ack r ack s.client; to_client = rest })
handle_ack-Simulates s r ack rest on co head = elim (handle_ack-ackd r ack s.client on) [
  | inl same ↦
      subst (λ x. Simulates s (record s { client = x; to_client = rest })) (sym same)
        (ignored-Simulates s ack rest co head)
  | inr same ↦
      subst (λ x. Simulates s (record s { client = x; to_client = rest })) (sym same)
        (ackd-Simulates s ack rest on co head)
]

resent-Simulates :
    (s : System)
    → waits s.client ≡ true
    → IsCoherent s
    → Simulates s (record s { to_server = s.to_server ++ s.client.send_pkt ∷ [] })
resent-Simulates s on co =
    let n : s.client.send_pkt.sq_no ≡ (s.client.state - 1) / 2 = co.number on in
    let bit : s.client.send_pkt.sq_no ≤ 1 = omega (arith, co.states) in
    record {
      moves = inl (Spec.timeout (view s) s.client.send_pkt (sender_waits s.client on));
      coherent = record {
        states = co.states;
        bits = co.bits;
        number = co.number;
        small = All-append IsBit s.to_server (s.client.send_pkt ∷ []) co.small (bit, tt);
      };
    }

waits-not_sends : (n : ℕ) → (n == 1 || n == 3) ≡ true → (n == 0 || n == 2) ≡ false
waits-not_sends n h = ground arith

neither : (n : ℕ) → n < 4 → (n == 0 || n == 2) ≡ false → (n == 1 || n == 3) ≡ true
neither n lt h = ground arith

round-waits :
    (send_ok : Bool) (ev : Event) (c : Client) {c' : Client} {out : List Packet}
    → waits c ≡ true
    → round send_ok ev c ≡ ok (c', out)
    → wait_ack send_ok ev c ≡ ok (c', out)
unfolding round
round-waits send_ok ev c on e = rw (waits-not_sends c.state on, on, round) at e

round-sends :
    (send_ok : Bool) (ev : Event) (c : Client) {c' : Client} {out : List Packet}
    → sends c ≡ true
    → round send_ok ev c ≡ ok (c', out)
    → send_next send_ok c ≡ ok (c', out)
unfolding round
round-sends send_ok ev c even e = rw (even, round) at e

waited-Simulates :
    (s : System) (send_ok : Bool) (ev : Event) {c : Client} {out : List Packet}
    → waits s.client ≡ true
    → IsNoRead s.client ev
    → IsCoherent s
    → wait_ack send_ok ev s.client ≡ ok (c, out)
    → Simulates s (record s { client = c; to_server = s.to_server ++ out })
unfolding wait_ack
waited-Simulates s send_ok select_error on quiet co e = absurd (cc)
waited-Simulates s send_ok recv_error on quiet co e = absurd (cc)
waited-Simulates s false timed_out on quiet co e = absurd (cc)
waited-Simulates s true timed_out {c} {out} on quiet co e =
    let (same, sent) = ok-pair s.client c (s.client.send_pkt ∷ []) out e in
    subst (λ l. Simulates s (record s { client = c; to_server = s.to_server ++ l })) sent
      (subst
        (λ x.
          Simulates s (record s { client = x; to_server = s.to_server ++ s.client.send_pkt ∷ [] }))
        same (resent-Simulates s on co))
waited-Simulates s send_ok (readable r ack) on quiet co e = absurd (cc)

pub client_pass-Simulates :
    (s : System) (send_ok : Bool) (ev : Event) (c : Client) (out : List Packet)
    → IsNoRead s.client ev
    → IsCoherent s
    → round send_ok ev s.client ≡ ok (c, out)
    → Simulates s (record s { client = c; to_server = s.to_server ++ out })
client_pass-Simulates s send_ok ev c out quiet co e = elim (Bool-cases (sends s.client)) [
  | inl even ↦ send_next-Simulates s send_ok even co (round-sends send_ok ev s.client even e)
  | inr odd ↦
      let on : waits s.client ≡ true = neither s.client.state co.states odd in
      waited-Simulates s send_ok ev on quiet co (round-waits send_ok ev s.client on e)
]

pub client_read-Simulates :
    (s : System) (send_ok : Bool) (ack : Packet) (rest : List Packet) (r : ℕ) (c : Client)
    (out : List Packet)
    → waits s.client ≡ true
    → s.to_client ≡ ack ∷ rest
    → IsCoherent s
    → round send_ok (readable r ack) s.client ≡ ok (c, out)
    → Simulates s (record s { client = c; to_server = s.to_server ++ out; to_client = rest })
unfolding wait_ack
client_read-Simulates s send_ok ack rest r c out on head co e =
    let (same, sent) =
      ok-pair (handle_ack r ack s.client) c [] out
        (round-waits send_ok (readable r ack) s.client on e) in
    subst
      (λ l. Simulates s (record s { client = c; to_server = s.to_server ++ l; to_client = rest }))
      sent
      (subst
        (λ x.
          Simulates s (record s { client = x; to_server = s.to_server ++ []; to_client = rest }))
        same
        (subst
          (λ l.
            Simulates s
              (record s { client = handle_ack r ack s.client; to_server = l; to_client = rest }))
          (sym (append-nil s.to_server)) (handle_ack-Simulates s r ack rest on co head)))
