-- ===== src/StopAndWait/Lab6/Serves.antt =====
-- lab6/udp_server.c: the loop delivers a packet with the bit that is due and acknowledges all.
use csf303_computer_networks.Prelude.{
  ℕ, ◌-◌, ◌≤◌, ◌<◌, ◌≡◌, ◌≢◌, sym, subst, inl, inr, Bool, true, false, Bool-cases, ◌==◌, ==→eq,
  List, [], ◌∷◌, ◌++◌, append-nil, arith, ok, ok-pair, All,
}
use csf303_computer_networks.StopAndWait.Spec.{
  Net, Sender, idle, waiting, IsSafe, resting, All-remove,
}
use csf303_computer_networks.StopAndWait.Spec
use csf303_computer_networks.StopAndWait.Lab6.{Packet, Server, drop_packet, ack_of, serve}
use csf303_computer_networks.StopAndWait.Lab6.System.{System, view, IsBit, IsCoherent, Simulates}

-- A packet is answered by an ACK with its own number, be it new or old.
ack_of-number :
    (pkt : Packet) (s : Server) → pkt.sq_no ≤ 1 → s.state < 2 → (ack_of pkt s).sq_no ≡ pkt.sq_no
unfolding ack_of
ack_of-number pkt s bit lt = ground arith

dropped-Simulates :
    (s : System) (pkt : Packet) (rest : List Packet)
    → s.to_server ≡ pkt ∷ rest
    → IsCoherent s
    → All IsBit (pkt ∷ rest)
    → Simulates s (record s { to_server = rest; to_client = s.to_client ++ [] })
dropped-Simulates s pkt rest head co bits =
    subst (λ l. Simulates s (record s { to_server = rest; to_client = l }))
      (sym (append-nil s.to_client))
      (record {
        moves = inl (Spec.lose_packet (view s) [] pkt rest head);
        coherent = record {
          states = co.states;
          bits = co.bits;
          number = co.number;
          small = bits.1;
        };
      })

served-Simulates :
    (s : System) (send_ok : Bool) (r : ℕ) (pkt : Packet) (rest : List Packet) {v : Server}
    {out : List Packet}
    → s.to_server ≡ pkt ∷ rest
    → IsCoherent s
    → All IsBit (pkt ∷ rest)
    → drop_packet r ≡ false
    → serve send_ok r pkt s.server ≡ ok (v, out)
    → Simulates s (record s { server = v; to_server = rest; to_client = s.to_client ++ out })
unfolding serve
served-Simulates s false r pkt rest head co bits kept e = absurd (ground arith)
served-Simulates s true r pkt rest {v} {out} head co bits kept e =
    let ack : Packet = ack_of pkt s.server in
    let echo : ack.sq_no ≡ pkt.sq_no = ack_of-number pkt s.server bits.0 co.bits in
    elim (Bool-cases (pkt.sq_no == s.server.state)) [
      | inl new ↦
          let v' : Server = record s.server {
            ack_pkt = ack;
            state = 1 - s.server.state;
            taken = s.server.taken ++ pkt ∷ [];
          } in
          let (same, sent) = ok-pair v' v (ack ∷ []) out (rw (kept, new, serve) at e) in
          let num : pkt.sq_no ≡ s.server.state = ==→eq pkt.sq_no s.server.state new in
          subst
            (λ l.
              Simulates s (record s { server = v; to_server = rest; to_client = s.to_client ++ l }))
            sent
            (subst
              (λ x.
                Simulates s
                  (record s { server = x; to_server = rest; to_client = s.to_client ++ ack ∷ [] }))
              same
              (record {
                moves = inl (Spec.deliver (view s) pkt ack rest head num echo);
                coherent = record {
                  states = co.states;
                  bits = omega arith;
                  number = co.number;
                  small = bits.1;
                };
              }))
      | inr old ↦
          let v' : Server = record s.server { ack_pkt = ack } in
          let (same, sent) = ok-pair v' v (ack ∷ []) out (rw (kept, old, serve) at e) in
          let num : pkt.sq_no ≢ s.server.state = λ h. ground arith in
          subst
            (λ l.
              Simulates s (record s { server = v; to_server = rest; to_client = s.to_client ++ l }))
            sent
            (subst
              (λ x.
                Simulates s
                  (record s { server = x; to_server = rest; to_client = s.to_client ++ ack ∷ [] }))
              same
              (record {
                moves = inl (Spec.repeat (view s) pkt ack rest head num echo);
                coherent = record {
                  states = co.states;
                  bits = co.bits;
                  number = co.number;
                  small = bits.1;
                };
              }))
    ]

pub server_read-Simulates :
    (s : System) (send_ok : Bool) (r : ℕ) (pkt : Packet) (rest : List Packet) {v : Server}
    {out : List Packet}
    → s.to_server ≡ pkt ∷ rest
    → IsCoherent s
    → serve send_ok r pkt s.server ≡ ok (v, out)
    → Simulates s (record s { server = v; to_server = rest; to_client = s.to_client ++ out })
unfolding serve
server_read-Simulates s send_ok r pkt rest {v} {out} head co e =
    let bits : All IsBit (pkt ∷ rest) = subst (All IsBit) head co.small in
    elim (Bool-cases (drop_packet r)) [
      | inl dropped ↦
          let (same, sent) = ok-pair s.server v [] out (rw (dropped, serve) at e) in
          subst
            (λ l.
              Simulates s (record s { server = v; to_server = rest; to_client = s.to_client ++ l }))
            sent
            (subst
              (λ x.
                Simulates s
                  (record s { server = x; to_server = rest; to_client = s.to_client ++ [] }))
              same (dropped-Simulates s pkt rest head co bits))
      | inr kept ↦ served-Simulates s send_ok r pkt rest head co bits kept e
    ]
