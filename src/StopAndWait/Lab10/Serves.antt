-- ===== src/StopAndWait/Lab10/Serves.antt =====
-- Lab10/server.c: the loop delivers a packet with the bit that is due and acknowledges all.
use csf303_computer_networks.Prelude.{
  ℕ, ◌+◌, ◌-◌, ◌%◌, ◌<◌, ◌≡◌, ◌≢◌, refl, ap, sym, subst, inl, inr, Bool, true, false, Bool-cases,
  ◌==◌, ==→eq, List, [], ◌∷◌, ◌++◌, append-nil, arith, ok, ok-pair,
}
use csf303_computer_networks.StopAndWait.Spec.{Net, Sender, idle, waiting, IsSafe, resting}
use csf303_computer_networks.StopAndWait.Spec
use csf303_computer_networks.StopAndWait.Scan.{Packet}
use csf303_computer_networks.StopAndWait.Lab10.{Server, drop_packet, serve}
use csf303_computer_networks.StopAndWait.Lab10.System.{System, view, IsCoherent, Simulates, moved}

flip_state : (k n : ℕ) → k ≡ n → n < 2 → (n + 1) % 2 ≡ 1 - n
flip_state k n e lt = omega arith

dropped-Simulates :
    (s : System) (pkt : Packet) (rest : List Packet)
    → s.to_server ≡ pkt ∷ rest
    → IsCoherent s
    → Simulates s (record s { to_server = rest; to_client = s.to_client ++ [] })
dropped-Simulates s pkt rest head co =
    subst (λ l. Simulates s (record s { to_server = rest; to_client = l }))
      (sym (append-nil s.to_client))
      (record {
        moves = inl (Spec.lose_packet (view s) [] pkt rest head);
        coherent = record { states = co.states; bits = co.bits; number = co.number };
      })

served-Simulates :
    (s : System) (send_ok : Bool) (r : ℕ) (pkt : Packet) (rest : List Packet) {v : Server}
    {out : List Packet}
    → s.to_server ≡ pkt ∷ rest
    → IsCoherent s
    → drop_packet r ≡ false
    → serve send_ok r pkt s.server ≡ ok (v, out)
    → Simulates s (record s { server = v; to_server = rest; to_client = s.to_client ++ out })
unfolding serve
served-Simulates s false r pkt rest head co kept e = absurd (ground arith)
served-Simulates s true r pkt rest {v} {out} head co kept e =
    let ack : Packet = record s.server.ack_pkt { seq_no = pkt.seq_no } in
    elim (Bool-cases (pkt.seq_no == s.server.state)) [
      | inl new ↦
          let v' : Server = record s.server {
            ack_pkt = ack;
            state = (s.server.state + 1) % 2;
            taken = s.server.taken ++ pkt ∷ [];
          } in
          let (same, sent) = ok-pair v' v (ack ∷ []) out (rw (kept, new, serve) at e) in
          let num : pkt.seq_no ≡ s.server.state = ==→eq pkt.seq_no s.server.state new in
          let t : System = record s {
            server = v';
            to_server = rest;
            to_client = s.to_client ++ ack ∷ [];
          } in
          subst
            (λ l.
              Simulates s (record s { server = v; to_server = rest; to_client = s.to_client ++ l }))
            sent
            (subst
              (λ x.
                Simulates s
                  (record s { server = x; to_server = rest; to_client = s.to_client ++ ack ∷ [] }))
              same
              (record {
                moves = inl (
                    moved s t (record (view t) { expected = 1 - s.server.state })
                      (ap (λ k. record (view t) { expected = k })
                        (sym (flip_state pkt.seq_no s.server.state num co.bits)))
                      (Spec.deliver (view s) pkt ack rest head num refl));
                coherent = record { states = co.states; bits = omega arith; number = co.number };
              }))
      | inr old ↦
          let v' : Server = record s.server { ack_pkt = ack } in
          let (same, sent) = ok-pair v' v (ack ∷ []) out (rw (kept, old, serve) at e) in
          let num : pkt.seq_no ≢ s.server.state = λ h. ground arith in
          subst
            (λ l.
              Simulates s (record s { server = v; to_server = rest; to_client = s.to_client ++ l }))
            sent
            (subst
              (λ x.
                Simulates s
                  (record s { server = x; to_server = rest; to_client = s.to_client ++ ack ∷ [] }))
              same
              (record {
                moves = inl (Spec.repeat (view s) pkt ack rest head num refl);
                coherent = record { states = co.states; bits = co.bits; number = co.number };
              }))
    ]

pub server_read-Simulates :
    (s : System) (send_ok : Bool) (r : ℕ) (pkt : Packet) (rest : List Packet) {v : Server}
    {out : List Packet}
    → s.to_server ≡ pkt ∷ rest
    → IsCoherent s
    → serve send_ok r pkt s.server ≡ ok (v, out)
    → Simulates s (record s { server = v; to_server = rest; to_client = s.to_client ++ out })
unfolding serve
server_read-Simulates s send_ok r pkt rest {v} {out} head co e = elim (Bool-cases (drop_packet r)) [
  | inl dropped ↦
      let (same, sent) = ok-pair s.server v [] out (rw (dropped, serve) at e) in
      subst
        (λ l. Simulates s (record s { server = v; to_server = rest; to_client = s.to_client ++ l }))
        sent
        (subst
          (λ x.
            Simulates s (record s { server = x; to_server = rest; to_client = s.to_client ++ [] }))
          same (dropped-Simulates s pkt rest head co))
  | inr kept ↦ served-Simulates s send_ok r pkt rest head co kept e
]
