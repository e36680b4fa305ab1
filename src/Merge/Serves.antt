-- ===== src/Merge/Serves.antt =====
-- Practice - 2023/server.c: what a pass of the server's loop does to the channel that it reads.
use csf303_computer_networks.Prelude.{
  ℕ, ◌+◌, ◌-◌, ◌/◌, ◌%◌, ◌≡◌, ◌≢◌, refl, inl, inr, Bool, Bool-cases, ◌==◌, ==→eq, List, [], ◌∷◌,
  ◌++◌, append-nil, arith, ok, ok-pair, some, guard-eq-ok, >>=-eq-ok, sendto_failed, Result, err,
}
use csf303_computer_networks.StopAndWait.Spec
use csf303_computer_networks.StopAndWait.Safety.{step-IsSafe}
use csf303_computer_networks.Merge.{Packet, Server, drop_packet, write, take_new, serve}
use csf303_computer_networks.Merge.System.{Channel, served, number, view, Holds}

-- The three ways of a pass: the packet is dropped, is new, or is old.
pub data Served (pkt : Packet) (s v : Server) (out : List Packet) : Type 0 where
  dropped : s ≡ v → [] ≡ out → Served pkt s v out
  new :
      (ack : Packet) (bytes : List ℕ)
      → ack.seq_no ≡ pkt.seq_no
      → pkt.seq_no ≡ s.state / 2
      → write pkt s.file ≡ ok bytes
      → record s {
        state = (s.state + 1) % 4;
        ack_pkt = ack;
        file = some bytes;
        taken = s.taken ++ pkt ∷ [];
      }
        ≡ v
      → ack ∷ [] ≡ out
      → Served pkt s v out
  old :
      (ack : Packet)
      → ack.seq_no ≡ pkt.seq_no
      → pkt.seq_no ≢ s.state / 2
      → record s { ack_pkt = ack } ≡ v
      → ack ∷ [] ≡ out
      → Served pkt s v out

take_new-Served :
    (send_ok : Bool) (ack pkt : Packet) (s : Server) {v : Server} {out : List Packet}
    → ack.seq_no ≡ pkt.seq_no
    → pkt.seq_no ≡ s.state / 2
    → take_new send_ok ack pkt s ≡ ok (v, out)
    → Served pkt s v out
unfolding take_new
take_new-Served send_ok ack pkt s {v} {out} echo due e =
    let (bytes, wrote, e₁) =
      >>=-eq-ok (write pkt s.file) _ (guard-eq-ok send_ok sendto_failed _ e) in
    let (same, sent) = ok-pair _ v (ack ∷ []) out e₁ in new ack bytes echo due wrote same sent

pub serve-Served :
    (send_ok : Bool) (r : ℕ) (pkt : Packet) (s : Server) {v : Server} {out : List Packet}
    → serve send_ok r pkt s ≡ ok (v, out)
    → Served pkt s v out
unfolding serve
serve-Served send_ok r pkt s {v} {out} e =
    let ack : Packet = record s.ack_pkt { seq_no = pkt.seq_no } in
    elim (Bool-cases (drop_packet r)) [
      | inl gone ↦
          let (same, sent) = ok-pair s v [] out (rw (gone, serve) at e) in dropped same sent
      | inr kept ↦ elim (Bool-cases (pkt.seq_no == s.state / 2)) [
        | inl due ↦
            take_new-Served send_ok ack pkt s refl (==→eq pkt.seq_no _ due)
              (rw (kept, due, serve) at e)
        | inr other ↦ elim (Bool-cases send_ok) [
          | inl good ↦
              let (same, sent) =
                ok-pair (record s { ack_pkt = ack }) v (ack ∷ []) out
                  (rw (kept, other, good, serve) at e) in
              old ack refl (λ h. ground arith) same sent
          | inr bad ↦
              let refused : Result (Server × List Packet) = err sendto_failed in
              let clash : refused ≡ ok (v, out) = rw (kept, other, bad, serve) at e in absurd (cc)
        ]
      ]
    ]

-- The pass on a channel of whose packets the bit is expected.
module _ (s : Channel) (pkt : Packet) (rest : List Packet) (b : ℕ) (taken : List Packet)
    (head : s.to_server ≡ pkt ∷ rest) (h : Holds s b taken) where
  pub dropped-Holds : Holds (served s rest []) b taken
  dropped-Holds = rw (append-nil s.to_client) (record {
    states = h.states;
    numbered = h.numbered;
    safe = step-IsSafe number (Spec.lose_packet (view s b taken) [] pkt rest head) h.safe;
  })

  pub new-Holds :
      (ack : Packet)
      → ack.seq_no ≡ pkt.seq_no
      → pkt.seq_no ≡ b
      → Holds (served s rest (ack ∷ [])) (1 - b) (taken ++ pkt ∷ [])
  new-Holds ack echo due = record {
    states = h.states;
    numbered = h.numbered;
    safe = step-IsSafe number (Spec.deliver (view s b taken) pkt ack rest head due echo) h.safe;
  }

  pub old-Holds :
      (ack : Packet)
      → ack.seq_no ≡ pkt.seq_no
      → pkt.seq_no ≢ b
      → Holds (served s rest (ack ∷ [])) b taken
  old-Holds ack echo other = record {
    states = h.states;
    numbered = h.numbered;
    safe = step-IsSafe number (Spec.repeat (view s b taken) pkt ack rest head other echo) h.safe;
  }
