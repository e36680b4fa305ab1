-- ===== src/TcpTransfer/Passes.antt =====
-- Practice - 2019/TCP_Transfer/server.c: the ways that a pass of the loop may go.
use csf303_computer_networks.Prelude.{
  ℕ, ◌+◌, ◌≡◌, ◌≢◌, ap, ◌∙◌, inl, inr, true, false, Bool-cases, ◌==◌, ==→eq, some, List, [], ◌∷◌,
  arith, ok, ok-eq, ok-pair, >>=-eq-ok,
}
use csf303_computer_networks.TcpTransfer.{Packet, drop_packet}
use csf303_computer_networks.TcpTransfer.Server.{Server, arrived, write, accept, serve, round}

abbrev pub ack_of : Packet → Server → Packet
ack_of p s = record s.ack_pkt { seq_no = p.seq_no }

-- The three ways of a pass.
pub data Served (p : Packet) (s v : Server) (out : List Packet) : Type 0 where
  dropped : record s { pkt = p } ≡ v → [] ≡ out → Served p s v out
  took :
      (bytes : List ℕ)
      → p.seq_no ≡ s.next_seq
      → write p.payload s.output ≡ ok bytes
      → record s {
        pkt = p;
        next_seq = s.next_seq + p.size;
        output = some bytes;
        ack_pkt = ack_of p s;
      }
        ≡ v
      → ack_of p s ∷ [] ≡ out
      → Served p s v out
  passed :
      p.seq_no ≢ s.next_seq
      → record s { pkt = p; ack_pkt = ack_of p s } ≡ v
      → ack_of p s ∷ [] ≡ out
      → Served p s v out

abbrev pub acked : Packet → Server → Server
acked p s = record s { ack_pkt = ack_of p s }

abbrev pub took_in : Packet → List ℕ → Server → Server
took_in p bytes s = record s { pkt = p; next_seq = s.next_seq + p.size; output = some bytes }

-- The server with the packet that has come.
abbrev pub holding : Packet → Server → Server
holding p s = record s { pkt = p }

accept-due :
    (p : Packet) (s s' : Server)
    → (p.seq_no == s.next_seq) ≡ true
    → accept (holding p s) ≡ ok s'
    → (bytes : List ℕ) × (write p.payload s.output ≡ ok bytes) × (took_in p bytes s ≡ s')
unfolding accept
accept-due p s s' due e =
    let (bytes, wrote, e₁) = >>=-eq-ok (write p.payload s.output) _ (rw (due, accept) at e) in
    (bytes, wrote, ok-eq (took_in p bytes s) s' e₁)

accept-other :
    (p : Packet) (s s' : Server)
    → (p.seq_no == s.next_seq) ≡ false
    → accept (holding p s) ≡ ok s'
    → holding p s ≡ s'
unfolding accept
accept-other p s s' other e = ok-eq (holding p s) s' (rw (other, accept) at e)

serve-kept :
    (r : ℕ) (p : Packet) (s : Server) {v : Server} {out : List Packet}
    → drop_packet r ≡ false
    → round (arrived r p) s ≡ ok (v, out)
    → (s' : Server) × (accept (holding p s) ≡ ok s')
      × (acked p s' ≡ v)
      × ((acked p s').ack_pkt ∷ [] ≡ out)
unfolding round serve
serve-kept r p s {v} {out} kept e =
    let (s', accepted, e₁) = >>=-eq-ok (accept (holding p s)) _ (rw (kept, round, serve) at e) in
    let (same, sent) = ok-pair (acked p s') v ((acked p s').ack_pkt ∷ []) out e₁ in
    (s', accepted, same, sent)

pub round-Served :
    (r : ℕ) (p : Packet) (s : Server) {v : Server} {out : List Packet}
    → round (arrived r p) s ≡ ok (v, out)
    → Served p s v out
unfolding round serve
round-Served r p s {v} {out} e = elim (Bool-cases (drop_packet r)) [
  | inl gone ↦
      let (same, sent) = ok-pair (holding p s) v [] out (rw (gone, round, serve) at e) in
      dropped same sent
  | inr kept ↦
      let (s', accepted, same, sent) = serve-kept r p s kept e in
      elim (Bool-cases (p.seq_no == s.next_seq)) [
        | inl due ↦
            let (bytes, wrote, made) = accept-due p s s' due accepted in
            took bytes (==→eq p.seq_no s.next_seq due) wrote (ap (acked p) made ∙ same)
              (ap (λ x. (acked p x).ack_pkt ∷ []) made ∙ sent)
        | inr other ↦
            let made = accept-other p s s' other accepted in
            passed (λ h. ground arith) (ap (acked p) made ∙ same)
              (ap (λ x. (acked p x).ack_pkt ∷ []) made ∙ sent)
      ]
]
