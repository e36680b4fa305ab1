-- ===== src/TcpTransfer/Serves.antt =====
-- Practice - 2019/TCP_Transfer/server.c: a pass of the loop keeps the invariant.
use csf303_computer_networks.Prelude.{
  ℕ, ◌+◌, ◌<◌, ◌≡◌, ◌≢◌, refl, ap, sym, subst, ◌∙◌, inl, inr, some, List, [], ◌∷◌, ◌++◌, arith,
  length, length-append, All, All-append, All-mono, c_string, ok, ok-eq,
}
use csf303_computer_networks.GoBackN.Packet.{packet_size}
use csf303_computer_networks.TcpTransfer.{Packet}
use csf303_computer_networks.TcpTransfer.Server.{Server, arrived, write, round}
use csf303_computer_networks.TcpTransfer.System.{System}
use csf303_computer_networks.TcpTransfer.Created.{
  text_of, texts, texts-snoc, Before, Current, Phase, consumed, pending, Inv,
}
use csf303_computer_networks.TcpTransfer.Passes.{
  ack_of, dropped, took, passed, acked, took_in, holding, round-Served,
}

module _ (file : List ℕ) (s : System) (p : Packet) (rest : List Packet)
    (head : s.to_server ≡ p ∷ rest) (inv : Inv file s) where
  -- The other parts of the invariant are the client's.
  Inv-Phase :
      (v : Server) (out : List Packet)
      → Phase (record s { server = v; to_server = rest; to_client = s.to_client ++ out })
      → Inv file (record s { server = v; to_server = rest; to_client = s.to_client ++ out })
  Inv-Phase v out phase = record {
    content = inv.content;
    ready = inv.ready;
    split = inv.split;
    aliased = inv.aliased;
    phase = phase;
  }

  -- Nothing is taken: the output stays, and there may be one more ACK of an old packet.
  same_output-Phase :
      (v : Server) (acks : List Packet)
      → v.next_seq ≡ s.server.next_seq
      → v.output ≡ s.server.output
      → All (Before s.server.next_seq) acks
      → Phase s
      → Phase (record s { server = v; to_server = rest; to_client = s.to_client ++ acks })
  same_output-Phase v acks next output old (consumed n o fore back obj) =
      let h : All (Before s.server.next_seq) (p ∷ rest) =
        subst (All (Before s.server.next_seq)) head fore in
      consumed (next ∙ n) (output ∙ o) (rw next h.1)
        (rw next (All-append (Before s.server.next_seq) s.to_client acks back old)) (rw next obj)
  same_output-Phase v acks next output old (pending ps q sent num size text n o on fore back obj) =
      let h : All (Current s.server.next_seq q) (p ∷ rest) =
        subst (All (Current s.server.next_seq q)) head fore in
      pending ps q sent num size text (next ∙ n) (output ∙ o) on (rw next h.1)
        (rw next (All-append (Before s.server.next_seq) s.to_client acks back old)) (rw next obj)

  -- A packet that is not due is old.
  other-old : p.seq_no ≢ s.server.next_seq → Phase s → p.seq_no < s.server.next_seq
  other-old other (consumed n o fore back obj) =
      let h : All (Before s.server.next_seq) (p ∷ rest) =
        subst (All (Before s.server.next_seq)) head fore in
      h.0
  other-old other (pending ps q sent num size text n o on fore back obj) =
      let h : All (Current s.server.next_seq q) (p ∷ rest) =
        subst (All (Current s.server.next_seq q)) head fore in
      elim h.0 [ inl same ↦ absurd (other (ap (λ x. x.seq_no) same ∙ sym n)) | inr old ↦ old ]

-- What is current or old is old for the next number.
now-old :
    (next : ℕ) (p q : Packet) → p.seq_no ≡ next → Current next p q → Before (next + packet_size) q
now-old next p q num (inl same) =
    let e : q.seq_no ≡ p.seq_no = ap (λ x. x.seq_no) same in omega arith
now-old next p q num (inr old) = omega arith

write-text :
    (p : Packet) (bytes bytes' : List ℕ)
    → c_string p.payload ≡ some (text_of p)
    → write p.payload (some bytes) ≡ ok bytes'
    → bytes ++ text_of p ≡ bytes'
unfolding write
write-text p bytes bytes' text e = ok-eq (bytes ++ text_of p) bytes' (rw (text, write) at e)

module _ (s : System) (p : Packet) (rest : List Packet) (head : s.to_server ≡ p ∷ rest)
    (bytes : List ℕ) (due : p.seq_no ≡ s.server.next_seq)
    (wrote : write p.payload s.server.output ≡ ok bytes) where
  abbrev taken : System
  taken = record s {
    server = acked p (took_in p bytes s.server);
    to_server = rest;
    to_client = s.to_client ++ ack_of p s.server ∷ [];
  }

  taken-Phase : Phase s → Phase taken
  taken-Phase (consumed n o fore back obj) =
      let h : All (Before s.server.next_seq) (p ∷ rest) =
        subst (All (Before s.server.next_seq)) head fore in
      absurd (omega (arith, h.0))
  taken-Phase (pending ps q sent num size text n o on fore back obj) =
      let next = s.server.next_seq in
      let h : All (Current next q) (p ∷ rest) = subst (All (Current next q)) head fore in
      elim h.0 [
        | inr old ↦ absurd (omega arith)
        | inl same ↦
            let sized : p.size ≡ packet_size = ap (λ x. x.size) same ∙ size in
            let later : next + p.size ≡ next + packet_size = ap (λ k. next + k) sized in
            let texts_eq : texts ps ++ text_of q ≡ bytes = write-text q (texts ps) bytes text (
              sym (ap (λ x. write x.payload s.server.output) same ∙ ap (write q.payload) o)
              ∙ wrote) in
            let longer : length s.client.sent ≡ length ps + 1 =
              ap length sent ∙ length-append ps (q ∷ []) in
            let (r, at, cur) = obj in
            consumed (omega (arith, n, num))
              (ap some (sym texts_eq ∙ sym (texts-snoc ps q) ∙ ap texts (sym sent)))
              (rw later (
                All-mono (Current next q) (Before (next + packet_size)) rest
                  (λ x c. now-old next q x (sym n) c) h.1))
              (rw later (
                All-append (Before (next + packet_size)) s.to_client (ack_of p s.server ∷ [])
                  (All-mono (Before next) (Before (next + packet_size)) s.to_client
                    (λ x c. omega arith) back)
                  (omega arith, tt)))
              (inr (on.0, (r, at, rw later (now-old next q r (sym n) cur))))
      ]

-- A pass of the server's loop on the next packet of the connection.
pub server_read-Inv :
    (file : List ℕ) (s : System) (r : ℕ) (p : Packet) (rest : List Packet) {v : Server}
    {out : List Packet}
    → s.to_server ≡ p ∷ rest
    → round (arrived r p) s.server ≡ ok (v, out)
    → Inv file s
    → Inv file (record s { server = v; to_server = rest; to_client = s.to_client ++ out })
server_read-Inv file s r p rest {v} {out} head e inv =
    Inv-Phase file s p rest head inv v out (elim (round-Served r p s.server e) [
      | dropped same sent ↦
          subst
            (λ l. Phase (record s { server = v; to_server = rest; to_client = s.to_client ++ l }))
            sent
            (subst
              (λ x.
                Phase (record s { server = x; to_server = rest; to_client = s.to_client ++ [] }))
              same
              (same_output-Phase file s p rest head inv (holding p s.server) [] refl refl tt
                inv.phase))
      | took bytes due wrote same sent ↦
          subst
            (λ l. Phase (record s { server = v; to_server = rest; to_client = s.to_client ++ l }))
            sent
            (subst
              (λ x. Phase (record s {
                server = x;
                to_server = rest;
                to_client = s.to_client ++ ack_of p s.server ∷ [];
              }))
              same (taken-Phase s p rest head bytes due wrote inv.phase))
      | passed other same sent ↦
          let old = other-old file s p rest head inv other inv.phase in
          subst
            (λ l. Phase (record s { server = v; to_server = rest; to_client = s.to_client ++ l }))
            sent
            (subst
              (λ x. Phase (record s {
                server = x;
                to_server = rest;
                to_client = s.to_client ++ ack_of p s.server ∷ [];
              }))
              same
              (same_output-Phase file s p rest head inv (acked p (holding p s.server))
                (ack_of p s.server ∷ []) refl refl (old, tt) inv.phase))
    ])
