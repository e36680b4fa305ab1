-- ===== src/TcpTransfer/Receives.antt =====
-- Practice - 2019/TCP_Transfer/client.c: an ACK is received over the packet.
use csf303_computer_networks.Prelude.{
  ℕ, ◌<◌, ◌≡◌, refl, ap, sym, subst, ◌∙◌, inl, inr, true, false, Bool-cases, ◌==◌, some,
  if◌then◌else◌, List, [], ◌∷◌, ◌++◌, append-nil, arith, All, get_elem?, set, ok, ok-eq, ok-pair,
  >>=-eq-ok,
}
use csf303_computer_networks.TcpTransfer.{
  Packet, Client, Event, received, load, send_packet, check_ack, wait_ack, round,
}
use csf303_computer_networks.TcpTransfer.System.{System}
use csf303_computer_networks.TcpTransfer.Created.{Before, Phase, consumed, pending, Inv}
use csf303_computer_networks.TcpTransfer.Sends.{get_elem?-set, load-found}

-- The client behind an ACK that it has received over its packet.
abbrev pub overwritten : Packet → Client → Client
overwritten ack c = record c { heap = set c.heap c.pkt ack }

abbrev pub answered : Packet → Client → Client
answered ack c =
    if ack.seq_no == c.last_seq then record (overwritten ack c) { state = 0 } else overwritten ack c

pub received-answered :
    (ack p : Packet) (c : Client) {c' : Client} {out : List Packet}
    → get_elem? c.heap c.pkt ≡ some p
    → wait_ack (received ack) c ≡ ok (c', out)
    → (answered ack c ≡ c') × ([] ≡ out)
unfolding wait_ack check_ack
received-answered ack p c {c'} {out} found e =
    let (q, loaded, e₁) = >>=-eq-ok (load (set c.heap c.pkt ack) c.pkt) _ e in
    let which : ack ≡ q = ok-eq ack q (
      sym (load-found (set c.heap c.pkt ack) c.pkt ack (get_elem?-set c.heap c.pkt ack p found))
      ∙ loaded) in
    let (same, sent) =
      ok-pair
        (if q.seq_no == c.last_seq
          then record (overwritten ack c) { state = 0 }
          else overwritten ack c)
        c' [] out e₁ in
    (
      ap
            (λ x.
              if x.seq_no == c.last_seq
              then record (overwritten ack c) { state = 0 }
              else overwritten ack c)
            which
          ∙ same,
      sent,
    )

module _ (file : List ℕ) (s : System) (inv : Inv file s) (at : s.client.state ≡ 1) (ack : Packet)
    (rest : List Packet) (head : s.to_client ≡ ack ∷ rest) where
  pointed : Phase s → (p : Packet) × (get_elem? s.client.heap s.client.pkt ≡ some p)
  pointed (consumed n o fore back (inl off)) = absurd (omega arith)
  pointed (consumed n o fore back (inr (on, (p, found, old)))) = (p, found)
  pointed (pending ps q sent num size text n o on fore back (p, found, cur)) = (p, found)

  -- The ACK of a packet comes only behind the packet: while one is pending the ACKs are old.
  answered-Phase : Phase s → Phase (record s { client = answered ack s.client; to_client = rest })
  answered-Phase (consumed n o fore back (inl off)) = absurd (omega arith)
  answered-Phase (consumed n o fore back (inr (on, (p, found, old)))) =
      let h : All (Before s.server.next_seq) (ack ∷ rest) =
        subst (All (Before s.server.next_seq)) head back in
      elim (Bool-cases (ack.seq_no == s.client.last_seq)) [
        | inl same ↦ rw same (consumed n o fore h.1 (inl refl))
        | inr other ↦ rw other (
            consumed n o fore h.1
              (inr (on, (ack, get_elem?-set s.client.heap s.client.pkt ack p found, h.0))))
      ]
  answered-Phase (pending ps q sent num size text n o on fore back (p, found, cur)) =
      let h : All (Before s.server.next_seq) (ack ∷ rest) =
        subst (All (Before s.server.next_seq)) head back in
      let last : s.client.last_seq ≡ q.seq_no = on.1 in
      let older : ack.seq_no < s.server.next_seq = h.0 in
      let other : (ack.seq_no == s.client.last_seq) ≡ false = ground arith in
      rw other (
        pending ps q sent num size text n o on fore h.1
          (ack, get_elem?-set s.client.heap s.client.pkt ack p found, inr h.0))

  pub received-Inv :
      {c : Client} {out : List Packet}
      → wait_ack (received ack) s.client ≡ ok (c, out)
      → Inv file (record s { client = c; to_server = s.to_server ++ out; to_client = rest })
  received-Inv {c} {out} e =
      let (p, found) = pointed inv.phase in
      let (same, sent) = received-answered ack p s.client found e in
      subst
        (λ l. Inv file (record s { client = c; to_server = s.to_server ++ l; to_client = rest }))
        sent
        (subst
          (λ x. Inv file (record s { client = x; to_server = s.to_server ++ []; to_client = rest }))
          same (kept (answered-Phase inv.phase)))
    where
      kept :
          Phase (record s { client = answered ack s.client; to_client = rest })
          → Inv file (record s {
            client = answered ack s.client;
            to_server = s.to_server ++ [];
            to_client = rest;
          })
      kept phase =
          rw (append-nil s.to_server) (elim (Bool-cases (ack.seq_no == s.client.last_seq)) [
            | inl hit ↦ rw hit (record {
              content = inv.content;
              ready = inv.ready;
              split = inv.split;
              aliased = inv.aliased;
              phase = rw hit at phase;
            })
            | inr miss ↦ rw miss (record {
              content = inv.content;
              ready = inv.ready;
              split = inv.split;
              aliased = inv.aliased;
              phase = rw miss at phase;
            })
          ])

pub round-sends :
    (raw : Packet) (ev : Event) (c : Client) {c' : Client} {out : List Packet}
    → c.state ≡ 0
    → round raw ev c ≡ ok (c', out)
    → send_packet raw c ≡ ok (c', out)
unfolding round
round-sends raw ev c at e =
    let zero_state : (c.state == 0) ≡ true = ground arith in rw (zero_state, round) at e

pub round-waits :
    (raw : Packet) (ev : Event) (c : Client) {c' : Client} {out : List Packet}
    → c.state ≡ 1
    → round raw ev c ≡ ok (c', out)
    → wait_ack ev c ≡ ok (c', out)
unfolding round
round-waits raw ev c at e =
    let no_zero : (c.state == 0) ≡ false = ground arith in
    let one_state : (c.state == 1) ≡ true = ground arith in rw (no_zero, one_state, round) at e
