-- ===== src/TcpTransfer/Stuck.antt =====
-- Practice - 2019/TCP_Transfer/client.c: `lastUnack` points to the packet that an old ACK has been
-- received over.
use csf303_computer_networks.Prelude.{
  ℕ, ◌≡◌, ◌≢◌, refl, ap, sym, subst, ◌∙◌, inl, inr, false, Bool-cases, ◌==◌, ==→eq, List, [], ◌∷◌,
  ◌++◌, append-nil, arith, All, All-append, ok, ok-eq, ok-pair, >>=-eq-ok,
}
use csf303_computer_networks.TcpTransfer.{
  Packet, Client, timed_out, received, load, wait_ack, round,
}
use csf303_computer_networks.TcpTransfer.Server.{Server}
use csf303_computer_networks.TcpTransfer.System.{
  System, Step, client_send, client_timeout, client_read, server_read, Reach, here, next,
}
use csf303_computer_networks.TcpTransfer.Created.{Points}
use csf303_computer_networks.TcpTransfer.Sends.{get_elem?-set, load-found}
use csf303_computer_networks.TcpTransfer.Passes.{
  Served, dropped, took, passed, round-Served, ack_of,
}
use csf303_computer_networks.TcpTransfer.Receives.{received-answered, round-waits}

abbrev pub Other : ℕ → Packet → Type 0
Other n q = q.seq_no ≢ n

-- The server waits for the packet of which the client waits for the ACK, and no such packet is on
-- its way or in the client's hands.
pub record IsStuck (s : System) : Type 0 where
  pub waiting : s.client.state ≡ 1
  pub aliased : s.client.last_unack ≡ s.client.pkt
  pub due : s.server.next_seq ≡ s.client.last_seq
  pub fore : All (Other s.client.last_seq) s.to_server
  pub back : All (Other s.client.last_seq) s.to_client
  pub held : Points (Other s.client.last_seq) s.client

abbrev Same : System → System → Type 0
Same s t = IsStuck t × (t.client.sent ≡ s.client.sent) × (t.server.output ≡ s.server.output)

timeout-Same :
    (s : System) (raw : Packet) (c : Client) (out : List Packet)
    → IsStuck s
    → round raw timed_out s.client ≡ ok (c, out)
    → Same s (record s { client = c; to_server = s.to_server ++ out })
unfolding wait_ack
timeout-Same s raw c out st e =
    let (p, found, other) = st.held in
    let loaded : load s.client.heap s.client.last_unack ≡ ok p =
      ap (load s.client.heap) st.aliased ∙ load-found s.client.heap s.client.pkt p found in
    let (q, loaded', e₁) =
      >>=-eq-ok (load s.client.heap s.client.last_unack) _
        (round-waits raw timed_out s.client st.waiting e) in
    let (same, sent) = ok-pair s.client c (q ∷ []) out e₁ in
    let which : p ≡ q = ok-eq p q (sym loaded ∙ loaded') in
    subst (λ l. Same s (record s { client = c; to_server = s.to_server ++ l }))
      (ap (λ x. x ∷ []) which ∙ sent)
      (subst (λ x. Same s (record s { client = x; to_server = s.to_server ++ p ∷ [] })) same
        (
          record {
            waiting = st.waiting;
            aliased = st.aliased;
            due = st.due;
            fore = All-append (Other s.client.last_seq) s.to_server (p ∷ []) st.fore (other, tt);
            back = st.back;
            held = st.held;
          },
          refl,
          refl,
        ))

read-Same :
    (s : System) (raw ack : Packet) (rest : List Packet) (c : Client) (out : List Packet)
    → IsStuck s
    → s.to_client ≡ ack ∷ rest
    → round raw (received ack) s.client ≡ ok (c, out)
    → Same s (record s { client = c; to_server = s.to_server ++ out; to_client = rest })
read-Same s raw ack rest c out st head e =
    let (p, found, _) = st.held in
    let (same, sent) =
      received-answered ack p s.client found
        (round-waits raw (received ack) s.client st.waiting e) in
    let h : All (Other s.client.last_seq) (ack ∷ rest) =
      subst (All (Other s.client.last_seq)) head st.back in
    let miss : (ack.seq_no == s.client.last_seq) ≡ false =
      other-test ack.seq_no s.client.last_seq h.0 in
    subst (λ l. Same s (record s { client = c; to_server = s.to_server ++ l; to_client = rest }))
      sent
      (subst
        (λ x. Same s (record s { client = x; to_server = s.to_server ++ []; to_client = rest }))
        same
        (rw (append-nil s.to_server, miss)
          (
            record {
              waiting = st.waiting;
              aliased = st.aliased;
              due = st.due;
              fore = st.fore;
              back = h.1;
              held = (ack, get_elem?-set s.client.heap s.client.pkt ack p found, h.0);
            },
            refl,
            refl,
          )))
  where
    other-test : (m n : ℕ) → m ≢ n → (m == n) ≡ false
    other-test m n h = elim (Bool-cases (m == n)) [
      | inl same ↦ absurd (h (==→eq m n same))
      | inr differ ↦ differ
    ]

server-Same :
    (s : System) (r : ℕ) (p : Packet) (rest : List Packet) (v : Server) (out : List Packet)
    → IsStuck s
    → s.to_server ≡ p ∷ rest
    → Served p s.server v out
    → Same s (record s { server = v; to_server = rest; to_client = s.to_client ++ out })
server-Same s r p rest v out st head way =
    let h : All (Other s.client.last_seq) (p ∷ rest) =
      subst (All (Other s.client.last_seq)) head st.fore in
    elim way [
      | took bytes due wrote same sent ↦ absurd (h.0 (due ∙ st.due))
      | dropped same sent ↦
          subst
            (λ l. Same s (record s { server = v; to_server = rest; to_client = s.to_client ++ l }))
            sent
            (subst
              (λ x.
                Same s (record s { server = x; to_server = rest; to_client = s.to_client ++ [] }))
              same
              (rw (append-nil s.to_client) (
                record {
                  waiting = st.waiting;
                  aliased = st.aliased;
                  due = st.due;
                  fore = h.1;
                  back = st.back;
                  held = st.held;
                },
                refl,
                refl,
              )))
      | passed other same sent ↦
          subst
            (λ l. Same s (record s { server = v; to_server = rest; to_client = s.to_client ++ l }))
            sent
            (subst
              (λ x. Same s (record s {
                server = x;
                to_server = rest;
                to_client = s.to_client ++ ack_of p s.server ∷ [];
              }))
              same
              (
                record {
                  waiting = st.waiting;
                  aliased = st.aliased;
                  due = st.due;
                  fore = h.1;
                  back =
                      All-append (Other s.client.last_seq) s.to_client (ack_of p s.server ∷ [])
                        st.back (h.0, tt);
                  held = st.held;
                },
                refl,
                refl,
              ))
    ]

step-Same : {s t : System} → Step s t → IsStuck s → Same s t
step-Same (client_send s raw ev c out clean at e) st = absurd (omega (arith, st.waiting))
step-Same (client_timeout s raw c out at e) st = timeout-Same s raw c out st e
step-Same (client_read s raw ack rest c out at head e) st = read-Same s raw ack rest c out st head e
step-Same (server_read s r p rest v out head e) st =
    server-Same s r p rest v out st head (round-Served r p s.server e)

reach-Same : {s t : System} → Reach s t → IsStuck s → Same s t
reach-Same (here s) st = (st, refl, refl)
reach-Same (next reach step) st =
    let (mid, sent, output) = reach-Same reach st in
    let (end, sent', output') = step-Same step mid in (end, sent' ∙ sent, output' ∙ output)

-- TCP_Transfer: when the server waits for the packet of which the client waits for the ACK, and
-- neither the connection nor the object that `lastUnack` points to has a packet of that number,
-- then the client never leaves its state 1, makes no further packet, and the server writes nothing
-- more, while the connection stands.
pub stuck-forever :
    (s t : System)
    → IsStuck s
    → Reach s t
    → (t.client.state ≡ 1) × (t.client.sent ≡ s.client.sent) × (t.server.output ≡ s.server.output)
stuck-forever s t st reach =
    let (end, sent, output) = reach-Same reach st in (end.waiting, sent, output)
