-- ===== src/Merge/Sends.antt =====
-- Practice - 2023/client-2.c: every step on a channel is one of stop and wait.
use csf303_computer_networks.Prelude.{
  ℕ, ◌+◌, ◌-◌, ◌/◌, ◌%◌, ◌<◌, ◌≡◌, ap, sym, subst, ◌∙◌, inl, inr, Bool, true, false, Bool-cases,
  ◌==◌, ◌||◌, ==→eq, List, [], ◌∷◌, ◌++◌, append-nil, arith, ok,
}
use csf303_computer_networks.StopAndWait.Spec.{Net, Sender, idle, waiting, IsSafe}
use csf303_computer_networks.StopAndWait.Spec
use csf303_computer_networks.StopAndWait.Safety.{step-IsSafe}
use csf303_computer_networks.Merge.{Packet}
use csf303_computer_networks.Merge.Client.{
  Client, Event, select_error, timed_out, recv_error, readable, went, read_packet, send_next,
  handle_ack, handle_timeout, wait_ack, waits, sends, round,
}
use csf303_computer_networks.Merge.System.{
  Channel, ChannelStep, client_pass, client_read, lose_packet, lose_ack, IsNoRead, number, view,
  Holds, sender_waits, sender_idles,
}
use csf303_computer_networks.Merge.Passes.{
  went-eq, sending, next_packet-number, handle_ack_lem, round-sends, round-waits, send_next-went,
}

even-no-wait : (n : ℕ) → (n == 0 || n == 2) ≡ true → (n == 1 || n == 3) ≡ false
even-no-wait n h = ground arith

next-waits : (n : ℕ) → (n == 0 || n == 2) ≡ true → (n + 1 == 1 || n + 1 == 3) ≡ true
next-waits n h = ground arith

next-small : (n : ℕ) → (n == 0 || n == 2) ≡ true → n + 1 < 4
next-small n h = ground arith

module _ (s : Channel) (b : ℕ) (taken : List Packet) (h : Holds s b taken) where
  sent-Holds :
      (input : List ℕ) (pkt : Packet)
      → sends s.client ≡ true
      → pkt.seq_no ≡ s.client.state / 2
      → Holds
          (record s { client = sending s.client input pkt; to_server = s.to_server ++ pkt ∷ [] })
          b
          taken
  sent-Holds input pkt even num =
      let c' = sending s.client input pkt in
      let t : Channel = record s { client = c'; to_server = s.to_server ++ pkt ∷ [] } in
      let off : waits s.client ≡ false = even-no-wait s.client.state even in
      let on : waits c' ≡ true = next-waits s.client.state even in
      record {
        states = next-small s.client.state even;
        numbered = λ e. num ∙ omega arith;
        safe =
            subst (λ x. IsSafe number (record (view t b taken) { sender = x }))
              (sym (sender_waits c' on))
              (step-IsSafe number
                (Spec.send (view s b taken) pkt (sender_idles s.client off ∙ ap idle (sym num)))
                h.safe);
      }

  resent-Holds :
      waits s.client ≡ true
      → Holds (record s { to_server = s.to_server ++ s.client.pkt ∷ [] }) b taken
  resent-Holds on = record {
    states = h.states;
    numbered = h.numbered;
    safe =
        step-IsSafe number (Spec.timeout (view s b taken) s.client.pkt (sender_waits s.client on))
          h.safe;
  }

  acked-Holds :
      (ack : Packet) (rest : List Packet)
      → waits s.client ≡ true
      → s.to_client ≡ ack ∷ rest
      → ack.seq_no ≡ (s.client.state - 1) / 2
      → Holds
          (record s {
            client = record s.client { state = (s.client.state + 1) % 4 };
            to_client = rest;
          })
          b
          taken
  acked-Holds ack rest on head same =
      let c' : Client = record s.client { state = (s.client.state + 1) % 4 } in
      let t : Channel = record s { client = c'; to_client = rest } in
      let off : waits c' ≡ false = ground (arith, h.states) in
      let half : c'.state / 2 ≡ 1 - s.client.pkt.seq_no = ground (arith, h.numbered on, h.states) in
      record {
        states = omega arith;
        numbered = λ e. absurd (cc);
        safe =
            subst (λ x. IsSafe number (record (view t b taken) { sender = x }))
              (sym (sender_idles c' off ∙ ap idle half))
              (step-IsSafe number
                (Spec.receive_ack (view s b taken) s.client.pkt ack rest (sender_waits s.client on)
                  head (same ∙ sym (h.numbered on)))
                h.safe);
      }

  -- An ACK that changes nothing is as good as lost.
  ignored-Holds :
      (ack : Packet) (rest : List Packet)
      → s.to_client ≡ ack ∷ rest
      → Holds (record s { to_client = rest }) b taken
  ignored-Holds ack rest head = record {
    states = h.states;
    numbered = h.numbered;
    safe = step-IsSafe number (Spec.lose_ack (view s b taken) [] ack rest head) h.safe;
  }

module _ (s : Channel) (b : ℕ) (taken : List Packet) (h : Holds s b taken) where
  handle_ack-Holds :
      (ack : Packet) (rest : List Packet)
      → waits s.client ≡ true
      → s.to_client ≡ ack ∷ rest
      → Holds
          (record s {
            client = handle_ack ack ((s.client.state - 1) / 2) ((s.client.state + 1) % 4) s.client;
            to_client = rest;
          })
          b
          taken
  handle_ack-Holds ack rest on head =
      rw (handle_ack_lem ack s.client) (elim (Bool-cases (ack.seq_no == (s.client.state - 1) / 2)) [
        | inl same ↦ rw same (acked-Holds s b taken h ack rest on head (==→eq ack.seq_no _ same))
        | inr other ↦ rw other (ignored-Holds s b taken h ack rest head)
      ])

  -- The step behind a pass, from the equations of its result.
  passed-Holds :
      (to_server to_client : List Packet) {c c' : Client} {out out' : List Packet}
      → c ≡ c'
      → out ≡ out'
      → Holds (record s { client = c; to_server = to_server ++ out; to_client = to_client }) b taken
      → Holds
          (record s { client = c'; to_server = to_server ++ out'; to_client = to_client })
          b
          taken
  passed-Holds to_server to_client {c} {c'} {out} {out'} same sent x =
      subst
        (λ l.
          Holds (record s { client = c'; to_server = to_server ++ l; to_client = to_client }) b
            taken)
        sent
        (subst
          (λ y.
            Holds (record s { client = y; to_server = to_server ++ out; to_client = to_client }) b
              taken)
          same x)

  sends-Holds :
      (send_ok : Bool) {c : Client} {out : List Packet}
      → sends s.client ≡ true
      → send_next send_ok s.client ≡ ok (went c out)
      → Holds (record s { client = c; to_server = s.to_server ++ out }) b taken
  sends-Holds send_ok {c} {out} even e =
      let (input, pkt, made, _, _, same, sent) = send_next-went send_ok s.client e in
      let num : pkt.seq_no ≡ s.client.state / 2 =
        sym (ap (λ p. p.seq_no) made)
        ∙ next_packet-number s.client.state (read_packet s.client.input s.client.pkt) in
      passed-Holds s.to_server s.to_client same sent (sent-Holds s b taken h input pkt even num)

  waits-Holds :
      (send_ok : Bool) (ev : Event) {c : Client} {out : List Packet}
      → waits s.client ≡ true
      → IsNoRead s.client ev
      → wait_ack send_ok ev s.client ≡ ok (went c out)
      → Holds (record s { client = c; to_server = s.to_server ++ out }) b taken
  unfolding wait_ack handle_timeout
  waits-Holds send_ok select_error on quiet e = absurd (cc)
  waits-Holds send_ok recv_error on quiet e = absurd (cc)
  waits-Holds false timed_out on quiet e = absurd (cc)
  waits-Holds true timed_out on quiet e =
      let (same, sent) = went-eq e in
      passed-Holds s.to_server s.to_client same sent (resent-Holds s b taken h on)
  waits-Holds send_ok (readable ack) on quiet e = absurd (cc)

  pass-Holds :
      (send_ok : Bool) (ev : Event) (c : Client) (out : List Packet)
      → IsNoRead s.client ev
      → round send_ok ev s.client ≡ ok (went c out)
      → Holds (record s { client = c; to_server = s.to_server ++ out }) b taken
  pass-Holds send_ok ev c out quiet e = elim (Bool-cases (sends s.client)) [
    | inl even ↦ sends-Holds send_ok even (round-sends send_ok ev s.client even e)
    | inr odd ↦
        let on : waits s.client ≡ true = ground (arith, h.states) in
        waits-Holds send_ok ev on quiet (round-waits send_ok ev s.client on e)
  ]

  read-Holds :
      (send_ok : Bool) (ack : Packet) (rest : List Packet) (c : Client) (out : List Packet)
      → waits s.client ≡ true
      → s.to_client ≡ ack ∷ rest
      → round send_ok (readable ack) s.client ≡ ok (went c out)
      → Holds (record s { client = c; to_server = s.to_server ++ out; to_client = rest }) b taken
  unfolding wait_ack
  read-Holds send_ok ack rest c out on head e =
      let (same, sent) = went-eq (round-waits send_ok (readable ack) s.client on e) in
      passed-Holds s.to_server rest same sent
        (rw (append-nil s.to_server) (handle_ack-Holds ack rest on head))

pub step-Holds :
    {s t : Channel} (b : ℕ) (taken : List Packet)
    → ChannelStep s t
    → Holds s b taken
    → Holds t b taken
step-Holds b taken (client_pass s send_ok ev c out quiet e) h =
    pass-Holds s b taken h send_ok ev c out quiet e
step-Holds b taken (client_read s send_ok ack rest c out on head e) h =
    read-Holds s b taken h send_ok ack rest c out on head e
step-Holds b taken (lose_packet s xs p ys parts) h = record {
  states = h.states;
  numbered = h.numbered;
  safe = step-IsSafe number (Spec.lose_packet (view s b taken) xs p ys parts) h.safe;
}
step-Holds b taken (lose_ack s xs ack ys parts) h = record {
  states = h.states;
  numbered = h.numbered;
  safe = step-IsSafe number (Spec.lose_ack (view s b taken) xs ack ys parts) h.safe;
}
