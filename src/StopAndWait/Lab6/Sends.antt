-- ===== src/StopAndWait/Lab6/Sends.antt =====
-- lab6/udp_client.c: the cases 0 and 2 of the loop send the next packet of stop and wait.
use csf303_computer_networks.Prelude.{
  ℕ, ◌+◌, ◌-◌, ◌/◌, ◌≤◌, ◌<◌, ◌≡◌, ap, sym, subst, ◌∙◌, inl, Bool, true, false, ◌==◌, ◌||◌, List,
  [], ◌∷◌, ◌++◌, arith, ok, >>=-eq-ok, ok-pair, All-append, sendto_failed, guard-eq-ok,
}
use csf303_computer_networks.StopAndWait.Spec.{
  Net, Sender, idle, waiting, IsSafe, resting, All-remove,
}
use csf303_computer_networks.StopAndWait.Spec
use csf303_computer_networks.StopAndWait.Lab6.{
  Packet, Client, gets, next_packet, send_next, waits, sends,
}
use csf303_computer_networks.StopAndWait.Lab6.System.{
  System, view, IsBit, IsCoherent, Simulates, sender_waits, sender_idles, moved,
}

even-no-wait : (n : ℕ) → (n == 0 || n == 2) ≡ true → (n == 1 || n == 3) ≡ false
even-no-wait n h = ground arith

next-waits : (n : ℕ) → (n == 0 || n == 2) ≡ true → (n + 1 == 1 || n + 1 == 3) ≡ true
next-waits n h = ground arith

next-small : (n : ℕ) → (n == 0 || n == 2) ≡ true → n + 1 < 4
next-small n h = ground arith

half_suc : (n : ℕ) → n / 2 ≡ (n + 1 - 1) / 2
half_suc n = omega arith

half-bit : (n : ℕ) → (n == 0 || n == 2) ≡ true → n / 2 ≤ 1
half-bit n h = ground arith

next_packet-number :
    (c : Client) (bytes : List ℕ) → sends c ≡ true → (next_packet c bytes).sq_no ≡ c.state / 2
unfolding next_packet
next_packet-number c bytes even = ground arith

sent-Simulates :
    (s : System) (input : List (List ℕ)) (pkt : Packet)
    → sends s.client ≡ true
    → IsCoherent s
    → pkt.sq_no ≡ s.client.state / 2
    → Simulates s (record s {
      client = record s.client {
        input = input;
        send_pkt = pkt;
        state = s.client.state + 1;
        sent = s.client.sent ++ pkt ∷ [];
      };
      to_server = s.to_server ++ pkt ∷ [];
    })
sent-Simulates s input pkt even co num =
    let c' : Client = record s.client {
      input = input;
      send_pkt = pkt;
      state = s.client.state + 1;
      sent = s.client.sent ++ pkt ∷ [];
    } in
    let t : System = record s { client = c'; to_server = s.to_server ++ pkt ∷ [] } in
    let off : waits s.client ≡ false = even-no-wait s.client.state even in
    let on : waits c' ≡ true = next-waits s.client.state even in
    let bit : pkt.sq_no ≤ 1 = omega (arith, num, half-bit s.client.state even) in
    record {
      moves = inl (
          moved s t (record (view t) { sender = waiting pkt })
            (ap (λ x. record (view t) { sender = x }) (sym (sender_waits c' on)))
            (Spec.send (view s) pkt (sender_idles s.client off ∙ ap idle (sym num))));
      coherent = record {
        states = next-small s.client.state even;
        bits = co.bits;
        number = λ h. num ∙ half_suc s.client.state;
        small = All-append IsBit s.to_server (pkt ∷ []) co.small (bit, tt);
      };
    }

pub send_next-Simulates :
    (s : System) (send_ok : Bool) {c : Client} {out : List Packet}
    → sends s.client ≡ true
    → IsCoherent s
    → send_next send_ok s.client ≡ ok (c, out)
    → Simulates s (record s { client = c; to_server = s.to_server ++ out })
unfolding send_next
send_next-Simulates s send_ok {c} {out} even co e =
    let ((input, bytes), _, e₁) =
      >>=-eq-ok (gets s.client.input s.client.send_pkt.data_bytes) _ e in
    let pkt : Packet = next_packet s.client bytes in
    let c' : Client = record s.client {
      input = input;
      send_pkt = pkt;
      state = s.client.state + 1;
      sent = s.client.sent ++ pkt ∷ [];
    } in
    let (same, sent) = ok-pair c' c (pkt ∷ []) out (guard-eq-ok send_ok sendto_failed _ e₁) in
    subst (λ l. Simulates s (record s { client = c; to_server = s.to_server ++ l })) sent
      (subst (λ x. Simulates s (record s { client = x; to_server = s.to_server ++ pkt ∷ [] })) same
        (sent-Simulates s input pkt even co (next_packet-number s.client bytes even)))
