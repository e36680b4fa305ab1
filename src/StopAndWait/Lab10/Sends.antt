-- ===== src/StopAndWait/Lab10/Sends.antt =====
-- Lab10/client.c: the cases 0 and 2 of the loop send the next packet of stop and wait.
use csf303_computer_networks.Prelude.{
  ℕ, ◌+◌, ◌-◌, ◌/◌, ◌<◌, ◌≡◌, refl, ap, sym, subst, ◌∙◌, inl, inr, true, false, Bool-cases, ◌==◌,
  ◌||◌, List, [], ◌∷◌, ◌++◌, append-nil, arith,
}
use csf303_computer_networks.StopAndWait.Spec.{Net, Sender, idle, waiting, IsSafe, resting}
use csf303_computer_networks.StopAndWait.Spec
use csf303_computer_networks.StopAndWait.Scan.{Packet, read_packet}
use csf303_computer_networks.StopAndWait.Lab10.{Client, Status, send_next, waits, sends}
use csf303_computer_networks.StopAndWait.Lab10.System.{
  System, view, IsCoherent, Simulates, sender_waits, sender_idles, moved,
}

even-no-wait : (n : ℕ) → (n == 0 || n == 2) ≡ true → (n == 1 || n == 3) ≡ false
even-no-wait n h = ground arith

next-waits : (n : ℕ) → (n == 0 || n == 2) ≡ true → (n + 1 == 1 || n + 1 == 3) ≡ true
next-waits n h = ground arith

next-small : (n : ℕ) → (n == 0 || n == 2) ≡ true → n + 1 < 4
next-small n h = ground arith

half_suc : (n : ℕ) → n / 2 ≡ (n + 1 - 1) / 2
half_suc n = omega arith

-- At the end of the file nothing is sent.
ended-Simulates :
    (s : System) (fp : List ℕ) (pkt : Packet)
    → sends s.client ≡ true
    → IsCoherent s
    → Simulates s (record s {
      client = record s.client { fp = fp; pkt = pkt };
      to_server = s.to_server ++ [];
    })
ended-Simulates s fp pkt even co =
    let off : waits s.client ≡ false = even-no-wait s.client.state even in
    let t : System = record s {
      client = record s.client { fp = fp; pkt = pkt };
      to_server = s.to_server ++ [];
    } in
    record {
      moves = inr (
          ap (λ x. record (view s) { sender = x })
            (sender_idles s.client off ∙ sym (sender_idles t.client off))
          ∙ ap (λ l. record (view t) { to_server = l }) (sym (append-nil s.to_server)));
      coherent = record { states = co.states; bits = co.bits; number = λ on. absurd (cc) };
    }

sent-Simulates :
    (s : System) (fp : List ℕ) (pkt : Packet)
    → sends s.client ≡ true
    → IsCoherent s
    → pkt.seq_no ≡ s.client.state / 2
    → Simulates s (record s {
      client = record s.client {
        fp = fp;
        pkt = pkt;
        state = s.client.state + 1;
        sent = s.client.sent ++ pkt ∷ [];
      };
      to_server = s.to_server ++ pkt ∷ [];
    })
sent-Simulates s fp pkt even co num =
    let c' : Client = record s.client {
      fp = fp;
      pkt = pkt;
      state = s.client.state + 1;
      sent = s.client.sent ++ pkt ∷ [];
    } in
    let t : System = record s { client = c'; to_server = s.to_server ++ pkt ∷ [] } in
    let off : waits s.client ≡ false = even-no-wait s.client.state even in
    let on : waits c' ≡ true = next-waits s.client.state even in
    record {
      moves = inl (
          moved s t (record (view t) { sender = waiting pkt })
            (ap (λ x. record (view t) { sender = x }) (sym (sender_waits c' on)))
            (Spec.send (view s) pkt (sender_idles s.client off ∙ ap idle (sym num))));
      coherent = record {
        states = next-small s.client.state even;
        bits = co.bits;
        number = λ h. num ∙ half_suc s.client.state;
      };
    }

pub send_next-Simulates :
    (s : System) {st : Status} {c : Client} {out : List Packet}
    → sends s.client ≡ true
    → IsCoherent s
    → ◌≡◌ {A = Status × (Client × List Packet)} (send_next s.client) (st, (c, out))
    → Simulates s (record s { client = c; to_server = s.to_server ++ out })
unfolding send_next
send_next-Simulates s even co e =
    let fp : List ℕ = (read_packet s.client.fp s.client.pkt).0 in
    let read : Packet = (read_packet s.client.fp s.client.pkt).1 in
    elim (Bool-cases (read.len == 0)) [
      | inl done ↦
          subst (λ x. Simulates s (record s { client = x.1.0; to_server = s.to_server ++ x.1.1 }))
            (rw (done, send_next) at e) (ended-Simulates s fp read even co)
      | inr more ↦
          subst (λ x. Simulates s (record s { client = x.1.0; to_server = s.to_server ++ x.1.1 }))
            (rw (more, send_next) at e)
            (sent-Simulates s fp (record read { seq_no = s.client.state / 2 }) even co refl)
    ]
