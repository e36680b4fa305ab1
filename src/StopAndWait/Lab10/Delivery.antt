-- ===== src/StopAndWait/Lab10/Delivery.antt =====
-- Lab10: every step of the two programs is a step of stop and wait, and what follows.
use csf303_computer_networks.Prelude.{
  ℕ, ◌/◌, ◌≤◌, ◌≡◌, ap, sym, subst, ◌∙◌, ◌⊎◌, inl, inr, Bool, true, false, Option, none, some, List,
  [], ◌++◌, arith, ok, length, ok-eq,
}
use csf303_computer_networks.StopAndWait.Spec.{Net, Sender, idle, waiting, IsSafe, resting}
use csf303_computer_networks.StopAndWait.Spec
use csf303_computer_networks.StopAndWait.Safety.{step-IsSafe, IsSafe-prefix, IsSafe-idle}
use csf303_computer_networks.StopAndWait.Scan.{Packet}
use csf303_computer_networks.StopAndWait.Lab10.{Client, Server, waits, main, server_main}
use csf303_computer_networks.StopAndWait.Lab10.System.{
  System, Step, client_pass, client_read, server_read, lose_packet, lose_ack, Reach, here, next,
  number, view, IsCoherent, Simulates, sender_idles,
}
use csf303_computer_networks.StopAndWait.Lab10.Waits.{client_pass-Simulates, client_read-Simulates}
use csf303_computer_networks.StopAndWait.Lab10.Serves.{server_read-Simulates}

-- A pass of either program, or a loss, is a step of stop and wait or leaves its view as it was.
step-Simulates : {s t : System} → Step s t → IsCoherent s → Simulates s t
step-Simulates (client_pass s send_ok ev st c out quiet e) co =
    client_pass-Simulates s send_ok ev st c out quiet co e
step-Simulates (client_read s send_ok ack rest st c out on head e) co =
    client_read-Simulates s send_ok ack rest st c out on head co e
step-Simulates (server_read s send_ok r pkt rest v out head e) co =
    server_read-Simulates s send_ok r pkt rest head co e
step-Simulates (lose_packet s xs p ys parts) co = record {
  moves = inl (Spec.lose_packet (view s) xs p ys parts);
  coherent = record { states = co.states; bits = co.bits; number = co.number };
}
step-Simulates (lose_ack s xs ack ys parts) co = record {
  moves = inl (Spec.lose_ack (view s) xs ack ys parts);
  coherent = record { states = co.states; bits = co.bits; number = co.number };
}

moves-IsSafe :
    (s t : System)
    → Spec.Step number (view s) (view t) ⊎ (view s ≡ view t)
    → IsSafe number (view s)
    → IsSafe number (view t)
moves-IsSafe s t (inl step) x = step-IsSafe number step x
moves-IsSafe s t (inr same) x = subst (IsSafe number) same x

reach-IsSafe :
    {s t : System}
    → Reach s t
    → IsCoherent s
    → IsSafe number (view s)
    → IsCoherent t × IsSafe number (view t)
reach-IsSafe (here s) co x = (co, x)
reach-IsSafe (next {s} {t} {u} reach step) co x =
    let (co', x') = reach-IsSafe reach co x in
    let sim = step-Simulates step co' in (sim.coherent, moves-IsSafe t u sim.moves x')

abbrev pub at_start : Client → Server → System
at_start c v = record { client = c; server = v; to_server = []; to_client = [] }

started :
    (socket_ok : Bool) (file : Option (List ℕ)) (raw : Packet) (c : Client)
    → main socket_ok file raw ≡ ok c
    → (c.state ≡ 0) × (c.sent ≡ [])
unfolding main
started true none raw c e = absurd (cc)
started true (some bytes) raw c e =
    let same = ok-eq (record { state = 0; fp = bytes; pkt = raw; sent = [] }) c e in
    (sym (ap (λ x. x.state) same), sym (ap (λ x. x.sent) same))
started false file raw c e = absurd (cc)

server_started :
    (socket_ok bind_ok : Bool) (raw : Packet) (v : Server)
    → server_main socket_ok bind_ok raw ≡ ok v
    → (v.state ≡ 0) × (v.taken ≡ [])
unfolding server_main
server_started true true raw v e =
    let same = ok-eq (record { state = 0; ack_pkt = raw; taken = [] }) v e in
    (sym (ap (λ x. x.state) same), sym (ap (λ x. x.taken) same))
server_started true false raw v e = absurd (cc)
server_started false bind_ok raw v e = absurd (cc)

start-IsSafe :
    (c : Client) (v : Server)
    → c.state ≡ 0
    → c.sent ≡ []
    → v.state ≡ 0
    → v.taken ≡ []
    → IsCoherent (at_start c v) × IsSafe number (view (at_start c v))
start-IsSafe c v state sent expected taken =
    let off : waits c ≡ false = ground arith in
    (
      record { states = omega arith; bits = omega arith; number = λ on. absurd (cc) },
      resting 0 (sender_idles c off ∙ ap (λ k. idle (k / 2)) state) (omega arith) expected tt tt
          (sent ∙ sym taken),
    )

module _ (client_socket : Bool) (file : Option (List ℕ)) (raw : Packet) (c : Client)
    (server_socket bind_ok : Bool) (raw_ack : Packet) (v : Server) (t : System)
    (begun : main client_socket file raw ≡ ok c)
    (served : server_main server_socket bind_ok raw_ack ≡ ok v)
    (reach : Reach (at_start c v) t) where
  reached : IsCoherent t × IsSafe number (view t)
  reached =
      let (state, sent) = started client_socket file raw c begun in
      let (expected, taken) = server_started server_socket bind_ok raw_ack v served in
      let (co, safe) = start-IsSafe c v state sent expected taken in reach-IsSafe reach co safe

  -- Lab10, from the start of both programs, over channels that lose packets but keep their order:
  -- what the server has taken is what the client has sent, in order and each once, but for one
  -- packet at most at the end.
  pub lab10_taken-prefix :
      (rest : List Packet) × (t.server.taken ++ rest ≡ t.client.sent) × (length rest ≤ 1)
  lab10_taken-prefix = IsSafe-prefix number (view t) reached.1

  -- Lab10, over the same channels: when the client does not wait for an ACK, so in particular when
  -- it reads the end of the file, the server has taken all that it has sent.
  pub lab10_idle_complete : waits t.client ≡ false → t.server.taken ≡ t.client.sent
  lab10_idle_complete off =
      IsSafe-idle number (view t) (t.client.state / 2) (sender_idles t.client off) reached.1
