-- ===== src/TcpTransfer/Delivery.antt =====
-- Practice - 2019/TCP_Transfer: what the server has written, from the start of both programs.
use csf303_computer_networks.Prelude.{
  ℕ, suc, ◌≡◌, refl, ap, sym, subst, ◌∙◌, inl, inr, Bool, true, false, none, some, List, [], ◌++◌,
  arith, replicate, Result, ok, ok-eq, >>=-eq-ok, IsText, err, fopen_failed, Option-cases, drop,
  append_assoc,
}
use csf303_computer_networks.Prelude.Int.{negsuc}
use csf303_computer_networks.GoBackN.Packet.{buffer_size}
use csf303_computer_networks.GoBackN.Input.{Input}
use csf303_computer_networks.GoBackN.Input.Loop.{padded-nil}
use csf303_computer_networks.GoBackN.Input.Text.{unread, rest_of}
use csf303_computer_networks.TcpTransfer.{
  Packet, Client, timed_out, received, input_into_buffer, main,
}
use csf303_computer_networks.TcpTransfer.Server.{Server}
use csf303_computer_networks.TcpTransfer.Server
use csf303_computer_networks.TcpTransfer.System.{
  System, Step, client_send, client_timeout, client_read, server_read, Reach, here, next,
}
use csf303_computer_networks.TcpTransfer.Reads.{input_into_buffer-Refills}
use csf303_computer_networks.TcpTransfer.Created.{
  text_of, texts, texts-snoc, consumed, pending, Inv,
}
use csf303_computer_networks.TcpTransfer.Sends.{send_packet-Inv, timed_out-Inv}
use csf303_computer_networks.TcpTransfer.Serves.{server_read-Inv}
use csf303_computer_networks.TcpTransfer.Receives.{received-Inv, round-sends, round-waits}

step-Inv : (file : List ℕ) {s t : System} → Step s t → Inv file s → Inv file t
step-Inv file (client_send s raw ev c out clean at e) inv =
    send_packet-Inv file s inv raw clean at (round-sends raw ev s.client at e)
step-Inv file (client_timeout s raw c out at e) inv =
    timed_out-Inv file s inv at (round-waits raw timed_out s.client at e)
step-Inv file (client_read s raw ack rest c out at head e) inv =
    received-Inv file s inv at ack rest head (round-waits raw (received ack) s.client at e)
step-Inv file (server_read s r p rest v out head e) inv = server_read-Inv file s r p rest head e inv

pub reach-Inv : (file : List ℕ) {s t : System} → Reach s t → Inv file s → Inv file t
reach-Inv file (here s) inv = inv
reach-Inv file (next reach step) inv = step-Inv file step (reach-Inv file reach inv)

-- The programs when their loops begin.
abbrev pub client_begun : Input → Client
client_begun inp = record {
  input = inp;
  heap = [];
  pkt = 0;
  last_unack = 0;
  last_seq = 0;
  state = 0;
  sent = [];
}

abbrev pub server_begun : Packet → Packet → Server
server_begun raw raw_ack = record { next_seq = 0; pkt = raw; ack_pkt = raw_ack; output = some [] }

abbrev pub at_start : Client → Server → System
at_start c v = record { client = c; server = v; to_server = []; to_client = [] }

abbrev unopened : List ℕ → Input
unopened file = record {
  fp = some (record { rest = file; eof = false });
  currseq = 0;
  buffcount = negsuc 0;
  input_buffer = replicate (suc buffer_size) 0;
}

opened : Input → Result Client
opened inp = elim inp.fp [ none ↦ err fopen_failed | some s ↦ ok (client_begun inp) ]

opened-client : (inp : Input) (c : Client) → opened inp ≡ ok c → client_begun inp ≡ c
unfolding opened
opened-client inp c e = elim (Option-cases inp.fp) [
  | inl closed ↦
      let refused : Result Client = err fopen_failed in
      let clash : refused ≡ ok c = rw (closed, opened) at e in absurd (cc)
  | inr (stream, found) ↦ ok-eq (client_begun inp) c (rw (found, opened) at e)
]

begun-Inv :
    (socket_ok connect_ok : Bool) (file : List ℕ) (c : Client) (raw raw_ack : Packet)
    → IsText file
    → main socket_ok connect_ok (some file) ≡ ok c
    → Inv file (at_start c (server_begun raw raw_ack))
unfolding main texts opened
begun-Inv false connect_ok file c raw raw_ack text e = absurd (cc)
begun-Inv true false file c raw raw_ack text e = absurd (cc)
begun-Inv true true file c raw raw_ack text e =
    let (content, inp, f) =
      input_into_buffer-Refills (unopened file) (record { rest = file; eof = false }) [] refl
        (sym (padded-nil buffer_size)) (omega arith) text (λ h. absurd (cc)) in
    let (inp', read, e₁) = >>=-eq-ok (input_into_buffer (unopened file)) opened e in
    let same : inp ≡ inp' = ok-eq inp inp' (sym f.result ∙ read) in
    let begun : client_begun inp ≡ c = ap client_begun same ∙ opened-client inp' c e₁ in
    subst (λ x. Inv file (at_start x (server_begun raw raw_ack))) begun
      (record {
        content = content;
        ready = record {
          reads = f.reads;
          buffers = 0;
          count = f.count;
          place = omega (arith, f.currseq);
          inside = omega (arith, f.currseq);
        };
        split = ap (λ i. drop i content ++ rest_of inp.fp) f.currseq ∙ f.split;
        aliased = refl;
        phase = consumed refl refl tt tt (inl refl);
      })

server_begun-eq :
    (socket_ok bind_ok listen_ok : Bool) (raw raw_ack : Packet) (v : Server)
    → Server.main socket_ok bind_ok listen_ok true raw raw_ack ≡ ok v
    → server_begun raw raw_ack ≡ v
unfolding Server.main
server_begun-eq true true true raw raw_ack v e = ok-eq _ v e
server_begun-eq true true false raw raw_ack v e = absurd (cc)
server_begun-eq true false listen_ok raw raw_ack v e = absurd (cc)
server_begun-eq false bind_ok listen_ok raw raw_ack v e = absurd (cc)

written-prefix :
    (file : List ℕ) (t : System)
    → Inv file t
    → (bytes rest : List ℕ) × (t.server.output ≡ some bytes) × (bytes ++ rest ≡ file)
written-prefix file t inv = elim inv.phase [
  | consumed n o fore back obj ↦
      (texts t.client.sent, unread inv.content t.client.input, o, inv.split)
  | pending ps q sent num size text n o on fore back obj ↦ (
    texts ps,
    text_of q ++ unread inv.content t.client.input,
    o,
    sym (append_assoc (texts ps) (text_of q) (unread inv.content t.client.input))
        ∙ ap (λ l. l ++ unread inv.content t.client.input)
            (sym (texts-snoc ps q) ∙ ap texts (sym sent))
        ∙ inv.split,
  )
]

module _ (client_socket connect_ok server_socket bind_ok listen_ok : Bool) (file : List ℕ)
    (raw raw_ack : Packet) (c : Client) (v : Server) (t : System) (text : IsText file)
    (begun : main client_socket connect_ok (some file) ≡ ok c)
    (served : Server.main server_socket bind_ok listen_ok true raw raw_ack ≡ ok v)
    (reach : Reach (at_start c v) t) where
  reached : Inv file t
  reached = reach-Inv file reach (
      subst (λ x. Inv file (at_start c x))
        (server_begun-eq server_socket bind_ok listen_ok raw raw_ack v served)
        (begun-Inv client_socket connect_ok file c raw raw_ack text begun))

  -- TCP_Transfer, from the start of both programs, which open their files, while the connection
  -- stands, for an input file without NUL and a `malloc` whose packets end in a 0 byte: what the
  -- server has written is always a prefix of the input file, whatever it drops.
  pub transfer_output-prefix :
      (bytes rest : List ℕ) × (t.server.output ≡ some bytes) × (bytes ++ rest ≡ file)
  transfer_output-prefix = written-prefix file t reached

  -- TCP_Transfer, under the same conditions: when the client is about to make a packet, the server
  -- has written the texts of all that it has made.
  pub transfer_idle_complete : t.client.state ≡ 0 → t.server.output ≡ some (texts t.client.sent)
  transfer_idle_complete off = elim reached.phase [
    | consumed n o fore back obj ↦ o
    | pending ps q sent num size texts_eq n o on fore back obj ↦ absurd (omega (arith, on.0))
  ]
