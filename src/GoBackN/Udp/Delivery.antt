-- ===== src/GoBackN/Udp/Delivery.antt =====
-- Client and server over UDP together.
use csf303_computer_networks.Prelude.{
  ℕ, ◌+◌, ◌*◌, ◌/◌, ◌≤◌, ◌≡◌, subst, length, false, some, List, [], ◌++◌, arith, ok, IsText,
  >>=-eq-ok, guard-eq-ok, socket_failed,
}
use csf303_computer_networks.GoBackN.Packet.{Packet, window_size}
use csf303_computer_networks.GoBackN.Client
use csf303_computer_networks.GoBackN.Client.{Os, Client, Status, waiting, timed_out, readable}
use csf303_computer_networks.GoBackN.Client.Window.{EndsPayload}
use csf303_computer_networks.GoBackN.Client.Start.{start-Starts}
use csf303_computer_networks.GoBackN.Server
use csf303_computer_networks.GoBackN.Server.Output.{HasOutput-more, start-HasOutput}
use csf303_computer_networks.GoBackN.System.{
  Transport, System, Step, time_out, receive_ack, receive_packet, Reach, here, next, Holds,
  Reach-Holds, written-prefix,
}
use csf303_computer_networks.GoBackN.Udp.{main, round, serve}
use csf303_computer_networks.GoBackN.Udp.Sender.{IsOpen, enter-Grows, round-Grows}
use csf303_computer_networks.GoBackN.Udp.Ends.{limit, limit-round, limit-main}
use csf303_computer_networks.GoBackN.Udp.Receiver.{IsPlain, serve-HasOutput}

module _ (client_os server_os : Os) (nul : EndsPayload client_os) (file : List ℕ) where
  abbrev pub transport : Transport file
  transport = record {
    round = round client_os;
    serve = serve server_os;
    IsReply = IsPlain;
    Mode = IsOpen;
    times_out = λ ps n c w m low high e.
        round-Grows client_os nul file ps n Client.timed_out c w m.1 low high tt e;
    takes_ack = λ ps n elapsed a c w m low high below plain e.
        round-Grows client_os nul file ps n (Client.readable elapsed a) c w m.1 low high
          (below, plain) e;
    takes_packet = serve-HasOutput server_os;
  }

  limit-Step : {s s' : System} → Step transport s s' → limit s'.client ≤ limit s.client
  limit-Step {s} (time_out c' st w e same) =
      subst (λ u. limit u.client ≤ limit s.client) same (limit-round client_os timed_out s.client e)
  limit-Step {s} (receive_ack i elapsed a c' st w sent e same) =
      subst (λ u. limit u.client ≤ limit s.client) same
        (limit-round client_os (readable elapsed a) s.client e)
  limit-Step {s} (receive_packet i r p v' st sent e same) =
      subst (λ u. limit u.client ≤ limit s.client) same (omega arith)

  limit-Reach : {s s' : System} → Reach transport s s' → limit s'.client ≤ limit s.client
  limit-Reach here = omega arith
  limit-Reach (next run step) = omega (arith, limit-Reach run, limit-Step step)

module _ (client_os server_os : Os) (nul : EndsPayload client_os) (file : List ℕ)
    (text : IsText file) (slots : ℕ → Packet) (raw : Packet) (st : Status) (c : Client)
    (begun : main client_os slots (some file) ≡ ok (st, c)) (s : System)
    (run : Reach
      (transport client_os server_os nul file)
      (record { status = st; client = c; server = Server.start raw })
      s) where
  begun-Holds :
      Holds
        (transport client_os server_os nul file)
        (record { status = st; client = c; server = Server.start raw })
  unfolding main
  begun-Holds =
      let (c₁, e₁, e₂) =
        >>=-eq-ok (Client.start slots (some file)) _
          (guard-eq-ok client_os.socket_ok socket_failed _ begun) in
      let b = start-Starts slots file text e₁ in
      let g = enter-Grows client_os nul file 1 [] c₁ b.window (omega (arith, b.base)) b.unset e₂ in
      (
        g.made,
        record {
          window = g.window;
          output =
              HasOutput-more IsPlain [] g.made (Server.start raw)
                (start-HasOutput IsPlain raw (λ h. absurd (omega arith)));
          behind = g.base;
          mode = g.mode;
        },
      )

  reached : Holds (transport client_os server_os nul file) s
  reached = Reach-Holds (transport client_os server_os nul file) begun-Holds run

  -- For a file without NUL bytes, and memory for packets whose payload ends in a NUL: whatever
  -- packets sent so far arrive, in any order and number, what the UDP server has written is a
  -- prefix of the file.
  pub udp_output_prefix : (rest : List ℕ) × (s.server.output ++ rest ≡ file)
  udp_output_prefix =
      let (ps, v) = reached in written-prefix (transport client_os server_os nul file) ps s v

  -- For a file without NUL bytes, and memory for packets whose payload ends in a NUL, when whatever
  -- arrives is what has been sent: in every state that is reached, so unless `die` has ended it,
  -- the UDP client waits in its loop, with `check` unset and at least 5 packets numbered from
  -- `base`, sent and not acknowledged; and it has made at most 19 packets, and 10 for every whole
  -- 1000 bytes of the file. So the test of its loop does not end it, and it does not live to see
  -- more than 14 packets, and 10 for every whole 1000 bytes, acknowledged.
  pub never_finished :
      (s.status ≡ waiting)
      × (s.client.check ≡ false)
      × (s.client.base + window_size ≤ s.client.nextseqnum)
      × (s.client.nextseqnum ≤ 20 + 10 * (length file / 1000))
  never_finished =
      let (ps, v) = reached in
      (
        v.mode.0,
        v.mode.1,
        v.mode.2,
        omega (
          arith,
          limit-main client_os slots file begun,
          limit-Reach client_os server_os nul file run,
        ),
      )
