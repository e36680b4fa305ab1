-- ===== src/GoBackN/Tcp/Delivery.antt =====
-- Client and server over TCP together.
use csf303_computer_networks.Prelude.{
  ℕ, ◌≤◌, ◌≡◌, some, List, [], ◌++◌, arith, ok, IsText, >>=-eq-ok, guard-eq-ok, socket_failed,
  connect_failed, Bool, true, false, ◌-◌, length, append-nil, take-all,
}
use csf303_computer_networks.GoBackN.Packet.{Packet}
use csf303_computer_networks.GoBackN.Input.Text.{unread}
use csf303_computer_networks.GoBackN.Created.{texts}
use csf303_computer_networks.GoBackN.Client
use csf303_computer_networks.GoBackN.Client.{Os, Client, Status, waiting, finished}
use csf303_computer_networks.GoBackN.Client.Window.{EndsPayload}
use csf303_computer_networks.GoBackN.Client.Start.{start-Starts}
use csf303_computer_networks.GoBackN.Server
use csf303_computer_networks.GoBackN.Server.Output.{HasOutput-more, start-HasOutput}
use csf303_computer_networks.GoBackN.System.{
  Transport, System, Reach, Holds, Reach-Holds, written-prefix,
}
use csf303_computer_networks.GoBackN.Tcp.{main, round, serve}
use csf303_computer_networks.GoBackN.Tcp.Sender.{IsDraining, enter-Grows, round-Grows}
use csf303_computer_networks.GoBackN.Tcp.Receiver.{IsAny, serve-HasOutput}

module _ (client_os server_os : Os) (nul : EndsPayload client_os) (file : List ℕ) where
  abbrev pub transport : Transport file
  transport = record {
    round = round client_os;
    serve = serve server_os;
    IsReply = IsAny;
    Mode = IsDraining;
    times_out = λ ps n c w m low high e.
        round-Grows client_os nul file ps n Client.timed_out c (w, m.0) low high tt e;
    takes_ack = λ ps n elapsed a c w m low high below _ e.
        round-Grows client_os nul file ps n (Client.readable elapsed a) c (w, m.0) low high below e;
    takes_packet = serve-HasOutput server_os;
  }

unset : {b : Bool} → b ≡ false → b ≡ true → ⊥
unset p q = cc

module _ (client_os server_os : Os) (nul : EndsPayload client_os) (file : List ℕ)
    (text : IsText file) (slots : ℕ → Packet) (raw : Packet) (st : Status) (c : Client)
    (begun : main client_os slots (some file) ≡ ok (st, c)) (s : System)
    (run : Reach
      (transport client_os server_os nul file)
      (record { status = st; client = c; server = Server.start raw })
      s) where
  begun-Holds :
      Holds
        (transport client_os server_os nul file)
        (record { status = st; client = c; server = Server.start raw })
  unfolding main
  begun-Holds =
      let (c₁, e₁, e₂) = >>=-eq-ok (Client.start slots (some file)) _ (
        guard-eq-ok client_os.connect_ok connect_failed _
          (guard-eq-ok client_os.socket_ok socket_failed _ begun)) in
      let b = start-Starts slots file text e₁ in
      let g =
        enter-Grows client_os nul file 1 [] c₁ (b.window, λ h. absurd (unset b.unset h))
          (omega (arith, b.base)) e₂ in
      (
        g.made,
        record {
          window = g.window;
          output = HasOutput-more IsAny [] g.made (Server.start raw) (start-HasOutput IsAny raw tt);
          behind = g.base;
          mode = g.mode;
        },
      )

  reached : Holds (transport client_os server_os nul file) s
  reached = Reach-Holds (transport client_os server_os nul file) begun-Holds run

  -- For a file without NUL bytes, and memory for packets whose payload ends in a NUL: whatever
  -- packets sent so far arrive, in any order and number, what the TCP server has written is a
  -- prefix of the file.
  pub tcp_output_prefix : (rest : List ℕ) × (s.server.output ++ rest ≡ file)
  tcp_output_prefix =
      let (ps, v) = reached in written-prefix (transport client_os server_os nul file) ps s v

  -- For a file without NUL bytes, and memory for packets whose payload ends in a NUL: when the TCP
  -- client has left its loop, the server has written the whole file.
  pub finished_complete : s.status ≡ finished → s.server.output ≡ file
  finished_complete over =
      let (ps, v) = reached in
      let (used, all) = v.mode.1 over in
      let none_left : unread v.window.content s.client.input ≡ [] = v.mode.0 used in
      let whole : length ps ≤ s.server.expected_seq_no - 1 =
        omega (arith, all, v.behind, v.window.count) in
      rw
        (
          v.output.written,
          take-all (s.server.expected_seq_no - 1) ps whole,
          ← append-nil (texts ps),
          ← none_left,
        )
        v.window.carried
