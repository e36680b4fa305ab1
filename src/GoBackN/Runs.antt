-- ===== src/GoBackN/Runs.antt =====
-- What the runs of both transports share: a file of two bytes, and a calm operating system.
use csf303_computer_networks.Prelude.{
  ℕ, ◌≡◌, refl, true, false, none, List, [], ◌∷◌, ok, err, Result, replicate, drop,
}
use csf303_computer_networks.Prelude.Int.{negsuc}
use csf303_computer_networks.GoBackN.Packet.{Packet}
use csf303_computer_networks.GoBackN.Client
use csf303_computer_networks.GoBackN.Server.{Server}
use csf303_computer_networks.GoBackN.Client.{
  Os, Client, Status, waiting, finished, Event, timed_out, readable,
}

abbrev pub blank : Packet
blank = record { size = 0; is_ack = 0; final_packet = 0; seq_no = 0; payload = replicate 101 0 }

-- A system whose `sendto` never fails and whose memory is zero.
abbrev pub calm : Os
calm = record {
  socket_ok = true;
  connect_ok = true;
  bind_ok = true;
  listen_ok = true;
  send_ok = λ _. true;
  malloc = λ _. blank;
}

pub calm_ends : (n : ℕ) → drop 100 blank.payload ≡ 0 ∷ []
calm_ends n = refl

abbrev pub hi : List ℕ
hi = b'h' ∷ b'i' ∷ []

abbrev pub client_of : Result (Status × Client) → Client → Client
client_of (ok (st, c)) d = c
client_of (err f) d = d

abbrev pub server_of : Result (Status × Server) → Server → Server
server_of (ok (st, s)) d = s
server_of (err f) d = d

abbrev pub idle : Client
idle = record {
  input = record { fp = none; currseq = 0; buffcount = negsuc 0; input_buffer = [] };
  sent_packets = λ _. blank;
  check = false;
  base = 1;
  nextseqnum = 1;
  tv = Client.full_period;
  wire = [];
}
