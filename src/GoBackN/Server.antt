-- ===== src/GoBackN/Server.antt =====
-- Practice-RDT/GBN/UDP/server.c: the variables of `main`.
pub mod Output
use csf303_computer_networks.Prelude.{
  ℕ, List, [], ◌∷◌, ◌++◌, length, if◌then◌else◌, Result, ok, err, sendto_failed, overread, c_string,
  ◌>>=◌, Option, none, some,
}
use csf303_computer_networks.GoBackN.Packet.{Packet}
use csf303_computer_networks.GoBackN.Client.{Os}

-- `output` is what has been written to output.txt; `wire` lists the packets sent, oldest first.
pub record Server : Type 0 where
  pub expected_seq_no : ℕ
  pub snd_pkt : Packet
  pub output : List ℕ
  pub wire : List Packet

-- What `recvfrom` may do, and the value of `rand()` that `dropPacket` then draws.
pub data Arrival : Type 0 where
  recv_error : Arrival
  datagram : Packet → ℕ → Arrival

-- The variables at the head of the loop, over what `malloc` returned for `snd_pkt`.
abbrev pub start : Packet → Server
start raw = record {
  expected_seq_no = 1;
  snd_pkt = record raw { seq_no = 0; is_ack = 1 };
  output = [];
  wire = [];
}

-- `sendto(sockfd, snd_pkt, ...)`
unfoldable pub reply : Os → Server → Result Server
reply os s =
    if os.send_ok (length s.wire)
    then ok (record s { wire = s.wire ++ s.snd_pkt ∷ [] })
    else err sendto_failed

-- `fputs` and `fflush`: the bytes up to the NUL; without one in the payload it reads beyond it.
unfoldable pub fputs : List ℕ → Server → Result Server
fputs payload s = elim (c_string payload) [
  | none ↦ err overread
  | some text ↦ ok (record s { output = s.output ++ text })
]
