-- ===== src/TcpTransfer/Server.antt =====
-- Practice - 2019/TCP_Transfer/server.c.
use csf303_computer_networks.Prelude.{
  ℕ, ◌+◌, Bool, Option, none, some, List, [], ◌∷◌, ◌++◌, if◌then◌else◌, ◌==◌, c_string, Result, ok,
  err, socket_failed, bind_failed, listen_failed, recvfrom_failed, null_file, overread, guard,
  ◌>>=◌, ◌>>◌,
}
use csf303_computer_networks.TcpTransfer.{Packet, drop_packet}

-- The variables of `main`: what `pkt` and `ack_pkt` point to, and output.txt, where it could be
-- opened.
pub record Server : Type 0 where
  pub next_seq : ℕ
  pub pkt : Packet
  pub ack_pkt : Packet
  pub output : Option (List ℕ)

-- What `recv` comes back with, and the value of `rand()`: when the connection is closed `pkt`
-- stays.
pub data Arrival : Type 0 where
  recv_error : Arrival
  closed : ℕ → Arrival
  arrived : ℕ → Packet → Arrival

-- `fputs(pkt->payload, fp)`
unfoldable pub write : List ℕ → Option (List ℕ) → Result (List ℕ)
write payload none = err null_file
write payload (some bytes) = elim (c_string payload) [
  | none ↦ err overread
  | some text ↦ ok (bytes ++ text)
]

-- The packet that is due goes to the file.
unfoldable pub accept : Server → Result Server
accept s =
    if s.pkt.seq_no == s.next_seq
    then (do
      bytes ← write s.pkt.payload s.output
      ok (record s { next_seq = s.next_seq + s.pkt.size; output = some bytes }))
    else ok s

-- The loop behind `recv`: any packet that is not dropped is acknowledged.
unfoldable pub serve : ℕ → Server → Result (Server × List Packet)
serve r s =
    let accepted = accept s in
    if drop_packet r then ok (s, []) else (do
      s' ← accepted
      ok (
        record s' { ack_pkt = record s'.ack_pkt { seq_no = s.pkt.seq_no } },
        record s'.ack_pkt { seq_no = s.pkt.seq_no } ∷ [],
      ))

-- One pass of the loop.
unfoldable pub round : Arrival → Server → Result (Server × List Packet)
round recv_error s = err recvfrom_failed
round (closed r) s = serve r s
round (arrived r p) s = serve r (record s { pkt = p })

-- `main` up to its loop, over what `malloc` returned for the two packets.
unfoldable pub main : Bool → Bool → Bool → Bool → Packet → Packet → Result Server
main socket_ok bind_ok listen_ok fopen_ok raw raw_ack = do
  guard socket_ok socket_failed
  guard bind_ok bind_failed
  guard listen_ok listen_failed
  ok (record {
    next_seq = 0;
    pkt = raw;
    ack_pkt = raw_ack;
    output = if fopen_ok then some [] else none;
  })
