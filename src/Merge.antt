-- ===== src/Merge.antt =====
-- Practice - 2023/server.c and packet.h: a server that merges the fields that two clients send into
-- one file, and the client of client-2.c.
pub mod Client
pub mod System
pub mod Passes
pub mod Sends
pub mod Serves
pub mod Turns
pub mod Delivery
pub mod Fields
pub mod Reads
pub mod Output
pub mod Merged
pub mod Exchange
mod Tests
use csf303_computer_networks.Prelude.{
  ℕ, ◌+◌, ◌-◌, ◌*◌, ◌/◌, ◌%◌, ◌^◌, Bool, true, false, Option, none, some, List, [], ◌∷◌, ◌++◌,
  if◌then◌else◌, ltb, ◌==◌, c_string, Result, ok, err, socket_failed, bind_failed, sendto_failed,
  recvfrom_failed, null_file, overread, guard, ◌>>=◌, ◌>>◌,
}

abbrev pub max_data_size : ℕ
max_data_size = 256

-- `data` holds 256 bytes.
pub record Packet : Type 0 where
  pub ack_or_data : ℕ
  pub data_bytes : List ℕ
  pub seq_no : ℕ
  pub len : ℕ
  pub type_of : ℕ
  pub final_packet : ℕ

-- `(double)rand() / RAND_MAX < 0.1` for the value `r` that `rand()` returned.
unfoldable pub drop_packet : ℕ → Bool
drop_packet r = ltb (10 * r) (2 ^ 31 - 1)

-- What `recvfrom` comes back with; a packet comes with the value of `rand()` for it.
pub data Arrival : Type 0 where
  recv_error : Arrival
  arrived : ℕ → Packet → Arrival

-- The two sockets `s` and `s2`.
pub data Socket : Type 0 where
  first second : Socket

-- The state of `main`; `list.txt` holds `file`, where it could be opened. `taken` lists the packets
-- that have changed `state`.
pub record Server : Type 0 where
  pub state : ℕ
  pub ack_pkt : Packet
  pub file : Option (List ℕ)
  pub taken : List Packet

-- `if (ftell(fp) != 0) fputs(",", fp)` and `fputs(rcv_pkt.data, fp)`
unfoldable pub write : Packet → Option (List ℕ) → Result (List ℕ)
write pkt none = err null_file
write pkt (some bytes) = elim (c_string pkt.data_bytes) [
  | none ↦ err overread
  | some text ↦ ok (elim bytes [ [] ↦ text | (b ∷ bs) ↦ (b ∷ bs) ++ (b',' ∷ text) ])
]

-- The packet that is due: its ACK is sent, the state moves on, and its data go to the file.
unfoldable pub take_new : Bool → Packet → Packet → Server → Result (Server × List Packet)
take_new send_ok ack rcv_pkt s = do
  guard send_ok sendto_failed
  bytes ← write rcv_pkt s.file
  ok (
    record s {
      state = (s.state + 1) % 4;
      ack_pkt = ack;
      file = some bytes;
      taken = s.taken ++ rcv_pkt ∷ [];
    },
    ack ∷ [],
  )

-- The body of a case, behind `recvfrom`.
unfoldable pub serve : Bool → ℕ → Packet → Server → Result (Server × List Packet)
serve send_ok r rcv_pkt s =
    let ack : Packet = record s.ack_pkt { seq_no = rcv_pkt.seq_no } in
    if drop_packet r
    then ok (s, [])
    else if rcv_pkt.seq_no == s.state / 2
    then take_new send_ok ack rcv_pkt s
    else if send_ok
    then ok (record s { ack_pkt = ack }, ack ∷ [])
    else err sendto_failed

-- The socket that the case of a state reads.
abbrev pub socket_of : ℕ → Socket
socket_of state = if state % 2 == 0 then first else second

unfoldable pub handle : Bool → Arrival → Server → Result (Server × List Packet)
handle send_ok recv_error s = err recvfrom_failed
handle send_ok (arrived r rcv_pkt) s = serve send_ok r rcv_pkt s

-- One pass of the loop, for what either socket has next; only the one that is due is read.
unfoldable pub round : Bool → (Socket → Arrival) → Server → Result (Server × List Packet)
round send_ok arrivals s = handle send_ok (arrivals (socket_of s.state)) s

-- `main` up to its loop; `ack_pkt` is not initialised.
unfoldable pub main : Bool → Bool → Bool → Bool → Bool → Packet → Result Server
main socket_ok socket2_ok bind_ok bind2_ok fopen_ok raw = do
  guard socket_ok socket_failed
  guard socket2_ok socket_failed
  guard bind_ok bind_failed
  guard bind2_ok bind_failed
  ok (record { state = 0; ack_pkt = raw; file = if fopen_ok then some [] else none; taken = [] })
