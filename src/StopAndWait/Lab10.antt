-- ===== src/StopAndWait/Lab10.antt =====
-- Lab10/client.c and Lab10/server.c: stop and wait, with a file of fields to send.
pub mod System
pub mod Sends
pub mod Waits
pub mod Serves
pub mod Delivery
mod Tests
use csf303_computer_networks.Prelude.{
  ℕ, ◌+◌, ◌-◌, ◌*◌, ◌/◌, ◌%◌, ◌^◌, Bool, true, false, ◌&&◌, ◌||◌, Option, none, some, List, [], ◌∷◌,
  ◌++◌, if◌then◌else◌, ltb, ◌==◌, Result, ok, err, socket_failed, bind_failed, fopen_failed,
  sendto_failed, recvfrom_failed, select_failed, guard, ◌>>=◌, ◌>>◌,
}
use csf303_computer_networks.StopAndWait.Scan.{Packet, read_packet}

-- The state of `main`: `fp` is what is left of the file. `sent` lists what `transmit_packet` sent.
pub record Client : Type 0 where
  pub state : ℕ
  pub fp : List ℕ
  pub pkt : Packet
  pub sent : List Packet

pub data Status : Type 0 where
  running finished : Status

-- What `select`, and `recvfrom` behind it, come back with.
pub data Event : Type 0 where
  select_error timed_out recv_error : Event
  readable : Packet → Event

-- Cases 2 and 0: the next field is sent, or the process exits at the end of the file. The result
-- of this `sendto` is not looked at.
unfoldable pub send_next : Client → Status × (Client × List Packet)
send_next c =
    let (fp, read) = read_packet c.fp c.pkt in
    let pkt : Packet = record read { seq_no = c.state / 2 } in
    if read.len == 0 then (finished, (record c { fp = fp; pkt = read }, [])) else (
      running,
      (record c { fp = fp; pkt = pkt; state = c.state + 1; sent = c.sent ++ pkt ∷ [] }, pkt ∷ []),
    )

unfoldable pub handle_ack : Packet → ℕ → ℕ → Client → Client
handle_ack rcv_ack ack_no next_state c =
    if rcv_ack.seq_no == ack_no
    then record c { state = next_state }
    else if rcv_ack.seq_no == 1 && c.state == 3
    then record c { state = 0 }
    else c

unfoldable pub handle_timeout : Bool → Client → Result (Client × List Packet)
handle_timeout send_ok c = if send_ok then ok (c, c.pkt ∷ []) else err sendto_failed

-- Cases 3 and 1.
unfoldable pub wait_ack : Bool → Event → Client → Result (Client × List Packet)
wait_ack send_ok select_error c = err select_failed
wait_ack send_ok recv_error c = err recvfrom_failed
wait_ack send_ok timed_out c = handle_timeout send_ok c
wait_ack send_ok (readable rcv_ack) c =
    ok (handle_ack rcv_ack ((c.state - 1) / 2) ((c.state + 1) % 4) c, [])

abbrev pub waits : Client → Bool
waits c = c.state == 1 || c.state == 3

abbrev pub sends : Client → Bool
sends c = c.state == 0 || c.state == 2

-- One pass of the loop, with the packets that it sends. Only a state that waits looks at `ev`.
unfoldable pub round : Bool → Event → Client → Result (Status × (Client × List Packet))
round send_ok ev c =
    if sends c
    then ok (send_next c)
    else if waits c
    then (do out ← wait_ack send_ok ev c; ok (running, out))
    else ok (running, (c, []))

-- `main` up to its loop.
unfoldable pub main : Bool → Option (List ℕ) → Packet → Result Client
main socket_ok file raw = do
  guard socket_ok socket_failed
  elim file [
    | none ↦ err fopen_failed
    | some bytes ↦ ok (record { state = 0; fp = bytes; pkt = raw; sent = [] })
  ]

-- The state of the server's `main`. `taken` lists the packets that have changed `state`; the
-- program prints what comes in and keeps nothing.
pub record Server : Type 0 where
  pub state : ℕ
  pub ack_pkt : Packet
  pub taken : List Packet

-- `(double)rand() / RAND_MAX < 0.1` for the value `r` that `rand()` returned.
unfoldable pub drop_packet : ℕ → Bool
drop_packet r = ltb (10 * r) (2 ^ 31 - 1)

-- A packet that is not dropped is acknowledged, whatever its number.
unfoldable pub serve : Bool → ℕ → Packet → Server → Result (Server × List Packet)
serve send_ok r rcv_pkt s =
    let ack : Packet = record s.ack_pkt { seq_no = rcv_pkt.seq_no } in
    let s' : Server =
      if rcv_pkt.seq_no == s.state
      then record s { ack_pkt = ack; state = (s.state + 1) % 2; taken = s.taken ++ rcv_pkt ∷ [] }
      else record s { ack_pkt = ack } in
    if drop_packet r then ok (s, []) else if send_ok then ok (s', ack ∷ []) else err sendto_failed

-- The server's `main` up to its loop.
unfoldable pub server_main : Bool → Bool → Packet → Result Server
server_main socket_ok bind_ok raw = do
  guard socket_ok socket_failed
  guard bind_ok bind_failed
  ok (record { state = 0; ack_pkt = raw; taken = [] })
