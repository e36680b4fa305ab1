-- ===== src/StopAndWait/Lab6.antt =====
-- lab6/udp_client.c and lab6/udp_server.c: stop and wait, with lines of the standard input to send.
pub mod System
pub mod Sends
pub mod Waits
pub mod Serves
pub mod Delivery
mod Tests
use csf303_computer_networks.Prelude.{
  ℕ, ◌+◌, ◌-◌, ◌*◌, ◌^◌, Bool, true, false, ◌||◌, List, [], ◌∷◌, ◌++◌, if◌then◌else◌, ltb, ◌==◌,
  length, drop, Result, ok, err, socket_failed, bind_failed, sendto_failed, recvfrom_failed,
  select_failed, overflow, guard, ◌>>=◌, ◌>>◌,
}

abbrev pub buflen : ℕ
buflen = 512

-- `data` holds 512 bytes.
pub record Packet : Type 0 where
  pub sq_no : ℕ
  pub ack_or_data : ℕ
  pub data_bytes : List ℕ

-- The state of the client's `main`: `input` is the lines that the standard input still has, and
-- `sent` lists the packets sent, each once.
pub record Client : Type 0 where
  pub state : ℕ
  pub input : List (List ℕ)
  pub send_pkt : Packet
  pub sent : List Packet

-- What `select` and `recvfrom` come back with; a packet comes with the value of `rand()` for it.
pub data Event : Type 0 where
  select_error timed_out recv_error : Event
  readable : ℕ → Packet → Event

-- `gets`: the line and a NUL. A line that does not fit is written beyond the array; at the end of
-- the input the array stays as it is.
unfoldable pub gets : List (List ℕ) → List ℕ → Result (List (List ℕ) × List ℕ)
gets [] buf = ok ([], buf)
gets (line ∷ rest) buf =
    if ltb (length line) buflen
    then ok (rest, line ++ 0 ∷ drop (length line + 1) buf)
    else err overflow

-- The packet that case 0 or case 2 makes of a line.
unfoldable pub next_packet : Client → List ℕ → Packet
next_packet c bytes =
    if c.state == 0
    then record { sq_no = 0; ack_or_data = 1; data_bytes = bytes }
    else record c.send_pkt { sq_no = 1; data_bytes = bytes }

-- Cases 0 and 2.
unfoldable pub send_next : Bool → Client → Result (Client × List Packet)
send_next send_ok c = do
  (rest, bytes) ← gets c.input c.send_pkt.data_bytes
  guard send_ok sendto_failed
  ok (
    record c {
      input = rest;
      send_pkt = next_packet c bytes;
      state = c.state + 1;
      sent = c.sent ++ next_packet c bytes ∷ [];
    },
    next_packet c bytes ∷ [],
  )

-- `(double)rand() / RAND_MAX < 0.1` for the value `r` that `rand()` returned.
unfoldable pub drop_packet : ℕ → Bool
drop_packet r = ltb (10 * r) (2 ^ 31 - 1)

-- An ACK that is not dropped and has the number that the state waits for moves it on.
unfoldable pub handle_ack : ℕ → Packet → Client → Client
handle_ack r rcv_ack c =
    if drop_packet r
    then c
    else if c.state == 1
    then (if rcv_ack.sq_no == 0 then record c { state = 2 } else c)
    else if rcv_ack.sq_no == 1
    then record c { state = 0 }
    else c

-- Cases 1 and 3.
unfoldable pub wait_ack : Bool → Event → Client → Result (Client × List Packet)
wait_ack send_ok select_error c = err select_failed
wait_ack send_ok recv_error c = err recvfrom_failed
wait_ack send_ok timed_out c = if send_ok then ok (c, c.send_pkt ∷ []) else err sendto_failed
wait_ack send_ok (readable r rcv_ack) c = ok (handle_ack r rcv_ack c, [])

abbrev pub waits : Client → Bool
waits c = c.state == 1 || c.state == 3

abbrev pub sends : Client → Bool
sends c = c.state == 0 || c.state == 2

-- One pass of the loop, with the packets that it sends. Only a state that waits looks at `ev`.
unfoldable pub round : Bool → Event → Client → Result (Client × List Packet)
round send_ok ev c =
    if sends c then send_next send_ok c else if waits c then wait_ack send_ok ev c else ok (c, [])

-- `main` up to its loop; `send_pkt` is not initialised.
unfoldable pub main : Bool → List (List ℕ) → Packet → Result Client
main socket_ok lines raw = do
  guard socket_ok socket_failed
  ok (record { state = 0; input = lines; send_pkt = raw; sent = [] })

-- The state of the server's `main`. `taken` lists the packets that have changed `state`, whose
-- content the program prints.
pub record Server : Type 0 where
  pub state : ℕ
  pub ack_pkt : Packet
  pub taken : List Packet

-- The ACK in state 0 and in state 1; an old packet gets the ACK of the other state.
unfoldable pub ack_of : Packet → Server → Packet
ack_of rcv_pkt s =
    if s.state == 0
    then record s.ack_pkt { sq_no = if rcv_pkt.sq_no == 0 then 0 else 1; ack_or_data = 0 }
    else record s.ack_pkt { sq_no = if rcv_pkt.sq_no == 1 then 1 else 0 }

-- One pass of the loop, in state 0 or 1.
unfoldable pub serve : Bool → ℕ → Packet → Server → Result (Server × List Packet)
serve send_ok r rcv_pkt s =
    let ack = ack_of rcv_pkt s in
    let s' : Server =
      if rcv_pkt.sq_no == s.state
      then record s { ack_pkt = ack; state = 1 - s.state; taken = s.taken ++ rcv_pkt ∷ [] }
      else record s { ack_pkt = ack } in
    if drop_packet r then ok (s, []) else if send_ok then ok (s', ack ∷ []) else err sendto_failed

-- The server's `main` up to its loop.
unfoldable pub server_main : Bool → Bool → Packet → Result Server
server_main socket_ok bind_ok raw = do
  guard socket_ok socket_failed
  guard bind_ok bind_failed
  ok (record { state = 0; ack_pkt = raw; taken = [] })
