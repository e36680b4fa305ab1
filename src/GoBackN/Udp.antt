-- ===== src/GoBackN/Udp.antt =====
-- Practice-RDT/GBN/UDP: the loops of client.c and server.c.
pub mod Sender
mod Tests
pub mod Receiver
mod Budget
pub mod Ends
pub mod Delivery
use csf303_computer_networks.Prelude.{
  ℕ, zero, suc, ◌+◌, ◌-◌, ◌%◌, Bool, true, false, if◌then◌else◌, ltb, leb, ◌==◌, ◌&&◌, not, List,
  Option, Result, ok, err, recvfrom_failed, select_failed, socket_failed, bind_failed, guard, ◌>>◌,
  ◌>>=◌,
}
use csf303_computer_networks.GoBackN.Packet.{Packet, window_size, drop_packet}
use csf303_computer_networks.GoBackN.Client.{
  Os, Client, Status, waiting, finished, Event, timed_out, select_error, recv_error, readable, send,
  push_packet, resend, full_period, remaining, goes_on,
}
use csf303_computer_networks.GoBackN.Client
use csf303_computer_networks.GoBackN.Server
use csf303_computer_networks.GoBackN.Server.{Server, Arrival, datagram, reply, fputs}

-- `while (nextseqnum < base + WINDOW_SIZE && !check)`: here nothing in the loop sets `check`.
pub fill : Os → ℕ → Client → Result Client
fill os zero c = ok c
fill os (suc n) c =
    if ltb c.nextseqnum (c.base + window_size) && not c.check
    then (do (_, c') ← push_packet os c; fill os n c')
    else ok c

-- As many rounds as the window has room for, so that the loop ends by its test.
abbrev pub room : Client → ℕ
room c = c.base + window_size - c.nextseqnum

-- From the loop's test to `select`.
pub enter : Os → Client → Result (Status × Client)
enter os c = if goes_on c then (do c' ← fill os (room c) c; ok (waiting, c')) else ok (finished, c)

-- An ACK that has `finalPacket` set is sent back, and ends the loop.
fin_ack : Os → Packet → Client → Result (Status × Client)
fin_ack os pkt c =
    if pkt.final_packet == 1
    then (do c' ← send os pkt (record c { check = true }); ok (finished, c'))
    else ok (waiting, c)

-- An ACK of the window slides it; with any other the timer goes on.
pub handle_ack : Os → ℕ → Packet → Client → Result (Status × Client)
handle_ack os elapsed pkt c =
    if pkt.is_ack == 1 && leb c.base pkt.seq_no
    then fin_ack os pkt (record c { base = pkt.seq_no + 1; tv = full_period })
    else ok (waiting, record c { tv = remaining elapsed })

-- Behind `select`.
pub handle : Os → Event → Client → Result (Status × Client)
handle os timed_out c = do
  c' ← resend os (c.nextseqnum - c.base) c.base (record c { tv = full_period })
  ok (waiting, c')
handle os (readable elapsed pkt) c = handle_ack os elapsed pkt c
handle os recv_error c = err recvfrom_failed
handle os select_error c = err select_failed

-- From one `select` to the next.
pub round : Os → Event → Client → Result (Status × Client)
round os e c = do
  (status, c') ← handle os e c
  elim status [ waiting ↦ enter os c' | finished ↦ ok (finished, c') ]

-- The client up to its first `select`.
pub main : Os → (ℕ → Packet) → Option (List ℕ) → Result (Status × Client)
main os slots file = do guard os.socket_ok socket_failed; c ← Client.start slots file; enter os c

-- The server up to the head of its loop.
pub serve_main : Os → Packet → Result Server
serve_main os raw = do
  guard os.socket_ok socket_failed
  guard os.bind_ok bind_failed
  ok (Server.start raw)

-- The expected packet is written and acknowledged, any other is answered by the last ACK again.
accept : Packet → Server → Result Server
accept pkt s = do
  s' ← fputs pkt.payload s
  ok (record s' {
    snd_pkt = record s.snd_pkt { seq_no = s.expected_seq_no; final_packet = pkt.final_packet };
    expected_seq_no = s.expected_seq_no + 1;
  })

-- One round of the server's loop.
pub serve : Os → Arrival → Server → Result (Status × Server)
serve os Arrival.recv_error s = err recvfrom_failed
serve os (datagram pkt r) s =
    if drop_packet r
    then ok (waiting, s)
    else if pkt.seq_no == s.expected_seq_no
    then if pkt.is_ack == 1 && pkt.final_packet == 1
      then ok (finished, s)
      else (do s' ← accept pkt s; s₂ ← reply os s'; ok (waiting, s₂))
    else (do s₂ ← reply os s; ok (waiting, s₂))
