-- ===== src/GoBackN/Tcp.antt =====
-- Practice-RDT/GBN/TCP: the loops of client.c and server.c. A `recv` returns one whole packet here;
-- one that returns 0, since the other side has closed, leaves the last packet in place, and so is
-- another arrival of that packet.
pub mod Sender
mod Tests
pub mod Receiver
pub mod Delivery
use csf303_computer_networks.Prelude.{
  ℕ, zero, suc, ◌+◌, ◌-◌, Bool, true, false, if◌then◌else◌, ltb, leb, ◌==◌, ◌&&◌, ◌||◌, not, List,
  Option, Result, ok, err, socket_failed, bind_failed, listen_failed, connect_failed,
  recvfrom_failed, select_failed, guard, ◌>>=◌, ◌>>◌,
}
use csf303_computer_networks.GoBackN.Packet.{Packet, window_size, drop_packet}
use csf303_computer_networks.GoBackN.Client.{
  Os, Client, Status, waiting, finished, Event, timed_out, select_error, recv_error, readable,
  push_packet, resend, full_period, remaining, goes_on,
}
use csf303_computer_networks.GoBackN.Client
use csf303_computer_networks.GoBackN.Server
use csf303_computer_networks.GoBackN.Server.{Server, Arrival, datagram, reply, fputs}

-- `while (nextseqnum < base + WINDOW_SIZE && !check)`: the end of the file sets `check`.
pub fill : Os → ℕ → Client → Result Client
fill os zero c = ok c
fill os (suc n) c =
    if ltb c.nextseqnum (c.base + window_size) && not c.check
    then (do (last, c') ← push_packet os c; fill os n (record c' { check = c'.check || last }))
    else ok c

abbrev pub room : Client → ℕ
room c = c.base + window_size - c.nextseqnum

-- From the loop's test to `select`.
pub enter : Os → Client → Result (Status × Client)
enter os c = if goes_on c then (do c' ← fill os (room c) c; ok (waiting, c')) else ok (finished, c)

-- An ACK of the window slides it; with any other the timer goes on.
pub handle_ack : ℕ → Packet → Client → Client
handle_ack elapsed pkt c =
    if pkt.is_ack == 1 && leb c.base pkt.seq_no
    then record c { base = pkt.seq_no + 1; tv = full_period }
    else record c { tv = remaining elapsed }

-- Behind `select`.
pub handle : Os → Event → Client → Result Client
handle os timed_out c = resend os (c.nextseqnum - c.base) c.base (record c { tv = full_period })
handle os (readable elapsed pkt) c = ok (handle_ack elapsed pkt c)
handle os recv_error c = err recvfrom_failed
handle os select_error c = err select_failed

-- From one `select` to the next, or to the end of the loop.
pub round : Os → Event → Client → Result (Status × Client)
round os e c = do c' ← handle os e c; enter os c'

-- The client up to its first `select`.
pub main : Os → (ℕ → Packet) → Option (List ℕ) → Result (Status × Client)
main os slots file = do
  guard os.socket_ok socket_failed
  guard os.connect_ok connect_failed
  c ← Client.start slots file
  enter os c

-- The server up to the head of its loop; the result of `accept` is not looked at.
pub serve_main : Os → Packet → Result Server
serve_main os raw = do
  guard os.socket_ok socket_failed
  guard os.bind_ok bind_failed
  guard os.listen_ok listen_failed
  ok (Server.start raw)

-- The expected packet is written and becomes the one that ACKs name.
accept : Packet → Server → Result Server
accept pkt s = do
  s' ← fputs pkt.payload s
  ok (record s' {
    snd_pkt = record s.snd_pkt { seq_no = s.expected_seq_no };
    expected_seq_no = s.expected_seq_no + 1;
  })

-- One round of the server's loop.
pub serve : Os → Arrival → Server → Result (Status × Server)
serve os Arrival.recv_error s = err recvfrom_failed
serve os (datagram pkt r) s =
    if drop_packet r
    then ok (waiting, s)
    else if pkt.seq_no == s.expected_seq_no
    then (do s' ← accept pkt s; s₂ ← reply os s'; ok (waiting, s₂))
    else (do s₂ ← reply os s; ok (waiting, s₂))
