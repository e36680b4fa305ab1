-- ===== src/SelectiveRepeat/Client.antt =====
-- Practice-RDT/SR/UDP_selectiverepeat/client.c: the sender of Selective Repeat. The functions above
-- `main` there are never called.
pub mod Window
pub mod Resend
pub mod Stale
pub mod Fill
use csf303_computer_networks.Prelude.{
  ℕ, zero, suc, ◌+◌, ◌-◌, ◌%◌, Bool, true, false, not, Option, none, some, List, [], ◌∷◌, ◌++◌,
  if◌then◌else◌, ltb, ◌==◌, ◌&&◌, ◌||◌, length, set, replicate, drop, Stream, fread, Result, ok,
  err, sendto_failed, select_failed, socket_failed, fopen_failed, guard, ◌>>◌, ◌>>=◌,
}
use csf303_computer_networks.SelectiveRepeat.Packet.{
  Packet, packet_size, window_size, increment_seq_no,
}
use csf303_computer_networks.SelectiveRepeat.Server.{Channel, r1, r2, SendOk, update}

-- `sent_packets` and `acks` are arrays of WINDOW_SIZE slots, indexed by `% WINDOW_SIZE` only; the
-- first is not initialised. `packet` is the variable that every packet is built in. `wire` lists
-- what `sendto` has handed to the network, oldest first.
pub record Client : Type 0 where
  pub fp : Stream
  pub base : ℕ
  pub currseq : ℕ
  pub sent_packets : ℕ → Packet
  pub acks : ℕ → ℕ
  pub packet : Packet
  pub wire : List (Channel × Packet)

-- At the head of the loop, with what the memory of the variables holds.
abbrev pub start : List ℕ → (ℕ → Packet) → Packet → Client
start file slots raw = record {
  fp = record { rest = file; eof = false };
  base = 0;
  currseq = 0;
  sent_packets = slots;
  acks = λ _. 0;
  packet = raw;
  wire = [];
}

-- Odd numbers go to R1, even ones to R2.
abbrev pub route : ℕ → Channel
route n = if n % 2 == 1 then r1 else r2

unfoldable pub send : SendOk → Channel → Packet → Client → Result Client
send send_ok ch p c =
    if send_ok (length c.wire)
    then ok (record c { wire = c.wire ++ (ch, p) ∷ [] })
    else err sendto_failed

-- The next packet of the file: the payload is zeroed, up to 101 bytes are read into it, and the
-- byte behind those is set to 0 (behind 101 bytes that byte is padding). `final_packet` ends as 0.
unfoldable pub read_packet : Client → Packet × Stream
read_packet c =
    let (got, fp) = fread (packet_size + 1) c.fp in
    (
      record c.packet {
        seq_no = c.currseq;
        ack_or_data = 1;
        payload = set (got ++ replicate (packet_size + 1 - length got) 0) (length got) 0;
        size = length got;
        final_packet = 0;
      },
      fp,
    )

-- The body of the inner loop.
unfoldable pub push_packet : SendOk → Client → Result Client
push_packet send_ok c =
    let (pkt, fp) = read_packet c in
    do
      c' ← send send_ok (route c.currseq) pkt (record c { fp = fp; packet = pkt })
      ok (record c' {
        sent_packets = update c.sent_packets (c.currseq % window_size) pkt;
        acks = update c.acks (c.currseq % window_size) 0;
        currseq = increment_seq_no c.currseq;
      })

-- `while (currseq < base + WINDOW_SIZE && !feof(fp))`, at most `fuel` times.
unfoldable pub fill : SendOk → ℕ → Client → Result Client
fill send_ok zero c = ok c
fill send_ok (suc fuel) c =
    if ltb c.currseq (c.base + window_size) && not c.fp.eof
    then (do c' ← push_packet send_ok c; fill send_ok fuel c')
    else ok c

-- Every pass but the last reads a byte at least.
abbrev pub enough : Client → ℕ
enough c = length c.fp.rest + 2

-- `for (int i = base; i < currseq; i++)`, for `n` values of `i`: what is not acknowledged is sent
-- again, and stays in the variable `packet`.
unfoldable pub resend : SendOk → ℕ → ℕ → Client → Result Client
resend send_ok zero i c = ok c
resend send_ok (suc n) i c =
    if c.acks (i % window_size) == 0
    then (do
      c' ←
          send send_ok (route i) (c.sent_packets (i % window_size))
            (record c { packet = c.sent_packets (i % window_size) })
      resend send_ok n (i + 1) c')
    else resend send_ok n (i + 1) c

-- A socket that is ready: the slot of the ACK's number is marked, whatever the number is.
abbrev pub mark : Option Packet → Client → Client
mark none c = c
mark (some ack) c = record c { acks = update c.acks (ack.seq_no % window_size) 1 }

-- `while (acks[base % WINDOW_SIZE] == 1)`, at most `fuel` times.
unfoldable pub slide : ℕ → Client → Client
slide zero c = c
slide (suc fuel) c =
    let rest = slide fuel (record c {
      acks = update c.acks (c.base % window_size) 0;
      base = increment_seq_no c.base;
    }) in
    if c.acks (c.base % window_size) == 1 then rest else c

-- What `select` says: a failure, a timeout, or which sockets are set and the ACK on each. (A
-- `recvfrom` that fails would leave the ACK as it was; it is not looked at.)
pub data Event : Type 0 where
  select_error timed_out : Event
  ready : Option Packet → Option Packet → Event

unfoldable pub handle : SendOk → Event → Client → Result Client
handle send_ok select_error c = err select_failed
handle send_ok timed_out c = resend send_ok (c.currseq - c.base) c.base c
handle send_ok (ready from_r1 from_r2) c =
    ok (slide (window_size + 1) (mark from_r2 (mark from_r1 c)))

-- `while (!feof(fp) || base < currseq)`
abbrev pub goes_on : Client → Bool
goes_on c = not c.fp.eof || ltb c.base c.currseq

-- One round of the loop.
unfoldable pub round : SendOk → Event → Client → Result Client
round send_ok ev c = do c' ← fill send_ok (enough c) c; handle send_ok ev c'

-- `main` up to its loop: two sockets and the file.
unfoldable pub main : Bool → Bool → Option (List ℕ) → (ℕ → Packet) → Packet → Result Client
main socket_1 socket_2 file slots raw = do
  guard socket_1 socket_failed
  guard socket_2 socket_failed
  elim file [ none ↦ err fopen_failed | some bytes ↦ ok (start bytes slots raw) ]
