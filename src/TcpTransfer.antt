-- ===== src/TcpTransfer.antt =====
-- Practice - 2019/TCP_Transfer: a file in packets over TCP, each of which waits for its ACK, with
-- byte numbers. The client keeps its packets on the heap, and a pointer to the last one twice.
pub mod Server
pub mod System
pub mod Reads
pub mod Created
pub mod Passes
pub mod Serves
pub mod Sends
pub mod Receives
pub mod Delivery
pub mod Stuck
mod Tests
use mathlib.Core.Option
use csf303_computer_networks.Prelude.{
  ℕ, ◌+◌, ◌-◌, ◌*◌, ◌/◌, ◌^◌, Bool, true, false, Option, none, some, List, [], ◌∷◌, ◌++◌,
  if◌then◌else◌, leb, ◌==◌, length, get_elem?, get_or, set, drop, replicate, Stream, Result, ok,
  err, socket_failed, connect_failed, fopen_failed, select_failed, null_pointer, guard, ◌>>=◌, ◌>>◌,
}
use csf303_computer_networks.Prelude.Int.{ℤ, pos, negsuc, inc}
use csf303_computer_networks.GoBackN.Packet.{packet_size, buffer_size}
use csf303_computer_networks.GoBackN.Input
use csf303_computer_networks.GoBackN.Input.{Input, clear, copy}

-- `payload` holds 101 bytes.
pub record Packet : Type 0 where
  pub seq_no_0 : ℕ
  pub final_packet : ℕ
  pub channelid : ℕ
  pub seq_no : ℕ
  pub ack_or_data : ℕ
  pub payload : List ℕ
  pub size : ℕ

-- `(double)rand() / RAND_MAX <= 0.1` for the value `r` that `rand()` returned.
unfoldable pub drop_packet : ℕ → Bool
drop_packet r = leb (10 * r) (2 ^ 31 - 1)

-- It reads one byte less than the length of the buffer.
unfoldable pub getfilestream : Option Stream → List ℕ → ℕ → Result (Option Stream × List ℕ)
getfilestream fp buf buff_len = Input.getfilestream fp buf (buff_len - 1)

unfoldable pub input_into_buffer : Input → Result Input
input_into_buffer inp = do
  (fp, buf) ← getfilestream inp.fp (clear inp.input_buffer) buffer_size
  ok (record inp { fp = fp; input_buffer = buf; buffcount = inc inp.buffcount })

-- `(BUFFER_SIZE)*buffcount`, which is below 0 only before the first buffer is read.
abbrev pub buffer_start : ℤ → ℕ
buffer_start (pos n) = buffer_size * n
buffer_start (negsuc n) = 0

-- `raw` is what `malloc` returned: the loop leaves the last byte of its payload.
unfoldable pub create_packet : Packet → ℕ → ℕ → ℕ → Input → Packet
create_packet raw datalength seqno seqno0 inp = record raw {
  size = datalength;
  ack_or_data = 1;
  seq_no_0 = seqno0;
  seq_no = seqno + buffer_start inp.buffcount;
  payload = copy inp.input_buffer inp.currseq packet_size ++ drop packet_size raw.payload;
}

unfoldable pub compute : Input → Result (Bool × Input)
compute inp =
    if inp.currseq == buffer_size
    then (do inp' ← input_into_buffer inp; ok (false, record inp' { currseq = 0 }))
    else ok (get_or inp.input_buffer inp.currseq 0 == 0, inp)

-- The state of the client: its packets on the heap, in the order of `malloc`, and the addresses in
-- `pkt` and `lastUnack`. `sent` lists the packets as they were created.
pub record Client : Type 0 where
  pub input : Input
  pub heap : List Packet
  pub pkt : ℕ
  pub last_unack : ℕ
  pub last_seq : ℕ
  pub state : ℕ
  pub sent : List Packet

-- What `select` and `recv` come back with: `nothing` is a `recv` that fails or finds the connection
-- closed, which the code does not look at.
pub data Event : Type 0 where
  select_error timed_out nothing : Event
  received : Packet → Event

-- Reading through a pointer.
unfoldable pub load : List Packet → ℕ → Result Packet
load heap a = elim (get_elem? heap a) [ none ↦ err null_pointer | some p ↦ ok p ]

-- Case 0. `final_packet` is 0 whatever `compute` returns.
unfoldable pub send_packet : Packet → Client → Result (Client × List Packet)
send_packet raw c =
    let p : Packet = record (create_packet raw packet_size c.input.currseq (c.state / 2) c.input) {
      final_packet = 0;
    } in
    do
      (last, inp) ← compute (record c.input { currseq = c.input.currseq + packet_size })
      ok (
        record {
          input = inp;
          heap = c.heap ++ p ∷ [];
          pkt = length c.heap;
          last_unack = length c.heap;
          last_seq = p.seq_no;
          state = 1;
          sent = c.sent ++ p ∷ [];
        },
        p ∷ [],
      )

-- `if (pkt->seq_no == lastseq) state = 0;`
unfoldable pub check_ack : Client → Result (Client × List Packet)
check_ack c = do
  p ← load c.heap c.pkt
  ok (if p.seq_no == c.last_seq then record c { state = 0 } else c, [])

-- Case 1: an ACK is received into the packet that `pkt` points to.
unfoldable pub wait_ack : Event → Client → Result (Client × List Packet)
wait_ack select_error c = err select_failed
wait_ack timed_out c = do p ← load c.heap c.last_unack; ok (c, p ∷ [])
wait_ack nothing c = check_ack c
wait_ack (received ack) c = check_ack (record c { heap = set c.heap c.pkt ack })

-- One pass of the loop, with the packets that it sends. Only state 1 looks at `ev`.
unfoldable pub round : Packet → Event → Client → Result (Client × List Packet)
round raw ev c =
    if c.state == 0 then send_packet raw c else if c.state == 1 then wait_ack ev c else ok (c, [])

-- `main` up to its loop: the buffer is read before the test of `fp`.
unfoldable pub main : Bool → Bool → Option (List ℕ) → Result Client
main socket_ok connect_ok file = do
  guard socket_ok socket_failed
  guard connect_ok connect_failed
  inp ← input_into_buffer (record {
    fp = Option.map (λ bytes. record { rest = bytes; eof = false }) file;
    currseq = 0;
    buffcount = negsuc 0;
    input_buffer = replicate (buffer_size + 1) 0;
  })
  elim inp.fp [
    | none ↦ err fopen_failed
    | some s ↦ ok (record {
      input = inp;
      heap = [];
      pkt = 0;
      last_unack = 0;
      last_seq = 0;
      state = 0;
      sent = [];
    })
  ]
