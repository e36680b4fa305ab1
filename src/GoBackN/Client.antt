-- ===== src/GoBackN/Client.antt =====
-- Practice-RDT/GBN/UDP/client.c: the variables of `main`, and the parts of its loop that the client
-- over TCP has word for word.
pub mod Window
pub mod Resend
pub mod Slide
pub mod Start
use csf303_computer_networks.Prelude.{
  ℕ, zero, suc, ◌+◌, ◌-◌, ◌*◌, ◌%◌, ◌^◌, Bool, true, false, Option, none, some, List, [], ◌∷◌, ◌++◌,
  if◌then◌else◌, ltb, ◌==◌, not, ◌||◌, length, Result, ok, err, sendto_failed, ◌>>=◌,
}
use csf303_computer_networks.Prelude.Int.{ℤ, pos, sub_ℕ, quot, rem}
use csf303_computer_networks.GoBackN.Packet.{Packet, packet_size, window_size, timeout_period}
use csf303_computer_networks.GoBackN.Input.{Input, create_packet, compute, open_input}
use csf303_computer_networks.GoBackN.Input.Advance.{advance}

-- What the operating system decides: whether the calls that set the socket up succeed, whether the
-- n-th `sendto` of the process does, and what the memory for packet `n` holds when `malloc`
-- returns it.
pub record Os : Type 0 where
  pub socket_ok : Bool
  pub connect_ok : Bool
  pub bind_ok : Bool
  pub listen_ok : Bool
  pub send_ok : ℕ → Bool
  pub malloc : ℕ → Packet

pub record Timeval : Type 0 where
  pub tv_sec : ℤ
  pub tv_usec : ℤ

-- `sent_packets` is an array of WINDOW_SIZE slots, indexed by `% WINDOW_SIZE` only. `wire` is not a
-- variable: it lists what `sendto` has handed to the network, oldest first.
pub record Client : Type 0 where
  pub input : Input
  pub sent_packets : ℕ → Packet
  pub check : Bool
  pub base : ℕ
  pub nextseqnum : ℕ
  pub tv : Timeval
  pub wire : List Packet

pub data Status : Type 0 where
  waiting finished : Status

-- What `select` and the `recvfrom` behind it may do; times are in microseconds.
pub data Event : Type 0 where
  timed_out select_error recv_error : Event
  readable : ℕ → Packet → Event

abbrev pub update {ℓ} : {A : Type ℓ} → (ℕ → A) → ℕ → A → ℕ → A
update f i a j = if i == j then a else f j

unfoldable pub send : Os → Packet → Client → Result Client
send os p c =
    if os.send_ok (length c.wire)
    then ok (record c { wire = c.wire ++ p ∷ [] })
    else err sendto_failed

-- The packet for `nextseqnum`; its `finalPacket` is set to 0 whatever `compute()` returned.
unfoldable pub new_packet : Os → Client → Packet
new_packet os c = record (create_packet (os.malloc c.nextseqnum) packet_size c.nextseqnum c.input) {
  final_packet = 0;
}

-- Store the packet in its slot of the window, and count it.
abbrev pub store_packet : Packet → Client → Client
store_packet pkt c = record c {
  sent_packets = update c.sent_packets (pkt.seq_no % window_size) pkt;
  nextseqnum = c.nextseqnum + 1;
}

-- The body of the inner loop, and whether `compute()` returned 1.
unfoldable pub push_packet : Os → Client → Result (Bool × Client)
push_packet os c = do
  (last, inp) ← compute (advance c.input)
  c' ← send os (new_packet os c) (record c { input = inp })
  ok (last, store_packet (new_packet os c) c')

-- `for (int i = base; i < nextseqnum; i++)`: send what slot `i % WINDOW_SIZE` holds, `n` times.
unfoldable pub resend : Os → ℕ → ℕ → Client → Result Client
resend os zero i c = ok c
resend os (suc n) i c = do c' ← send os (c.sent_packets (i % window_size)) c; resend os n (i + 1) c'

abbrev pub full_period : Timeval
full_period = record { tv_sec = pos timeout_period; tv_usec = pos 0 }

-- `rem_time` split into seconds and microseconds.
abbrev pub remaining : ℕ → Timeval
remaining elapsed =
    let rem_time = sub_ℕ (timeout_period * 1000000) elapsed in
    record { tv_sec = quot rem_time 1000000; tv_usec = rem rem_time 1000000 }

-- `while (!check || (base < nextseqnum))`
abbrev pub goes_on : Client → Bool
goes_on c = not c.check || ltb c.base c.nextseqnum

-- The variables at the head of the loop; `sent_packets` is not initialised.
unfoldable pub start : (ℕ → Packet) → Option (List ℕ) → Result Client
start slots file = do
  inp ← open_input file
  ok (record {
    input = inp;
    sent_packets = slots;
    check = false;
    base = 1;
    nextseqnum = 1;
    tv = full_period;
    wire = [];
  })
