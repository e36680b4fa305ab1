-- ===== src/SelectiveRepeat/Server.antt =====
-- Practice-RDT/SR/UDP_selectiverepeat/server.c: the receiver of Selective Repeat.
pub mod Exact
pub mod Slide
use csf303_computer_networks.Prelude.{
  ℕ, zero, suc, ◌+◌, ◌-◌, ◌%◌, Bool, true, false, Option, none, some, List, [], ◌∷◌, ◌++◌,
  if◌then◌else◌, ltb, leb, ◌==◌, ◌&&◌, ◌||◌, length, Result, ok, err, sendto_failed,
  recvfrom_failed, select_failed, socket_failed, bind_failed, fopen_failed, guard, ◌>>◌, ◌>>=◌,
}
use csf303_computer_networks.SelectiveRepeat.Packet.{Packet, window_size, increment_seq_no}

-- The two sockets, `s[0]` towards R1 and `s[1]` towards R2.
pub data Channel : Type 0 where
  r1 r2 : Channel

-- One call of `fwrite(rcv_pkt.payload, 1, recv_len, fp)`.
pub record Write : Type 0 where
  pub rcv_pkt : Packet
  pub recv_len : ℕ

-- `ackd` is an array of WINDOW_SIZE ints, indexed by `% WINDOW_SIZE` only. `ack_pkt` has its
-- `seq_no` set and nothing else. `output` and `wire` list the writes and the ACKs, oldest first.
pub record Server : Type 0 where
  pub rcv_base : ℕ
  pub ackd : ℕ → ℕ
  pub ack_pkt : Packet
  pub output : List Write
  pub wire : List (Channel × Packet)

-- A datagram and its length, or -1.
pub data Arrival : Type 0 where
  recv_error : Arrival
  datagram : Packet → ℕ → Arrival

abbrev pub start : Packet → Server
start raw = record { rcv_base = 0; ackd = λ _. 0; ack_pkt = raw; output = []; wire = [] }

abbrev pub update {ℓ} : {A : Type ℓ} → (ℕ → A) → ℕ → A → ℕ → A
update f i a j = if i == j then a else f j

-- `seq_no >= rcv_base && seq_no < rcv_base + WINDOW_SIZE`
abbrev pub in_window : ℕ → ℕ → Bool
in_window base n = leb base n && ltb n (base + window_size)

-- `seq_no <= rcv_base - 1 && seq_no >= rcv_base - WINDOW_SIZE`, with `int` differences.
abbrev pub in_previous : ℕ → ℕ → Bool
in_previous base n = leb (n + 1) base && leb base (n + window_size)

-- Whether the n-th `sendto` of the process succeeds.
abbrev pub SendOk : Type 0
SendOk = ℕ → Bool

-- Mark and write a packet of the window that is new.
unfoldable pub accept : Packet → ℕ → Server → Server
accept pkt len s =
    if in_window s.rcv_base pkt.seq_no && s.ackd (pkt.seq_no % window_size) == 0
    then record s {
      ackd = update s.ackd (pkt.seq_no % window_size) 1;
      output = s.output ++ record { rcv_pkt = pkt; recv_len = len } ∷ [];
    }
    else s

unfoldable pub send_ack : SendOk → Channel → ℕ → Server → Result Server
send_ack send_ok ch n s =
    let ack : Packet = record s.ack_pkt { seq_no = n } in
    if send_ok (length s.wire)
    then ok (record s { ack_pkt = ack; wire = s.wire ++ (ch, ack) ∷ [] })
    else err sendto_failed

-- A socket that is ready: a packet of the current or the previous window is acknowledged.
unfoldable pub receive : SendOk → Channel → Arrival → Server → Result Server
receive send_ok ch recv_error s = err recvfrom_failed
receive send_ok ch (datagram pkt len) s =
    if in_window s.rcv_base pkt.seq_no || in_previous s.rcv_base pkt.seq_no
    then (do s' ← send_ack send_ok ch pkt.seq_no s; ok (accept pkt len s'))
    else ok s

-- `while (ackd[rcv_base % WINDOW_SIZE] == 1)`, at most `fuel` times.
unfoldable pub slide : ℕ → Server → Server
slide zero s = s
slide (suc fuel) s =
    let rest = slide fuel (record s {
      ackd = update s.ackd (s.rcv_base % window_size) 0;
      rcv_base = increment_seq_no s.rcv_base;
    }) in
    if s.ackd (s.rcv_base % window_size) == 1 then rest else s

abbrev pub from {ℓ} :
    {A : Type ℓ} → Option A → (A → Server → Result Server) → Server → Result Server
from none f s = ok s
from (some a) f s = f a s

-- What `select` says: it fails, or each socket is set, with what `recvfrom` then returns, or not.
pub data Activity : Type 0 where
  select_error : Activity
  ready : Option Arrival → Option Arrival → Activity

-- One round of the loop. Every pass of the last loop clears a flag, so that it makes one pass for
-- each slot at most.
unfoldable pub round : SendOk → Activity → Server → Result Server
round send_ok select_error s = err select_failed
round send_ok (ready from_r1 from_r2) s = do
  s₁ ← from from_r1 (receive send_ok r1) s
  s₂ ← from from_r2 (receive send_ok r2) s₁
  ok (slide (window_size + 1) s₂)

-- Rounds in sequence; the loop has no other end than a failure.
unfoldable pub run : SendOk → List Activity → Server → Result Server
run send_ok [] s = ok s
run send_ok (a ∷ rest) s = do s' ← round send_ok a s; run send_ok rest s'

-- `main` up to its loop: two sockets, bound to two ports, and the file for the output.
unfoldable pub main : Bool → Bool → Bool → Bool → Bool → Packet → Result Server
main socket_1 socket_2 bind_1 bind_2 fopen_ok raw = do
  guard socket_1 socket_failed
  guard socket_2 socket_failed
  guard bind_1 bind_failed
  guard bind_2 bind_failed
  guard fopen_ok fopen_failed
  ok (start raw)
