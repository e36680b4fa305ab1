-- ===== src/Merge/Client.antt =====
-- Practice - 2023/client-2.c: a client, which sends the fields of its file by stop and wait. Where
-- the file holds an unresolved merge, this is the side called HEAD.
-- The scanning of a field is that of Lab10/client.c.
use csf303_computer_networks.Prelude.{
  ℕ, ◌+◌, ◌-◌, ◌/◌, ◌%◌, Bool, ◌||◌, ◌&&◌, Option, none, some, List, [], ◌∷◌, ◌++◌, if◌then◌else◌,
  ◌==◌, length, replicate, c_string, Result, ok, err, socket_failed, fopen_failed, sendto_failed,
  recvfrom_failed, select_failed, guard, ◌>>=◌, ◌>>◌,
}
use csf303_computer_networks.StopAndWait.Scan.{scan_field, skip_separators}
use csf303_computer_networks.Merge.{Packet, max_data_size}

-- An array up to its first NUL, or whole.
abbrev pub up_to_nul : List ℕ → List ℕ
up_to_nul bytes = elim (c_string (bytes ++ 0 ∷ [])) [ none ↦ [] | some text ↦ text ]

-- `strncpy`, the NUL at the end, `strlen`.
unfoldable pub fill : List ℕ → Packet → Packet
fill value pkt =
    let text = up_to_nul value in
    record pkt {
      data_bytes = text ++ replicate (max_data_size - length text) 0;
      len = length text;
      seq_no = 0;
    }

-- The two branches of `read_packet`: nothing is matched, or a field.
unfoldable pub store_field : Packet → List ℕ × List ℕ → List ℕ × Packet
store_field pkt ([], rest) = (rest, record pkt { len = 0 })
store_field pkt (b ∷ bs, rest) = (skip_separators rest, fill (b ∷ bs) pkt)

-- `read_packet`, with what is left of the file.
unfoldable pub read_packet : List ℕ → Packet → List ℕ × Packet
read_packet input pkt = store_field pkt (scan_field (max_data_size - 1) input)

-- The state of `main`: `input` is what is left of the file, and `sent` lists the packets sent, each
-- once.
pub record Client : Type 0 where
  pub state : ℕ
  pub input : List ℕ
  pub pkt : Packet
  pub sent : List Packet

-- What `select` and `recvfrom` come back with.
pub data Event : Type 0 where
  select_error timed_out recv_error : Event
  readable : Packet → Event

-- A pass of the loop goes on, with the packets that it sends, or is the last.
pub data Pass : Type 0 where
  exited : Pass
  went : Client → List Packet → Pass

-- `final_packet` is set at the end of the file, and `seq_no`.
unfoldable pub next_packet : ℕ → List ℕ × Packet → Packet
next_packet state (rest, pkt) = record pkt {
  seq_no = state / 2;
  final_packet = elim rest [ [] ↦ 1 | (b ∷ bs) ↦ pkt.final_packet ];
}

-- Cases 0 and 2.
unfoldable pub send_next : Bool → Client → Result Pass
send_next send_ok c =
    let read = read_packet c.input c.pkt in
    let pkt : Packet = next_packet c.state read in
    if read.1.len == 0
    then ok exited
    else if send_ok
    then ok (
        went
          (record c { state = c.state + 1; input = read.0; pkt = pkt; sent = c.sent ++ pkt ∷ [] })
          (pkt ∷ []))
    else err sendto_failed

-- `handle_ack`, behind `recvfrom`.
unfoldable pub handle_ack : Packet → ℕ → ℕ → Client → Client
handle_ack rcv_ack ack_no next_state c =
    if rcv_ack.seq_no == ack_no
    then record c { state = next_state }
    else if rcv_ack.seq_no == 1 && c.state == 3
    then record c { state = 0 }
    else c

-- `handle_timeout`
unfoldable pub handle_timeout : Bool → Client → Result Pass
handle_timeout send_ok c = if send_ok then ok (went c (c.pkt ∷ [])) else err sendto_failed

-- Cases 1 and 3.
unfoldable pub wait_ack : Bool → Event → Client → Result Pass
wait_ack send_ok select_error c = err select_failed
wait_ack send_ok recv_error c = err recvfrom_failed
wait_ack send_ok timed_out c = handle_timeout send_ok c
wait_ack send_ok (readable rcv_ack) c =
    ok (went (handle_ack rcv_ack ((c.state - 1) / 2) ((c.state + 1) % 4) c) [])

abbrev pub waits : Client → Bool
waits c = c.state == 1 || c.state == 3

abbrev pub sends : Client → Bool
sends c = c.state == 0 || c.state == 2

-- One pass of the loop. Only a state that waits looks at `ev`.
unfoldable pub round : Bool → Event → Client → Result Pass
round send_ok ev c =
    if sends c
    then send_next send_ok c
    else if waits c
    then wait_ack send_ok ev c
    else ok (went c [])

abbrev pub open_read : Option (List ℕ) → Result (List ℕ)
open_read none = err fopen_failed
open_read (some bytes) = ok bytes

-- `main` up to its loop; `final_packet` and `type` are not initialised.
unfoldable pub main : Bool → Option (List ℕ) → Packet → Result Client
main socket_ok file raw = do
  guard socket_ok socket_failed
  bytes ← open_read file
  ok (record {
    state = 0;
    input = bytes;
    pkt = record raw {
      ack_or_data = 0;
      seq_no = 0;
      len = 0;
      data_bytes = replicate max_data_size 0;
    };
    sent = [];
  })
