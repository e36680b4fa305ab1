-- ===== src/Merge/Exchange.antt =====
-- Practice - 2023: one field, without a loss, from the file of a client to list.txt.
use csf303_computer_networks.Prelude.{
  ℕ, ◌+◌, ◌-◌, ◌/◌, ◌%◌, ◌<◌, ◌≡◌, refl, ap, ◌∙◌, true, false, ◌==◌, some, List, [], ◌∷◌, ◌++◌,
  arith, length, c_string, ok,
}
use csf303_computer_networks.Merge.{
  Packet, Server, Socket, first, second, socket_of, Arrival, arrived, drop_packet, write, take_new,
  serve, handle, round,
}
use csf303_computer_networks.Merge.Client.{
  Client, Event, readable, went, up_to_nul, fill, read_packet, next_packet, send_next, handle_ack,
  wait_ack, waits, sends,
}
use csf303_computer_networks.Merge.Client
use csf303_computer_networks.Merge.Passes.{handle_ack_lem, next_packet-number}
use csf303_computer_networks.Merge.Fields.{
  Part, bytes_of, IsFile, IsField, IsPlain-IsText, up_to_nul-text, read_packet-part,
}
use csf303_computer_networks.Merge.Reads.{text_of-field, filled}

-- The packet for the first field of the file.
abbrev packet_of : Part → Client → Packet
packet_of p c = next_packet c.state (read_packet c.input c.pkt)

fill-len : (text : List ℕ) (pkt : Packet) → IsField text → (fill text pkt).len ≡ length text
unfolding fill
fill-len text pkt f = ap length (up_to_nul-text text (IsPlain-IsText text f.plain))

abbrev sent_client : Client → List ℕ → Packet → Client
sent_client c input pkt = record c {
  state = c.state + 1;
  input = input;
  pkt = pkt;
  sent = c.sent ++ pkt ∷ [];
}

sends-field :
    (p : Part) (ps : List Part) (c : Client) (ev : Event)
    → IsFile (p ∷ ps)
    → c.input ≡ bytes_of (p ∷ ps)
    → sends c ≡ true
    → Client.round true ev c
      ≡ ok (
          went
            (sent_client c (bytes_of ps) (next_packet c.state (bytes_of ps, fill p.field c.pkt)))
            (next_packet c.state (bytes_of ps, fill p.field c.pkt) ∷ []))
unfolding Client.round send_next IsFile
sends-field p ps c ev file at even =
    let read : read_packet c.input c.pkt ≡ (bytes_of ps, fill p.field c.pkt) =
      ap (λ l. read_packet l c.pkt) at ∙ read_packet-part p ps c.pkt file in
    let pos_len : 0 < length p.field = file.0.some_text in
    let len : (fill p.field c.pkt).len ≡ length p.field = fill-len p.field c.pkt file.0 in
    let some_len : ((fill p.field c.pkt).len == 0) ≡ false = ground arith in
    rw (even, Client.round, read, send_next, some_len) refl

acked-moves :
    (c : Client) (ack : Packet)
    → waits c ≡ true
    → ack.seq_no ≡ (c.state - 1) / 2
    → Client.round true (readable ack) c ≡ ok (went (record c { state = (c.state + 1) % 4 }) [])
unfolding Client.round wait_ack
acked-moves c ack waiting num =
    let odd : sends c ≡ false = ground arith in
    let hit : (ack.seq_no == (c.state - 1) / 2) ≡ true = ground arith in
    rw (odd, waiting, Client.round, handle_ack_lem ack c, hit) refl

-- What is behind the file, with a comma if it is not the first.
pub add_text : List ℕ → List ℕ → List ℕ
add_text [] text = text
add_text (b ∷ bs) text = (b ∷ bs) ++ (b',' ∷ text)

write-add_text :
    (pkt : Packet) (bytes text : List ℕ)
    → c_string pkt.data_bytes ≡ some text
    → write pkt (some bytes) ≡ ok (add_text bytes text)
unfolding write add_text
write-add_text pkt [] text e = rw (e, write) refl
write-add_text pkt (b ∷ bs) text e = rw (e, write) refl

abbrev ack_for : Packet → Server → Packet
ack_for pkt s = record s.ack_pkt { seq_no = pkt.seq_no }

-- The socket whose turn it is: the first one in the states 0 and 2, the second one in 1 and 3.
abbrev pub IsTurn : Socket → ℕ → Type 0
IsTurn first state = state % 2 ≡ 0
IsTurn second state = state % 2 ≡ 1

-- One arrival on a socket, and another on the other socket.
abbrev pub on : Socket → Arrival → Arrival → Socket → Arrival
on first a other first = a
on first a other second = other
on second a other first = other
on second a other second = a

on-socket_of :
    (k : Socket) (a other : Arrival) (state : ℕ)
    → IsTurn k state
    → on k a other (socket_of state) ≡ a
on-socket_of first a other state turn =
    let even : (state % 2 == 0) ≡ true = ground arith in rw even refl
on-socket_of second a other state turn =
    let odd : (state % 2 == 0) ≡ false = ground arith in rw odd refl

takes-field :
    (k : Socket) (other : Arrival) (r : ℕ) (pkt : Packet) (s : Server) (bytes text : List ℕ)
    → IsTurn k s.state
    → drop_packet r ≡ false
    → pkt.seq_no ≡ s.state / 2
    → s.file ≡ some bytes
    → c_string pkt.data_bytes ≡ some text
    → round true (on k (arrived r pkt) other) s
      ≡ ok (
        record s {
          state = (s.state + 1) % 4;
          ack_pkt = ack_for pkt s;
          file = some (add_text bytes text);
          taken = s.taken ++ pkt ∷ [];
        },
        ack_for pkt s ∷ [],
      )
unfolding round handle serve take_new
takes-field k other r pkt s bytes text turn kept due opened string =
    let hit : (pkt.seq_no == s.state / 2) ≡ true = ground arith in
    let wrote : write pkt s.file ≡ ok (add_text bytes text) =
      ap (write pkt) opened ∙ write-add_text pkt bytes text string in
    rw (on-socket_of k (arrived r pkt) other s.state turn, round)
      (rw (kept, handle, serve, hit, take_new, wrote) refl)

-- One field, without a loss. The client, running the code of client-2.c, waits for no ACK, and what
-- is left of its file is fields of 1 to 255 bytes, none of them NUL or a separator, with separators
-- between, one field at least. The 2023 server has its file open and is in a state where it is this
-- client's socket's turn, with the number that the client's state has; anything may wait on the
-- other socket. Then the client sends the field, the server puts it behind what list.txt holds, with
-- a comma between if that is not empty, and moves its state on, and its ACK moves the client on to
-- its next field.
pub round-exchange :
    (k : Socket) (other : Arrival) (p : Part) (ps : List Part) (c : Client) (ev : Event)
    (s : Server) (r : ℕ) (bytes : List ℕ)
    → IsFile (p ∷ ps)
    → c.input ≡ bytes_of (p ∷ ps)
    → sends c ≡ true
    → IsTurn k s.state
    → c.state / 2 ≡ s.state / 2
    → drop_packet r ≡ false
    → s.file ≡ some bytes
    → (c₁ c₂ : Client) × (v : Server) × (pkt ack : Packet) × (Client.round true ev c
        ≡ ok (went c₁ (pkt ∷ [])))
      × (round true (on k (arrived r pkt) other) s ≡ ok (v, ack ∷ []))
      × (Client.round true (readable ack) c₁ ≡ ok (went c₂ []))
      × (c₂.input ≡ bytes_of ps)
      × (c₂.state ≡ (c.state + 2) % 4)
      × (v.state ≡ (s.state + 1) % 4)
      × (v.file ≡ some (add_text bytes p.field))
unfolding IsFile
round-exchange k other p ps c ev s r bytes file at even turn same kept opened =
    let pkt = next_packet c.state (bytes_of ps, fill p.field c.pkt) in
    let c₁ = sent_client c (bytes_of ps) pkt in
    let num : pkt.seq_no ≡ c.state / 2 =
      next_packet-number c.state (bytes_of ps, fill p.field c.pkt) in
    let (text, has) =
      text_of-field p.field _ pkt file.0 (filled c.state (bytes_of ps) p.field c.pkt file.0) in
    let waiting : waits c₁ ≡ true = ground arith in
    let due : (ack_for pkt s).seq_no ≡ (c₁.state - 1) / 2 = num ∙ omega arith in
    let later : (c₁.state + 1) % 4 ≡ (c.state + 2) % 4 = omega arith in
    (
      c₁,
      record c₁ { state = (c₁.state + 1) % 4 },
      record s {
        state = (s.state + 1) % 4;
        ack_pkt = ack_for pkt s;
        file = some (add_text bytes p.field);
        taken = s.taken ++ pkt ∷ [];
      },
      pkt,
      ack_for pkt s,
      sends-field p ps c ev file at even,
      takes-field k other r pkt s bytes p.field turn kept (num ∙ same) opened
          (has.string ∙ ap some text),
      acked-moves c₁ (ack_for pkt s) waiting due,
      refl,
      later,
      refl,
      refl,
    )
