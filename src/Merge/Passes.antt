-- ===== src/Merge/Passes.antt =====
-- Practice - 2023/client-2.c: what a pass of the loop has read, sent and changed.
use csf303_computer_networks.Prelude.{
  ℕ, ◌+◌, ◌-◌, ◌/◌, ◌%◌, ◌≡◌, refl, ap, inl, inr, Bool, true, false, Bool-cases, ◌==◌, ◌||◌, ◌&&◌,
  if◌then◌else◌, List, [], ◌∷◌, ◌++◌, arith, ok, ok-eq, err, sendto_failed,
}
use csf303_computer_networks.Merge.{Packet}
use csf303_computer_networks.Merge.Client.{
  Client, Event, Pass, exited, went, read_packet, next_packet, send_next, handle_ack, wait_ack,
  waits, sends, round,
}

-- What a pass that went on says of the client and the packets.
pub went-eq :
    {c c' : Client} {out out' : List Packet}
    → ok (went c out) ≡ ok (went c' out')
    → (c ≡ c') × (out ≡ out')
went-eq {c} {c'} {out} {out'} e =
    let same : went c out ≡ went c' out' = ok-eq (went c out) (went c' out') e in
    (
      ap (λ p. elim p [ exited ↦ c | went x o ↦ x ]) same,
      ap (λ p. elim p [ exited ↦ out | went x o ↦ o ]) same,
    )

-- The client whose packet has been sent.
abbrev pub sending : Client → List ℕ → Packet → Client
sending c input pkt = record c {
  state = c.state + 1;
  input = input;
  pkt = pkt;
  sent = c.sent ++ pkt ∷ [];
}

pub next_packet-number :
    (state : ℕ) (read : List ℕ × Packet) → (next_packet state read).seq_no ≡ state / 2
unfolding next_packet
next_packet-number state (rest, pkt) = refl

-- The second test of `handle_ack` never holds where the first does not.
pub handle_ack_lem :
    (ack : Packet) (c : Client)
    → handle_ack ack ((c.state - 1) / 2) ((c.state + 1) % 4) c
      ≡ (if ack.seq_no == (c.state - 1) / 2 then record c { state = (c.state + 1) % 4 } else c)
unfolding handle_ack
handle_ack_lem ack c = elim (Bool-cases (ack.seq_no == (c.state - 1) / 2)) [
  | inl same ↦ rw (same, handle_ack) refl
  | inr other ↦
      let never : (ack.seq_no == 1 && c.state == 3) ≡ false = ground arith in
      rw (other, never, handle_ack) refl
]

pub round-sends :
    (send_ok : Bool) (ev : Event) (c : Client) {p : Pass}
    → sends c ≡ true
    → round send_ok ev c ≡ ok p
    → send_next send_ok c ≡ ok p
unfolding round
round-sends send_ok ev c even e = rw (even, round) at e

odd-no-send : (n : ℕ) → (n == 1 || n == 3) ≡ true → (n == 0 || n == 2) ≡ false
odd-no-send n h = ground arith

pub round-waits :
    (send_ok : Bool) (ev : Event) (c : Client) {p : Pass}
    → waits c ≡ true
    → round send_ok ev c ≡ ok p
    → wait_ack send_ok ev c ≡ ok p
unfolding round
round-waits send_ok ev c on e = rw (odd-no-send c.state on, on, round) at e

-- What a pass that sends has read and sent.
pub send_next-went :
    (send_ok : Bool) (c : Client) {c' : Client} {out : List Packet}
    → send_next send_ok c ≡ ok (went c' out)
    → (input : List ℕ) × (pkt : Packet) × (next_packet c.state (read_packet c.input c.pkt) ≡ pkt)
      × ((read_packet c.input c.pkt).0 ≡ input)
      × (((read_packet c.input c.pkt).1.len == 0) ≡ false)
      × (sending c input pkt ≡ c')
      × (pkt ∷ [] ≡ out)
unfolding send_next
send_next-went send_ok c {c'} {out} e =
    let read = read_packet c.input c.pkt in
    let pkt = next_packet c.state read in
    elim (Bool-cases (read.1.len == 0)) [
      | inl none ↦
          let clash : ok exited ≡ ok (went c' out) = rw (none, send_next) at e in absurd (cc)
      | inr some ↦ elim (Bool-cases send_ok) [
        | inr bad ↦
            let clash : err sendto_failed ≡ ok (went c' out) = rw (some, bad, send_next) at e in
            absurd (cc)
        | inl good ↦
            let done : ok (went (sending c read.0 pkt) (pkt ∷ [])) ≡ ok (went c' out) =
              rw (some, good, send_next) at e in
            let (same, sent) = went-eq done in (read.0, pkt, refl, refl, some, same, sent)
      ]
    ]
