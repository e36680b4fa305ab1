-- ===== src/SelectiveRepeat/Client/Stale.antt =====
-- An ACK is taken for whatever packet has its slot now.
use csf303_computer_networks.Prelude.{
  ℕ, suc, ◌+◌, ◌%◌, ◌<◌, ◌≡◌, ap, sym, ◌∙◌, none, some, arith, ok, ok-eq,
}
use csf303_computer_networks.SelectiveRepeat.Packet.{
  Packet, window_size, max_seq_no, increment_seq_no, increment_seq_no-suc,
}
use csf303_computer_networks.SelectiveRepeat.Server.{SendOk}
use csf303_computer_networks.SelectiveRepeat.Client.{Client, mark, slide, ready, handle}

slide-one :
    (fuel : ℕ) (c : Client)
    → c.base < max_seq_no
    → c.acks (c.base % window_size) ≡ 1
    → c.acks ((c.base + 1) % window_size) ≡ 0
    → (slide (suc (suc fuel)) c).base ≡ c.base + 1
unfolding slide
slide-one fuel c low here there =
    let next : increment_seq_no c.base ≡ c.base + 1 = increment_seq_no-suc c.base low in
    ground (arith, next)

-- With no packet acknowledged and a base n below 1000, an ACK of packet n - 5 slides the window by
-- one packet.
pub stale_ack-slides :
    (send_ok : SendOk) (c : Client) (ack : Packet) {c' : Client}
    → ((k : ℕ) → c.acks k ≡ 0)
    → ack.seq_no + window_size ≡ c.base
    → c.base < max_seq_no
    → handle send_ok (ready (some ack) none) c ≡ ok c'
    → c'.base ≡ c.base + 1
unfolding handle
stale_ack-slides send_ok c ack {c'} unmarked old low e =
    let marked : Client = mark (some ack) c in
    let here : marked.acks (c.base % window_size) ≡ 1 = ground arith in
    let there : marked.acks ((c.base + 1) % window_size) ≡ 0 =
      ground (arith, unmarked ((c.base + 1) % window_size)) in
    sym (ap (λ d. d.base) (ok-eq (slide 6 marked) c' e)) ∙ slide-one 4 marked low here there
