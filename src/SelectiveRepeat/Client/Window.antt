-- ===== src/SelectiveRepeat/Client/Window.antt =====
-- The sender's window below the wrap of the numbers: what the slots hold, and what a timeout sends.
use csf303_computer_networks.Prelude.{
  ℕ, zero, suc, ◌+◌, ◌%◌, ◌≤◌, ◌<◌, ◌≡◌, refl, ap, sym, subst, ◌∙◌, inl, inr, not, ◌&&◌, Bool-cases,
  ltb, [], ◌∷◌, ◌++◌, arith, ok, All, All-append, >>=-eq-ok, ok-eq,
}
use csf303_computer_networks.SelectiveRepeat.Packet.{
  Packet, window_size, max_seq_no, increment_seq_no, increment_seq_no-suc,
}
use csf303_computer_networks.SelectiveRepeat.Server.{Channel, SendOk, update}
use csf303_computer_networks.SelectiveRepeat.Client.{
  Client, route, send, read_packet, push_packet, fill,
}

-- Every packet travels by the relay of its number's parity.
abbrev pub IsRouted : Channel × Packet → Type 0
IsRouted (ch, p) = ch ≡ route p.seq_no

pub record HasWindow (c : Client) : Type 0 where
  pub room : c.currseq ≤ c.base + window_size
  pub slots :
      (i : ℕ)
      → i < c.currseq
      → c.currseq ≤ i + window_size
      → (c.sent_packets (i % window_size)).seq_no ≡ i
  pub wire : All IsRouted c.wire

pub send-ok :
    (send_ok : SendOk) (ch : Channel) (p : Packet) (c : Client) {c' : Client}
    → send send_ok ch p c ≡ ok c'
    → record c { wire = c.wire ++ (ch, p) ∷ [] } ≡ c'
unfolding send
send-ok send_ok ch p c e = ground arith

-- What the inner loop sends and stores for `currseq`.
abbrev pub pushed : Client → Client
pushed c = record c {
  fp = (read_packet c).1;
  packet = (read_packet c).0;
  wire = c.wire ++ (route c.currseq, (read_packet c).0) ∷ [];
  sent_packets = update c.sent_packets (c.currseq % window_size) (read_packet c).0;
  acks = update c.acks (c.currseq % window_size) 0;
  currseq = increment_seq_no c.currseq;
}

pub push_packet-ok :
    (send_ok : SendOk) (c : Client) {c' : Client} → push_packet send_ok c ≡ ok c' → pushed c ≡ c'
unfolding push_packet
push_packet-ok send_ok c {c'} e =
    let (pkt, fp) = read_packet c in
    let (c₁, e₁, e₂) =
      >>=-eq-ok (send send_ok (route c.currseq) pkt (record c { fp = fp; packet = pkt })) _ e in
    let stored : Client → Client = λ d. record d {
      sent_packets = update c.sent_packets (c.currseq % window_size) pkt;
      acks = update c.acks (c.currseq % window_size) 0;
      currseq = increment_seq_no c.currseq;
    } in
    ap stored (send-ok send_ok (route c.currseq) pkt (record c { fp = fp; packet = pkt }) e₁)
    ∙ ok-eq (stored c₁) c' e₂

seq_no-read_packet : (c : Client) → (read_packet c).0.seq_no ≡ c.currseq
unfolding read_packet
seq_no-read_packet c = refl

pushed-HasWindow :
    (c : Client)
    → HasWindow c
    → c.currseq < c.base + window_size
    → c.currseq < max_seq_no
    → HasWindow (pushed c)
pushed-HasWindow c w free low =
    let next : increment_seq_no c.currseq ≡ c.currseq + 1 = increment_seq_no-suc c.currseq low in
    record {
      room = omega (arith, next);
      slots = λ i lt near. ground (arith, next, seq_no-read_packet c, w.slots i);
      wire =
          All-append IsRouted c.wire ((route c.currseq, (read_packet c).0) ∷ []) w.wire
            (ap route (sym (seq_no-read_packet c)), tt);
    }

-- A client's window, with the base that it had.
abbrev pub Keeps : ℕ → Client → Type 0
Keeps b c = HasWindow c × (c.base ≡ b)

pub fill-Keeps :
    (send_ok : SendOk) (fuel b : ℕ) (c : Client) {c' : Client}
    → b + window_size ≤ max_seq_no
    → Keeps b c
    → fill send_ok fuel c ≡ ok c'
    → Keeps b c'
unfolding fill
fill-Keeps send_ok zero b c {c'} small k e = subst (Keeps b) (ok-eq c c' e) k
fill-Keeps send_ok (suc fuel) b c {c'} small k e =
    elim (Bool-cases (ltb c.currseq (c.base + window_size) && not c.fp.eof)) [
      | inr stop ↦ subst (Keeps b) (ok-eq c c' (rw (stop, fill) at e)) k
      | inl on ↦
          let (c₁, e₁, e₂) = >>=-eq-ok (push_packet send_ok c) _ (rw (on, fill) at e) in
          let free : c.currseq < c.base + window_size = ground arith in
          let p = pushed-HasWindow c k.0 free (omega (arith, k.1)) in
          fill-Keeps send_ok fuel b c₁ small
            (subst (Keeps b) (push_packet-ok send_ok c e₁) (p, k.1)) e₂
    ]
