-- ===== src/SelectiveRepeat/Client/Resend.antt =====
-- A timeout sends exactly what is not acknowledged.
use csf303_computer_networks.Prelude.{
  ℕ, zero, suc, ◌+◌, ◌-◌, ◌%◌, ◌≤◌, ◌<◌, ◌≡◌, ◌⊎◌, ==→eq, refl, ap, sym, ◌∙◌, inl, inr, Bool-cases,
  ◌==◌, some, List, [], ◌∷◌, ◌++◌, append-nil, append_assoc, arith, ok, All, All-mono, get_elem?,
  >>=-eq-ok, ok-eq,
}
use native.Mathlib.Decide.{dec_lt}
use csf303_computer_networks.SelectiveRepeat.Packet.{Packet, window_size}
use csf303_computer_networks.SelectiveRepeat.Server.{Channel, r1, r2, SendOk}
use csf303_computer_networks.SelectiveRepeat.Client.{Client, route, send, resend, timed_out, handle}
use csf303_computer_networks.SelectiveRepeat.Client.Window.{HasWindow, send-ok}

-- The relay for a number: R1 has the odd ones and R2 the even ones.
abbrev pub IsChannelOf : ℕ → Channel → Type 0
IsChannelOf n ch = ((n % 2 ≡ 1) × (ch ≡ r1)) ⊎ ((n % 2 ≡ 0) × (ch ≡ r2))

route-IsChannelOf : (n : ℕ) → IsChannelOf n (route n)
route-IsChannelOf n = elim (Bool-cases (n % 2 == 1)) [
  | inl odd ↦ inl (omega (arith, ==→eq (n % 2) 1 odd), rw odd)
  | inr even ↦ inr (ground arith, rw even)
]

-- A packet of the window from number `i` on that is not acknowledged, on its channel.
abbrev pub IsPending : Client → ℕ → Channel × Packet → Type 0
IsPending c i (ch, p) =
    (i ≤ p.seq_no)
    × (p.seq_no < c.currseq)
    × (c.acks (p.seq_no % window_size) ≡ 0)
    × IsChannelOf p.seq_no ch

pub record Resends (c : Client) (i : ℕ) (c' : Client) : Type 0 where
  pub sent : List (Channel × Packet)
  pub packet : Packet
  pub after : record c { packet = packet; wire = c.wire ++ sent } ≡ c'
  pub pending : All (IsPending c i) sent
  pub complete :
      (j : ℕ)
      → i ≤ j
      → j < c.currseq
      → c.acks (j % window_size) ≡ 0
      → (k : ℕ) × (ch : Channel) × (get_elem? sent k ≡ some (ch, c.sent_packets (j % window_size)))
        × IsChannelOf j ch

resend-Resends :
    (send_ok : SendOk) (n i : ℕ) (c : Client) {c' : Client}
    → i + n ≡ c.currseq
    → ((j : ℕ) → i ≤ j → j < c.currseq → (c.sent_packets (j % window_size)).seq_no ≡ j)
    → resend send_ok n i c ≡ ok c'
    → Resends c i c'
unfolding resend
resend-Resends send_ok zero i c {c'} len slots e = record {
  sent = [];
  packet = c.packet;
  after = rw append-nil (ok-eq c c' e);
  pending = tt;
  complete = λ j low high free. absurd (omega arith);
}
resend-Resends send_ok (suc n) i c {c'} len slots e =
    elim (Bool-cases (c.acks (i % window_size) == 0)) [
      | inr acked ↦
          let r =
            resend-Resends send_ok n (i + 1) c (omega arith)
              (λ j low high. slots j (omega arith) high) (rw (acked, resend) at e) in
          record {
            sent = r.sent;
            packet = r.packet;
            after = r.after;
            pending =
                All-mono (IsPending c (i + 1)) (IsPending c i) r.sent
                  (λ (ch, p) h. (omega (arith, h.0), h.1, h.2, h.3)) r.pending;
            complete = λ j low high free. elim (dec_lt i j) [
              | yes above ↦ r.complete j (omega arith) high free
              | no here ↦ let same : i ≡ j = omega arith in absurd (ground arith)
            ];
          }
      | inl free ↦
          let p : Packet = c.sent_packets (i % window_size) in
          let c₀ : Client = record c { packet = p } in
          let (c₁, e₁, e₂) = >>=-eq-ok (send send_ok (route i) p c₀) _ (rw (free, resend) at e) in
          let out = send-ok send_ok (route i) p c₀ e₁ in
          let c₂ : Client = record c { packet = p; wire = c.wire ++ (route i, p) ∷ [] } in
          let r =
            resend-Resends send_ok n (i + 1) c₂ (omega arith)
              (λ j low high. slots j (omega arith) high) (rw out e₂) in
          let num : p.seq_no ≡ i = slots i (omega arith) (omega arith) in
          record {
            sent = (route i, p) ∷ r.sent;
            packet = r.packet;
            after =
                ap (λ w. record c { packet = r.packet; wire = w })
                  (sym (append_assoc c.wire ((route i, p) ∷ []) r.sent))
                ∙ r.after;
            pending = (
              (
                omega (arith, num),
                omega (arith, num),
                ap (λ m. c.acks (m % window_size)) num ∙ ground arith,
                rw num (route-IsChannelOf i),
              ),
              All-mono (IsPending c (i + 1)) (IsPending c i) r.sent
                  (λ (ch, q) h. (omega (arith, h.0), h.1, h.2, h.3)) r.pending,
            );
            complete = λ j low high none_yet. elim (dec_lt i j) [
              | yes above ↦
                  let (k, ch, found, by) = r.complete j (omega arith) high none_yet in
                  (suc k, ch, found, by)
              | no here ↦
                  let same : i ≡ j = omega arith in
                  rw (← same) (0, route i, refl, route-IsChannelOf i)
            ];
          }
    ]

nothing_sent :
    (send_ok : SendOk) (c : Client) {c' : Client}
    → c.currseq < c.base
    → resend send_ok (c.currseq - c.base) c.base c ≡ ok c'
    → Resends c c.base c'
unfolding resend
nothing_sent send_ok c {c'} wrapped e =
    let none_left : c.currseq - c.base ≡ 0 = omega arith in
    record {
      sent = [];
      packet = c.packet;
      after = rw append-nil (ok-eq c c' (rw (none_left, resend) at e));
      pending = tt;
      complete = λ j low high free. absurd (omega arith);
    }

-- With a window whose slots hold their numbers, a timeout that does not end the process sends the
-- packets of the numbers from `base` up to `currseq` that are not acknowledged, all of them and no
-- other, the odd ones by R1 and the even ones by R2. Where `currseq` has wrapped and lies below
-- `base`, there are no such numbers, and nothing is sent.
pub timed_out-Resends :
    (send_ok : SendOk) (c : Client) {c' : Client}
    → HasWindow c
    → handle send_ok timed_out c ≡ ok c'
    → Resends c c.base c'
unfolding handle
timed_out-Resends send_ok c w e = elim (dec_lt c.currseq c.base) [
  | no low ↦
      resend-Resends send_ok (c.currseq - c.base) c.base c (omega arith)
        (λ j from high. w.slots j high (omega (arith, w.room))) e
  | yes wrapped ↦ nothing_sent send_ok c wrapped e
]
