-- ===== src/SelectiveRepeat/Server/Exact.antt =====
-- Which packets are written, and how often: the flags and the base say it exactly, as long as the
-- sequence numbers do not wrap.
use csf303_computer_networks.Prelude.{
  ℕ, zero, suc, ◌+◌, ◌%◌, ◌≤◌, ◌<◌, ◌≡◌, ap, sym, subst, ◌∙◌, inl, inr, true, ◌&&◌, ◌||◌,
  Bool-cases, ltb, ◌==◌, if◌then◌else◌, Option, none, some, List, [], ◌∷◌, ◌++◌, arith, ok, All,
  All-append, All-mono, >>=-eq-ok, ok-eq,
}
use csf303_computer_networks.SelectiveRepeat.Packet.{
  Packet, window_size, max_seq_no, increment_seq_no, increment_seq_no-suc,
}
use csf303_computer_networks.SelectiveRepeat.Server.{
  Channel, Write, Server, Arrival, recv_error, datagram, Activity, select_error, ready, SendOk,
  update, start, accept, send_ack, receive, slide, round, run, in_window, in_previous, from, r1, r2,
}

-- How often packet `n` is written.
pub times : ℕ → List Write → ℕ
times n [] = 0
times n (w ∷ ws) = (if w.rcv_pkt.seq_no == n then 1 else 0) + times n ws

times-snoc :
    (n : ℕ) (ws : List Write) (w : Write)
    → times n (ws ++ w ∷ []) ≡ times n ws + (if w.rcv_pkt.seq_no == n then 1 else 0)
unfolding times
times-snoc n [] w = omega arith
times-snoc n (v ∷ ws) w = omega (arith, times-snoc n ws w)

-- Once below the base, by its flag in the window, never above.
abbrev pub due : Server → ℕ → ℕ
due s n =
    if ltb n s.rcv_base
    then 1
    else if ltb n (s.rcv_base + window_size)
    then s.ackd (n % window_size)
    else 0

abbrev pub Acknowledges : List Write → Channel × Packet → Type 0
Acknowledges ws (ch, a) = 1 ≤ times a.seq_no ws

pub record IsExact (s : Server) : Type 0 where
  pub flags : (k : ℕ) → s.ackd k ≤ 1
  pub written : (n : ℕ) → times n s.output ≡ due s n
  pub small : (n : ℕ) → 1 ≤ times n s.output → n < max_seq_no
  pub acks : All (Acknowledges s.output) s.wire

pub start-IsExact : (raw : Packet) → IsExact (start raw)
unfolding times
start-IsExact raw = record {
  flags = λ k. omega arith;
  written = λ n. ground arith;
  small = λ n h. absurd (omega arith);
  acks = tt;
}

accept-IsExact :
    (pkt : Packet) (len : ℕ) (s : Server)
    → pkt.seq_no < max_seq_no
    → IsExact s
    → IsExact (accept pkt len s)
unfolding accept
accept-IsExact pkt len s lt x =
    elim (Bool-cases (in_window s.rcv_base pkt.seq_no && s.ackd (pkt.seq_no % window_size) == 0)) [
      | inr old ↦
          rw (old, accept)
            (record { flags = x.flags; written = x.written; small = x.small; acks = x.acks })
      | inl new ↦
          rw (new, accept)
            (record {
              flags = λ k. ground (arith, x.flags k);
              written = λ n. ground (
                arith,
                x.written n,
                times-snoc n s.output (record { rcv_pkt = pkt; recv_len = len }),
              );
              small = λ n h. ground (
                arith,
                x.small n,
                times-snoc n s.output (record { rcv_pkt = pkt; recv_len = len }),
              );
              acks =
                  All-mono (Acknowledges s.output)
                    (Acknowledges (s.output ++ record { rcv_pkt = pkt; recv_len = len } ∷ []))
                    s.wire
                    (λ (ch, a) h. omega (
                      arith,
                      times-snoc a.seq_no s.output (record { rcv_pkt = pkt; recv_len = len }),
                    ))
                    x.acks;
            })
    ]

accept-written :
    (pkt : Packet) (len : ℕ) (s : Server)
    → IsExact s
    → (in_window s.rcv_base pkt.seq_no || in_previous s.rcv_base pkt.seq_no) ≡ true
    → 1 ≤ times pkt.seq_no (accept pkt len s).output
unfolding accept
accept-written pkt len s x h = ground (
  arith,
  x.written pkt.seq_no,
  x.flags (pkt.seq_no % window_size),
  times-snoc pkt.seq_no s.output (record { rcv_pkt = pkt; recv_len = len }),
)

-- `accept` does not look at the ACKs.
abbrev with_ack : Channel → ℕ → Server → Server
with_ack ch n s = record s {
  ack_pkt = record s.ack_pkt { seq_no = n };
  wire = s.wire ++ (ch, record s.ack_pkt { seq_no = n }) ∷ [];
}

accept-with_ack :
    (ch : Channel) (pkt : Packet) (len n : ℕ) (s : Server)
    → accept pkt len (with_ack ch n s) ≡ with_ack ch n (accept pkt len s)
unfolding accept
accept-with_ack ch pkt len n s =
    elim (Bool-cases (in_window s.rcv_base pkt.seq_no && s.ackd (pkt.seq_no % window_size) == 0)) [
      | inr old ↦ rw (old, accept)
      | inl new ↦ rw (new, accept)
    ]

with_ack-IsExact :
    (ch : Channel) (n : ℕ) (s : Server)
    → IsExact s
    → 1 ≤ times n s.output
    → IsExact (with_ack ch n s)
with_ack-IsExact ch n s x h = record {
  flags = x.flags;
  written = x.written;
  small = x.small;
  acks =
      All-append (Acknowledges s.output) s.wire ((ch, record s.ack_pkt { seq_no = n }) ∷ []) x.acks
        (h, tt);
}

-- What the network delivers: data packets below `max_seq_no`.
abbrev pub IsSmall : Arrival → Type 0
IsSmall recv_error = Unit
IsSmall (datagram pkt len) = pkt.seq_no < max_seq_no

abbrev IsSmallOption : Option Arrival → Type 0
IsSmallOption none = Unit
IsSmallOption (some a) = IsSmall a

abbrev pub AllSmall : Activity → Type 0
AllSmall select_error = Unit
AllSmall (ready o₁ o₂) = IsSmallOption o₁ × IsSmallOption o₂

send_ack-ok :
    (send_ok : SendOk) (ch : Channel) (n : ℕ) (s : Server) {s' : Server}
    → send_ack send_ok ch n s ≡ ok s'
    → with_ack ch n s ≡ s'
unfolding send_ack
send_ack-ok send_ok ch n s e = ground arith

receive-IsExact :
    (send_ok : SendOk) (ch : Channel) (a : Arrival) (s : Server) {s' : Server}
    → IsSmall a
    → IsExact s
    → receive send_ok ch a s ≡ ok s'
    → IsExact s'
unfolding receive
receive-IsExact send_ok ch recv_error s lt x e = absurd (cc)
receive-IsExact send_ok ch (datagram pkt len) s {s'} lt x e =
    elim (Bool-cases (in_window s.rcv_base pkt.seq_no || in_previous s.rcv_base pkt.seq_no)) [
      | inr ignored ↦ subst IsExact (ok-eq s s' (rw (ignored, receive) at e)) x
      | inl known ↦
          let (s₁, e₁, e₂) =
            >>=-eq-ok (send_ack send_ok ch pkt.seq_no s) _ (rw (known, receive) at e) in
          let sent : with_ack ch pkt.seq_no s ≡ s₁ = send_ack-ok send_ok ch pkt.seq_no s e₁ in
          let same : with_ack ch pkt.seq_no (accept pkt len s) ≡ s' =
            sym (accept-with_ack ch pkt len pkt.seq_no s)
            ∙ ap (accept pkt len) sent
            ∙ ok-eq (accept pkt len s₁) s' e₂ in
          subst IsExact same (
            with_ack-IsExact ch pkt.seq_no (accept pkt len s) (accept-IsExact pkt len s lt x)
              (accept-written pkt len s x known))
    ]

-- One pass of the loop: the flag at the base is the written packet `rcv_base`.
slid-IsExact :
    (s : Server)
    → IsExact s
    → (s.ackd (s.rcv_base % window_size) == 1) ≡ true
    → IsExact (record s {
      ackd = update s.ackd (s.rcv_base % window_size) 0;
      rcv_base = increment_seq_no s.rcv_base;
    })
slid-IsExact s x on =
    let once : times s.rcv_base s.output ≡ 1 = ground (arith, x.written s.rcv_base) in
    let next : increment_seq_no s.rcv_base ≡ s.rcv_base + 1 =
      increment_seq_no-suc s.rcv_base (x.small s.rcv_base (omega arith)) in
    rw next (record {
      flags = λ k. ground (arith, x.flags k);
      written = λ n. ground (arith, x.written n);
      small = x.small;
      acks = x.acks;
    })

slide-IsExact : (fuel : ℕ) (s : Server) → IsExact s → IsExact (slide fuel s)
unfolding slide
slide-IsExact zero s x = x
slide-IsExact (suc fuel) s x = elim (Bool-cases (s.ackd (s.rcv_base % window_size) == 1)) [
  | inr stop ↦ rw (stop, slide) x
  | inl on ↦ rw (on, slide) (slide-IsExact fuel _ (slid-IsExact s x on))
]

from-IsExact :
    (send_ok : SendOk) (ch : Channel) (o : Option Arrival) (s : Server) {s' : Server}
    → IsSmallOption o
    → IsExact s
    → from o (receive send_ok ch) s ≡ ok s'
    → IsExact s'
from-IsExact send_ok ch none s {s'} lt x e = subst IsExact (ok-eq s s' e) x
from-IsExact send_ok ch (some a) s lt x e = receive-IsExact send_ok ch a s lt x e

round-IsExact :
    (send_ok : SendOk) (a : Activity) (s : Server) {s' : Server}
    → AllSmall a
    → IsExact s
    → round send_ok a s ≡ ok s'
    → IsExact s'
unfolding round
round-IsExact send_ok select_error s lt x e = absurd (cc)
round-IsExact send_ok (ready o₁ o₂) s {s'} lt x e =
    let (s₁, e₁, e₂) = >>=-eq-ok (from o₁ (receive send_ok r1) s) _ e in
    let (s₂, e₃, e₄) = >>=-eq-ok (from o₂ (receive send_ok r2) s₁) _ e₂ in
    let x₁ = from-IsExact send_ok r1 o₁ s lt.0 x e₁ in
    subst IsExact (ok-eq (slide (window_size + 1) s₂) s' e₄)
      (slide-IsExact (window_size + 1) s₂ (from-IsExact send_ok r2 o₂ s₁ lt.1 x₁ e₃))

-- After any rounds of the server with packets below 1000, from any state where this holds: what is
-- below the base, or flagged in the window, is written exactly once, nothing else is written, and
-- only what is written is acknowledged.
pub run-IsExact :
    (send_ok : SendOk) (acts : List Activity) (s : Server) {s' : Server}
    → All AllSmall acts
    → IsExact s
    → run send_ok acts s ≡ ok s'
    → IsExact s'
unfolding run
run-IsExact send_ok [] s {s'} lt x e = subst IsExact (ok-eq s s' e) x
run-IsExact send_ok (a ∷ rest) s lt x e =
    let (s₁, e₁, e₂) = >>=-eq-ok (round send_ok a s) _ e in
    run-IsExact send_ok rest s₁ lt.1 (round-IsExact send_ok a s lt.0 x e₁) e₂
