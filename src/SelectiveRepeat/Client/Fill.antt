-- ===== src/SelectiveRepeat/Client/Fill.antt =====
-- The inner loop ends by its test; and where the numbers wrap, only at the end of the file.
use csf303_computer_networks.Prelude.{
  ℕ, zero, suc, ◌+◌, ◌≤◌, ◌<◌, ◌≡◌, refl, subst, inl, inr, true, false, not, ◌&&◌, Bool-cases, ltb,
  if◌then◌else◌, ltb→le, fread, arith, ok, length, length-drop, Stream, >>=-eq-ok, ok-eq,
}
use csf303_computer_networks.SelectiveRepeat.Packet.{
  packet_size, window_size, max_seq_no, increment_seq_no-le,
}
use csf303_computer_networks.SelectiveRepeat.Server.{SendOk}
use csf303_computer_networks.SelectiveRepeat.Client.{Client, read_packet, push_packet, fill, enough}
use csf303_computer_networks.SelectiveRepeat.Client.Window.{pushed, push_packet-ok}

-- What a stream still costs: passes that read a full packet, and one that meets the end.
abbrev passes : Stream → ℕ
passes s = if s.eof then 1 else length s.rest + 2

fread-passes : (n : ℕ) (s : Stream) → 0 < n → s.eof ≡ false → passes (fread n s).1 < passes s
fread-passes n s pos more = elim (Bool-cases (ltb (length s.rest) n)) [
  | inl short ↦ rw (short, more) (omega arith)
  | inr whole ↦
      rw (whole, more) (omega (arith, length-drop n s.rest, ltb→le (length s.rest) n whole))
]

read_packet-passes : (c : Client) → c.fp.eof ≡ false → passes (read_packet c).1 < passes c.fp
unfolding read_packet
read_packet-passes c more = fread-passes (packet_size + 1) c.fp (omega arith) more

record Stops (c c' : Client) : Type 0 where
  test : (ltb c'.currseq (c'.base + window_size) && not c'.fp.eof) ≡ false
  base : c'.base ≡ c.base
  numbers : c.currseq ≤ max_seq_no → c'.currseq ≤ max_seq_no

fill-Stops :
    (send_ok : SendOk) (fuel : ℕ) (c : Client) {c' : Client}
    → passes c.fp ≤ fuel
    → fill send_ok fuel c ≡ ok c'
    → Stops c c'
unfolding fill
fill-Stops send_ok zero c len e = absurd (ground arith)
fill-Stops send_ok (suc fuel) c {c'} len e =
    elim (Bool-cases (ltb c.currseq (c.base + window_size) && not c.fp.eof)) [
      | inr stop ↦
          subst (Stops c) (ok-eq c c' (rw (stop, fill) at e))
            (record { test = stop; base = refl; numbers = λ h. h })
      | inl on ↦
          let (c₁, e₁, e₂) = >>=-eq-ok (push_packet send_ok c) _ (rw (on, fill) at e) in
          let less = read_packet-passes c (ground arith) in
          let e₃ : fill send_ok fuel (pushed c) ≡ ok c' = rw (push_packet-ok send_ok c e₁) e₂ in
          let r = fill-Stops send_ok fuel (pushed c) (omega (arith, less)) e₃ in
          record {
            test = r.test;
            base = r.base;
            numbers = λ h. r.numbers (increment_seq_no-le c.currseq);
          }
    ]

-- The fuel of `round` is enough: where no `sendto` fails, behind the loop the window is full or the
-- file is read.
pub fill-stops :
    (send_ok : SendOk) (c : Client) {c' : Client}
    → fill send_ok (enough c) c ≡ ok c'
    → (ltb c'.currseq (c'.base + window_size) && not c'.fp.eof) ≡ false
fill-stops send_ok c e = (fill-Stops send_ok (enough c) c (ground arith) e).test

-- With a base above 995 no number fills the window: where no `sendto` fails, the loop goes on to
-- the end of the file.
pub fill_at_wrap :
    (send_ok : SendOk) (c : Client) {c' : Client}
    → max_seq_no < c.base + window_size
    → c.currseq ≤ max_seq_no
    → fill send_ok (enough c) c ≡ ok c'
    → c'.fp.eof ≡ true
fill_at_wrap send_ok c high low e =
    let r = fill-Stops send_ok (enough c) c (ground arith) e in
    ground (arith, r.test, r.base, r.numbers low)
