-- ===== src/SelectiveRepeat/Server/Slide.antt =====
-- The last loop of a round ends by its test: each pass clears a flag.
use csf303_computer_networks.Prelude.{
  ℕ, zero, suc, ◌+◌, ◌%◌, ◌≤◌, ◌<◌, ◌≡◌, inl, inr, Bool-cases, ◌==◌, arith,
}
use csf303_computer_networks.SelectiveRepeat.Packet.{window_size, increment_seq_no}
use csf303_computer_networks.SelectiveRepeat.Server.{Server, update, slide}

-- How many of the five slots are set.
abbrev ones : (ℕ → ℕ) → ℕ
ones f = f 0 + f 1 + f 2 + f 3 + f 4

ones-clear : (f : ℕ → ℕ) (k : ℕ) → k < window_size → f k ≡ 1 → ones (update f k 0) + 1 ≡ ones f
ones-clear f zero h e = ground arith
ones-clear f (suc zero) h e = ground arith
ones-clear f (suc (suc zero)) h e = ground arith
ones-clear f (suc (suc (suc zero))) h e = ground arith
ones-clear f (suc (suc (suc (suc zero)))) h e = ground arith
ones-clear f (suc (suc (suc (suc (suc k))))) h e = absurd (omega arith)

slide-stops_at :
    (fuel : ℕ) (s : Server)
    → ((k : ℕ) → s.ackd k ≤ 1)
    → ones s.ackd < fuel
    → (slide fuel s).ackd ((slide fuel s).rcv_base % window_size) ≡ 0
unfolding slide
slide-stops_at zero s flags h = absurd (omega arith)
slide-stops_at (suc fuel) s flags h = elim (Bool-cases (s.ackd (s.rcv_base % window_size) == 1)) [
  | inr stop ↦ rw (stop, slide) (ground (arith, flags (s.rcv_base % window_size)))
  | inl on ↦
      let fewer = ones-clear s.ackd (s.rcv_base % window_size) (omega arith) (ground arith) in
      rw (on, slide)
        (slide-stops_at fuel
          (record s {
            ackd = update s.ackd (s.rcv_base % window_size) 0;
            rcv_base = increment_seq_no s.rcv_base;
          })
          (λ k. ground (arith, flags k)) (omega (arith, fewer)))
]

-- With flags of 0 and 1 the fuel of `round` is enough, also where the numbers wrap: behind the loop
-- the flag of the new base is not set.
pub slide-stops :
    (s : Server)
    → ((k : ℕ) → s.ackd k ≤ 1)
    → (slide (window_size + 1) s).ackd ((slide (window_size + 1) s).rcv_base % window_size) ≡ 0
slide-stops s flags =
    slide-stops_at (window_size + 1) s flags
      (omega (arith, flags 0, flags 1, flags 2, flags 3, flags 4))
