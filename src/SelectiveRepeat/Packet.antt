-- ===== src/SelectiveRepeat/Packet.antt =====
-- Practice-RDT/SR/UDP_selectiverepeat/packet.h.
use csf303_computer_networks.Prelude.{
  ℕ, ◌+◌, ◌*◌, ◌-◌, ◌%◌, ◌^◌, ◌≤◌, ◌<◌, ◌≡◌, Bool, List, leb, arith,
}

abbrev pub packet_size : ℕ
packet_size = 100

abbrev pub window_size : ℕ
window_size = 5

abbrev pub max_seq_no : ℕ
max_seq_no = 1000

-- `sizeof(PACKET)`: three ints, 101 bytes of payload, three of padding and an int.
abbrev pub sizeof_packet : ℕ
sizeof_packet = 120

pub record Packet : Type 0 where
  pub final_packet : ℕ
  pub seq_no : ℕ
  pub ack_or_data : ℕ
  pub payload : List ℕ
  pub size : ℕ

-- glibc's RAND_MAX
abbrev pub rand_max : ℕ
rand_max = 2 ^ 31 - 1

-- `(double)rand() / RAND_MAX <= 0.1` for the value `r` that `rand()` returned.
unfoldable pub drop_packet : ℕ → Bool
drop_packet r = leb (10 * r) rand_max

unfoldable pub increment_seq_no : ℕ → ℕ
increment_seq_no seq_no = (seq_no + 1) % (max_seq_no + 1)

pub increment_seq_no-le : (n : ℕ) → increment_seq_no n ≤ max_seq_no
unfolding increment_seq_no
increment_seq_no-le n = omega arith

pub increment_seq_no-suc : (n : ℕ) → n < max_seq_no → increment_seq_no n ≡ n + 1
unfolding increment_seq_no
increment_seq_no-suc n h = omega arith
