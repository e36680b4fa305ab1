-- ===== src/GoBackN/Packet.antt =====
-- Practice-RDT/GBN/UDP/packet.h: the constants, the packet and the simulated loss.
use csf303_computer_networks.Prelude.{ℕ, ◌*◌, ◌-◌, ◌^◌, Bool, List, leb}

abbrev pub packet_size : ℕ
packet_size = 100

abbrev pub buffer_size : ℕ
buffer_size = 1000

abbrev pub window_size : ℕ
window_size = 5

abbrev pub timeout_period : ℕ
timeout_period = 5

pub record Packet : Type 0 where
  pub size : ℕ
  pub is_ack : ℕ
  pub final_packet : ℕ
  pub seq_no : ℕ
  pub payload : List ℕ

-- glibc's RAND_MAX
abbrev pub rand_max : ℕ
rand_max = 2 ^ 31 - 1

-- `(double)rand() / RAND_MAX <= 0.3` for the value `r` that `rand()` returned.
unfoldable pub drop_packet : ℕ → Bool
drop_packet r = leb (10 * r) (3 * rand_max)
