-- ===== src/GoBackN/Client/Slide.antt =====
-- An ACK moves the base; the packets behind it leave the window.
use csf303_computer_networks.Prelude.{ℕ, ◌≤◌, List, ◌++◌, arith}
use csf303_computer_networks.GoBackN.Packet.{Packet}
use csf303_computer_networks.GoBackN.Client.{Client, Status, Timeval}
use csf303_computer_networks.GoBackN.Client.Window.{HasWindow}

unfoldable pub HasWindow-slide :
    (file : List ℕ) (ps : List Packet) (c : Client) (b : ℕ) (t : Timeval)
    → HasWindow file ps c
    → c.base ≤ b
    → b ≤ c.nextseqnum
    → HasWindow file ps (record c { base = b; tv = t })
HasWindow-slide file ps c b t w up below = record {
  content = w.content;
  ready = w.ready;
  carried = w.carried;
  stream = w.stream;
  count = w.count;
  low = omega (arith, w.low);
  ordered = below;
  bounded = omega (arith, w.bounded);
  slots = λ i low high. w.slots i (omega arith) high;
  wire = w.wire;
}

-- What one round of the client leaves: the window over perhaps more packets, and a base below `n`.
-- `Mode` is what a transport keeps besides, of the status, the client and what is in its buffer.
pub record Grows (Mode : Status → Client → List ℕ → Type 0) (file : List ℕ) (ps : List Packet)
    (n : ℕ) (st : Status) (c : Client) : Type 0 where
  pub made : List Packet
  pub window : HasWindow file (ps ++ made) c
  pub base : c.base ≤ n
  pub mode : Mode st c window.content
