-- ===== src/TcpTransfer/Created.antt =====
-- Practice - 2019/TCP_Transfer: the invariant of client and server.
use csf303_computer_networks.Prelude.{
  ℕ, ◌*◌, ◌<◌, ◌≡◌, ap, sym, ◌∙◌, ◌⊎◌, none, some, List, [], ◌∷◌, ◌++◌, append_assoc, append-nil,
  length, All, get_elem?, c_string,
}
use csf303_computer_networks.GoBackN.Packet.{packet_size}
use csf303_computer_networks.GoBackN.Input.Text.{unread}
use csf303_computer_networks.TcpTransfer.{Packet, Client}
use csf303_computer_networks.TcpTransfer.System.{System}
use csf303_computer_networks.TcpTransfer.Reads.{IsReady}

-- The bytes that `fputs` writes of a packet.
unfoldable pub text_of : Packet → List ℕ
text_of p = elim (c_string p.payload) [ none ↦ [] | some t ↦ t ]

unfoldable pub texts : List Packet → List ℕ
texts [] = []
texts (p ∷ ps) = text_of p ++ texts ps

pub text_of-c_string : (p : Packet) (t : List ℕ) → c_string p.payload ≡ some t → text_of p ≡ t
unfolding text_of
text_of-c_string p t e = rw (e, text_of)

pub texts-snoc : (ps : List Packet) (p : Packet) → texts (ps ++ p ∷ []) ≡ texts ps ++ text_of p
unfolding texts
texts-snoc [] p = append-nil (text_of p)
texts-snoc (q ∷ ps) p =
    ap (λ l. text_of q ++ l) (texts-snoc ps p)
    ∙ sym (append_assoc (text_of q) (texts ps) (text_of p))

-- A number below the one that the server waits for.
abbrev pub Before : ℕ → Packet → Type 0
Before next q = q.seq_no < next

abbrev pub Current : ℕ → Packet → Packet → Type 0
Current next p q = (q ≡ p) ⊎ (q.seq_no < next)

-- The packet that `pkt` points to.
abbrev pub Points : (Packet → Type 0) → Client → Type 0
Points P c = (q : Packet) × (get_elem? c.heap c.pkt ≡ some q) × P q

-- The server has written all packets, or all but the last, for whose ACK the client waits. What it
-- has acknowledged has a number below the next, and so has what the client may have received over
-- its packet.
pub data Phase (s : System) : Type 0 where
  consumed :
      s.server.next_seq ≡ packet_size * length s.client.sent
      → s.server.output ≡ some (texts s.client.sent)
      → All (Before s.server.next_seq) s.to_server
      → All (Before s.server.next_seq) s.to_client
      → (s.client.state ≡ 0) ⊎ ((s.client.state ≡ 1) × Points (Before s.server.next_seq) s.client)
      → Phase s
  pending :
      (ps : List Packet) (p : Packet)
      → s.client.sent ≡ ps ++ p ∷ []
      → p.seq_no ≡ packet_size * length ps
      → p.size ≡ packet_size
      → c_string p.payload ≡ some (text_of p)
      → s.server.next_seq ≡ p.seq_no
      → s.server.output ≡ some (texts ps)
      → (s.client.state ≡ 1) × (s.client.last_seq ≡ p.seq_no)
      → All (Current s.server.next_seq p) s.to_server
      → All (Before s.server.next_seq) s.to_client
      → Points (Current s.server.next_seq p) s.client
      → Phase s

pub record Inv (file : List ℕ) (s : System) : Type 0 where
  pub content : List ℕ
  pub ready : IsReady (length s.client.sent) content s.client.input
  pub split : texts s.client.sent ++ unread content s.client.input ≡ file
  pub aliased : s.client.last_unack ≡ s.client.pkt
  pub phase : Phase s
