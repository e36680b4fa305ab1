-- ===== src/GoBackN/Client/Resend.antt =====
-- The loop that a timeout starts: it sends what the window holds, and changes nothing else.
use csf303_computer_networks.Prelude.{
  ℕ, zero, suc, ◌+◌, ◌-◌, ◌%◌, ◌≤◌, ◌≡◌, some, List, [], ◌∷◌, ◌++◌, append-nil, append_assoc, arith,
  ok, length, drop, get_elem?, All, All-append, drop-eq-nil, >>=-eq-ok,
}
use csf303_computer_networks.GoBackN.Packet.{Packet, window_size}
use csf303_computer_networks.GoBackN.Created.{IsOriginal, drop-get, drop-IsOriginal}
use csf303_computer_networks.GoBackN.Client.{Os, Client, Timeval, send, resend}
use csf303_computer_networks.GoBackN.Client.Window.{HasWindow, send-ok}

resend-drop :
    (os : Os) (ps : List Packet) (n j : ℕ) (c : Client) {c' : Client}
    → j + n ≡ length ps
    → ((i : ℕ)
        → j ≤ i
        → suc i ≤ length ps
        → get_elem? ps i ≡ some (c.sent_packets (suc i % window_size)))
    → resend os n (suc j) c ≡ ok c'
    → record c { wire = c.wire ++ drop j ps } ≡ c'
unfolding resend
resend-drop os ps zero j c {c'} len held e =
    let same : c ≡ c' = cc in rw (drop-eq-nil j ps (omega arith), append-nil c.wire) same
resend-drop os ps (suc n) j c {c'} len held e =
    let p : Packet = c.sent_packets (suc j % window_size) in
    let (c₁, e₁, e₂) = >>=-eq-ok (send os p c) _ e in
    let sent = send-ok os p c e₁ in
    let next : suc j + 1 ≡ suc (suc j) = omega arith in
    let e₃ : resend os n (suc (suc j)) (record c { wire = c.wire ++ p ∷ [] }) ≡ ok c' =
      rw (sent, ← next) e₂ in
    rw (drop-get ps j p (held j (omega arith) (omega arith))) (
      rw append_assoc at (
        resend-drop os ps n (suc j) (record c { wire = c.wire ++ p ∷ [] }) (omega arith)
          (λ i low high. held i (omega arith) high) e₃))

-- After the loop the wire has once more every packet that is not acknowledged, in order.
pub resend-unacked :
    (os : Os) (file : List ℕ) (ps : List Packet) (c : Client) {c' : Client}
    → HasWindow file ps c
    → resend os (c.nextseqnum - c.base) c.base c ≡ ok c'
    → record c { wire = c.wire ++ drop (c.base - 1) ps } ≡ c'
resend-unacked os file ps c {c'} w e =
    let b : suc (c.base - 1) ≡ c.base = omega (arith, w.low) in
    resend-drop os ps (c.nextseqnum - c.base) (c.base - 1) c
      (omega (arith, w.low, w.ordered, w.count))
      (λ i low high. w.slots i (omega (arith, w.low)) (omega (arith, w.count))) (rw b e)

-- Originals sent again, and another timer, do no harm.
unfoldable pub HasWindow-sent :
    (file : List ℕ) (ps qs : List Packet) (c : Client) (t : Timeval)
    → HasWindow file ps c
    → All (IsOriginal ps) qs
    → HasWindow file ps (record c { wire = c.wire ++ qs; tv = t })
HasWindow-sent file ps qs c t w sent = record {
  content = w.content;
  ready = w.ready;
  carried = w.carried;
  stream = w.stream;
  count = w.count;
  low = w.low;
  ordered = w.ordered;
  bounded = w.bounded;
  slots = w.slots;
  wire = All-append (IsOriginal ps) c.wire qs w.wire sent;
}

pub unacked-IsOriginal :
    (file : List ℕ) (ps : List Packet) (c : Client)
    → HasWindow file ps c
    → All (IsOriginal ps) (drop (c.base - 1) ps)
unacked-IsOriginal file ps c w =
    drop-IsOriginal ps (c.nextseqnum - c.base) (c.base - 1)
      (omega (arith, w.low, w.ordered, w.count))
