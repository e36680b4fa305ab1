-- ===== src/GoBackN/Tcp/Receiver.antt =====
-- The server over TCP: it writes the stream of packets in order.
use csf303_computer_networks.Prelude.{
  ℕ, ◌+◌, ◌≡◌, refl, ap, subst, ◌∙◌, inl, inr, Bool-cases, ==→eq, ◌==◌, some, List, arith, ok,
  get_elem?, >>=-eq-ok, ok-eq, ok-pair,
}
use csf303_computer_networks.GoBackN.Packet.{Packet, drop_packet}
use csf303_computer_networks.GoBackN.Created.{IsData, IsStream, IsStream-get, IsOriginal}
use csf303_computer_networks.GoBackN.Client.{Os, Status, waiting}
use csf303_computer_networks.GoBackN.Server.{Server, datagram, reply, fputs}
use csf303_computer_networks.GoBackN.Server.Output.{
  HasOutput, Serves, HasOutput-accept, HasOutput-reply, fputs-text,
}
use csf303_computer_networks.GoBackN.Tcp.{accept, serve}

-- Nothing is asked of an ACK besides its number.
abbrev pub IsAny : Packet → Type 0
IsAny a = Unit

accept-HasOutput :
    (ps : List Packet) (s : Server) (p : Packet) (i : ℕ) {s' : Server}
    → HasOutput IsAny ps s
    → IsData i p
    → get_elem? ps i ≡ some p
    → p.seq_no ≡ s.expected_seq_no
    → accept p s ≡ ok s'
    → Serves IsAny ps s s'
unfolding accept
accept-HasOutput ps s p i {s'} h d found here e =
    let (s₁, e₁, e₂) = >>=-eq-ok (fputs p.payload s) _ e in
    let wrote = fputs-text i p s d e₁ in
    let q : Packet = record s.snd_pkt { seq_no = s.expected_seq_no } in
    let counted : Server → Server =
      λ t. record t { snd_pkt = q; expected_seq_no = s.expected_seq_no + 1 } in
    subst (λ u. Serves IsAny ps s u) (ap counted wrote ∙ ok-eq (counted s₁) s' e₂)
      (HasOutput-accept IsAny ps s p q i h d found here refl tt, omega arith)

pub serve-HasOutput :
    (os : Os) (ps : List Packet) (s : Server) (p : Packet) (r : ℕ) {st : Status} {s' : Server}
    → IsStream 0 ps
    → HasOutput IsAny ps s
    → IsOriginal ps p
    → serve os (datagram p r) s ≡ ok (st, s')
    → Serves IsAny ps s s'
unfolding serve
serve-HasOutput os ps s p r {st} {s'} stream h o e = elim (Bool-cases (drop_packet r)) [
  | inl dropped ↦
      subst (λ u. Serves IsAny ps s u) (ok-pair waiting st s s' (rw (dropped, serve) at e)).1
        (h, omega arith)
  | inr arrived ↦ elim (Bool-cases (p.seq_no == s.expected_seq_no)) [
    | inr other ↦
        let (s₁, e₁, e₂) = >>=-eq-ok (reply os s) _ (rw (arrived, other, serve) at e) in
        subst (λ u. Serves IsAny ps s u) (ok-pair waiting st s₁ s' e₂).1
          (HasOutput-reply IsAny os ps s h e₁)
    | inl next ↦
        let d : IsData o.place p =
          IsStream-get 0 o.place o.place ps p stream o.found (omega arith) in
        let (s₁, e₁, e₂) = >>=-eq-ok (accept p s) _ (rw (arrived, next, serve) at e) in
        let (s₂, e₃, e₄) = >>=-eq-ok (reply os s₁) _ e₂ in
        let a =
          accept-HasOutput ps s p o.place h d o.found (==→eq p.seq_no s.expected_seq_no next) e₁ in
        let answered = HasOutput-reply IsAny os ps s₁ a.0 e₃ in
        subst (λ u. Serves IsAny ps s u) (ok-pair waiting st s₂ s' e₄).1
          (answered.0, omega (arith, a.1, answered.1))
  ]
]
