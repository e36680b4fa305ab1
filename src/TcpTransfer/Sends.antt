-- ===== src/TcpTransfer/Sends.antt =====
-- Practice - 2019/TCP_Transfer/client.c: a pass of the loop keeps the invariant.
use csf303_computer_networks.Prelude.{
  ℕ, zero, suc, ◌*◌, ◌/◌, ◌≡◌, refl, ap, sym, subst, ◌∙◌, inl, inr, some, List, [], ◌∷◌, ◌++◌,
  append_assoc, arith, length, length-append, All-append, All-mono, get_elem?, set, c_string, ok,
  ok-eq, ok-pair, >>=-eq-ok,
}
use csf303_computer_networks.GoBackN.Packet.{packet_size}
use csf303_computer_networks.GoBackN.Input.{Input}
use csf303_computer_networks.GoBackN.Input.Text.{unread, chunk}
use csf303_computer_networks.TcpTransfer.{
  Packet, Client, timed_out, create_packet, compute, load, send_packet, wait_ack,
}
use csf303_computer_networks.TcpTransfer.System.{System, IsClean}
use csf303_computer_networks.TcpTransfer.Reads.{
  IsReady, advance, compute-Advances, create_packet-text, create_packet-seq_no,
}
use csf303_computer_networks.TcpTransfer.Created.{
  text_of, texts, text_of-c_string, texts-snoc, Before, Current, Phase, consumed, pending, Inv,
}

get_elem?-last : {A : Type 0} (xs : List A) (x : A) → get_elem? (xs ++ x ∷ []) (length xs) ≡ some x
get_elem?-last [] x = refl
get_elem?-last (y ∷ xs) x = get_elem?-last xs x

pub get_elem?-set :
    {A : Type 0} (xs : List A) (i : ℕ) (v x : A)
    → get_elem? xs i ≡ some x
    → get_elem? (set xs i v) i ≡ some v
get_elem?-set [] i v x h = absurd (cc)
get_elem?-set (y ∷ xs) zero v x h = refl
get_elem?-set (y ∷ xs) (suc i) v x h = get_elem?-set xs i v x h

pub load-found :
    (heap : List Packet) (a : ℕ) (p : Packet) → get_elem? heap a ≡ some p → load heap a ≡ ok p
unfolding load
load-found heap a p e = rw (e, load) refl

-- The packet that case 0 makes.
abbrev pub made : Packet → Client → Packet
made raw c = record (create_packet raw packet_size c.input.currseq (c.state / 2) c.input) {
  final_packet = 0;
}

abbrev pub sending : Packet → Input → Client → Client
sending p inp c = record {
  input = inp;
  heap = c.heap ++ p ∷ [];
  pkt = length c.heap;
  last_unack = length c.heap;
  last_seq = p.seq_no;
  state = 1;
  sent = c.sent ++ p ∷ [];
}

made-text :
    (raw : Packet) (c : Client) (n : ℕ) (content : List ℕ)
    → IsReady n content c.input
    → IsClean raw
    → (c_string (made raw c).payload ≡ some (text_of (made raw c)))
      × (text_of (made raw c) ≡ chunk content c.input)
made-text raw c n content ready clean =
    let e : c_string (made raw c).payload ≡ some (chunk content c.input) =
      create_packet-text n raw (c.state / 2) c.input content ready clean in
    let same = text_of-c_string (made raw c) _ e in (e ∙ ap some (sym same), same)

made-size : (raw : Packet) (c : Client) → (made raw c).size ≡ packet_size
unfolding create_packet
made-size raw c = refl

module _ (file : List ℕ) (s : System) (inv : Inv file s) where
  -- With the state 0 the server has taken all packets.
  sent-Phase :
      (raw : Packet) (inp : Input)
      → s.client.state ≡ 0
      → (c_string (made raw s.client).payload ≡ some (text_of (made raw s.client)))
      → Phase s
      → Phase (record s {
        client = sending (made raw s.client) inp s.client;
        to_server = s.to_server ++ made raw s.client ∷ [];
      })
  sent-Phase raw inp at text (pending ps q sent num size texts_eq n o on fore back obj) =
      absurd (omega (arith, on.0))
  sent-Phase raw inp at text (consumed n o fore back obj) =
      let p = made raw s.client in
      let num : p.seq_no ≡ packet_size * length s.client.sent =
        create_packet-seq_no _ raw (s.client.state / 2) s.client.input inv.content inv.ready in
      pending s.client.sent p refl num (made-size raw s.client) text (n ∙ sym num) o (refl, refl)
        (All-append (Current s.server.next_seq p) s.to_server (p ∷ [])
          (All-mono (Before s.server.next_seq) (Current s.server.next_seq p) s.to_server
            (λ x b. inr b) fore)
          (inl refl, tt))
        back (p, get_elem?-last s.client.heap p, inl refl)

  pub send_packet-Inv :
      (raw : Packet) {c : Client} {out : List Packet}
      → IsClean raw
      → s.client.state ≡ 0
      → send_packet raw s.client ≡ ok (c, out)
      → Inv file (record s { client = c; to_server = s.to_server ++ out })
  unfolding send_packet
  send_packet-Inv raw {c} {out} clean at e =
      let ((last, inp), computed, e₁) = >>=-eq-ok (compute (advance s.client.input)) _ e in
      let p = made raw s.client in
      let (same, sent) = ok-pair (sending p inp s.client) c (p ∷ []) out e₁ in
      let adv =
        compute-Advances (length s.client.sent) inv.content s.client.input inv.ready computed in
      let (text, chunk_eq) = made-text raw s.client _ inv.content inv.ready clean in
      let longer : suc (length s.client.sent) ≡ length (s.client.sent ++ p ∷ []) =
        omega (arith, length-append s.client.sent (p ∷ [])) in
      subst (λ l. Inv file (record s { client = c; to_server = s.to_server ++ l })) sent
        (subst (λ x. Inv file (record s { client = x; to_server = s.to_server ++ p ∷ [] })) same
          (record {
            content = adv.content';
            ready = subst (λ k. IsReady k adv.content' inp) longer adv.ready;
            split =
                ap (λ l. l ++ unread adv.content' inp)
                  (texts-snoc s.client.sent p ∙ ap (λ l. texts s.client.sent ++ l) chunk_eq)
                ∙ append_assoc (texts s.client.sent) (chunk inv.content s.client.input)
                    (unread adv.content' inp)
                ∙ ap (λ l. texts s.client.sent ++ l) adv.split
                ∙ inv.split;
            aliased = refl;
            phase = sent-Phase raw inp at text inv.phase;
          }))

  resent-Phase :
      s.client.state ≡ 1
      → Phase s
      → (p : Packet) × (get_elem? s.client.heap s.client.pkt ≡ some p)
        × Phase (record s { to_server = s.to_server ++ p ∷ [] })
  resent-Phase at (consumed n o fore back (inl off)) = absurd (omega arith)
  resent-Phase at (consumed n o fore back (inr (on, (p, found, old)))) = (
    p,
    found,
    consumed n o (All-append (Before s.server.next_seq) s.to_server (p ∷ []) fore (old, tt)) back
        (inr (on, (p, found, old))),
  )
  resent-Phase at (pending ps q sent num size text n o on fore back (p, found, cur)) = (
    p,
    found,
    pending ps q sent num size text n o on
        (All-append (Current s.server.next_seq q) s.to_server (p ∷ []) fore (cur, tt)) back
        (p, found, cur),
  )

  -- The timeout sends what `lastUnack` points to.
  pub timed_out-Inv :
      {c : Client} {out : List Packet}
      → s.client.state ≡ 1
      → wait_ack timed_out s.client ≡ ok (c, out)
      → Inv file (record s { client = c; to_server = s.to_server ++ out })
  unfolding wait_ack
  timed_out-Inv {c} {out} at e =
      let (p, found, phase) = resent-Phase at inv.phase in
      let loaded : load s.client.heap s.client.last_unack ≡ ok p =
        ap (load s.client.heap) inv.aliased ∙ load-found s.client.heap s.client.pkt p found in
      let (q, loaded', e₁) = >>=-eq-ok (load s.client.heap s.client.last_unack) _ e in
      let (same, sent) = ok-pair s.client c (q ∷ []) out e₁ in
      let which : p ≡ q = ok-eq p q (sym loaded ∙ loaded') in
      subst (λ l. Inv file (record s { client = c; to_server = s.to_server ++ l }))
        (ap (λ x. x ∷ []) which ∙ sent)
        (subst (λ x. Inv file (record s { client = x; to_server = s.to_server ++ p ∷ [] })) same
          (record {
            content = inv.content;
            ready = inv.ready;
            split = inv.split;
            aliased = inv.aliased;
            phase = phase;
          }))
