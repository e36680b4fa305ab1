-- ===== src/GoBackN/Client/Window.antt =====
-- The sender's window: what `sent_packets` and the wire hold, and that the loop's parts keep it.
use csf303_computer_networks.Prelude.{
  ℕ, suc, ◌+◌, ◌%◌, ◌≤◌, ◌<◌, ◌≡◌, refl, ap, sym, subst, ◌∙◌, Bool, true, some, List, [], ◌∷◌, ◌++◌,
  append_assoc, arith, ok, length, get_elem?, All, All-append, All-mono, length-append, >>=-eq-ok,
  ok-pair, drop, get_elem?-append_new,
}
use native.Mathlib.Decide.{dec_lt}
use csf303_computer_networks.GoBackN.Packet.{Packet, packet_size, window_size}
use csf303_computer_networks.GoBackN.Input.{Input, compute, create_packet}
use csf303_computer_networks.GoBackN.Input.Text.{unread, chunk, create_packet-text}
use csf303_computer_networks.GoBackN.Input.Advance.{IsReady, Advances, advance, compute-Advances}
use csf303_computer_networks.GoBackN.Created.{
  text_of, texts, text_of-c_string, IsData, IsStream, IsOriginal, texts-snoc, IsStream-snoc,
  IsOriginal-snoc, get_elem?-snoc,
}
use csf303_computer_networks.GoBackN.Client.{
  Os, Client, update, send, new_packet, store_packet, push_packet,
}

-- The memory from `malloc` has a NUL behind the bytes that the copying loop fills.
abbrev pub EndsPayload : Os → Type 0
EndsPayload os = (n : ℕ) → drop packet_size (os.malloc n).payload ≡ 0 ∷ []

-- `ps` are the packets made so far of the text `file`.
pub record HasWindow (file : List ℕ) (ps : List Packet) (c : Client) : Type 0 where
  pub content : List ℕ
  pub ready : IsReady content c.input
  pub carried : texts ps ++ unread content c.input ≡ file
  pub stream : IsStream 0 ps
  pub count : c.nextseqnum ≡ suc (length ps)
  pub low : 1 ≤ c.base
  pub ordered : c.base ≤ c.nextseqnum
  pub bounded : c.nextseqnum ≤ c.base + window_size
  pub slots :
      (i : ℕ)
      → c.base ≤ suc i
      → suc i < c.nextseqnum
      → get_elem? ps i ≡ some (c.sent_packets (suc i % window_size))
  pub wire : All (IsOriginal ps) c.wire

-- What a `sendto` that succeeds does.
pub send-ok :
    (os : Os) (p : Packet) (c : Client) {c' : Client}
    → send os p c ≡ ok c'
    → record c { wire = c.wire ++ p ∷ [] } ≡ c'
unfolding send
send-ok os p c e = ground arith

abbrev pub pushed : Os → Client → Input → Client
pushed os c inp =
    store_packet (new_packet os c) (record c { input = inp; wire = c.wire ++ new_packet os c ∷ [] })

push_packet-ok :
    (os : Os) (c : Client) {last : Bool} {c' : Client}
    → push_packet os c ≡ ok (last, c')
    → (inp : Input) × (compute (advance c.input) ≡ ok (last, inp)) × (pushed os c inp ≡ c')
unfolding push_packet
push_packet-ok os c {last} {c'} e =
    let ((last', inp), e₁, e₂) = >>=-eq-ok (compute (advance c.input)) _ e in
    let (c₁, e₃, e₄) = >>=-eq-ok (send os (new_packet os c) (record c { input = inp })) _ e₂ in
    let sent = send-ok os (new_packet os c) (record c { input = inp }) e₃ in
    let (same_last, same_c) = ok-pair last' last (store_packet (new_packet os c) c₁) c' e₄ in
    (inp, e₁ ∙ ap (λ l. ok (l, inp)) same_last, ap (store_packet (new_packet os c)) sent ∙ same_c)

-- The packet's place among those made is its number, and its text is what is cut off the file.
new_packet-IsData :
    (os : Os) (c : Client) (content : List ℕ) (n : ℕ)
    → EndsPayload os
    → IsReady content c.input
    → c.nextseqnum ≡ suc n
    → IsData n (new_packet os c) × (text_of (new_packet os c) ≡ chunk content c.input)
unfolding new_packet create_packet
new_packet-IsData os c content n nul r e =
    let room : c.input.currseq + packet_size ≤ 1000 = omega (arith, r.aligned, r.inside) in
    let text =
      create_packet-text (os.malloc c.nextseqnum) packet_size c.nextseqnum c.input content r.reads
        room (nul c.nextseqnum) in
    let same = text_of-c_string (new_packet os c) (chunk content c.input) text in
    (record { number = e; data_kind = refl; not_final = refl; text = rw same text }, same)

-- A packet more: the window grows by it, and nothing of the file is lost.
pub record Pushes (file : List ℕ) (ps : List Packet) (c : Client) (last : Bool) (c' : Client)
    : Type 0 where
  pub packet : Packet
  pub window : HasWindow file (ps ++ packet ∷ []) c'
  pub base : c'.base ≡ c.base
  pub next : c'.nextseqnum ≡ c.nextseqnum + 1
  pub check : c'.check ≡ c.check
  pub wire : c'.wire ≡ c.wire ++ packet ∷ []
  pub ended : last ≡ true → unread window.content c'.input ≡ []

slots-snoc :
    (ps : List Packet) (p : Packet) (slots : ℕ → Packet) (base next k i : ℕ)
    → k ≡ next
    → next ≡ suc (length ps)
    → next < base + window_size
    → ((j : ℕ) → base ≤ suc j → suc j < next → get_elem? ps j ≡ some (slots (suc j % window_size)))
    → base ≤ suc i
    → suc i < next + 1
    → get_elem? (ps ++ p ∷ []) i ≡ some (update slots (k % window_size) p (suc i % window_size))
slots-snoc ps p slots base next k i num count room old low high = elim (dec_lt (suc i) next) [
  | yes before ↦
      ground (arith, get_elem?-snoc ps p i (slots (suc i % window_size)) (old i low before))
  | no last ↦
      let here : suc i ≡ next = omega arith in
      let here' : suc i ≡ k = omega arith in
      rw here' (ground (arith, get_elem?-append_new ps p i (omega arith)))
]

pub push_packet-Pushes :
    (os : Os) (file : List ℕ) (ps : List Packet) (c : Client) {last : Bool} {c' : Client}
    → EndsPayload os
    → HasWindow file ps c
    → c.nextseqnum < c.base + window_size
    → push_packet os c ≡ ok (last, c')
    → Pushes file ps c last c'
push_packet-Pushes os file ps c {last} {c'} nul w room e =
    let (inp, step, same) = push_packet-ok os c e in
    let p : Packet = new_packet os c in
    let a : Advances w.content c.input last inp = compute-Advances w.content c.input w.ready step in
    let (made, text) = new_packet-IsData os c w.content (length ps) nul w.ready w.count in
    subst (λ d. Pushes file ps c last d) same
      (record {
        packet = p;
        window = record {
          content = a.content';
          ready = a.ready;
          carried =
              rw
                (
                  texts-snoc ps p,
                  text,
                  append_assoc (texts ps) (chunk w.content c.input) (unread a.content' inp),
                  a.split,
                )
                w.carried;
          stream = IsStream-snoc 0 (length ps) ps p w.stream (omega arith) made;
          count = omega (arith, w.count, length-append ps (p ∷ []));
          low = w.low;
          ordered = omega (arith, w.ordered);
          bounded = omega arith;
          slots = λ i low high.
              slots-snoc ps p c.sent_packets c.base c.nextseqnum p.seq_no i
                (made.number ∙ sym w.count) w.count room w.slots low high;
          wire =
              All-append (IsOriginal (ps ++ p ∷ [])) c.wire (p ∷ [])
                (All-mono (IsOriginal ps) (IsOriginal (ps ++ p ∷ [])) c.wire (IsOriginal-snoc ps p)
                  w.wire)
                (
                  record { place = length ps; found = get_elem?-append_new ps p (length ps) refl },
                  tt,
                );
        };
        base = refl;
        next = refl;
        check = refl;
        wire = refl;
        ended = a.ended;
      })
