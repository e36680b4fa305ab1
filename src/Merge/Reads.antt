-- ===== src/Merge/Reads.antt =====
-- Practice - 2023/client-2.c: what is sent is the fields of the file, in order.
use csf303_computer_networks.Prelude.{
  ℕ, suc, ◌+◌, ◌-◌, ◌/◌, ◌%◌, ◌<◌, ◌≡◌, refl, ap, sym, subst, ◌∙◌, inl, inr, Bool, true, false,
  Bool-cases, ◌==◌, some, if◌then◌else◌, List, [], ◌∷◌, ◌++◌, append_assoc, map, arith, length,
  replicate, All, All-append, IsText, c_string, c_string-append, ok,
}
use csf303_computer_networks.Merge.{Packet}
use csf303_computer_networks.Merge.Client.{
  Client, Event, select_error, timed_out, recv_error, readable, went, up_to_nul, fill, read_packet,
  next_packet, send_next, handle_timeout, wait_ack, waits, sends, round,
}
use csf303_computer_networks.Merge.System.{
  Channel, ChannelStep, client_pass, client_read, lose_packet, lose_ack,
}
use csf303_computer_networks.Merge.Passes.{went-eq, send_next-went, handle_ack_lem}
use csf303_computer_networks.Merge.Fields.{
  Part, bytes_of, IsField, IsFile, IsPlain-IsText, up_to_nul-text, read_packet-part,
  read_packet-end,
}

abbrev pub text_of : Packet → List ℕ
text_of p = up_to_nul p.data_bytes

-- The data of the packet are a string that is not empty.
pub record HasText (p : Packet) : Type 0 where
  pub string : c_string p.data_bytes ≡ some (text_of p)
  pub some_text : 0 < length (text_of p)

-- The packet that a field makes.
pub filled :
    (state : ℕ) (rest : List ℕ) (text : List ℕ) (pkt : Packet)
    → IsField text
    → (next_packet state (rest, fill text pkt)).data_bytes
      ≡ text ++ (0 ∷ replicate (255 - length text) 0)
unfolding next_packet fill
filled state rest text pkt f =
    let whole : up_to_nul text ≡ text = up_to_nul-text text (IsPlain-IsText text f.plain) in
    let room : 256 - length text ≡ suc (255 - length text) = omega (arith, f.fits) in
    rw whole (rw room refl)

up_to_nul-append : (text rest : List ℕ) → IsText text → up_to_nul (text ++ 0 ∷ rest) ≡ text
up_to_nul-append text rest h =
    let e : (text ++ (0 ∷ rest)) ++ (0 ∷ []) ≡ text ++ (0 ∷ (rest ++ (0 ∷ []))) =
      append_assoc text (0 ∷ rest) (0 ∷ []) in
    let found : c_string ((text ++ (0 ∷ rest)) ++ (0 ∷ [])) ≡ some text =
      ap c_string e ∙ c_string-append text (rest ++ (0 ∷ [])) h in
    rw (found, up_to_nul) refl

pub text_of-field :
    (text rest : List ℕ) (p : Packet)
    → IsField text
    → p.data_bytes ≡ text ++ (0 ∷ rest)
    → (text_of p ≡ text) × HasText p
text_of-field text rest p f e =
    let h = IsPlain-IsText text f.plain in
    let same : text_of p ≡ text = ap up_to_nul e ∙ up_to_nul-append text rest h in
    (
      same,
      record {
        string = ap c_string e ∙ c_string-append text rest h ∙ ap some (sym same);
        some_text = subst (λ l. 0 < length l) (sym same) f.some_text;
      },
    )

pub map-snoc :
    {A B : Type 0} (f : A → B) (xs : List A) (x : A) → map f (xs ++ x ∷ []) ≡ map f xs ++ f x ∷ []
map-snoc f [] x = refl
map-snoc f (y ∷ xs) x = ap (λ l. f y ∷ l) (map-snoc f xs x)

abbrev pub field_of : Part → List ℕ
field_of p = p.field

-- The client has sent some of the fields, and the others are still in the file.
pub record Reads (parts : List Part) (c : Client) : Type 0 where
  pub left : List Part
  pub input : c.input ≡ bytes_of left
  pub file : IsFile left
  pub texts : map text_of c.sent ++ map field_of left ≡ map field_of parts
  pub all_text : All HasText c.sent

module _ (parts : List Part) where
  sends-Reads :
      (send_ok : Bool) (c : Client) {c' : Client} {out : List Packet}
      → Reads parts c
      → send_next send_ok c ≡ ok (went c' out)
      → Reads parts c'
  unfolding IsFile
  sends-Reads send_ok c {c'} {out} h e =
      let (input, pkt, made, rest, long, same, sent) = send_next-went send_ok c e in
      subst (Reads parts) same (taken_one h.left input pkt h.input h.file h.texts made rest long)
    where
      taken_one :
          (left : List Part) (input : List ℕ) (pkt : Packet)
          → c.input ≡ bytes_of left
          → IsFile left
          → map text_of c.sent ++ map field_of left ≡ map field_of parts
          → next_packet c.state (read_packet c.input c.pkt) ≡ pkt
          → (read_packet c.input c.pkt).0 ≡ input
          → ((read_packet c.input c.pkt).1.len == 0) ≡ false
          → Reads parts (record c {
            state = c.state + 1;
            input = input;
            pkt = pkt;
            sent = c.sent ++ pkt ∷ [];
          })
      taken_one [] input pkt at file texts made rest long =
          let read : read_packet c.input c.pkt ≡ ([], record c.pkt { len = 0 }) =
            ap (λ l. read_packet l c.pkt) at ∙ read_packet-end c.pkt in
          let clash : true ≡ false = sym (ap (λ r. r.1.len == 0) read) ∙ long in absurd (cc)
      taken_one (p ∷ ps) input pkt at file texts made rest long =
          let read : read_packet c.input c.pkt ≡ (bytes_of ps, fill p.field c.pkt) =
            ap (λ l. read_packet l c.pkt) at ∙ read_packet-part p ps c.pkt file in
          let held =
            sym (ap (λ q. q.data_bytes) (sym (ap (next_packet c.state) read) ∙ made))
            ∙ filled c.state (bytes_of ps) p.field c.pkt file.0 in
          let (text, has) = text_of-field p.field _ pkt file.0 held in
          record {
            left = ps;
            input = sym rest ∙ ap (λ r. r.0) read;
            file = file.3;
            texts =
                ap (λ l. l ++ map field_of ps)
                  (map-snoc text_of c.sent pkt ∙ ap (λ l. map text_of c.sent ++ l ∷ []) text)
                ∙ append_assoc (map text_of c.sent) (p.field ∷ []) (map field_of ps)
                ∙ texts;
            all_text = All-append HasText c.sent (pkt ∷ []) h.all_text (has, tt);
          }

  waits-Reads :
      (send_ok : Bool) (ev : Event) (c : Client) {c' : Client} {out : List Packet}
      → Reads parts c
      → wait_ack send_ok ev c ≡ ok (went c' out)
      → Reads parts c'
  unfolding wait_ack handle_timeout
  waits-Reads send_ok select_error c h e = absurd (cc)
  waits-Reads send_ok recv_error c h e = absurd (cc)
  waits-Reads false timed_out c h e = absurd (cc)
  waits-Reads true timed_out c h e = subst (Reads parts) (went-eq e).0 h
  waits-Reads send_ok (readable ack) c h e =
      subst (Reads parts) (sym (handle_ack_lem ack c) ∙ (went-eq e).0)
        (moved (ack.seq_no == (c.state - 1) / 2))
    where
      moved : (hit : Bool) → Reads parts (if hit then record c { state = (c.state + 1) % 4 } else c)
      moved true = record {
        left = h.left;
        input = h.input;
        file = h.file;
        texts = h.texts;
        all_text = h.all_text;
      }
      moved false = h

  round-Reads :
      (send_ok : Bool) (ev : Event) (c : Client) {c' : Client} {out : List Packet}
      → Reads parts c
      → round send_ok ev c ≡ ok (went c' out)
      → Reads parts c'
  unfolding round
  round-Reads send_ok ev c {c'} {out} h e = elim (Bool-cases (sends c)) [
    | inl even ↦ sends-Reads send_ok c h (rw (even, round) at e)
    | inr odd ↦ elim (Bool-cases (waits c)) [
      | inl on ↦ waits-Reads send_ok ev c h (rw (odd, on, round) at e)
      | inr off ↦
          let stays : ok (went c []) ≡ ok (went c' out) = rw (odd, off, round) at e in
          subst (Reads parts) (went-eq stays).0 h
    ]
  ]

  pub step-Reads : {s t : Channel} → ChannelStep s t → Reads parts s.client → Reads parts t.client
  step-Reads (client_pass s send_ok ev c out quiet e) h = round-Reads send_ok ev s.client h e
  step-Reads (client_read s send_ok ack rest c out on head e) h =
      round-Reads send_ok (readable ack) s.client h e
  step-Reads (lose_packet s xs p ys parts') h = h
  step-Reads (lose_ack s xs ack ys parts') h = h
