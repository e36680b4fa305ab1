-- ===== src/TcpTransfer/Reads.antt =====
-- Practice - 2019/TCP_Transfer/client.c: what the packets carry of the file.
use csf303_computer_networks.Prelude.{
  ℕ, suc, ◌+◌, ◌-◌, ◌*◌, ◌≤◌, ◌<◌, ◌≡◌, ◌≢◌, refl, ap, sym, subst, ◌∙◌, inl, inr, Bool, true, false,
  none, some, List, [], ◌∷◌, ◌++◌, arith, length, drop, ok, ◌==◌, Bool-cases, Option-cases, Stream,
  IsText, c_string, All-of_append, drop-eq-nil,
}
use csf303_computer_networks.Prelude.Int.{pos, inc}
use csf303_computer_networks.GoBackN.Packet.{packet_size, buffer_size}
use csf303_computer_networks.GoBackN.Input
use csf303_computer_networks.GoBackN.Input.{Input}
use csf303_computer_networks.GoBackN.Input.Loop.{padded, copy-take, clear-padded}
use csf303_computer_networks.GoBackN.Input.Text.{
  rest_of, at_end, unread, chunk, getfilestream-Got, c_string-slice, length-padded,
}
use csf303_computer_networks.GoBackN.Input.Advance.{chunk-split}
use csf303_computer_networks.TcpTransfer.{
  Packet, getfilestream, input_into_buffer, create_packet, compute,
}

-- The buffer holds `content`, the rest of the file is in the stream, and neither has a NUL.
pub record Reads (content : List ℕ) (inp : Input) : Type 0 where
  pub buffer : inp.input_buffer ≡ padded buffer_size content
  pub fits : length content < buffer_size
  pub text : IsText content
  pub rest_text : IsText (rest_of inp.fp)
  pub no_more : at_end inp.fp ≡ true → rest_of inp.fp ≡ []

-- Between packets: `n` are made, and `currseq` is the start of the next one inside the buffer.
pub record IsReady (n : ℕ) (content : List ℕ) (inp : Input) : Type 0 where
  pub reads : Reads content inp
  pub buffers : ℕ
  pub count : inp.buffcount ≡ pos buffers
  pub place : inp.currseq + buffer_size * buffers ≡ packet_size * n
  pub inside : inp.currseq < buffer_size

-- What `input_into_buffer` leaves.
pub record Refills (inp : Input) (content : List ℕ) (inp' : Input) : Type 0 where
  pub result : input_into_buffer inp ≡ ok inp'
  pub reads : Reads content inp'
  pub split : content ++ rest_of inp'.fp ≡ rest_of inp.fp
  pub currseq : inp'.currseq ≡ inp.currseq
  pub count : inp'.buffcount ≡ inc inp.buffcount

pub input_into_buffer-Refills :
    (inp : Input) (s : Stream) (old : List ℕ)
    → inp.fp ≡ some s
    → inp.input_buffer ≡ padded buffer_size old
    → length old ≤ buffer_size
    → IsText s.rest
    → (s.eof ≡ true → s.rest ≡ [])
    → (content : List ℕ) × (inp' : Input) × Refills inp content inp'
unfolding input_into_buffer getfilestream
input_into_buffer-Refills inp s old open_fp held fits text over =
    let (fp, bytes, got) = getfilestream-Got s buffer_size 999 (omega arith) over in
    let parts : IsText bytes × IsText (rest_of fp) =
      All-of_append (λ b. 0 < b) bytes (rest_of fp) (rw got.split text) in
    (
      bytes,
      record inp {
        fp = fp;
        input_buffer = padded buffer_size bytes;
        buffcount = inc inp.buffcount;
      },
      record {
        result = rw (open_fp, held, clear-padded old fits, got.result);
        reads = record {
          buffer = refl;
          fits = omega (arith, got.few);
          text = parts.0;
          rest_text = parts.1;
          no_more = got.no_more;
        };
        split = rw open_fp got.split;
        currseq = refl;
        count = refl;
      },
    )

abbrev pub advance : Input → Input
advance inp = record inp { currseq = inp.currseq + packet_size }

-- `inp'` goes on where `inp` stood, behind the packet at its `currseq`.
pub record Advances (n : ℕ) (content : List ℕ) (inp inp' : Input) : Type 0 where
  pub content' : List ℕ
  pub ready : IsReady (suc n) content' inp'
  pub split : chunk content inp ++ unread content' inp' ≡ unread content inp

compute-stays :
    (n : ℕ) (content : List ℕ) (inp : Input) {last : Bool} {inp' : Input}
    → IsReady n content inp
    → (inp.currseq + packet_size == buffer_size) ≡ false
    → compute (advance inp) ≡ ok (last, inp')
    → Advances n content inp inp'
unfolding compute
compute-stays n content inp {last} {inp'} r stays e =
    let same : advance inp ≡ inp' = ground arith in
    subst (λ j. Advances n content inp j) same
      (record {
        content' = content;
        ready = record {
          reads = record {
            buffer = r.reads.buffer;
            fits = r.reads.fits;
            text = r.reads.text;
            rest_text = r.reads.rest_text;
            no_more = r.reads.no_more;
          };
          buffers = r.buffers;
          count = r.count;
          place = omega (arith, r.place);
          inside = ground (arith, r.place, r.inside);
        };
        split = chunk-split content (rest_of inp.fp) inp.currseq;
      })

compute-refills :
    (n : ℕ) (content : List ℕ) (inp : Input) (s : Stream) {last : Bool} {inp' : Input}
    → IsReady n content inp
    → inp.fp ≡ some s
    → (inp.currseq + packet_size == buffer_size) ≡ true
    → compute (advance inp) ≡ ok (last, inp')
    → Advances n content inp inp'
unfolding compute
compute-refills n content inp s {last} {inp'} r open_fp refills e =
    let rest_eq : rest_of inp.fp ≡ s.rest = ap rest_of open_fp in
    let over : s.eof ≡ true → s.rest ≡ [] =
      λ h. sym rest_eq ∙ r.reads.no_more (ap at_end open_fp ∙ h) in
    let (more, inp₁, f) =
      input_into_buffer-Refills (advance inp) s content open_fp r.reads.buffer
        (omega (arith, r.reads.fits)) (subst IsText rest_eq r.reads.rest_text) over in
    let same : record inp₁ { currseq = 0 } ≡ inp' = ground (arith, f.result) in
    let used : drop (inp.currseq + packet_size) content ≡ [] =
      drop-eq-nil (inp.currseq + packet_size) content (ground (arith, r.reads.fits)) in
    let at : inp.currseq + packet_size ≡ buffer_size = ground arith in
    subst (λ j. Advances n content inp j) same
      (record {
        content' = more;
        ready = record {
          reads = record {
            buffer = f.reads.buffer;
            fits = f.reads.fits;
            text = f.reads.text;
            rest_text = f.reads.rest_text;
            no_more = f.reads.no_more;
          };
          buffers = suc r.buffers;
          count = f.count ∙ ap inc r.count;
          place = omega (arith, r.place);
          inside = omega arith;
        };
        split = rw f.split (rw used at (chunk-split content (rest_of inp.fp) inp.currseq));
      })

compute-null :
    (inp : Input) {last : Bool} {inp' : Input}
    → inp.fp ≡ none
    → (inp.currseq + packet_size == buffer_size) ≡ true
    → compute (advance inp) ≢ ok (last, inp')
unfolding compute input_into_buffer getfilestream Input.getfilestream
compute-null inp closed refills e = ground arith

-- The step to the next packet loses no byte of the file.
pub compute-Advances :
    (n : ℕ) (content : List ℕ) (inp : Input) {last : Bool} {inp' : Input}
    → IsReady n content inp
    → compute (advance inp) ≡ ok (last, inp')
    → Advances n content inp inp'
compute-Advances n content inp r e = elim (Bool-cases (inp.currseq + packet_size == buffer_size)) [
  | inr stays ↦ compute-stays n content inp r stays e
  | inl refills ↦ elim (Option-cases inp.fp) [
    | inl closed ↦ absurd (compute-null inp closed refills e)
    | inr (s, open_fp) ↦ compute-refills n content inp s r open_fp refills e
  ]
]

-- A packet is a C string, the slice of the file at `currseq`, and has its place as its number.
pub create_packet-text :
    (n : ℕ) (raw : Packet) (seqno0 : ℕ) (inp : Input) (content : List ℕ)
    → IsReady n content inp
    → drop packet_size raw.payload ≡ 0 ∷ []
    → c_string (create_packet raw packet_size inp.currseq seqno0 inp).payload
      ≡ some (chunk content inp)
unfolding create_packet
create_packet-text n raw seqno0 inp content r nul =
    let room : inp.currseq + packet_size ≤ buffer_size = omega (arith, r.place, r.inside) in
    rw
      (
        r.reads.buffer,
        nul,
        copy-take (padded buffer_size content) inp.currseq packet_size
            (omega (arith, length-padded buffer_size content (omega (arith, r.reads.fits)))),
      )
      (c_string-slice content (suc buffer_size - length content) inp.currseq packet_size
        r.reads.text (omega (arith, r.reads.fits)))

pub create_packet-seq_no :
    (n : ℕ) (raw : Packet) (seqno0 : ℕ) (inp : Input) (content : List ℕ)
    → IsReady n content inp
    → (create_packet raw packet_size inp.currseq seqno0 inp).seq_no ≡ packet_size * n
unfolding create_packet
create_packet-seq_no n raw seqno0 inp content r = rw r.count r.place
