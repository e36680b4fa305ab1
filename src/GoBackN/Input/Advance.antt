-- ===== src/GoBackN/Input/Advance.antt =====
-- `currseq += PACKET_SIZE` and `compute()`: what is read next, and when the file is at its end.
use csf303_computer_networks.Prelude.{
  Stream, ℕ, suc, ◌+◌, ◌-◌, ◌%◌, ◌<◌, ◌≡◌, refl, ap, sym, ◌∙◌, inl, inr, Bool, true, false, none,
  some, List, [], ◌++◌, append_assoc, arith, leb, ◌==◌, length, take, drop, get_or, ok, Bool-cases,
  Option-cases, subst, ◌≢◌, ==→eq, append-nil, take-append-drop, drop-drop, drop-eq-nil, All-get_or,
  IsText, replicate,
}
use native.Mathlib.Decide.{dec_lt}
use csf303_computer_networks.GoBackN.Packet.{packet_size, buffer_size}
use csf303_computer_networks.GoBackN.Input.{Input, getfilestream, input_into_buffer, compute}
use csf303_computer_networks.GoBackN.Input.Text.{
  Reads, rest_of, at_end, unread, chunk, input_into_buffer-Refills,
}

-- Between packets: `currseq` is the start of a packet inside the buffer.
pub record IsReady (content : List ℕ) (inp : Input) : Type 0 where
  pub reads : Reads content inp
  pub aligned : inp.currseq % packet_size ≡ 0
  pub inside : inp.currseq < buffer_size

abbrev pub advance : Input → Input
advance inp = record inp { currseq = inp.currseq + packet_size }

-- `inp'` goes on where `inp` stood, behind the packet at its `currseq`.
pub record Advances (content : List ℕ) (inp : Input) (last : Bool) (inp' : Input) : Type 0 where
  pub content' : List ℕ
  pub ready : IsReady content' inp'
  pub split : chunk content inp ++ unread content' inp' ≡ unread content inp
  pub ended : last ≡ true → unread content' inp' ≡ []

pub chunk-split :
    (content rest : List ℕ) (i : ℕ)
    → take packet_size (drop i content) ++ (drop (i + packet_size) content ++ rest)
      ≡ drop i content ++ rest
chunk-split content rest i = rw (
  ← drop-drop i packet_size (i + packet_size) content refl,
  ← append_assoc (take packet_size (drop i content)) (drop packet_size (drop i content)) rest,
  take-append-drop packet_size (drop i content),
)

-- A zero byte below the end of the buffer is behind all that was read.
nul_ends :
    (content : List ℕ) (inp : Input) (i : ℕ)
    → Reads content inp
    → i < buffer_size
    → (get_or inp.input_buffer i 0 == 0) ≡ true
    → drop i content ++ rest_of inp.fp ≡ []
nul_ends content inp i r inside e = elim (dec_lt i (length content)) [
  | yes held ↦ absurd (omega (arith, zero_byte, All-get_or (λ b. 0 < b) content zs i 0 r.text held))
  | no past ↦ elim r.full [
    | inl whole ↦ absurd (omega arith)
    | inr none_left ↦
        rw none_left (append-nil (drop i content) ∙ drop-eq-nil i content (omega arith))
  ]
]
  where
    zs : List ℕ
    zs = replicate (suc buffer_size - length content) 0

    zero_byte : get_or (content ++ zs) i 0 ≡ 0
    zero_byte = rw r.buffer at (==→eq (get_or inp.input_buffer i 0) 0 e)

compute-stays :
    (content : List ℕ) (inp : Input) {last : Bool} {inp' : Input}
    → IsReady content inp
    → leb buffer_size (inp.currseq + packet_size) ≡ false
    → compute (advance inp) ≡ ok (last, inp')
    → Advances content inp last inp'
unfolding compute
compute-stays content inp {last} {inp'} r stays e =
    let same : advance inp ≡ inp' = ground arith in
    let next_byte : (get_or inp.input_buffer (inp.currseq + packet_size) 0 == 0) ≡ last =
      ground arith in
    subst (λ j. Advances content inp last j) same
      (record {
        content' = content;
        ready = record {
          reads = record {
            buffer = r.reads.buffer;
            fits = r.reads.fits;
            text = r.reads.text;
            rest_text = r.reads.rest_text;
            no_more = r.reads.no_more;
            full = r.reads.full;
          };
          aligned = omega (arith, r.aligned);
          inside = ground arith;
        };
        split = chunk-split content (rest_of inp.fp) inp.currseq;
        ended = λ h.
            nul_ends content inp (inp.currseq + packet_size) r.reads (ground arith) (next_byte ∙ h);
      })

-- At the end of the buffer `compute` reads the next one, if the stream is there.
compute-refills :
    (content : List ℕ) (inp : Input) (s : Stream) {last : Bool} {inp' : Input}
    → IsReady content inp
    → inp.fp ≡ some s
    → leb buffer_size (inp.currseq + packet_size) ≡ true
    → compute (advance inp) ≡ ok (last, inp')
    → Advances content inp last inp'
unfolding compute
compute-refills content inp s {last} {inp'} r open_fp refills e =
    let rest_eq : rest_of inp.fp ≡ s.rest = ap rest_of open_fp in
    let over : s.eof ≡ true → s.rest ≡ [] =
      λ h. sym rest_eq ∙ r.reads.no_more (ap at_end open_fp ∙ h) in
    let (more, inp₁, f) =
      input_into_buffer-Refills (advance inp) s content open_fp r.reads.buffer r.reads.fits
        (subst IsText rest_eq r.reads.rest_text) over in
    let same : record inp₁ { currseq = 0 } ≡ inp' = ground (arith, f.result) in
    let not_last : false ≡ last = ground (arith, f.result) in
    let used : drop (inp.currseq + packet_size) content ≡ [] =
      drop-eq-nil (inp.currseq + packet_size) content (ground (arith, r.reads.fits)) in
    subst (λ j. Advances content inp last j) same
      (record {
        content' = more;
        ready = record {
          reads = record {
            buffer = f.reads.buffer;
            fits = f.reads.fits;
            text = f.reads.text;
            rest_text = f.reads.rest_text;
            no_more = f.reads.no_more;
            full = f.reads.full;
          };
          aligned = omega arith;
          inside = omega arith;
        };
        split = rw f.split (rw used at (chunk-split content (rest_of inp.fp) inp.currseq));
        ended = λ h. cc;
      })

compute-null :
    (inp : Input) {last : Bool} {inp' : Input}
    → inp.fp ≡ none
    → leb buffer_size (inp.currseq + packet_size) ≡ true
    → compute (advance inp) ≢ ok (last, inp')
unfolding compute input_into_buffer getfilestream
compute-null inp closed refills e = ground arith

-- The step to the next packet loses no byte of the file, and `compute` returns 1 only at its end.
pub compute-Advances :
    (content : List ℕ) (inp : Input) {last : Bool} {inp' : Input}
    → IsReady content inp
    → compute (advance inp) ≡ ok (last, inp')
    → Advances content inp last inp'
compute-Advances content inp r e = elim (Bool-cases (leb buffer_size (inp.currseq + packet_size))) [
  | inr stays ↦ compute-stays content inp r stays e
  | inl refills ↦ elim (Option-cases inp.fp) [
    | inl closed ↦ absurd (compute-null inp closed refills e)
    | inr (s, open_fp) ↦ compute-refills content inp s r open_fp refills e
  ]
]
