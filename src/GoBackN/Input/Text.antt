-- ===== src/GoBackN/Input/Text.antt =====
-- What a packet carries of the file, and what is still to come.
use csf303_computer_networks.Prelude.{
  Stream, fread, ℕ, zero, suc, ◌+◌, ◌-◌, ◌≤◌, ◌<◌, ◌≡◌, refl, ap, sym, ◌⊎◌, inl, inr, Bool, true,
  false, Option, none, some, List, [], ◌∷◌, ◌++◌, append_assoc, arith, ltb, length, take, drop,
  replicate, IsText, ok, Bool-cases, tests, drop-eq-nil, All-of_append, All-take, All-drop,
  drop-append_replicate, take-append_replicate, replicate-snoc, c_string, c_string-append,
  length-append, length-replicate, length-drop, length-take, take-append-drop,
}
use csf303_computer_networks.Prelude.Int.{inc}
use csf303_computer_networks.GoBackN.Packet.{Packet, packet_size, buffer_size}
use csf303_computer_networks.GoBackN.Input.{Input, getfilestream, input_into_buffer, create_packet}
use csf303_computer_networks.GoBackN.Input.Loop.{
  padded, padded-nil, copy-take, clear-padded, store-zeros,
}

abbrev pub rest_of : Option Stream → List ℕ
rest_of none = []
rest_of (some s) = s.rest

abbrev pub at_end : Option Stream → Bool
at_end none = true
at_end (some s) = s.eof

-- The buffer holds `content`, the rest of the file is in the stream, and neither has a NUL.
pub record Reads (content : List ℕ) (inp : Input) : Type 0 where
  pub buffer : inp.input_buffer ≡ padded buffer_size content
  pub fits : length content ≤ buffer_size
  pub text : IsText content
  pub rest_text : IsText (rest_of inp.fp)
  pub no_more : at_end inp.fp ≡ true → rest_of inp.fp ≡ []
  pub full : (length content ≡ buffer_size) ⊎ (rest_of inp.fp ≡ [])

-- The bytes of the file that no packet carries yet.
abbrev pub unread : List ℕ → Input → List ℕ
unread content inp = drop inp.currseq content ++ rest_of inp.fp

-- A call of `getfilestream` for `n` bytes on a cleared buffer of `m + 1` bytes.
pub record Got (s : Stream) (m n : ℕ) (fp : Option Stream) (bytes : List ℕ) : Type 0 where
  pub result : getfilestream (some s) (replicate (suc m) 0) n ≡ ok (fp, padded m bytes)
  pub few : length bytes ≤ n
  pub split : bytes ++ rest_of fp ≡ s.rest
  pub no_more : at_end fp ≡ true → rest_of fp ≡ []
  pub full : (length bytes ≡ n) ⊎ (rest_of fp ≡ [])

take_cases : (n : ℕ) (xs : List ℕ) → (length (take n xs) ≡ n) ⊎ (drop n xs ≡ [])
take_cases zero xs = inl refl
take_cases (suc n) [] = inr refl
take_cases (suc n) (x ∷ xs) = elim (take_cases n xs) [ inl e ↦ inl (ap suc e) | inr e ↦ inr e ]

drop-short : (n : ℕ) (xs : List ℕ) → ltb (length xs) n ≡ true → drop n xs ≡ []
drop-short n xs h = drop-eq-nil n xs (omega (tests))

nil_of_length : (xs : List ℕ) → ltb 0 (length xs) ≡ false → xs ≡ []
nil_of_length [] h = refl
nil_of_length (x ∷ xs) h = absurd (omega tests)

take-nil : (n : ℕ) (xs : List ℕ) → 0 < n → take n xs ≡ [] → xs ≡ []
take-nil zero xs h e = absurd (omega arith)
take-nil (suc n) [] h e = refl
take-nil (suc n) (x ∷ xs) h e = cc

pub getfilestream-Got :
    (s : Stream) (m n : ℕ)
    → 0 < n
    → (s.eof ≡ true → s.rest ≡ [])
    → (fp : Option Stream) × (bytes : List ℕ) × Got s m n fp bytes
unfolding getfilestream
getfilestream-Got s m n pos h = elim (Bool-cases s.eof) [
  | inl over ↦ (
    none,
    [],
    record {
      result = rw (over, padded-nil m);
      few = omega arith;
      split = sym (h over);
      no_more = λ _. refl;
      full = inr refl;
    },
  )
  | inr more ↦ elim (Bool-cases (ltb 0 (length (take n s.rest)))) [
    | inl some_read ↦ (
      some (fread n s).1,
      take n s.rest,
      record {
        result = rw (more, some_read, store-zeros m (take n s.rest));
        few = omega (arith, length-take n s.rest);
        split = take-append-drop n s.rest;
        no_more = λ e. drop-short n s.rest e;
        full = take_cases n s.rest;
      },
    )
    | inr none_read ↦ (
      none,
      [],
      record {
        result = rw (more, none_read, padded-nil m);
        few = omega arith;
        split = sym (take-nil n s.rest pos (nil_of_length (take n s.rest) none_read));
        no_more = λ _. refl;
        full = inr refl;
      },
    )
  ]
]

-- `inputintobuffer` reads on: it ends the process exactly on a NULL stream.
pub record Refills (inp : Input) (content : List ℕ) (inp' : Input) : Type 0 where
  pub result : input_into_buffer inp ≡ ok inp'
  pub reads : Reads content inp'
  pub split : content ++ rest_of inp'.fp ≡ rest_of inp.fp
  pub currseq : inp'.currseq ≡ inp.currseq

pub input_into_buffer-Refills :
    (inp : Input) (s : Stream) (old : List ℕ)
    → inp.fp ≡ some s
    → inp.input_buffer ≡ padded buffer_size old
    → length old ≤ buffer_size
    → IsText s.rest
    → (s.eof ≡ true → s.rest ≡ [])
    → (content : List ℕ) × (inp' : Input) × Refills inp content inp'
unfolding input_into_buffer
input_into_buffer-Refills inp s old open_fp held fits text over =
    let (fp, bytes, got) = getfilestream-Got s buffer_size buffer_size (omega arith) over in
    let parts : IsText bytes × IsText (rest_of fp) =
      All-of_append (λ b. 0 < b) bytes (rest_of fp) (rw got.split text) in
    (
      bytes,
      record inp {
        fp = fp;
        input_buffer = padded buffer_size bytes;
        buffcount = inc inp.buffcount;
      },
      record {
        result = rw (open_fp, held, clear-padded old fits, got.result);
        reads = record {
          buffer = refl;
          fits = got.few;
          text = parts.0;
          rest_text = parts.1;
          no_more = got.no_more;
          full = got.full;
        };
        split = rw open_fp got.split;
        currseq = refl;
      },
    )

-- The text that the packet at `currseq` gets.
abbrev pub chunk : List ℕ → Input → List ℕ
chunk content inp = take packet_size (drop inp.currseq content)

-- A slice of a padded buffer with a NUL behind it is a C string, the slice of the content.
pub c_string-slice :
    (content : List ℕ) (k i n : ℕ)
    → IsText content
    → i + n ≤ length content + k
    → c_string (take n (drop i (content ++ replicate k 0)) ++ 0 ∷ [])
      ≡ some (take n (drop i content))
c_string-slice content k i n text room =
    let ys : List ℕ = drop i content in
    let m : ℕ = k - (i - length content) in
    let zs : List ℕ = replicate (n - length ys) 0 in
    rw
      (
        drop-append_replicate {A = ℕ} i content k 0,
        take-append_replicate {A = ℕ} n ys m 0 (omega (arith, length-drop i content)),
        append_assoc (take n ys) zs (0 ∷ []),
        replicate-snoc {A = ℕ} (n - length ys) 0,
      )
      (c_string-append (take n ys) zs
        (All-take (λ b. 0 < b) n ys (All-drop (λ b. 0 < b) i content text)))

pub length-padded :
    (n : ℕ) (content : List ℕ) → length content ≤ n → length (padded n content) ≡ suc n
length-padded n content h = omega (
  arith,
  length-append content (replicate (suc n - length content) 0),
  length-replicate {A = ℕ} (suc n - length content) 0,
)

-- A packet is a C string: the slice of the file at `currseq`, shorter only at the end.
pub create_packet-text :
    (raw : Packet) (datalength seqno : ℕ) (inp : Input) (content : List ℕ)
    → Reads content inp
    → inp.currseq + packet_size ≤ buffer_size
    → drop packet_size raw.payload ≡ 0 ∷ []
    → c_string (create_packet raw datalength seqno inp).payload ≡ some (chunk content inp)
unfolding create_packet
create_packet-text raw datalength seqno inp content r room nul =
    rw
      (
        r.buffer,
        nul,
        copy-take (padded buffer_size content) inp.currseq packet_size
            (omega (arith, length-padded buffer_size content r.fits)),
      )
      (c_string-slice content (suc buffer_size - length content) inp.currseq packet_size r.text
        (omega (arith, r.fits)))
