-- ===== src/GoBackN/Udp/Budget.antt =====
-- How many packets client.c can still cut from its file.
use csf303_computer_networks.Prelude.{
  ℕ, suc, ◌+◌, ◌-◌, ◌*◌, ◌/◌, replicate, ◌≤◌, ◌≡◌, Result, subst, inl, inr, Bool, false, Bool-cases,
  Option, Option-cases, none, some, if◌then◌else◌, ltb, leb, List, arith, length, length-drop, take,
  ok, err, fopen_failed, ok-pair, >>=-eq-ok, Stream, fread,
}
use csf303_computer_networks.Prelude.Int.{negsuc}
use csf303_computer_networks.GoBackN.Packet.{packet_size, buffer_size}
use csf303_computer_networks.GoBackN.Input.{
  Input, store, getfilestream, input_into_buffer, compute, open_input,
}
use csf303_computer_networks.GoBackN.Input.Advance.{advance}

-- The calls of `getfilestream` that a stream has left before one of them ends the process.
abbrev pub reads : Option Stream → ℕ
reads none = 0
reads (some s) = if s.eof then 1 else 2 + length s.rest / buffer_size

-- The packets that can still be made.
abbrev pub budget : Input → ℕ
budget inp = 10 * reads inp.fp + (buffer_size - 1 - inp.currseq) / packet_size

reads-fread :
    (s : Stream) → s.eof ≡ false → suc (reads (some (fread buffer_size s).1)) ≤ reads (some s)
reads-fread s more = elim (Bool-cases (ltb (length s.rest) buffer_size)) [
  | inl short ↦ rw (short, more) (omega arith)
  | inr long ↦
      let high : buffer_size ≤ length s.rest = ground arith in
      rw (long, more) (omega (arith, high, length-drop buffer_size s.rest))
]

reads-getfilestream :
    (fp : Option Stream) (buf : List ℕ) {fp' : Option Stream} {buf' : List ℕ}
    → getfilestream fp buf buffer_size ≡ ok (fp', buf')
    → suc (reads fp') ≤ reads fp
unfolding getfilestream
reads-getfilestream none buf e = absurd (cc)
reads-getfilestream (some s) buf {fp'} {buf'} e = elim (Bool-cases s.eof) [
  | inl over ↦
      let closed : none ≡ fp' = (ok-pair none fp' buf buf' (rw (over, getfilestream) at e)).0 in
      subst (λ f. suc (reads f) ≤ reads (some s)) closed (ground arith)
  | inr more ↦ elim (Bool-cases (ltb 0 (length (take buffer_size s.rest)))) [
    | inr nothing ↦
        let closed : none ≡ fp' =
          (ok-pair none fp' buf buf' (rw (more, nothing, getfilestream) at e)).0 in
        subst (λ f. suc (reads f) ≤ reads (some s)) closed (ground arith)
    | inl got ↦
        let left : some (fread buffer_size s).1 ≡ fp' =
          (ok-pair (some (fread buffer_size s).1) fp' (store (take buffer_size s.rest) buf) buf'
            (rw (more, got, getfilestream) at e)).0 in
        subst (λ f. suc (reads f) ≤ reads (some s)) left (reads-fread s more)
  ]
]

reads-input_into_buffer :
    (inp : Input) {inp' : Input}
    → input_into_buffer inp ≡ ok inp'
    → suc (reads inp'.fp) ≤ reads inp.fp
unfolding input_into_buffer
reads-input_into_buffer inp {inp'} e =
    let ((fp, buf), e₁, e₂) = >>=-eq-ok (getfilestream inp.fp _ buffer_size) _ e in
    let same : fp ≡ inp'.fp = ground arith in
    subst (λ f. suc (reads f) ≤ reads inp.fp) same (reads-getfilestream inp.fp _ e₁)

pub budget-compute :
    (inp : Input) {last : Bool} {inp' : Input}
    → compute (advance inp) ≡ ok (last, inp')
    → suc (budget inp') ≤ budget inp
unfolding compute
budget-compute inp {last} {inp'} e =
    elim (Bool-cases (leb buffer_size (inp.currseq + packet_size))) [
      | inl refills ↦
          let (inp₁, e₁, e₂) =
            >>=-eq-ok (input_into_buffer (advance inp)) _ (rw (refills, compute) at e) in
          let same = ok-pair false last (record inp₁ { currseq = 0 }) inp' e₂ in
          let fewer = reads-input_into_buffer (advance inp) e₁ in
          subst (λ i. suc (budget i) ≤ budget inp) same.1 (omega (arith, fewer))
      | inr stays ↦
          let same : advance inp ≡ inp' = ground arith in
          subst (λ i. suc (budget i) ≤ budget inp) same (ground arith)
    ]

currseq-input_into_buffer :
    (inp : Input) {inp' : Input} → input_into_buffer inp ≡ ok inp' → inp.currseq ≡ inp'.currseq
unfolding input_into_buffer
currseq-input_into_buffer inp {inp'} e =
    let ((fp, buf), e₁, e₂) = >>=-eq-ok (getfilestream inp.fp _ buffer_size) _ e in ground arith

opens :
    (inp inp' : Input)
    → ◌≡◌ {A = Result Input} (elim inp.fp [ none ↦ err fopen_failed | some s ↦ ok inp ]) (ok inp')
    → inp ≡ inp'
opens inp inp' e = elim (Option-cases inp.fp) [
  | inl closed ↦ absurd (ground arith)
  | inr (s, held) ↦ ground arith
]

pub budget-open_input :
    (file : List ℕ) {inp : Input}
    → open_input (some file) ≡ ok inp
    → budget inp ≤ 19 + 10 * (length file / buffer_size)
unfolding open_input
budget-open_input file {inp} e =
    let opened : Stream = record { rest = file; eof = false } in
    let zeroed : Input = record {
      fp = some opened;
      currseq = 0;
      buffcount = negsuc 0;
      input_buffer = replicate (buffer_size + 1) 0;
    } in
    let (inp₁, e₁, e₂) = >>=-eq-ok (input_into_buffer zeroed) _ e in
    let same : inp₁ ≡ inp = opens inp₁ inp e₂ in
    subst (λ i. budget i ≤ 19 + 10 * (length file / buffer_size)) same
      (omega (arith, reads-input_into_buffer zeroed e₁, currseq-input_into_buffer zeroed e₁))
