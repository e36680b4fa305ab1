-- ===== src/GoBackN/Input.antt =====
-- Practice-RDT/GBN/UDP/client.c: the globals `fp`, `currseq`, `buffcount` and `inputBuffer`, and
-- the functions that cut the input file into packets. The client over TCP has the same functions.
pub mod Loop
pub mod Text
pub mod Advance
pub mod Open
use mathlib.Core.Option
use csf303_computer_networks.Prelude.{
  ℕ, zero, suc, ◌+◌, ◌-◌, Bool, true, false, Option, none, some, List, [], ◌∷◌, ◌++◌, ltb, leb,
  ◌==◌, if◌then◌else◌, length, get_or, set, take, drop, replicate, Result, ok, err, null_file,
  fopen_failed, ◌>>=◌, Stream, fread,
}
use csf303_computer_networks.Prelude.Int.{ℤ, negsuc, inc}
use csf303_computer_networks.GoBackN.Packet.{Packet, packet_size, buffer_size}

pub record Input : Type 0 where
  pub fp : Option Stream
  pub currseq : ℕ
  pub buffcount : ℤ
  pub input_buffer : List ℕ

-- `for (int i = 0; i < BUFFER_SIZE; i++) inputBuffer[i] = '\0';`
unfoldable pub clear : List ℕ → List ℕ
clear buf = replicate buffer_size 0 ++ drop buffer_size buf

-- What `fread` has put at the start of the buffer, and the NUL behind it.
unfoldable pub store : List ℕ → List ℕ → List ℕ
store got buf = set (got ++ drop (length got) buf) (length got) 0

-- Returns the stream (`none` for NULL) and the buffer. `die` ends the process on a NULL stream.
unfoldable pub getfilestream : Option Stream → List ℕ → ℕ → Result (Option Stream × List ℕ)
getfilestream none buf n = err null_file
getfilestream (some s) buf n =
    if s.eof
    then ok (none, buf)
    else let (got, s') = fread n s in
      if ltb 0 (length got) then ok (some s', store got buf) else ok (none, buf)

unfoldable pub input_into_buffer : Input → Result Input
input_into_buffer inp = do
  (fp, buf) ← getfilestream inp.fp (clear inp.input_buffer) buffer_size
  ok (record inp { fp = fp; input_buffer = buf; buffcount = inc inp.buffcount })

-- `for (int i = currseq; i < currseq + n; i++) payload[i - currseq] = inputBuffer[i];`
unfoldable pub copy : List ℕ → ℕ → ℕ → List ℕ
copy buf i zero = []
copy buf i (suc n) = get_or buf i 0 ∷ copy buf (i + 1) n

-- `raw` is what `malloc` returned: the loop leaves the last byte of its payload.
unfoldable pub create_packet : Packet → ℕ → ℕ → Input → Packet
create_packet raw datalength seqno inp = record raw {
  size = datalength;
  is_ack = 0;
  seq_no = seqno;
  payload = copy inp.input_buffer inp.currseq packet_size ++ drop packet_size raw.payload;
}

-- Whether the byte that comes next is a NUL; at the end of the buffer the next one is read.
unfoldable pub compute : Input → Result (Bool × Input)
compute inp =
    if leb buffer_size inp.currseq
    then (do inp' ← input_into_buffer inp; ok (false, record inp' { currseq = 0 }))
    else ok (get_or inp.input_buffer inp.currseq 0 == 0, inp)

-- The globals before `main`, and its `fopen` and first `inputintobuffer`: `file` is the content of
-- input.txt, or `none` where it cannot be opened.
unfoldable pub open_input : Option (List ℕ) → Result Input
open_input file = do
  inp ← input_into_buffer (record {
    fp = Option.map (λ bytes. record { rest = bytes; eof = false }) file;
    currseq = 0;
    buffcount = negsuc 0;
    input_buffer = replicate (buffer_size + 1) 0;
  })
  elim inp.fp [ none ↦ err fopen_failed | some s ↦ ok inp ]
