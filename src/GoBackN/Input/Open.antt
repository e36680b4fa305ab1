-- ===== src/GoBackN/Input/Open.antt =====
-- `fopen` and the first `inputintobuffer`.
use csf303_computer_networks.Prelude.{
  ℕ, suc, ◌≡◌, refl, sym, subst, false, some, List, [], arith, ok, IsText, replicate,
}
use csf303_computer_networks.Prelude.Int.{negsuc}
use csf303_computer_networks.GoBackN.Packet.{buffer_size}
use csf303_computer_networks.GoBackN.Input.{Input, open_input}
use csf303_computer_networks.GoBackN.Input.Loop.{padded-nil}
use csf303_computer_networks.GoBackN.Input.Text.{unread, input_into_buffer-Refills}
use csf303_computer_networks.GoBackN.Input.Advance.{IsReady}

abbrev at_start : List ℕ → Input
at_start file = record {
  fp = some (record { rest = file; eof = false });
  currseq = 0;
  buffcount = negsuc 0;
  input_buffer = replicate (suc buffer_size) 0;
}

-- A file that can be opened and is not empty is there to be read from its first byte.
pub open_input-IsReady :
    (file : List ℕ) {inp : Input}
    → IsText file
    → open_input (some file) ≡ ok inp
    → (content : List ℕ) × IsReady content inp × (unread content inp ≡ file)
unfolding open_input
open_input-IsReady file {inp} text e =
    let (content, inp₁, f) =
      input_into_buffer-Refills (at_start file) (record { rest = file; eof = false }) [] refl
        (sym (padded-nil buffer_size)) (omega arith) text (λ h. cc) in
    let opened : inp₁ ≡ inp = ground (arith, f.result) in
    subst (λ j. (c : List ℕ) × IsReady c j × (unread c j ≡ file)) opened
      (
        content,
        record {
          reads = f.reads;
          aligned = omega (arith, f.currseq);
          inside = omega (arith, f.currseq);
        },
        rw f.currseq f.split,
      )
