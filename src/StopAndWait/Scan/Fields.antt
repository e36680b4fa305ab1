-- ===== src/StopAndWait/Scan/Fields.antt =====
-- Lab10/client.c: what `read_packet` takes from a file whose next field ends in a separator.
use csf303_computer_networks.Prelude.{ℕ, ◌≡◌, false, List, All}
use csf303_computer_networks.StopAndWait.Scan.{is_separator}

abbrev pub IsField : List ℕ → Type 0
IsField = All (λ b. is_separator b ≡ false)
