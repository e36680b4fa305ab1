-- ===== src/StopAndWait/Scan.antt =====
-- Lab10/client.c: `read_packet`, which reads the next field of the file with `fscanf`.
pub mod Fields
use csf303_computer_networks.Prelude.{
  ℕ, zero, suc, ◌-◌, Bool, ◌||◌, List, [], ◌∷◌, ◌++◌, if◌then◌else◌, ◌==◌, length, take, replicate,
}

abbrev pub max_data_size : ℕ
max_data_size = 256

-- `data` holds 256 bytes.
pub record Packet : Type 0 where
  pub ack_or_data : ℕ
  pub data_bytes : List ℕ
  pub seq_no : ℕ
  pub len : ℕ

-- `,`, `.` or a newline
abbrev pub is_separator : ℕ → Bool
is_separator b = b == b',' || b == b'.' || b == 10

-- `%255[^,.\n]`: at most `n` bytes that are no separators, and what is left.
unfoldable pub scan_field : ℕ → List ℕ → List ℕ × List ℕ
scan_field zero bs = ([], bs)
scan_field (suc n) [] = ([], [])
scan_field (suc n) (b ∷ bs) =
    let (field, rest) = scan_field n bs in
    if is_separator b then ([], b ∷ bs) else (b ∷ field, rest)

-- `%*[,.\n]`
unfoldable pub skip_separators : List ℕ → List ℕ
skip_separators [] = []
skip_separators (b ∷ bs) = let rest = skip_separators bs in if is_separator b then rest else b ∷ bs

-- The string that `strncpy` copies and `strlen` measures: the bytes before the first NUL.
unfoldable pub before_nul : List ℕ → List ℕ
before_nul [] = []
before_nul (b ∷ bs) = let rest = before_nul bs in if b == 0 then [] else b ∷ rest

-- What is left of the file, and the packet. Without a field `len` is 0.
unfoldable pub read_packet : List ℕ → Packet → List ℕ × Packet
read_packet fp pkt =
    let (value_str, rest) = scan_field (max_data_size - 1) fp in
    let str = before_nul value_str in
    if length value_str == 0 then (rest, record pkt { len = 0 }) else (
      skip_separators rest,
      record pkt {
        data_bytes = take (max_data_size - 1) (str ++ replicate (max_data_size - 1) 0) ++ 0 ∷ [];
        len = length str;
        seq_no = 0;
      },
    )
