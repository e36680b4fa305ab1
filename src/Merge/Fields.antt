-- ===== src/Merge/Fields.antt =====
-- Practice - 2023/client-2.c: `read_packet` takes the fields of the file one by one.
use csf303_computer_networks.Prelude.{
  ℕ, zero, suc, ◌<◌, ◌≤◌, ◌≡◌, refl, ap, sym, subst, ◌∙◌, true, false, List, [], ◌∷◌, ◌++◌, arith,
  length, All, IsText, c_string-append,
}
use csf303_computer_networks.Merge.{Packet, max_data_size}
use csf303_computer_networks.StopAndWait.Scan.{is_separator, scan_field, skip_separators}
use csf303_computer_networks.Merge.Client.{up_to_nul, fill, store_field, read_packet}

-- A file as its fields, each with the separators behind it.
pub record Part : Type 0 where
  pub field : List ℕ
  pub separators : List ℕ

unfoldable pub bytes_of : List Part → List ℕ
bytes_of [] = []
bytes_of (p ∷ ps) = p.field ++ (p.separators ++ bytes_of ps)

abbrev pub IsPlain : ℕ → Type 0
IsPlain b = (is_separator b ≡ false) × (0 < b)

abbrev pub IsSeparator : ℕ → Type 0
IsSeparator b = is_separator b ≡ true

-- A field that fits in `data`.
pub record IsField (text : List ℕ) : Type 0 where
  pub plain : All IsPlain text
  pub some_text : 0 < length text
  pub fits : length text < max_data_size

-- Only the last field may have no separator behind it.
unfoldable pub IsFile : List Part → Type 0
IsFile [] = Unit
IsFile (p ∷ ps) =
    IsField p.field × All IsSeparator p.separators × (p.separators ≡ [] → ps ≡ []) × IsFile ps

-- What ends a field.
abbrev Starts : List ℕ → Type 0
Starts [] = Unit
Starts (b ∷ bs) = is_separator b ≡ true

abbrev StartsPlain : List ℕ → Type 0
StartsPlain [] = Unit
StartsPlain (b ∷ bs) = is_separator b ≡ false

scan_field-append :
    (n : ℕ) (text rest : List ℕ)
    → All IsPlain text
    → length text ≤ n
    → Starts rest
    → scan_field n (text ++ rest) ≡ (text, rest)
unfolding scan_field
scan_field-append zero [] rest h le st = refl
scan_field-append (suc n) [] [] h le st = refl
scan_field-append (suc n) [] (b ∷ bs) h le st = rw (st, scan_field) refl
scan_field-append zero (b ∷ bs) rest h le st = absurd (omega arith)
scan_field-append (suc n) (b ∷ bs) rest h le st =
    rw (h.0.0, scan_field-append n bs rest h.1 (omega arith) st) refl

skip_separators-append :
    (seps rest : List ℕ)
    → All IsSeparator seps
    → StartsPlain rest
    → skip_separators (seps ++ rest) ≡ rest
unfolding skip_separators
skip_separators-append [] [] h st = refl
skip_separators-append [] (b ∷ bs) h st = rw (st, skip_separators) refl
skip_separators-append (s ∷ seps) rest h st = rw (h.0, skip_separators-append seps rest h.1 st) refl

pub IsPlain-IsText : (text : List ℕ) → All IsPlain text → IsText text
IsPlain-IsText [] h = tt
IsPlain-IsText (b ∷ bs) h = (h.0.1, IsPlain-IsText bs h.1)

pub up_to_nul-text : (text : List ℕ) → IsText text → up_to_nul text ≡ text
up_to_nul-text text h = rw (c_string-append text [] h, up_to_nul) refl

pub IsFile-bytes : (ps : List Part) → IsFile ps → StartsPlain (bytes_of ps)
unfolding IsFile bytes_of
IsFile-bytes [] h = tt
IsFile-bytes (p ∷ ps) h = field_starts p.field (p.separators ++ bytes_of ps) h.0
  where
    field_starts : (text rest : List ℕ) → IsField text → StartsPlain (text ++ rest)
    field_starts [] rest f = absurd (omega (arith, f.some_text))
    field_starts (b ∷ bs) rest f = f.plain.0.0

separators_start :
    (p : Part) (ps : List Part)
    → All IsSeparator p.separators
    → (p.separators ≡ [] → ps ≡ [])
    → Starts (p.separators ++ bytes_of ps)
unfolding bytes_of
separators_start p ps seps last = first_of p.separators seps last
  where
    first_of : (l : List ℕ) → All IsSeparator l → (l ≡ [] → ps ≡ []) → Starts (l ++ bytes_of ps)
    first_of [] seps last = subst (λ x. Starts (bytes_of x)) (sym (last refl)) tt
    first_of (b ∷ bs) seps last = seps.0

store_field-field :
    (text rest : List ℕ) (pkt : Packet)
    → IsField text
    → store_field pkt (text, rest) ≡ (skip_separators rest, fill text pkt)
unfolding store_field
store_field-field [] rest pkt f = absurd (omega (arith, f.some_text))
store_field-field (b ∷ bs) rest pkt f = refl

-- One call of `read_packet` takes one field, and leaves the file behind its separators.
pub read_packet-part :
    (p : Part) (ps : List Part) (pkt : Packet)
    → IsFile (p ∷ ps)
    → read_packet (bytes_of (p ∷ ps)) pkt ≡ (bytes_of ps, fill p.field pkt)
unfolding read_packet bytes_of IsFile
read_packet-part p ps pkt h =
    let scanned : scan_field 255 (p.field ++ (p.separators ++ bytes_of ps))
        ≡ (p.field, p.separators ++ bytes_of ps) =
      scan_field-append 255 p.field _ h.0.plain (omega (arith, h.0.fits))
        (separators_start p ps h.1 h.2) in
    let skipped : skip_separators (p.separators ++ bytes_of ps) ≡ bytes_of ps =
      skip_separators-append p.separators _ h.1 (IsFile-bytes ps h.3) in
    ap (store_field pkt) scanned
    ∙ store_field-field p.field _ pkt h.0
    ∙ ap (λ l. (l, fill p.field pkt)) skipped

pub read_packet-end : (pkt : Packet) → read_packet (bytes_of []) pkt ≡ ([], record pkt { len = 0 })
unfolding read_packet bytes_of scan_field store_field
read_packet-end pkt = refl
