-- ===== src/Text/Words.antt =====
-- `strtok` with one separator, `strcmp` and `gets`, on the bytes of a string before its NUL.
use csf303_computer_networks.Prelude.{
  ℕ, Bool, true, false, Option, none, some, List, [], ◌∷◌, ◌++◌, if◌then◌else◌, ◌==◌, ◌≡◌, refl, ap,
  ◌∙◌, All, arith,
}

-- `strcmp(a, b) == 0`
unfoldable pub same_text : List ℕ → List ℕ → Bool
same_text [] [] = true
same_text [] (b ∷ bs) = false
same_text (a ∷ as_left) [] = false
same_text (a ∷ as_left) (b ∷ bs) = let rest = same_text as_left bs in if a == b then rest else false

-- The bytes that `strtok` skips in front of a token.
unfoldable pub skip_to_word : ℕ → List ℕ → List ℕ
skip_to_word sep [] = []
skip_to_word sep (c ∷ cs) = let rest = skip_to_word sep cs in if c == sep then rest else c ∷ cs

-- The token, and what is left behind the separator that ends it.
unfoldable pub take_word : ℕ → List ℕ → List ℕ × List ℕ
take_word sep [] = ([], [])
take_word sep (c ∷ cs) =
    let (word, rest) = take_word sep cs in if c == sep then ([], cs) else (c ∷ word, rest)

abbrev word_at : ℕ → List ℕ → Option (List ℕ × List ℕ)
word_at sep [] = none
word_at sep (c ∷ cs) = some (take_word sep (c ∷ cs))

-- A call of `strtok` on what is left: the token and what is left then, or NULL.
unfoldable pub strtok : ℕ → List ℕ → Option (List ℕ × List ℕ)
strtok sep cs = word_at sep (skip_to_word sep cs)

abbrev pub IsWord : ℕ → List ℕ → Type 0
IsWord sep = All (λ c. (c == sep) ≡ false)

take_word-append :
    (sep : ℕ) (word rest : List ℕ)
    → IsWord sep word
    → take_word sep (word ++ sep ∷ rest) ≡ (word, rest)
unfolding take_word
take_word-append sep [] rest h = let self : (sep == sep) ≡ true = ground arith in rw self refl
take_word-append sep (c ∷ cs) rest h = rw (h.0, take_word-append sep cs rest h.1) refl

take_word-all : (sep : ℕ) (word : List ℕ) → IsWord sep word → take_word sep word ≡ (word, [])
unfolding take_word
take_word-all sep [] h = refl
take_word-all sep (c ∷ cs) h = rw (h.0, take_word-all sep cs h.1) refl

at_word : (sep c : ℕ) (cs : List ℕ) → (c == sep) ≡ false → skip_to_word sep (c ∷ cs) ≡ c ∷ cs
unfolding skip_to_word
at_word sep c cs h = rw h refl

-- A word with a separator behind it is the next token, and so is the last word.
pub strtok-word :
    (sep c : ℕ) (cs rest : List ℕ)
    → IsWord sep (c ∷ cs)
    → strtok sep (c ∷ cs ++ sep ∷ rest) ≡ some (c ∷ cs, rest)
unfolding strtok
strtok-word sep c cs rest h =
    ap (word_at sep) (at_word sep c (cs ++ sep ∷ rest) h.0)
    ∙ ap some (take_word-append sep (c ∷ cs) rest h)

pub strtok_last :
    (sep c : ℕ) (cs : List ℕ) → IsWord sep (c ∷ cs) → strtok sep (c ∷ cs) ≡ some (c ∷ cs, [])
unfolding strtok
strtok_last sep c cs h =
    ap (word_at sep) (at_word sep c cs h.0) ∙ ap some (take_word-all sep (c ∷ cs) h)

pub same_text_refl : (cs : List ℕ) → same_text cs cs ≡ true
unfolding same_text
same_text_refl [] = refl
same_text_refl (c ∷ cs) = let self : (c == c) ≡ true = ground arith in rw (self, same_text_refl cs)

pub same_text→eq : (cs ds : List ℕ) → same_text cs ds ≡ true → cs ≡ ds
unfolding same_text
same_text→eq [] [] h = refl
same_text→eq [] (d ∷ ds) h = absurd (cc)
same_text→eq (c ∷ cs) [] h = absurd (cc)
same_text→eq (c ∷ cs) (d ∷ ds) h = ground (arith, same_text→eq cs ds)
