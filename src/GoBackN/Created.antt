-- ===== src/GoBackN/Created.antt =====
-- The packets of a client in the order of their creation: packet `i` of the list has `seqNo` i + 1.
-- What is said here of such a list is used for the client's window and for the server's file.
use csf303_computer_networks.Prelude.{
  ℕ, zero, suc, ◌+◌, ◌<◌, ◌≡◌, refl, ◌∙◌, none, some, List, [], ◌∷◌, ◌++◌, append_assoc, append-nil,
  arith, length, get_elem?, take, drop, drop-eq-nil, All, c_string, get_elem?-append_old,
}
use csf303_computer_networks.GoBackN.Packet.{Packet}

-- The bytes that `fputs` writes of a packet.
pub text_of : Packet → List ℕ
text_of p = elim (c_string p.payload) [ none ↦ [] | some t ↦ t ]

pub texts : List Packet → List ℕ
texts [] = []
texts (p ∷ ps) = text_of p ++ texts ps

-- What the client puts into packet number `n`, counted from 0.
pub record IsData (n : ℕ) (p : Packet) : Type 0 where
  pub number : p.seq_no ≡ suc n
  pub data_kind : p.is_ack ≡ 0
  pub not_final : p.final_packet ≡ 0
  pub text : c_string p.payload ≡ some (text_of p)

-- Every packet of the list is the data packet of its place, from number `n` on.
abbrev pub IsStream : ℕ → List Packet → Type 0
IsStream n [] = Unit
IsStream n (p ∷ ps) = IsData n p × IsStream (suc n) ps

-- A packet on the wire is one of those created.
pub record IsOriginal (ps : List Packet) (p : Packet) : Type 0 where
  pub place : ℕ
  pub found : get_elem? ps place ≡ some p

pub text_of-c_string : (p : Packet) (t : List ℕ) → c_string p.payload ≡ some t → text_of p ≡ t
unfolding text_of
text_of-c_string p t e = rw (e, text_of)

pub texts-append : (ps qs : List Packet) → texts (ps ++ qs) ≡ texts ps ++ texts qs
unfolding texts
texts-append [] qs = refl
texts-append (p ∷ ps) qs = rw (texts-append ps qs, append_assoc (text_of p) (texts ps) (texts qs))

pub texts-nil : [] ≡ texts []
unfolding texts
texts-nil = refl

pub texts-snoc : (ps : List Packet) (p : Packet) → texts (ps ++ p ∷ []) ≡ texts ps ++ text_of p
unfolding texts
texts-snoc ps p = rw (texts-append ps (p ∷ []), append-nil (text_of p))

pub IsStream-snoc :
    (n k : ℕ) (ps : List Packet) (p : Packet)
    → IsStream n ps
    → n + length ps ≡ k
    → IsData k p
    → IsStream n (ps ++ p ∷ [])
IsStream-snoc n k [] p s e d = let e' : k ≡ n = omega arith in (rw e' at d, tt)
IsStream-snoc n k (q ∷ ps) p s e d = (s.0, IsStream-snoc (suc n) k ps p s.1 (omega arith) d)

pub IsStream-get :
    (n i k : ℕ) (ps : List Packet) (p : Packet)
    → IsStream n ps
    → get_elem? ps i ≡ some p
    → n + i ≡ k
    → IsData k p
IsStream-get n i k [] p s e h = absurd (cc)
IsStream-get n zero k (q ∷ ps) p s e h =
    let e' : n ≡ k = omega arith in rw e' at (let q-eq : q ≡ p = cc in rw q-eq at s.0)
IsStream-get n (suc i) k (q ∷ ps) p s e h = IsStream-get (suc n) i k ps p s.1 e (omega arith)

pub get_elem?-lt : (ps : List Packet) (i : ℕ) (p : Packet) → get_elem? ps i ≡ some p → i < length ps
get_elem?-lt [] i p e = absurd (cc)
get_elem?-lt (q ∷ ps) zero p e = omega arith
get_elem?-lt (q ∷ ps) (suc i) p e = omega (arith, get_elem?-lt ps i p e)

pub get_elem?-snoc :
    (ps : List Packet) (q : Packet) (i : ℕ) (p : Packet)
    → get_elem? ps i ≡ some p
    → get_elem? (ps ++ q ∷ []) i ≡ some p
get_elem?-snoc ps q i p e = get_elem?-append_old ps (q ∷ []) i (get_elem?-lt ps i p e) ∙ e

pub IsOriginal-snoc :
    (ps : List Packet) (q : Packet) (p : Packet) → IsOriginal ps p → IsOriginal (ps ++ q ∷ []) p
IsOriginal-snoc ps q p o = record { place = o.place; found = get_elem?-snoc ps q o.place p o.found }

-- One more packet taken is one more text written.
pub take-suc :
    (ps : List Packet) (i : ℕ) (p : Packet)
    → get_elem? ps i ≡ some p
    → take (suc i) ps ≡ take i ps ++ p ∷ []
take-suc [] i p e = absurd (cc)
take-suc (q ∷ ps) zero p e = let q-eq : q ≡ p = cc in rw q-eq
take-suc (q ∷ ps) (suc i) p e = rw (take-suc ps i p e)

pub drop-get :
    (ps : List Packet) (i : ℕ) (p : Packet)
    → get_elem? ps i ≡ some p
    → drop i ps ≡ p ∷ drop (suc i) ps
drop-get [] i p e = absurd (cc)
drop-get (q ∷ ps) zero p e = let q-eq : q ≡ p = cc in rw q-eq
drop-get (q ∷ ps) (suc i) p e = drop-get ps i p e

pub get_elem?-some :
    (ps : List Packet) (i : ℕ) → i < length ps → (p : Packet) × (get_elem? ps i ≡ some p)
get_elem?-some [] i h = absurd (omega arith)
get_elem?-some (q ∷ ps) zero h = (q, refl)
get_elem?-some (q ∷ ps) (suc i) h = get_elem?-some ps i (omega arith)

pub drop-IsOriginal :
    (ps : List Packet) (n i : ℕ) → length ps ≡ i + n → All (IsOriginal ps) (drop i ps)
drop-IsOriginal ps zero i e = rw (drop-eq-nil i ps (omega arith)) tt
drop-IsOriginal ps (suc n) i e =
    let (p, found) = get_elem?-some ps i (omega arith) in
    rw (drop-get ps i p found)
      (record { place = i; found = found }, drop-IsOriginal ps n (suc i) (omega arith))
