-- ===== src/KeyValue/Keys.antt =====
-- What `put` and `del` do to the value that a key is looked up with.
use csf303_computer_networks.Prelude.{
  ◌≡◌, refl, ap, sym, ◌∙◌, true, false, Bool-cases, inl, inr, none, some, Option, [], ◌∷◌, arith,
  if◌then◌else◌, ==→eq,
}
use csf303_computer_networks.Prelude.Int.{ℤ, pos, negsuc}
use csf303_computer_networks.KeyValue.{int_eq}
use csf303_computer_networks.KeyValue.Table.{Table, first_value, remove_key}
use csf303_computer_networks.KeyValue.Answer.{put_pair, apply}

-- A pair that is put for a key that has one changes no value: the oldest is found.
pub first_value-put :
    (wanted key value older : ℤ) (t : Table)
    → first_value wanted t ≡ some older
    → first_value wanted (apply (put_pair key value) t) ≡ some older
unfolding first_value
first_value-put wanted key value older [] h = absurd (cc)
first_value-put wanted key value older ((k, v) ∷ t) h = elim (Bool-cases (int_eq k wanted)) [
  | inl same ↦ rw same (rw same at h)
  | inr other ↦ rw other (first_value-put wanted key value older t (rw other at h))
]

int_eq→eq : (a b : ℤ) → int_eq a b ≡ true → a ≡ b
int_eq→eq (pos m) (pos n) h = ap pos (==→eq m n h)
int_eq→eq (pos m) (negsuc n) h = absurd (cc)
int_eq→eq (negsuc m) (pos n) h = absurd (cc)
int_eq→eq (negsuc m) (negsuc n) h = ap negsuc (==→eq m n h)

int_eq_comm : (a b : ℤ) → int_eq a b ≡ int_eq b a
int_eq_comm (pos m) (pos n) = ground arith
int_eq_comm (pos m) (negsuc n) = refl
int_eq_comm (negsuc m) (pos n) = refl
int_eq_comm (negsuc m) (negsuc n) = ground arith

-- A key that is removed is not wanted, or is.
removed_pair :
    (wanted key k : ℤ) (v : ℤ) (later : Option ℤ)
    → int_eq k key ≡ true
    → (if int_eq wanted key then none else later)
      ≡ (if int_eq wanted key then none else if int_eq k wanted then some v else later)
removed_pair wanted key k v later same = elim (Bool-cases (int_eq wanted key)) [
  | inl gone ↦ rw gone refl
  | inr stays ↦
      let differ : int_eq k wanted ≡ false =
        int_eq_comm k wanted ∙ ap (int_eq wanted) (int_eq→eq k key same) ∙ stays in
      rw (stays, differ) refl
]

kept_pair :
    (wanted key k : ℤ) (v : ℤ) (later : Option ℤ)
    → int_eq k key ≡ false
    → (if int_eq k wanted then some v else if int_eq wanted key then none else later)
      ≡ (if int_eq wanted key then none else if int_eq k wanted then some v else later)
kept_pair wanted key k v later other = elim (Bool-cases (int_eq k wanted)) [
  | inr differ ↦ rw differ refl
  | inl same ↦
      let stays : int_eq wanted key ≡ false =
        ap (λ w. int_eq w key) (sym (int_eq→eq k wanted same)) ∙ other in
      rw (same, stays) refl
]

pub first_value-remove_key :
    (wanted key : ℤ) (t : Table)
    → first_value wanted (remove_key key t)
      ≡ (if int_eq wanted key then none else first_value wanted t)
unfolding first_value remove_key
first_value-remove_key wanted key [] = ground arith
first_value-remove_key wanted key ((k, v) ∷ t) =
    let later = first_value-remove_key wanted key t in
    elim (Bool-cases (int_eq k key)) [
      | inl same ↦ rw same (later ∙ removed_pair wanted key k v (first_value wanted t) same)
      | inr other ↦ rw (other, later) (kept_pair wanted key k v (first_value wanted t) other)
    ]
