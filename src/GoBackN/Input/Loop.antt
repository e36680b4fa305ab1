-- ===== src/GoBackN/Input/Loop.antt =====
-- The copying loop of `createPacket` against the slice that it stands for.
use csf303_computer_networks.Prelude.{
  ℕ, zero, suc, ◌+◌, ◌-◌, ◌≤◌, ◌≡◌, refl, ap, List, [], ◌++◌, arith, length, set, take, drop,
  replicate, drop-cons, drop-append_of_ge, drop-replicate, replicate-snoc, set-append,
}
use csf303_computer_networks.GoBackN.Input.{copy, clear, store}
use csf303_computer_networks.GoBackN.Packet.{buffer_size}

pub copy-take : (buf : List ℕ) (i n : ℕ) → i + n ≤ length buf → copy buf i n ≡ take n (drop i buf)
unfolding copy
copy-take buf i zero h = refl
copy-take buf i (suc n) h =
    let e : i + 1 ≡ suc i = omega arith in
    rw (drop-cons i buf 0 (omega arith), copy-take buf (i + 1) n (omega arith), e)

-- A buffer of `n + 1` bytes that holds `content` and then zeros.
abbrev pub padded : ℕ → List ℕ → List ℕ
padded n content = content ++ replicate (suc n - length content) 0

zeros_cleared :
    (n : ℕ) (content : List ℕ)
    → length content ≤ n
    → replicate n 0 ++ drop n (padded n content) ≡ replicate (suc n) 0
zeros_cleared n content h =
    let e : suc n - length content - (n - length content) ≡ 1 = omega arith in
    rw
      (
        drop-append_of_ge n content (replicate (suc n - length content) 0) h,
        drop-replicate {A = ℕ} (n - length content) (suc n - length content) 0,
        e,
      )
      (replicate-snoc {A = ℕ} n 0)

-- The loop leaves nothing of what was read before.
pub clear-padded :
    (content : List ℕ)
    → length content ≤ buffer_size
    → clear (padded buffer_size content) ≡ replicate (suc buffer_size) 0
unfolding clear
clear-padded content h = zeros_cleared buffer_size content h

set-replicate : (m : ℕ) → set {A = ℕ} (replicate m 0) 0 0 ≡ replicate m 0
set-replicate zero = refl
set-replicate (suc m) = refl

pub store-zeros : (n : ℕ) (got : List ℕ) → store got (replicate (suc n) 0) ≡ padded n got
unfolding store
store-zeros n got = rw (
  drop-replicate {A = ℕ} (length got) (suc n) 0,
  set-append got (replicate (suc n - length got) 0) 0,
  set-replicate (suc n - length got),
)

pub padded-nil : (n : ℕ) → padded n [] ≡ replicate (suc n) 0
padded-nil n = let e : suc n - 0 ≡ suc n = omega arith in ap (λ k. replicate k 0) e
