-- ===== src/StopAndWait/Spec.antt =====
-- Stop and wait with one bit, over channels that lose packets and keep their order: what
-- lab6/udp_client.c with lab6/udp_server.c and Lab10/client.c with Lab10/server.c promise.
use csf303_computer_networks.Prelude.{
  ℕ, ◌-◌, ◌≤◌, ◌≡◌, ◌≢◌, ◌⊎◌, inl, inr, List, [], ◌∷◌, ◌++◌, All, All-append, All-of_append,
}

-- A list that starts with some `P` and goes on with `Q` only.
abbrev pub Then : {A : Type 0} → (A → Type 0) → (A → Type 0) → List A → Type 0
Then P Q [] = Unit
Then P Q (x ∷ xs) = (P x × Then P Q xs) ⊎ (Q x × All Q xs)

module _ {A : Type 0} where
  pub Then-All : (P Q : A → Type 0) (xs : List A) → All P xs → Then P Q xs
  Then-All P Q [] h = tt
  Then-All P Q (x ∷ xs) h = inl (h.0, Then-All P Q xs h.1)

  pub Then-snoc :
      (P Q : A → Type 0) (xs : List A) (y : A) → Then P Q xs → Q y → Then P Q (xs ++ y ∷ [])
  Then-snoc P Q [] y h q = inr (q, tt)
  Then-snoc P Q (x ∷ xs) y (inl (p, h)) q = inl (p, Then-snoc P Q xs y h q)
  Then-snoc P Q (x ∷ xs) y (inr (p, h)) q = inr (p, All-append Q xs (y ∷ []) h (q, tt))

  pub All-remove :
      (P : A → Type 0) (xs : List A) (y : A) (ys : List A) → All P (xs ++ y ∷ ys) → All P (xs ++ ys)
  All-remove P xs y ys h =
      let (front, back) = All-of_append P xs (y ∷ ys) h in All-append P xs ys front back.1

  pub Then-later : (P Q : A → Type 0) (xs : List A) → All Q xs → Then P Q xs
  Then-later P Q [] h = tt
  Then-later P Q (x ∷ xs) h = inr h

  pub Then-remove :
      (P Q : A → Type 0) (xs : List A) (y : A) (ys : List A)
      → Then P Q (xs ++ y ∷ ys)
      → Then P Q (xs ++ ys)
  Then-remove P Q [] y ys (inl (p, h)) = h
  Then-remove P Q [] y ys (inr (q, h)) = Then-later P Q ys h
  Then-remove P Q (x ∷ xs) y ys (inl (p, h)) = inl (p, Then-remove P Q xs y ys h)
  Then-remove P Q (x ∷ xs) y ys (inr (q, h)) = inr (q, All-remove Q xs y ys h)

-- What the sender is about to do: send a packet with a bit, or wait for the ACK of a packet.
pub data Sender (P : Type 0) : Type 0 where
  idle : ℕ → Sender P
  waiting : P → Sender P

-- The two ends, the channels between them, and what was sent and delivered, each packet once.
pub record Net (P : Type 0) : Type 0 where
  pub sender : Sender P
  pub expected : ℕ
  pub to_server : List P
  pub to_client : List P
  pub sent : List P
  pub delivered : List P

module _ {P : Type 0} (seq : P → ℕ) where
  -- A channel may lose any of its packets. An ACK that is not waited for is as good as lost.
  pub data Step : Net P → Net P → Type 0 where
    send :
        (n : Net P) (p : P)
        → n.sender ≡ idle (seq p)
        → Step n (record n {
          sender = waiting p;
          to_server = n.to_server ++ p ∷ [];
          sent = n.sent ++ p ∷ [];
        })
    timeout :
        (n : Net P) (p : P)
        → n.sender ≡ waiting p
        → Step n (record n { to_server = n.to_server ++ p ∷ [] })
    receive_ack :
        (n : Net P) (p ack : P) (rest : List P)
        → n.sender ≡ waiting p
        → n.to_client ≡ ack ∷ rest
        → seq ack ≡ seq p
        → Step n (record n { sender = idle (1 - seq p); to_client = rest })
    lose_ack :
        (n : Net P) (xs : List P) (ack : P) (ys : List P)
        → n.to_client ≡ xs ++ ack ∷ ys
        → Step n (record n { to_client = xs ++ ys })
    deliver :
        (n : Net P) (p ack : P) (rest : List P)
        → n.to_server ≡ p ∷ rest
        → seq p ≡ n.expected
        → seq ack ≡ seq p
        → Step n (record n {
          expected = 1 - n.expected;
          to_server = rest;
          to_client = n.to_client ++ ack ∷ [];
          delivered = n.delivered ++ p ∷ [];
        })
    repeat :
        (n : Net P) (p ack : P) (rest : List P)
        → n.to_server ≡ p ∷ rest
        → seq p ≢ n.expected
        → seq ack ≡ seq p
        → Step n (record n { to_server = rest; to_client = n.to_client ++ ack ∷ [] })
    lose_packet :
        (n : Net P) (xs : List P) (p : P) (ys : List P)
        → n.to_server ≡ xs ++ p ∷ ys
        → Step n (record n { to_server = xs ++ ys })

  abbrev pub Old : ℕ → P → Type 0
  Old b q = seq q ≡ 1 - b

  abbrev pub Same : P → P → Type 0
  Same p q = q ≡ p

  abbrev pub Acks : ℕ → P → Type 0
  Acks b q = seq q ≡ b

  -- Between two packets, with a packet on its way, and with an ACK on its way.
  pub data IsSafe (n : Net P) : Type 0 where
    resting :
        (b : ℕ)
        → n.sender ≡ idle b
        → b ≤ 1
        → n.expected ≡ b
        → All (Old b) n.to_server
        → All (Old b) n.to_client
        → n.sent ≡ n.delivered
        → IsSafe n
    pending :
        (p : P)
        → n.sender ≡ waiting p
        → seq p ≤ 1
        → n.expected ≡ seq p
        → Then (Old (seq p)) (Same p) n.to_server
        → All (Old (seq p)) n.to_client
        → n.sent ≡ n.delivered ++ p ∷ []
        → IsSafe n
    arrived :
        (p : P)
        → n.sender ≡ waiting p
        → seq p ≤ 1
        → n.expected ≡ 1 - seq p
        → All (Same p) n.to_server
        → Then (Old (seq p)) (Acks (seq p)) n.to_client
        → n.sent ≡ n.delivered
        → IsSafe n
