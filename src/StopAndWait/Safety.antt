-- ===== src/StopAndWait/Safety.antt =====
-- Every step of stop and wait keeps what was delivered in line with what was sent.
use csf303_computer_networks.Prelude.{
  ℕ, ◌-◌, ◌≤◌, ◌≡◌, ◌≢◌, refl, ap, sym, subst, ◌∙◌, inl, inr, List, [], ◌∷◌, ◌++◌, append-nil,
  arith, length, All, All-append, All-mono,
}
use csf303_computer_networks.StopAndWait.Spec.{
  Then, Then-All, Then-snoc, Then-remove, All-remove, idle, waiting, Net, Step, send, timeout,
  receive_ack, lose_ack, deliver, repeat, lose_packet, Old, Same, Acks, IsSafe, resting, pending,
  arrived,
}

module _ {P : Type 0} (seq : P → ℕ) where
  step-send :
      (n : Net P) (p : P)
      → n.sender ≡ idle (seq p)
      → IsSafe seq n
      → IsSafe seq (record n {
        sender = waiting p;
        to_server = n.to_server ++ p ∷ [];
        sent = n.sent ++ p ∷ [];
      })
  step-send n p at (resting b s low e ps acks same) =
      let here : seq p ≡ b = cc in
      pending p refl (omega arith) (e ∙ sym here)
        (Then-snoc (Old seq (seq p)) (Same seq p) n.to_server p
          (Then-All (Old seq (seq p)) (Same seq p) n.to_server (rw here ps)) refl)
        (rw here acks) (ap (λ l. l ++ p ∷ []) same)
  step-send n p at (pending q s low e ps acks same) = absurd (cc)
  step-send n p at (arrived q s low e ps acks same) = absurd (cc)

  step-timeout :
      (n : Net P) (p : P)
      → n.sender ≡ waiting p
      → IsSafe seq n
      → IsSafe seq (record n { to_server = n.to_server ++ p ∷ [] })
  step-timeout n p at (resting b s low e ps acks same) = absurd (cc)
  step-timeout n p at (pending q s low e ps acks same) =
      let here : p ≡ q = cc in
      pending q s low e (Then-snoc (Old seq (seq q)) (Same seq q) n.to_server p ps here) acks same
  step-timeout n p at (arrived q s low e ps acks same) =
      let here : p ≡ q = cc in
      arrived q s low e (All-append (Same seq q) n.to_server (p ∷ []) ps (here, tt)) acks same

  -- The ACK that is waited for comes after the delivery only.
  step-receive_ack :
      (n : Net P) (p ack : P) (rest : List P)
      → n.sender ≡ waiting p
      → n.to_client ≡ ack ∷ rest
      → seq ack ≡ seq p
      → IsSafe seq n
      → IsSafe seq (record n { sender = idle (1 - seq p); to_client = rest })
  step-receive_ack n p ack rest at head num (resting b s low e ps acks same) = absurd (cc)
  step-receive_ack n p ack rest at head num (pending q s low e ps acks same) =
      let here : p ≡ q = cc in
      let h : All (Old seq (seq q)) (ack ∷ rest) = subst (All (Old seq (seq q))) head acks in
      let same_seq : seq p ≡ seq q = ap seq here in absurd (omega (arith, h.0))
  step-receive_ack n p ack rest at head num (arrived q s low e ps acks same) =
      let here : p ≡ q = cc in
      let same_seq : seq p ≡ seq q = ap seq here in
      elim (subst (Then (Old seq (seq q)) (Acks seq (seq q))) head acks) [
        | inl (old, later) ↦ absurd (omega arith)
        | inr (new, later) ↦
            resting (1 - seq p) refl (omega arith) (e ∙ ap (λ k. 1 - k) (sym same_seq))
              (All-mono (Same seq q) (Old seq (1 - seq p)) n.to_server
                (λ x h. ap seq h ∙ omega arith) ps)
              (All-mono (Acks seq (seq q)) (Old seq (1 - seq p)) rest (λ x h. h ∙ omega arith)
                later)
              same
      ]

  step-lose_ack :
      (n : Net P) (xs : List P) (ack : P) (ys : List P)
      → n.to_client ≡ xs ++ ack ∷ ys
      → IsSafe seq n
      → IsSafe seq (record n { to_client = xs ++ ys })
  step-lose_ack n xs ack ys parts (resting b s low e ps acks same) =
      resting b s low e ps (All-remove (Old seq b) xs ack ys (subst (All (Old seq b)) parts acks))
        same
  step-lose_ack n xs ack ys parts (pending q s low e ps acks same) =
      pending q s low e ps
        (All-remove (Old seq (seq q)) xs ack ys (subst (All (Old seq (seq q))) parts acks)) same
  step-lose_ack n xs ack ys parts (arrived q s low e ps acks same) =
      arrived q s low e ps
        (Then-remove (Old seq (seq q)) (Acks seq (seq q)) xs ack ys
          (subst (Then (Old seq (seq q)) (Acks seq (seq q))) parts acks))
        same

  step-lose_packet :
      (n : Net P) (xs : List P) (p : P) (ys : List P)
      → n.to_server ≡ xs ++ p ∷ ys
      → IsSafe seq n
      → IsSafe seq (record n { to_server = xs ++ ys })
  step-lose_packet n xs p ys parts (resting b s low e ps acks same) =
      resting b s low e (All-remove (Old seq b) xs p ys (subst (All (Old seq b)) parts ps)) acks
        same
  step-lose_packet n xs p ys parts (pending q s low e ps acks same) =
      pending q s low e
        (Then-remove (Old seq (seq q)) (Same seq q) xs p ys
          (subst (Then (Old seq (seq q)) (Same seq q)) parts ps))
        acks same
  step-lose_packet n xs p ys parts (arrived q s low e ps acks same) =
      arrived q s low e (All-remove (Same seq q) xs p ys (subst (All (Same seq q)) parts ps)) acks
        same

  step-deliver :
      (n : Net P) (p ack : P) (rest : List P)
      → n.to_server ≡ p ∷ rest
      → seq p ≡ n.expected
      → seq ack ≡ seq p
      → IsSafe seq n
      → IsSafe seq (record n {
        expected = 1 - n.expected;
        to_server = rest;
        to_client = n.to_client ++ ack ∷ [];
        delivered = n.delivered ++ p ∷ [];
      })
  step-deliver n p ack rest head new num (resting b s low e ps acks same) =
      let h : All (Old seq b) (p ∷ rest) = subst (All (Old seq b)) head ps in
      absurd (omega (arith, h.0))
  step-deliver n p ack rest head new num (pending q s low e ps acks same) =
      elim (subst (Then (Old seq (seq q)) (Same seq q)) head ps) [
        | inl (old, later) ↦ absurd (omega arith)
        | inr (here, later) ↦
            arrived q s low (ap (λ k. 1 - k) e) later
              (Then-snoc (Old seq (seq q)) (Acks seq (seq q)) n.to_client ack
                (Then-All (Old seq (seq q)) (Acks seq (seq q)) n.to_client acks)
                (num ∙ ap seq here))
              (same ∙ ap (λ x. n.delivered ++ x ∷ []) (sym here))
      ]
  step-deliver n p ack rest head new num (arrived q s low e ps acks same) =
      let h : All (Same seq q) (p ∷ rest) = subst (All (Same seq q)) head ps in
      let same_seq : seq p ≡ seq q = ap seq h.0 in absurd (omega arith)

  step-repeat :
      (n : Net P) (p ack : P) (rest : List P)
      → n.to_server ≡ p ∷ rest
      → seq p ≢ n.expected
      → seq ack ≡ seq p
      → IsSafe seq n
      → IsSafe seq (record n { to_server = rest; to_client = n.to_client ++ ack ∷ [] })
  step-repeat n p ack rest head old num (resting b s low e ps acks same) =
      let h : All (Old seq b) (p ∷ rest) = subst (All (Old seq b)) head ps in
      resting b s low e h.1 (All-append (Old seq b) n.to_client (ack ∷ []) acks (num ∙ h.0, tt))
        same
  step-repeat n p ack rest head old num (pending q s low e ps acks same) =
      elim (subst (Then (Old seq (seq q)) (Same seq q)) head ps) [
        | inl (was, later) ↦
            pending q s low e later
              (All-append (Old seq (seq q)) n.to_client (ack ∷ []) acks (num ∙ was, tt)) same
        | inr (here, later) ↦ absurd (old (ap seq here ∙ sym e))
      ]
  step-repeat n p ack rest head old num (arrived q s low e ps acks same) =
      let h : All (Same seq q) (p ∷ rest) = subst (All (Same seq q)) head ps in
      arrived q s low e h.1
        (Then-snoc (Old seq (seq q)) (Acks seq (seq q)) n.to_client ack acks (num ∙ ap seq h.0))
        same

  pub step-IsSafe : {n n' : Net P} → Step seq n n' → IsSafe seq n → IsSafe seq n'
  step-IsSafe (send n p at) x = step-send n p at x
  step-IsSafe (timeout n p at) x = step-timeout n p at x
  step-IsSafe (receive_ack n p ack rest at head num) x = step-receive_ack n p ack rest at head num x
  step-IsSafe (lose_ack n xs ack ys parts) x = step-lose_ack n xs ack ys parts x
  step-IsSafe (deliver n p ack rest head new num) x = step-deliver n p ack rest head new num x
  step-IsSafe (repeat n p ack rest head old num) x = step-repeat n p ack rest head old num x
  step-IsSafe (lose_packet n xs p ys parts) x = step-lose_packet n xs p ys parts x

  -- What was sent is what was delivered, but for one packet at most.
  pub IsSafe-prefix :
      (n : Net P)
      → IsSafe seq n
      → (rest : List P) × (n.delivered ++ rest ≡ n.sent) × (length rest ≤ 1)
  IsSafe-prefix n (resting b s low e ps acks same) =
      ([], append-nil n.delivered ∙ sym same, omega arith)
  IsSafe-prefix n (pending q s low e ps acks same) = (q ∷ [], sym same, omega arith)
  IsSafe-prefix n (arrived q s low e ps acks same) =
      ([], append-nil n.delivered ∙ sym same, omega arith)

  -- Between two packets everything is delivered.
  pub IsSafe-idle : (n : Net P) (b : ℕ) → n.sender ≡ idle b → IsSafe seq n → n.delivered ≡ n.sent
  IsSafe-idle n b at (resting c s low e ps acks same) = sym same
  IsSafe-idle n b at (pending q s low e ps acks same) = absurd (cc)
  IsSafe-idle n b at (arrived q s low e ps acks same) = absurd (cc)
