-- ===== src/GoBackN/Udp/Sender.antt =====
-- The client over UDP: each round keeps the window.
use csf303_computer_networks.Prelude.{
  ℕ, zero, suc, ◌+◌, ◌-◌, ◌≤◌, ◌≡◌, refl, ap, sym, subst, ◌∙◌, inl, inr, true, false, ◌&&◌, not,
  Bool-cases, ltb, leb, ◌==◌, List, [], ◌∷◌, ◌++◌, append-nil, append_assoc, arith, ok, drop,
  >>=-eq-ok, ok-eq, ok-pair,
}
use csf303_computer_networks.GoBackN.Packet.{Packet, window_size}
use csf303_computer_networks.GoBackN.Client.{
  Os, Client, Status, waiting, Event, timed_out, readable, select_error, recv_error, push_packet,
  resend, full_period, remaining, goes_on,
}
use csf303_computer_networks.GoBackN.Client.Window.{EndsPayload, HasWindow, push_packet-Pushes}
use csf303_computer_networks.GoBackN.Client.Resend.{
  resend-unacked, HasWindow-sent, unacked-IsOriginal,
}
use csf303_computer_networks.GoBackN.Client.Slide.{HasWindow-slide, Grows}
use csf303_computer_networks.GoBackN.Udp.Ends.{fill_full}
use csf303_computer_networks.GoBackN.Udp.{fill, room, enter, fin_ack, handle_ack, handle, round}

-- `check` is not set, which a FIN alone does, and the window is full.
abbrev pub IsOpen : Status → Client → List ℕ → Type 0
IsOpen st c content = (st ≡ waiting) × (c.check ≡ false) × (c.base + window_size ≤ c.nextseqnum)

-- What the inner loop leaves.
pub record Fills (file : List ℕ) (ps : List Packet) (c c' : Client) : Type 0 where
  pub made : List Packet
  pub window : HasWindow file (ps ++ made) c'
  pub base : c'.base ≡ c.base
  pub check : c'.check ≡ c.check
  pub sent : c'.wire ≡ c.wire ++ made

module _ (os : Os) (nul : EndsPayload os) (file : List ℕ) where
  Fills-none : (ps : List Packet) (c : Client) → HasWindow file ps c → Fills file ps c c
  Fills-none ps c w = record {
    made = [];
    window = rw (append-nil ps) w;
    base = refl;
    check = refl;
    sent = sym (append-nil c.wire);
  }

  pub fill-Fills :
      (n : ℕ) (ps : List Packet) (c : Client) {c' : Client}
      → HasWindow file ps c
      → fill os n c ≡ ok c'
      → Fills file ps c c'
  unfolding fill
  fill-Fills zero ps c {c'} w e = subst (Fills file ps c) (ok-eq c c' e) (Fills-none ps c w)
  fill-Fills (suc n) ps c {c'} w e =
      elim (Bool-cases (ltb c.nextseqnum (c.base + window_size) && not c.check)) [
        | inr full ↦ subst (Fills file ps c) (ok-eq c c' (rw (full, fill) at e)) (Fills-none ps c w)
        | inl more ↦
            let ((last, c₁), e₁, e₂) = >>=-eq-ok (push_packet os c) _ (rw (more, fill) at e) in
            let p = push_packet-Pushes os file ps c nul w (ground arith) e₁ in
            let f = fill-Fills n (ps ++ p.packet ∷ []) c₁ p.window e₂ in
            record {
              made = p.packet ∷ f.made;
              window = rw (← append_assoc ps (p.packet ∷ []) f.made) f.window;
              base = f.base ∙ p.base;
              check = f.check ∙ p.check;
              sent =
                  f.sent
                  ∙ ap (λ u. u ++ f.made) p.wire
                  ∙ append_assoc c.wire (p.packet ∷ []) f.made;
            }
      ]

  pub enter-Grows :
      (n : ℕ) (ps : List Packet) (c : Client) {st : Status} {c' : Client}
      → HasWindow file ps c
      → c.base ≤ n
      → c.check ≡ false
      → enter os c ≡ ok (st, c')
      → Grows IsOpen file ps n st c'
  unfolding enter
  enter-Grows n ps c {st} {c'} w low unset e =
      let on : goes_on c ≡ true = ground arith in
      let (c₁, e₁, e₂) = >>=-eq-ok (fill os (room c) c) _ (rw (on, enter) at e) in
      let same = ok-pair waiting st c₁ c' e₂ in
      let f = fill-Fills (room c) ps c w e₁ in
      subst (λ d. Grows IsOpen file ps n st d) same.1
        (record {
          made = f.made;
          window = f.window;
          base = omega (arith, f.base);
          mode = (sym same.0, f.check ∙ unset, fill_full os (room c) c unset (omega arith) e₁);
        })

  -- An ACK that no packet of the client has been given yet is not on the wire; nor is one that
  -- would end the loop.
  abbrev pub IsBelow : ℕ → Event → Type 0
  IsBelow n (readable elapsed a) = (suc a.seq_no ≤ n) × (1 ≤ a.seq_no → a.final_packet ≡ 0)
  IsBelow n _ = Unit

  record Handles (ps : List Packet) (n : ℕ) (st : Status) (c : Client) : Type 0 where
    status : st ≡ waiting
    window : HasWindow file ps c
    base : c.base ≤ n
    check : c.check ≡ false

  handle_ack-Handles :
      (ps : List Packet) (n elapsed : ℕ) (a : Packet) (c : Client) {st : Status} {c' : Client}
      → HasWindow file ps c
      → c.check ≡ false
      → c.base ≤ n
      → n ≤ c.nextseqnum
      → suc a.seq_no ≤ n
      → (1 ≤ a.seq_no → a.final_packet ≡ 0)
      → handle_ack os elapsed a c ≡ ok (st, c')
      → Handles ps n st c'
  unfolding handle_ack fin_ack
  handle_ack-Handles ps n elapsed a c {st} {c'} w unset low high below plain e =
      elim (Bool-cases (a.is_ack == 1 && leb c.base a.seq_no)) [
        | inr stale ↦
            let same =
              ok-pair waiting st (record c { tv = remaining elapsed }) c'
                (rw (stale, handle_ack) at e) in
            subst (λ d. Handles ps n st d) same.1
              (record {
                status = sym same.0;
                window = rw append-nil at (HasWindow-sent file ps [] c (remaining elapsed) w tt);
                base = low;
                check = unset;
              })
        | inl good ↦
            let final : a.final_packet ≡ 0 = plain (ground (arith, w.low)) in
            let slid : Client = record c { base = a.seq_no + 1; tv = full_period } in
            let same = ok-pair waiting st slid c' (rw (good, final, handle_ack) at e) in
            subst (λ d. Handles ps n st d) same.1
              (record {
                status = sym same.0;
                window =
                    HasWindow-slide file ps c (a.seq_no + 1) full_period w (ground arith)
                      (omega arith);
                base = omega arith;
                check = unset;
              })
      ]

  handle-Handles :
      (ps : List Packet) (n : ℕ) (ev : Event) (c : Client) {st : Status} {c' : Client}
      → HasWindow file ps c
      → c.check ≡ false
      → c.base ≤ n
      → n ≤ c.nextseqnum
      → IsBelow n ev
      → handle os ev c ≡ ok (st, c')
      → Handles ps n st c'
  unfolding handle
  handle-Handles ps n (readable elapsed a) c w unset low high b e =
      handle_ack-Handles ps n elapsed a c w unset low high b.0 b.1 e
  handle-Handles ps n recv_error c w unset low high b e = absurd (cc)
  handle-Handles ps n select_error c w unset low high b e = absurd (cc)
  handle-Handles ps n timed_out c {st} {c'} w unset low high b e =
      let timer : Client = record c { tv = full_period } in
      let w₁ : HasWindow file ps timer =
        rw append-nil at (HasWindow-sent file ps [] c full_period w tt) in
      let (c₁, e₁, e₂) = >>=-eq-ok (resend os (c.nextseqnum - c.base) c.base timer) _ e in
      let same = ok-pair waiting st c₁ c' e₂ in
      let sent = resend-unacked os file ps timer w₁ e₁ in
      subst (λ d. Handles ps n st d) (sent ∙ same.1)
        (record {
          status = sym same.0;
          window =
              HasWindow-sent file ps (drop (c.base - 1) ps) timer full_period w₁
                (unacked-IsOriginal file ps c w);
          base = low;
          check = unset;
        })

  -- No round, whatever happens in it, loses a packet of the window or ends the loop by a FIN.
  pub round-Grows :
      (ps : List Packet) (n : ℕ) (ev : Event) (c : Client) {st : Status} {c' : Client}
      → HasWindow file ps c
      → c.check ≡ false
      → c.base ≤ n
      → n ≤ c.nextseqnum
      → IsBelow n ev
      → round os ev c ≡ ok (st, c')
      → Grows IsOpen file ps n st c'
  unfolding round
  round-Grows ps n ev c {st} {c'} w unset low high b e =
      let ((s₁, c₁), e₁, e₂) = >>=-eq-ok (handle os ev c) _ e in
      let h = handle-Handles ps n ev c w unset low high b e₁ in
      let e₃ : enter os c₁ ≡ ok (st, c') = rw (h.status) at e₂ in
      enter-Grows n ps c₁ h.window h.base h.check e₃
