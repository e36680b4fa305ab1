-- ===== src/GoBackN/Udp/Ends.antt =====
-- What the loop of the client over UDP does to its window, and to the number of packets that it can
-- make.
use csf303_computer_networks.Prelude.{
  ℕ, zero, suc, ◌+◌, ◌-◌, ◌*◌, ◌/◌, ◌%◌, ◌≤◌, ◌≡◌, ◌⊎◌, Result, refl, ap, sym, subst, ◌∙◌, inl, inr,
  Bool, true, false, not, ◌&&◌, Bool-cases, some, ltb, leb, ◌==◌, List, [], ◌∷◌, ◌++◌, arith,
  length, ok, ok-eq, ok-pair, >>=-eq-ok, guard-eq-ok, socket_failed,
}
use csf303_computer_networks.GoBackN.Packet.{Packet, buffer_size, window_size}
use csf303_computer_networks.GoBackN.Input.{compute, open_input}
use csf303_computer_networks.GoBackN.Input.Advance.{advance}
use csf303_computer_networks.GoBackN.Client.{
  Os, Client, Status, waiting, finished, Event, timed_out, readable, select_error, recv_error, send,
  new_packet, store_packet, push_packet, resend, full_period, remaining, goes_on, start,
}
use csf303_computer_networks.GoBackN.Udp.{
  fill, room, enter, fin_ack, handle_ack, handle, round, main,
}
use csf303_computer_networks.GoBackN.Udp.Budget.{budget, budget-compute, budget-open_input}

-- The packets made and those that can be, with the next number.
abbrev pub limit : Client → ℕ
limit c = c.nextseqnum + budget c.input

status_cases : (st : Status) → (st ≡ waiting) ⊎ (st ≡ finished)
status_cases waiting = inl refl
status_cases finished = inr refl

module _ (os : Os) where
  limit-send : (p : Packet) (c : Client) {c' : Client} → send os p c ≡ ok c' → limit c' ≡ limit c
  unfolding send
  limit-send p c {c'} e =
      let same : record c { wire = c.wire ++ p ∷ [] } ≡ c' = ground arith in ap limit (sym same)

  limit-sent :
      (p : Packet) (c : Client) {c' : Client}
      → send os p c ≡ ok c'
      → (c'.nextseqnum ≡ c.nextseqnum) × (c'.input ≡ c.input)
  unfolding send
  limit-sent p c {c'} e =
      let same : record c { wire = c.wire ++ p ∷ [] } ≡ c' = ground arith in
      (ap (λ d. d.nextseqnum) (sym same), ap (λ d. d.input) (sym same))

  limit-push_packet :
      (c : Client) {last : Bool} {c' : Client}
      → push_packet os c ≡ ok (last, c')
      → limit c' ≤ limit c
  unfolding push_packet
  limit-push_packet c {last} {c'} e =
      let ((l, inp), e₁, e₂) = >>=-eq-ok (compute (advance c.input)) _ e in
      let (c₁, e₃, e₄) = >>=-eq-ok (send os (new_packet os c) (record c { input = inp })) _ e₂ in
      let same = ok-pair l last (store_packet (new_packet os c) c₁) c' e₄ in
      let fewer = budget-compute c.input e₁ in
      let sent = limit-sent (new_packet os c) (record c { input = inp }) e₃ in
      subst (λ d. limit d ≤ limit c) same.1 (omega (arith, fewer, sent.0, ap budget sent.1))

  limit-resend : (n i : ℕ) (c : Client) {c' : Client} → resend os n i c ≡ ok c' → limit c' ≡ limit c
  unfolding resend
  limit-resend zero i c {c'} e = ap limit (sym (ok-eq c c' e))
  limit-resend (suc n) i c e =
      let (c₁, e₁, e₂) = >>=-eq-ok (send os (c.sent_packets (i % window_size)) c) _ e in
      limit-resend n (i + 1) c₁ e₂ ∙ limit-send _ c e₁

  -- The next packet leaves the window where it is.
  record Pushed (c c' : Client) : Type 0 where
    base : c'.base ≡ c.base
    check : c'.check ≡ c.check
    next : c'.nextseqnum ≡ suc c.nextseqnum

  push_packet-Pushed :
      (c : Client) {last : Bool} {c' : Client} → push_packet os c ≡ ok (last, c') → Pushed c c'
  unfolding push_packet send
  push_packet-Pushed c {last} {c'} e =
      let ((l, inp), e₁, e₂) = >>=-eq-ok (compute (advance c.input)) _ e in
      let (c₁, e₃, e₄) = >>=-eq-ok (send os (new_packet os c) (record c { input = inp })) _ e₂ in
      let same = ok-pair l last (store_packet (new_packet os c) c₁) c' e₄ in
      let sent : record c { input = inp; wire = c.wire ++ new_packet os c ∷ [] } ≡ c₁ =
        ground arith in
      subst (Pushed c) same.1 (record {
        base = ap (λ d. d.base) (sym sent);
        check = ap (λ d. d.check) (sym sent);
        next = ap (λ d. d.nextseqnum + 1) (sym sent) ∙ omega arith;
      })

  -- With enough rounds, the loop leaves a full window.
  pub fill_full :
      (n : ℕ) (c : Client) {c' : Client}
      → c.check ≡ false
      → c.base + window_size ≤ c.nextseqnum + n
      → fill os n c ≡ ok c'
      → c'.base + window_size ≤ c'.nextseqnum
  unfolding fill
  fill_full zero c {c'} unset enough e =
      subst (λ d. d.base + window_size ≤ d.nextseqnum) (ok-eq c c' e) (omega (arith, enough))
  fill_full (suc n) c {c'} unset enough e =
      elim (Bool-cases (ltb c.nextseqnum (c.base + window_size) && not c.check)) [
        | inr full ↦
            subst (λ d. d.base + window_size ≤ d.nextseqnum) (ok-eq c c' (rw (full, fill) at e))
              (ground arith)
        | inl more ↦
            let ((last, c₁), e₁, e₂) = >>=-eq-ok (push_packet os c) _ (rw (more, fill) at e) in
            let p = push_packet-Pushed c e₁ in
            fill_full n c₁ (p.check ∙ unset) (omega (arith, p.base, p.next, enough)) e₂
      ]

  limit-fill : (n : ℕ) (c : Client) {c' : Client} → fill os n c ≡ ok c' → limit c' ≤ limit c
  unfolding fill
  limit-fill zero c {c'} e = subst (λ d. limit d ≤ limit c) (ok-eq c c' e) (omega arith)
  limit-fill (suc n) c {c'} e =
      elim (Bool-cases (ltb c.nextseqnum (c.base + window_size) && not c.check)) [
        | inr full ↦
            subst (λ d. limit d ≤ limit c) (ok-eq c c' (rw (full, fill) at e)) (omega arith)
        | inl more ↦
            let ((last, c₁), e₁, e₂) = >>=-eq-ok (push_packet os c) _ (rw (more, fill) at e) in
            omega (arith, limit-fill n c₁ e₂, limit-push_packet c e₁)
      ]

  pub limit-enter :
      (c : Client) {st : Status} {c' : Client} → enter os c ≡ ok (st, c') → limit c' ≤ limit c
  unfolding enter
  limit-enter c {st} {c'} e = elim (Bool-cases (goes_on c)) [
    | inr over ↦
        let same = ok-pair finished st c c' (rw (over, enter) at e) in
        subst (λ d. limit d ≤ limit c) same.1 (omega arith)
    | inl on ↦
        let (c₁, e₁, e₂) = >>=-eq-ok (fill os (room c) c) _ (rw (on, enter) at e) in
        let same = ok-pair waiting st c₁ c' e₂ in
        subst (λ d. limit d ≤ limit c) same.1 (limit-fill (room c) c e₁)
  ]

  limit-fin_ack :
      (pkt : Packet) (c : Client) {st : Status} {c' : Client}
      → fin_ack os pkt c ≡ ok (st, c')
      → limit c' ≡ limit c
  unfolding fin_ack
  limit-fin_ack pkt c {st} {c'} e = elim (Bool-cases (pkt.final_packet == 1)) [
    | inr other ↦ ap limit (sym (ok-pair waiting st c c' (rw (other, fin_ack) at e)).1)
    | inl fin ↦
        let (c₁, e₁, e₂) =
          >>=-eq-ok (send os pkt (record c { check = true })) _ (rw (fin, fin_ack) at e) in
        ap limit (sym (ok-pair finished st c₁ c' e₂).1)
        ∙ limit-send pkt (record c { check = true }) e₁
  ]

  limit-handle :
      (ev : Event) (c : Client) {st : Status} {c' : Client}
      → handle os ev c ≡ ok (st, c')
      → limit c' ≡ limit c
  unfolding handle handle_ack
  limit-handle timed_out c {st} {c'} e =
      let (c₁, e₁, e₂) =
        >>=-eq-ok (resend os (c.nextseqnum - c.base) c.base (record c { tv = full_period })) _ e in
      ap limit (sym (ok-pair waiting st c₁ c' e₂).1)
      ∙ limit-resend (c.nextseqnum - c.base) c.base (record c { tv = full_period }) e₁
  limit-handle recv_error c e = absurd (cc)
  limit-handle select_error c e = absurd (cc)
  limit-handle (readable elapsed a) c {st} {c'} e =
      elim (Bool-cases (a.is_ack == 1 && leb c.base a.seq_no)) [
        | inr stale ↦ ap limit (
            sym
              (ok-pair waiting st (record c { tv = remaining elapsed }) c'
                (rw (stale, handle_ack) at e)).1)
        | inl good ↦
            limit-fin_ack a (record c { base = a.seq_no + 1; tv = full_period })
              (rw (good, handle_ack) at e)
      ]

  -- No round adds to the packets that are made and can be.
  pub limit-round :
      (ev : Event) (c : Client) {st : Status} {c' : Client}
      → round os ev c ≡ ok (st, c')
      → limit c' ≤ limit c
  unfolding round
  limit-round ev c {st} {c'} e =
      let ((s₁, c₁), e₁, e₂) = >>=-eq-ok (handle os ev c) _ e in
      let h = limit-handle ev c e₁ in
      elim (status_cases s₁) [
        | inl on ↦
            let e₃ : enter os c₁ ≡ ok (st, c') = rw on at e₂ in omega (arith, h, limit-enter c₁ e₃)
        | inr over ↦
            let e₃ : ◌≡◌ {A = Result (Status × Client)} (ok (finished, c₁)) (ok (st, c')) =
              rw over at e₂ in
            let same = ok-pair finished st c₁ c' e₃ in
            subst (λ d. limit d ≤ limit c) same.1 (omega (arith, h))
      ]

  -- Two packets for each hundred bytes at most, and 19 more.
  pub limit-main :
      (slots : ℕ → Packet) (file : List ℕ) {st : Status} {c : Client}
      → main os slots (some file) ≡ ok (st, c)
      → limit c ≤ 20 + 10 * (length file / buffer_size)
  unfolding main start
  limit-main slots file e =
      let (c₁, e₁, e₂) =
        >>=-eq-ok (start slots (some file)) _ (guard-eq-ok os.socket_ok socket_failed _ e) in
      let (inp, e₃, e₄) = >>=-eq-ok (open_input (some file)) _ e₁ in
      let at_one : 1 ≡ c₁.nextseqnum = ground arith in
      let input : inp ≡ c₁.input = ground arith in
      omega (arith, budget-open_input file e₃, ap budget input, limit-enter c₁ e₂)
