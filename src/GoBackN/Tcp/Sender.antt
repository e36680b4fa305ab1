-- ===== src/GoBackN/Tcp/Sender.antt =====
-- The client over TCP: each round keeps the window, and `check` means that the file is used up.
use csf303_computer_networks.Prelude.{
  ℕ, zero, suc, ◌+◌, ◌-◌, ◌≤◌, ◌≡◌, refl, ap, sym, subst, ◌∙◌, inl, inr, Bool, true, false, ◌&&◌,
  ◌||◌, not, Bool-cases, ltb, leb, ◌==◌, List, [], ◌∷◌, ◌++◌, append-nil, append_assoc, arith, ok,
  drop, >>=-eq-ok, ok-eq, ok-pair, All,
}
use csf303_computer_networks.GoBackN.Packet.{Packet, window_size}
use csf303_computer_networks.GoBackN.Input.Text.{unread}
use csf303_computer_networks.GoBackN.Created.{IsOriginal}
use csf303_computer_networks.GoBackN.Client.{
  Os, Client, Timeval, Status, waiting, finished, Event, timed_out, readable, select_error,
  recv_error, push_packet, full_period, remaining, goes_on,
}
use csf303_computer_networks.GoBackN.Client.Window.{EndsPayload, HasWindow, push_packet-Pushes}
use csf303_computer_networks.GoBackN.Client.Resend.{
  resend-unacked, HasWindow-sent, unacked-IsOriginal,
}
use csf303_computer_networks.GoBackN.Client.Slide.{HasWindow-slide, Grows}
use csf303_computer_networks.GoBackN.Tcp.{fill, room, enter, handle_ack, handle, round}

-- `check` is set only at the end of the file, and the loop is left when all is acknowledged.
abbrev pub IsUsedUp : Client → List ℕ → Type 0
IsUsedUp c content = c.check ≡ true → unread content c.input ≡ []

abbrev pub IsDraining : Status → Client → List ℕ → Type 0
IsDraining st c content =
    IsUsedUp c content × (st ≡ finished → (c.check ≡ true) × (c.nextseqnum ≤ c.base))

abbrev pub Keeps : List ℕ → List Packet → Client → Type 0
Keeps file ps c = (w : HasWindow file ps c) × IsUsedUp c w.content

-- What the inner loop leaves.
pub record Fills (file : List ℕ) (ps : List Packet) (c c' : Client) : Type 0 where
  pub made : List Packet
  pub kept : Keeps file (ps ++ made) c'
  pub base : c'.base ≡ c.base
  pub sent : c'.wire ≡ c.wire ++ made

-- `check` stands in no part of the window.
set_check :
    (file : List ℕ) (ps : List Packet) (c : Client) (b : Bool)
    → (w : HasWindow file ps c)
    → (w' : HasWindow file ps (record c { check = b })) × (w'.content ≡ w.content)
set_check file ps c b w = (
  record {
    content = w.content;
    ready = w.ready;
    carried = w.carried;
    stream = w.stream;
    count = w.count;
    low = w.low;
    ordered = w.ordered;
    bounded = w.bounded;
    slots = w.slots;
    wire = w.wire;
  },
  refl,
)

-- Originals sent again, and another timer.
resent :
    (file : List ℕ) (ps qs : List Packet) (c : Client) (t : Timeval)
    → Keeps file ps c
    → All (IsOriginal ps) qs
    → Keeps file ps (record c { wire = c.wire ++ qs; tv = t })
unfolding HasWindow-sent
resent file ps qs c t (w, u) sent = (HasWindow-sent file ps qs c t w sent, u)

slid :
    (file : List ℕ) (ps : List Packet) (c : Client) (b : ℕ) (t : Timeval)
    → Keeps file ps c
    → c.base ≤ b
    → b ≤ c.nextseqnum
    → Keeps file ps (record c { base = b; tv = t })
unfolding HasWindow-slide
slid file ps c b t (w, u) up below = (HasWindow-slide file ps c b t w up below, u)

module _ (os : Os) (nul : EndsPayload os) (file : List ℕ) where
  Fills-none :
      (ps : List Packet) (c : Client) (w : HasWindow file ps c)
      → IsUsedUp c w.content
      → Fills file ps c c
  Fills-none ps c w u = record {
    made = [];
    kept = subst (λ l. Keeps file l c) (sym (append-nil ps)) (w, u);
    base = refl;
    sent = sym (append-nil c.wire);
  }

  pub fill-Fills :
      (n : ℕ) (ps : List Packet) (c : Client) {c' : Client}
      → (w : HasWindow file ps c) → IsUsedUp c w.content
      → fill os n c ≡ ok c'
      → Fills file ps c c'
  unfolding fill
  fill-Fills zero ps c {c'} w u e = subst (Fills file ps c) (ok-eq c c' e) (Fills-none ps c w u)
  fill-Fills (suc n) ps c {c'} w u e =
      elim (Bool-cases (ltb c.nextseqnum (c.base + window_size) && not c.check)) [
        | inr full ↦
            subst (Fills file ps c) (ok-eq c c' (rw (full, fill) at e)) (Fills-none ps c w u)
        | inl more ↦
            let ((last, c₁), e₁, e₂) = >>=-eq-ok (push_packet os c) _ (rw (more, fill) at e) in
            let p = push_packet-Pushes os file ps c nul w (ground arith) e₁ in
            let unset : c₁.check ≡ false = p.check ∙ ground arith in
            let (w₁, same) = set_check file (ps ++ p.packet ∷ []) c₁ (c₁.check || last) p.window in
            let last_used : (c₁.check || last) ≡ true → unread w₁.content c₁.input ≡ [] =
              λ h. rw same (p.ended (rw unset at h)) in
            let f =
              fill-Fills n (ps ++ p.packet ∷ []) (record c₁ { check = c₁.check || last }) w₁
                last_used e₂ in
            record {
              made = p.packet ∷ f.made;
              kept = subst (λ l. Keeps file l c') (append_assoc ps (p.packet ∷ []) f.made) f.kept;
              base = f.base ∙ p.base;
              sent =
                  f.sent
                  ∙ ap (λ u. u ++ f.made) p.wire
                  ∙ append_assoc c.wire (p.packet ∷ []) f.made;
            }
      ]

  pub enter-Grows :
      (n : ℕ) (ps : List Packet) (c : Client) {st : Status} {c' : Client}
      → Keeps file ps c
      → c.base ≤ n
      → enter os c ≡ ok (st, c')
      → Grows IsDraining file ps n st c'
  unfolding enter
  enter-Grows n ps c {st} {c'} (w, u) low e = elim (Bool-cases (goes_on c)) [
    | inr over ↦
        let same = ok-pair finished st c c' (rw (over, enter) at e) in
        let (w', u') = subst (λ l. Keeps file l c) (sym (append-nil ps)) (w, u) in
        subst (λ d. Grows IsDraining file ps n st d) same.1
          (record {
            made = [];
            window = w';
            base = low;
            mode = (u', λ _. (ground arith, ground arith));
          })
    | inl on ↦
        let (c₁, e₁, e₂) = >>=-eq-ok (fill os (room c) c) _ (rw (on, enter) at e) in
        let same = ok-pair waiting st c₁ c' e₂ in
        let f = fill-Fills (room c) ps c w u e₁ in
        subst (λ d. Grows IsDraining file ps n st d) same.1
          (record {
            made = f.made;
            window = f.kept.0;
            base = omega (arith, f.base);
            mode = (f.kept.1, λ h. absurd (open_status same.0 h));
          })
  ]
    where
      open_status : waiting ≡ st → st ≡ finished → ⊥
      open_status p q = cc

  -- Only the numbers of ACKs that the server has given come back.
  abbrev pub IsBelow : ℕ → Event → Type 0
  IsBelow n (readable elapsed a) = suc a.seq_no ≤ n
  IsBelow n _ = Unit

  record Handles (ps : List Packet) (n : ℕ) (c : Client) : Type 0 where
    kept : Keeps file ps c
    base : c.base ≤ n

  handle_ack-Handles :
      (ps : List Packet) (n elapsed : ℕ) (a : Packet) (c : Client)
      → Keeps file ps c
      → c.base ≤ n
      → n ≤ c.nextseqnum
      → suc a.seq_no ≤ n
      → Handles ps n (handle_ack elapsed a c)
  unfolding handle_ack
  handle_ack-Handles ps n elapsed a c (w, u) low high below =
      elim (Bool-cases (a.is_ack == 1 && leb c.base a.seq_no)) [
        | inr stale ↦
            rw (stale, handle_ack)
              (record {
                kept = rw append-nil at (resent file ps [] c (remaining elapsed) (w, u) tt);
                base = low;
              })
        | inl good ↦
            rw (good, handle_ack)
              (record {
                kept =
                    slid file ps c (a.seq_no + 1) full_period (w, u) (ground arith) (omega arith);
                base = omega arith;
              })
      ]

  handle-Handles :
      (ps : List Packet) (n : ℕ) (ev : Event) (c : Client) {c' : Client}
      → Keeps file ps c
      → c.base ≤ n
      → n ≤ c.nextseqnum
      → IsBelow n ev
      → handle os ev c ≡ ok c'
      → Handles ps n c'
  unfolding handle
  handle-Handles ps n (readable elapsed a) c {c'} k low high b e =
      subst (Handles ps n) (ok-eq _ c' e) (handle_ack-Handles ps n elapsed a c k low high b)
  handle-Handles ps n recv_error c k low high b e = absurd (cc)
  handle-Handles ps n select_error c k low high b e = absurd (cc)
  handle-Handles ps n timed_out c {c'} k low high b e =
      let timer : Client = record c { tv = full_period } in
      let k₁ : Keeps file ps timer = rw append-nil at (resent file ps [] c full_period k tt) in
      let sent = resend-unacked os file ps timer k₁.0 e in
      subst (Handles ps n) sent (record {
        kept =
            resent file ps (drop (c.base - 1) ps) timer full_period k₁
              (unacked-IsOriginal file ps c k.0);
        base = low;
      })

  -- No round loses a packet of the window, and the loop is left only when all is acknowledged.
  pub round-Grows :
      (ps : List Packet) (n : ℕ) (ev : Event) (c : Client) {st : Status} {c' : Client}
      → Keeps file ps c
      → c.base ≤ n
      → n ≤ c.nextseqnum
      → IsBelow n ev
      → round os ev c ≡ ok (st, c')
      → Grows IsDraining file ps n st c'
  unfolding round
  round-Grows ps n ev c {st} {c'} k low high b e =
      let (c₁, e₁, e₂) = >>=-eq-ok (handle os ev c) _ e in
      let h = handle-Handles ps n ev c k low high b e₁ in enter-Grows n ps c₁ h.kept h.base e₂
