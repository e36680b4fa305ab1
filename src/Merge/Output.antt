-- ===== src/Merge/Output.antt =====
-- Practice - 2023: what list.txt holds.
use csf303_computer_networks.Prelude.{
  ℕ, ◌<◌, ◌≡◌, refl, ap, sym, subst, ◌∙◌, Bool, true, false, some, List, [], ◌∷◌, ◌++◌,
  append_assoc, map, arith, length, All, All-of_append, ok, ok-eq,
}
use csf303_computer_networks.StopAndWait.Safety.{IsSafe-prefix}
use csf303_computer_networks.Merge.{Packet, Server, first, second, write}
use csf303_computer_networks.Merge.System.{
  System, Step, at_one, at_two, read_one, read_two, Reach, here, next, every_other, number, view,
}
use csf303_computer_networks.Merge.Serves.{Served, dropped, new, old}
use csf303_computer_networks.Merge.Turns.{Inv}
use csf303_computer_networks.Merge.Delivery.{round-Served, step-Inv}
use csf303_computer_networks.Merge.Fields.{Part}
use csf303_computer_networks.Merge.Reads.{text_of, HasText, Reads, step-Reads, map-snoc}

-- Texts with a comma between any two.
unfoldable pub join : List (List ℕ) → List ℕ
join [] = []
join (t ∷ []) = t
join (t ∷ u ∷ us) = t ++ (b',' ∷ join (u ∷ us))

join-snoc :
    (t : List ℕ) (ts : List (List ℕ)) (u : List ℕ)
    → join ((t ∷ ts) ++ u ∷ []) ≡ join (t ∷ ts) ++ (b',' ∷ u)
unfolding join
join-snoc t [] u = refl
join-snoc t (t' ∷ ts) u =
    ap (λ l. t ++ (b',' ∷ l)) (join-snoc t' ts u)
    ∙ sym (append_assoc t (b',' ∷ join (t' ∷ ts)) (b',' ∷ u))

join-some :
    (t : List ℕ) (ts : List (List ℕ))
    → 0 < length t
    → (b : ℕ) × (bs : List ℕ) × (join (t ∷ ts) ≡ b ∷ bs)
unfolding join
join-some [] ts h = absurd (omega arith)
join-some (b ∷ bs) [] h = (b, bs, refl)
join-some (b ∷ bs) (u ∷ us) h = (b, bs ++ (b',' ∷ join (u ∷ us)), refl)

write-behind :
    (pkt : Packet) (bytes : List ℕ) (b : ℕ) (bs : List ℕ)
    → HasText pkt
    → bytes ≡ b ∷ bs
    → write pkt (some bytes) ≡ ok (bytes ++ (b',' ∷ text_of pkt))
unfolding write
write-behind pkt bytes b bs has e = rw (has.string, write) (rw e refl)

-- A packet that is taken is written as one more text.
write-joined :
    (pkt : Packet) (taken : List Packet)
    → All HasText taken
    → HasText pkt
    → write pkt (some (join (map text_of taken))) ≡ ok (join (map text_of (taken ++ pkt ∷ [])))
unfolding join write
write-joined pkt [] h has = rw (has.string, write) refl
write-joined pkt (q ∷ qs) h has =
    let (b, bs, e) = join-some (text_of q) (map text_of qs) h.0.some_text in
    write-behind pkt _ b bs has e
    ∙ ap ok (
        sym (
          ap join (map-snoc text_of (q ∷ qs) pkt)
          ∙ join-snoc (text_of q) (map text_of qs) (text_of pkt)))

All-every_other :
    {A : Type 0} (P : A → Type 0) (xs : List A)
    → All P (every_other true xs)
    → All P (every_other false xs)
    → All P xs
unfolding every_other
All-every_other P [] one two = tt
All-every_other P (x ∷ xs) one two = (one.0, All-every_other P xs two one.1)

pub map-every_other :
    {A B : Type 0} (f : A → B) (keep : Bool) (xs : List A)
    → map f (every_other keep xs) ≡ every_other keep (map f xs)
unfolding every_other
map-every_other f keep [] = refl
map-every_other f true (x ∷ xs) = ap (λ l. f x ∷ l) (map-every_other f false xs)
map-every_other f false (x ∷ xs) = map-every_other f true xs

module _ (parts₁ parts₂ : List Part) where
  pub record Writes (s : System) : Type 0 where
    pub inv : Inv s
    pub one : Reads parts₁ s.one.client
    pub two : Reads parts₂ s.two.client
    pub file : s.server.file ≡ some (join (map text_of s.server.taken))

  taken-HasText :
      (s : System)
      → Inv s
      → Reads parts₁ s.one.client
      → Reads parts₂ s.two.client
      → All HasText s.server.taken
  taken-HasText s inv one two =
      let (rest₁, e₁, _) = IsSafe-prefix number (view s.one _ _) inv.one.safe in
      let (rest₂, e₂, _) = IsSafe-prefix number (view s.two _ _) inv.two.safe in
      All-every_other HasText s.server.taken
        (All-of_append HasText _ rest₁ (subst (All HasText) (sym e₁) one.all_text)).0
        (All-of_append HasText _ rest₂ (subst (All HasText) (sym e₂) two.all_text)).0

  -- The file behind a pass of the server.
  Served-file :
      (pkt : Packet) (s v : Server) {out : List Packet}
      → Served pkt s v out
      → s.file ≡ some (join (map text_of s.taken))
      → All HasText v.taken
      → v.file ≡ some (join (map text_of v.taken))
  Served-file pkt s v (dropped same sent) file h =
      subst (λ x. x.file ≡ some (join (map text_of x.taken))) same file
  Served-file pkt s v (old ack echo other same sent) file h =
      subst (λ x. x.file ≡ some (join (map text_of x.taken))) same file
  Served-file pkt s v (new ack bytes echo due wrote same sent) file h =
      let texts : All HasText (s.taken ++ pkt ∷ []) =
        subst (All HasText) (sym (ap (λ x. x.taken) same)) h in
      let (before, now) = All-of_append HasText s.taken (pkt ∷ []) texts in
      let made : ok bytes ≡ ok (join (map text_of (s.taken ++ pkt ∷ []))) =
        sym (sym (ap (write pkt) file) ∙ wrote) ∙ write-joined pkt s.taken before now.0 in
      subst (λ x. x.file ≡ some (join (map text_of x.taken))) same (ap some (ok-eq _ _ made))

  step-Writes : {s t : System} → Step s t → Writes s → Writes t
  step-Writes (at_one s c step) w = record {
    inv = step-Inv (at_one s c step) w.inv;
    one = step-Reads parts₁ step w.one;
    two = w.two;
    file = w.file;
  }
  step-Writes (at_two s c step) w = record {
    inv = step-Inv (at_two s c step) w.inv;
    one = w.one;
    two = step-Reads parts₂ step w.two;
    file = w.file;
  }
  step-Writes (read_one s send_ok arrivals r pkt rest v out due head come e) w =
      let inv = step-Inv (read_one s send_ok arrivals r pkt rest v out due head come e) w.inv in
      let way = round-Served send_ok arrivals r pkt first s.server due come e in
      record {
        inv = inv;
        one = w.one;
        two = w.two;
        file = Served-file pkt s.server v way w.file (taken-HasText _ inv w.one w.two);
      }
  step-Writes (read_two s send_ok arrivals r pkt rest v out due head come e) w =
      let inv = step-Inv (read_two s send_ok arrivals r pkt rest v out due head come e) w.inv in
      let way = round-Served send_ok arrivals r pkt second s.server due come e in
      record {
        inv = inv;
        one = w.one;
        two = w.two;
        file = Served-file pkt s.server v way w.file (taken-HasText _ inv w.one w.two);
      }

  pub reach-Writes : {s t : System} → Reach s t → Writes s → Writes t
  reach-Writes (here s) w = w
  reach-Writes (next reach step) w = step-Writes step (reach-Writes reach w)
