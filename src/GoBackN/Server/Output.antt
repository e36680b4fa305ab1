-- ===== src/GoBackN/Server/Output.antt =====
-- What the server has written: the texts of the first packets, each once and in order.
use csf303_computer_networks.Prelude.{
  ℕ, suc, ◌+◌, ◌-◌, ◌≤◌, ◌≡◌, refl, ap, some, List, [], ◌∷◌, ◌++◌, arith, ok, length, take, All,
  All-append, All-mono, take-append_of_le, length-append, subst, ok-eq, get_elem?,
}
use csf303_computer_networks.GoBackN.Packet.{Packet}
use csf303_computer_networks.GoBackN.Created.{
  text_of, texts, IsData, texts-nil, texts-snoc, take-suc, get_elem?-lt,
}
use csf303_computer_networks.GoBackN.Client.{Os}
use csf303_computer_networks.GoBackN.Server.{Server, start, reply, fputs}

-- `IsReply` says what a transport promises of its ACKs besides their number.
module _ (IsReply : Packet → Type 0) where
  pub record HasOutput (ps : List Packet) (s : Server) : Type 0 where
    pub low : 1 ≤ s.expected_seq_no
    pub high : s.expected_seq_no ≤ suc (length ps)
    pub written : s.output ≡ texts (take (s.expected_seq_no - 1) ps)
    pub number : suc s.snd_pkt.seq_no ≡ s.expected_seq_no
    pub reply : IsReply s.snd_pkt
    pub acks : All (λ a. (suc a.seq_no ≤ s.expected_seq_no) × IsReply a) s.wire

  -- What a round of the server's loop leaves.
  abbrev pub Serves : List Packet → Server → Server → Type 0
  Serves ps s s' = HasOutput ps s' × (s.expected_seq_no ≤ s'.expected_seq_no)

  -- More packets at the client change nothing here.
  pub HasOutput-more : (ps qs : List Packet) (s : Server) → HasOutput ps s → HasOutput (ps ++ qs) s
  HasOutput-more ps qs s h = record {
    low = h.low;
    high = omega (arith, h.high, length-append ps qs);
    written =
        rw (take-append_of_le (s.expected_seq_no - 1) ps qs (omega (arith, h.low, h.high)))
          h.written;
    number = h.number;
    reply = h.reply;
    acks = h.acks;
  }

  -- The next packet of the stream, written behind the others.
  pub HasOutput-accept :
      (ps : List Packet) (s : Server) (p q : Packet) (i : ℕ)
      → HasOutput ps s
      → IsData i p
      → get_elem? ps i ≡ some p
      → p.seq_no ≡ s.expected_seq_no
      → q.seq_no ≡ s.expected_seq_no
      → IsReply q
      → HasOutput ps (record s {
        output = s.output ++ text_of p;
        snd_pkt = q;
        expected_seq_no = s.expected_seq_no + 1;
      })
  HasOutput-accept ps s p q i h d found here num promise =
      let before : s.expected_seq_no - 1 ≡ i = omega (arith, d.number) in
      let after : s.expected_seq_no + 1 - 1 ≡ suc i = omega (arith, d.number) in
      record {
        low = omega arith;
        high = omega (arith, d.number, get_elem?-lt ps i p found);
        written =
            rw (after, take-suc ps i p found, texts-snoc (take i ps) p, ← before)
              (ap (λ o. o ++ text_of p) h.written);
        number = omega arith;
        reply = promise;
        acks =
            All-mono (λ a. (suc a.seq_no ≤ s.expected_seq_no) × IsReply a)
              (λ a. (suc a.seq_no ≤ s.expected_seq_no + 1) × IsReply a) s.wire
              (λ a k. (omega (arith, k.0), k.1)) h.acks;
      }

  -- Sending `snd_pkt` once more.
  pub HasOutput-reply :
      (os : Os) (ps : List Packet) (s : Server) {s' : Server}
      → HasOutput ps s
      → reply os s ≡ ok s'
      → Serves ps s s'
  unfolding reply
  HasOutput-reply os ps s {s'} h e =
      let same : record s { wire = s.wire ++ s.snd_pkt ∷ [] } ≡ s' = ground arith in
      subst (λ u. Serves ps s u) same
        (
          record {
            low = h.low;
            high = h.high;
            written = h.written;
            number = h.number;
            reply = h.reply;
            acks =
                All-append (λ a. (suc a.seq_no ≤ s.expected_seq_no) × IsReply a) s.wire
                  (s.snd_pkt ∷ []) h.acks ((omega (arith, h.number), h.reply), tt);
          },
          omega arith,
        )

  pub start-HasOutput :
      (raw : Packet) → IsReply (record raw { seq_no = 0; is_ack = 1 }) → HasOutput [] (start raw)
  start-HasOutput raw promise = record {
    low = omega arith;
    high = omega arith;
    written = texts-nil;
    number = refl;
    reply = promise;
    acks = tt;
  }

-- `fputs` of a data packet writes its text and is defined.
pub fputs-text :
    (i : ℕ) (p : Packet) (s : Server) {s' : Server}
    → IsData i p
    → fputs p.payload s ≡ ok s'
    → record s { output = s.output ++ text_of p } ≡ s'
unfolding fputs
fputs-text i p s {s'} d e = ok-eq _ _ (rw (d.text, fputs) at e)
