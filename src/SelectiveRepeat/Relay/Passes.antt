-- ===== src/SelectiveRepeat/Relay/Passes.antt =====
-- What the loop of a relay passes on, by its draws.
use csf303_computer_networks.Prelude.{
  ℕ, zero, suc, ◌+◌, ◌≡◌, refl, ◌∙◌, inl, inr, true, Bool-cases, if◌then◌else◌, List, [], ◌∷◌, ◌++◌,
  append-nil, append_assoc, length, ok, take, drop,
}
use csf303_computer_networks.SelectiveRepeat.Packet.{Packet, drop_packet}
use csf303_computer_networks.SelectiveRepeat.Server.{SendOk}
use csf303_computer_networks.SelectiveRepeat.Relay.{Relay, relay_ack, round, run}

-- The packets that are not drawn: each waiting packet takes one draw.
abbrev pub kept : List ℕ → List Packet → List Packet
kept [] ps = []
kept (r ∷ rs) [] = []
kept (r ∷ rs) (p ∷ ps) = if drop_packet r then kept rs ps else p ∷ kept rs ps

-- The rounds that come to the server's socket, with `n` packets waiting at the client's: a round
-- that drops a packet ends before.
abbrev pub turns : List ℕ → ℕ → ℕ
turns [] n = 0
turns (r ∷ rs) zero = suc (turns rs zero)
turns (r ∷ rs) (suc n) = if drop_packet r then turns rs n else suc (turns rs n)

-- The relay behind the rounds.
abbrev pub relayed : List ℕ → Relay → Relay
relayed rs s =
    let k = turns rs (length s.from_client) in
    record {
      from_client = drop (length rs) s.from_client;
      from_server = drop k s.from_server;
      to_server = s.to_server ++ kept rs s.from_client;
      to_client = s.to_client ++ take k s.from_server;
    }

abbrev no_packets : List Packet
no_packets = []

drop-nil : (n : ℕ) → drop n no_packets ≡ no_packets
drop-nil zero = refl
drop-nil (suc n) = refl

take-nil : (n : ℕ) → take n no_packets ≡ no_packets
take-nil zero = refl
take-nil (suc n) = refl

kept-nil : (rs : List ℕ) → kept rs no_packets ≡ no_packets
kept-nil [] = refl
kept-nil (r ∷ rs) = refl

ruleset nil_laws = (kept-nil, drop-nil, take-nil, append-nil, append_assoc)

module _ (send_ok : SendOk) (sent : (n : ℕ) → send_ok n ≡ true) where
  run_lists :
      (rs : List ℕ) (ps acks to_server to_client : List Packet)
      → run send_ok rs (record {
        from_client = ps;
        from_server = acks;
        to_server = to_server;
        to_client = to_client;
      })
        ≡ ok (
            relayed rs (record {
              from_client = ps;
              from_server = acks;
              to_server = to_server;
              to_client = to_client;
            }))
  unfolding run round relay_ack
  run_lists [] ps acks out back = simp append-nil
  run_lists (r ∷ rs) [] [] out back = run_lists rs [] [] out back ∙ simp nil_laws
  run_lists (r ∷ rs) [] (a ∷ acks) out back =
      let n : ℕ = length out + length back in
      rw (sent n) (run_lists rs [] acks out (back ++ a ∷ []) ∙ simp nil_laws)
  run_lists (r ∷ rs) (p ∷ ps) [] out back = elim (Bool-cases (drop_packet r)) [
    | inl lost ↦ rw lost (run_lists rs ps [] out back)
    | inr stays ↦
        let n : ℕ = length out + length back in
        rw (stays, sent n) (run_lists rs ps [] (out ++ p ∷ []) back ∙ simp nil_laws)
  ]
  run_lists (r ∷ rs) (p ∷ ps) (a ∷ acks) out back = elim (Bool-cases (drop_packet r)) [
    | inl lost ↦ rw lost (run_lists rs ps (a ∷ acks) out back)
    | inr stays ↦
        let n : ℕ = length out + length back in
        let m : ℕ = length (out ++ p ∷ []) + length back in
        rw (stays, sent n, sent m)
          (run_lists rs ps acks (out ++ p ∷ []) (back ++ a ∷ []) ∙ simp nil_laws)
  ]

  -- Where no `sendto` fails, a relay goes on, and behind any draws it holds what `relayed` says:
  -- the packets that waited at the client's socket, one for each draw, are gone, those that are not
  -- drawn to be dropped have gone to the server, in order, and the ACKs, one for each round that
  -- does not drop a packet, have gone to the client, in order, as long as there are any.
  pub run-relayed : (rs : List ℕ) (s : Relay) → run send_ok rs s ≡ ok (relayed rs s)
  run-relayed rs s = run_lists rs s.from_client s.from_server s.to_server s.to_client
