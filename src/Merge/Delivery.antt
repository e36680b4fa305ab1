-- ===== src/Merge/Delivery.antt =====
-- Practice - 2023: what the server has taken, from the start of the three programs.
use csf303_computer_networks.Prelude.{
  ℕ, ◌≤◌, ◌≡◌, refl, ap, sym, subst, ◌∙◌, Bool, true, false, some, List, [], ◌++◌, arith, length,
  replicate, ok, ok-eq,
}
use csf303_computer_networks.StopAndWait.Spec.{resting}
use csf303_computer_networks.StopAndWait.Safety.{IsSafe-prefix}
use csf303_computer_networks.Merge.{
  Packet, max_data_size, Server, Arrival, arrived, Socket, first, second, socket_of, serve, handle,
  round, main,
}
use csf303_computer_networks.Merge.Client.{Client, waits}
use csf303_computer_networks.Merge.Client
use csf303_computer_networks.Merge.System.{
  Channel, System, Step, at_one, at_two, read_one, read_two, Reach, here, next, number, view, Holds,
  every_other, keeps_next,
}
use csf303_computer_networks.Merge.Sends.{step-Holds}
use csf303_computer_networks.Merge.Serves.{Served, serve-Served}
use csf303_computer_networks.Merge.Turns.{Inv, read_one-Inv, read_two-Inv}

-- A pass that reads a packet from the socket that is due.
pub round-Served :
    (send_ok : Bool) (arrivals : Socket → Arrival) (r : ℕ) (pkt : Packet) (k : Socket) (s : Server)
    {v : Server} {out : List Packet}
    → socket_of s.state ≡ k
    → arrivals k ≡ arrived r pkt
    → round send_ok arrivals s ≡ ok (v, out)
    → Served pkt s v out
unfolding round handle
round-Served send_ok arrivals r pkt k s {v} {out} due come e =
    let at : arrivals (socket_of s.state) ≡ arrived r pkt = ap arrivals due ∙ come in
    let e' : serve send_ok r pkt s ≡ ok (v, out) = sym (ap (λ a. handle send_ok a s) at) ∙ e in
    serve-Served send_ok r pkt s e'

pub step-Inv : {s t : System} → Step s t → Inv s → Inv t
step-Inv (at_one s c step) inv = record {
  state_lt = inv.state_lt;
  turn_one = inv.turn_one;
  turn_two = inv.turn_two;
  one = step-Holds _ _ step inv.one;
  two = inv.two;
}
step-Inv (at_two s c step) inv = record {
  state_lt = inv.state_lt;
  turn_one = inv.turn_one;
  turn_two = inv.turn_two;
  one = inv.one;
  two = step-Holds _ _ step inv.two;
}
step-Inv (read_one s send_ok arrivals r pkt rest v out due head come e) inv =
    read_one-Inv s pkt rest inv due head
      (round-Served send_ok arrivals r pkt first s.server due come e)
step-Inv (read_two s send_ok arrivals r pkt rest v out due head come e) inv =
    read_two-Inv s pkt rest inv due head
      (round-Served send_ok arrivals r pkt second s.server due come e)

pub reach-Inv : {s t : System} → Reach s t → Inv s → Inv t
reach-Inv (here s) inv = inv
reach-Inv (next reach step) inv = step-Inv step (reach-Inv reach inv)

-- The programs when their loops begin.
abbrev pub client_begun : List ℕ → Packet → Client
client_begun bytes raw = record {
  state = 0;
  input = bytes;
  pkt = record raw { ack_or_data = 0; seq_no = 0; len = 0; data_bytes = replicate max_data_size 0 };
  sent = [];
}

abbrev pub server_begun : Packet → Server
server_begun raw = record { state = 0; ack_pkt = raw; file = some []; taken = [] }

pub client_begun-eq :
    (socket_ok : Bool) (bytes : List ℕ) (raw : Packet) (c : Client)
    → Client.main socket_ok (some bytes) raw ≡ ok c
    → client_begun bytes raw ≡ c
unfolding Client.main
client_begun-eq true bytes raw c e = ok-eq _ c e
client_begun-eq false bytes raw c e = absurd (cc)

pub server_begun-eq :
    (socket_ok socket2_ok bind_ok bind2_ok : Bool) (raw : Packet) (v : Server)
    → main socket_ok socket2_ok bind_ok bind2_ok true raw ≡ ok v
    → server_begun raw ≡ v
unfolding main
server_begun-eq true true true true raw v e = ok-eq _ v e
server_begun-eq true true true false raw v e = absurd (cc)
server_begun-eq true true false bind2_ok raw v e = absurd (cc)
server_begun-eq true false bind_ok bind2_ok raw v e = absurd (cc)
server_begun-eq false socket2_ok bind_ok bind2_ok raw v e = absurd (cc)

abbrev pub idle_channel : Client → Channel
idle_channel c = record { client = c; to_server = []; to_client = [] }

abbrev pub at_start : Client → Client → Server → System
at_start c₁ c₂ v = record { one = idle_channel c₁; two = idle_channel c₂; server = v }

channel-Holds : (bytes : List ℕ) (raw : Packet) → Holds (idle_channel (client_begun bytes raw)) 0 []
channel-Holds bytes raw = record {
  states = omega arith;
  numbered = λ on. absurd (cc);
  safe = resting 0 refl (omega arith) refl tt tt refl;
}

pub start-Inv :
    (bytes₁ bytes₂ : List ℕ) (raw₁ raw₂ raw : Packet)
    → Inv (at_start (client_begun bytes₁ raw₁) (client_begun bytes₂ raw₂) (server_begun raw))
unfolding every_other keeps_next
start-Inv bytes₁ bytes₂ raw₁ raw₂ raw = record {
  state_lt = omega arith;
  turn_one = refl;
  turn_two = refl;
  one = channel-Holds bytes₁ raw₁;
  two = channel-Holds bytes₂ raw₂;
}

-- The 2023 server with two clients of client-2.c, from the start of the three programs, which open
-- their files, over channels that lose packets but keep their order: the packets that the server
-- has taken come from the two clients by turns. Those of either are what it has sent, in order and
-- each once, but for one packet at most at the end.
pub taken-by_turns :
    (ok₁ ok₂ socket_ok socket2_ok bind_ok bind2_ok : Bool) (bytes₁ bytes₂ : List ℕ)
    (raw₁ raw₂ raw : Packet) (c₁ c₂ : Client) (v : Server) (t : System)
    → Client.main ok₁ (some bytes₁) raw₁ ≡ ok c₁
    → Client.main ok₂ (some bytes₂) raw₂ ≡ ok c₂
    → main socket_ok socket2_ok bind_ok bind2_ok true raw ≡ ok v
    → Reach (at_start c₁ c₂ v) t
    → ((rest : List Packet) × (every_other true t.server.taken ++ rest ≡ t.one.client.sent)
        × (length rest ≤ 1))
      × ((rest : List Packet) × (every_other false t.server.taken ++ rest ≡ t.two.client.sent)
          × (length rest ≤ 1))
taken-by_turns ok₁ ok₂ socket_ok socket2_ok bind_ok bind2_ok bytes₁ bytes₂ raw₁ raw₂ raw c₁ c₂ v t
      e₁ e₂ e reach =
    let same₁ = client_begun-eq ok₁ bytes₁ raw₁ c₁ e₁ in
    let same₂ = client_begun-eq ok₂ bytes₂ raw₂ c₂ e₂ in
    let same = server_begun-eq socket_ok socket2_ok bind_ok bind2_ok raw v e in
    let start : Inv (at_start c₁ c₂ v) =
      subst (λ x. Inv (at_start x c₂ v)) same₁
        (subst (λ x. Inv (at_start (client_begun bytes₁ raw₁) x v)) same₂
          (subst (λ x. Inv (at_start (client_begun bytes₁ raw₁) (client_begun bytes₂ raw₂) x)) same
            (start-Inv bytes₁ bytes₂ raw₁ raw₂ raw))) in
    let inv = reach-Inv reach start in
    (
      IsSafe-prefix number (view t.one _ _) inv.one.safe,
      IsSafe-prefix number (view t.two _ _) inv.two.safe,
    )
