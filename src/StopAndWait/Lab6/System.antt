-- ===== src/StopAndWait/Lab6/System.antt =====
-- lab6: client and server over two channels that lose packets and keep their order.
use csf303_computer_networks.Prelude.{
  ℕ, ◌-◌, ◌/◌, ◌<◌, ◌≤◌, All, ◌≡◌, ap, subst, ◌⊎◌, Bool, true, false, if◌then◌else◌, List, ◌∷◌,
  ◌++◌, ok,
}
use csf303_computer_networks.StopAndWait.Spec.{Net, Sender, idle, waiting, IsSafe, resting}
use csf303_computer_networks.StopAndWait.Spec
use csf303_computer_networks.StopAndWait.Lab6.{
  Client, Server, Packet, Event, readable, waits, round, serve,
}

-- The two programs and what is on its way, oldest first.
pub record System : Type 0 where
  pub client : Client
  pub server : Server
  pub to_server : List Packet
  pub to_client : List Packet

abbrev pub IsNoRead : Client → Event → Type 0
IsNoRead c (readable r ack) = waits c ≡ false
IsNoRead c ev = Unit

-- A pass of a loop, with the packets that it takes from a channel and puts on one; or a loss.
pub data Step : System → System → Type 0 where
  client_pass :
      (s : System) (send_ok : Bool) (ev : Event) (c : Client) (out : List Packet)
      → IsNoRead s.client ev
      → round send_ok ev s.client ≡ ok (c, out)
      → Step s (record s { client = c; to_server = s.to_server ++ out })
  client_read :
      (s : System) (send_ok : Bool) (ack : Packet) (rest : List Packet) (r : ℕ) (c : Client)
      (out : List Packet)
      → waits s.client ≡ true
      → s.to_client ≡ ack ∷ rest
      → round send_ok (readable r ack) s.client ≡ ok (c, out)
      → Step s (record s { client = c; to_server = s.to_server ++ out; to_client = rest })
  server_read :
      (s : System) (send_ok : Bool) (r : ℕ) (pkt : Packet) (rest : List Packet) (v : Server)
      (out : List Packet)
      → s.to_server ≡ pkt ∷ rest
      → serve send_ok r pkt s.server ≡ ok (v, out)
      → Step s (record s { server = v; to_server = rest; to_client = s.to_client ++ out })
  lose_packet :
      (s : System) (xs : List Packet) (p : Packet) (ys : List Packet)
      → s.to_server ≡ xs ++ p ∷ ys
      → Step s (record s { to_server = xs ++ ys })
  lose_ack :
      (s : System) (xs : List Packet) (ack : Packet) (ys : List Packet)
      → s.to_client ≡ xs ++ ack ∷ ys
      → Step s (record s { to_client = xs ++ ys })

pub data Reach : System → System → Type 0 where
  here : (s : System) → Reach s s
  next : {s t u : System} → Reach s t → Step t u → Reach s u

abbrev pub number : Packet → ℕ
number p = p.sq_no

abbrev pub sender_of : Client → Sender Packet
sender_of c = if waits c then waiting c.send_pkt else idle (c.state / 2)

-- What stop and wait sees of the system.
abbrev pub view : System → Net Packet
view s = record {
  sender = sender_of s.client;
  expected = s.server.state;
  to_server = s.to_server;
  to_client = s.to_client;
  sent = s.client.sent;
  delivered = s.server.taken;
}

abbrev pub IsBit : Packet → Type 0
IsBit p = p.sq_no ≤ 1

-- The states are the four of `main` and the two of the server, and a packet that waits for its ACK
-- has its state's number. A packet on its way has the number 0 or 1.
pub record IsCoherent (s : System) : Type 0 where
  pub states : s.client.state < 4
  pub bits : s.server.state < 2
  pub number : waits s.client ≡ true → s.client.send_pkt.sq_no ≡ (s.client.state - 1) / 2
  pub small : All IsBit s.to_server

pub record Simulates (s t : System) : Type 0 where
  pub moves : Spec.Step number (view s) (view t) ⊎ (view s ≡ view t)
  pub coherent : IsCoherent t

pub sender_waits : (c : Client) → waits c ≡ true → sender_of c ≡ waiting c.send_pkt
sender_waits c on = ap (λ b. if b then waiting c.send_pkt else idle (c.state / 2)) on

pub sender_idles : (c : Client) → waits c ≡ false → sender_of c ≡ idle (c.state / 2)
sender_idles c off = ap (λ b. if b then waiting c.send_pkt else idle (c.state / 2)) off

-- The step of the specification ends in the view of the system.
pub moved :
    (s t : System) (n : Net Packet)
    → n ≡ view t
    → Spec.Step number (view s) n
    → Spec.Step number (view s) (view t)
moved s t n same step = subst (Spec.Step number (view s)) same step
