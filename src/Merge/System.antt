-- ===== src/Merge/System.antt =====
-- Practice - 2023: the server and two clients, each over two channels that lose packets and keep
-- their order.
use csf303_computer_networks.Prelude.{
  ℕ, ◌+◌, ◌-◌, ◌/◌, ◌%◌, ◌<◌, ◌≡◌, ap, Bool, true, false, not, if◌then◌else◌, List, [], ◌∷◌, ◌++◌,
  ok,
}
use csf303_computer_networks.StopAndWait.Spec.{Net, Sender, idle, waiting, IsSafe}
use csf303_computer_networks.Merge.{
  Packet, Server, Socket, first, second, Arrival, arrived, socket_of, round,
}
use csf303_computer_networks.Merge.Client.{Client, Event, readable, went, waits}
use csf303_computer_networks.Merge.Client

-- A client and what is on its way, oldest first.
pub record Channel : Type 0 where
  pub client : Client
  pub to_server : List Packet
  pub to_client : List Packet

pub record System : Type 0 where
  pub one : Channel
  pub two : Channel
  pub server : Server

abbrev pub IsNoRead : Client → Event → Type 0
IsNoRead c (readable ack) = waits c ≡ false
IsNoRead c ev = Unit

-- A pass of a client's loop, with the packets that it takes from a channel and puts on one; or a
-- loss.
pub data ChannelStep : Channel → Channel → Type 0 where
  client_pass :
      (s : Channel) (send_ok : Bool) (ev : Event) (c : Client) (out : List Packet)
      → IsNoRead s.client ev
      → Client.round send_ok ev s.client ≡ ok (went c out)
      → ChannelStep s (record s { client = c; to_server = s.to_server ++ out })
  client_read :
      (s : Channel) (send_ok : Bool) (ack : Packet) (rest : List Packet) (c : Client)
      (out : List Packet)
      → waits s.client ≡ true
      → s.to_client ≡ ack ∷ rest
      → Client.round send_ok (readable ack) s.client ≡ ok (went c out)
      → ChannelStep s (record s { client = c; to_server = s.to_server ++ out; to_client = rest })
  lose_packet :
      (s : Channel) (xs : List Packet) (p : Packet) (ys : List Packet)
      → s.to_server ≡ xs ++ p ∷ ys
      → ChannelStep s (record s { to_server = xs ++ ys })
  lose_ack :
      (s : Channel) (xs : List Packet) (ack : Packet) (ys : List Packet)
      → s.to_client ≡ xs ++ ack ∷ ys
      → ChannelStep s (record s { to_client = xs ++ ys })

-- What the server takes from a channel and puts on it.
abbrev pub served : Channel → List Packet → List Packet → Channel
served s rest out = record s { to_server = rest; to_client = s.to_client ++ out }

-- A step on one of the two channels, or a pass of the server's loop.
pub data Step : System → System → Type 0 where
  at_one : (s : System) (c : Channel) → ChannelStep s.one c → Step s (record s { one = c })
  at_two : (s : System) (c : Channel) → ChannelStep s.two c → Step s (record s { two = c })
  read_one :
      (s : System) (send_ok : Bool) (arrivals : Socket → Arrival) (r : ℕ) (pkt : Packet)
      (rest : List Packet) (v : Server) (out : List Packet)
      → socket_of s.server.state ≡ first
      → s.one.to_server ≡ pkt ∷ rest
      → arrivals first ≡ arrived r pkt
      → round send_ok arrivals s.server ≡ ok (v, out)
      → Step s (record s { one = served s.one rest out; server = v })
  read_two :
      (s : System) (send_ok : Bool) (arrivals : Socket → Arrival) (r : ℕ) (pkt : Packet)
      (rest : List Packet) (v : Server) (out : List Packet)
      → socket_of s.server.state ≡ second
      → s.two.to_server ≡ pkt ∷ rest
      → arrivals second ≡ arrived r pkt
      → round send_ok arrivals s.server ≡ ok (v, out)
      → Step s (record s { two = served s.two rest out; server = v })

pub data Reach : System → System → Type 0 where
  here : (s : System) → Reach s s
  next : {s t u : System} → Reach s t → Step t u → Reach s u

abbrev pub number : Packet → ℕ
number p = p.seq_no

abbrev pub sender_of : Client → Sender Packet
sender_of c = if waits c then waiting c.pkt else idle (c.state / 2)

-- What stop and wait sees of a channel, when the server expects the bit and has taken the packets.
abbrev pub view : Channel → ℕ → List Packet → Net Packet
view s b taken = record {
  sender = sender_of s.client;
  expected = b;
  to_server = s.to_server;
  to_client = s.to_client;
  sent = s.client.sent;
  delivered = taken;
}

-- The client's states are the four of its `main`, and a packet that waits for its ACK has its
-- state's number.
pub record Holds (s : Channel) (b : ℕ) (taken : List Packet) : Type 0 where
  pub states : s.client.state < 4
  pub numbered : waits s.client ≡ true → s.client.pkt.seq_no ≡ (s.client.state - 1) / 2
  pub safe : IsSafe number (view s b taken)

pub sender_waits : (c : Client) → waits c ≡ true → sender_of c ≡ waiting c.pkt
sender_waits c on = ap (λ b. if b then waiting c.pkt else idle (c.state / 2)) on

pub sender_idles : (c : Client) → waits c ≡ false → sender_of c ≡ idle (c.state / 2)
sender_idles c off = ap (λ b. if b then waiting c.pkt else idle (c.state / 2)) off

-- The elements at the even places, or at the odd ones.
unfoldable pub every_other : {A : Type 0} → Bool → List A → List A
every_other keep [] = []
every_other keep (x ∷ xs) =
    if keep then x ∷ every_other (not keep) xs else every_other (not keep) xs

-- Whether one more element at the end is kept.
unfoldable pub keeps_next : {A : Type 0} → Bool → List A → Bool
keeps_next keep [] = keep
keeps_next keep (x ∷ xs) = keeps_next (not keep) xs

-- The bit that the server expects of the first client.
abbrev pub first_bit : ℕ → ℕ
first_bit state = (state + 1) / 2 % 2
