-- ===== src/TcpTransfer/System.antt =====
-- Practice - 2019/TCP_Transfer: client and server over a connection that keeps all packets in
-- order, while it stands.
use csf303_computer_networks.Prelude.{ℕ, ◌≡◌, List, ◌∷◌, ◌++◌, ok, drop, []}
use csf303_computer_networks.GoBackN.Packet.{packet_size}
use csf303_computer_networks.TcpTransfer.{Packet, Client, Event, timed_out, received, round}
use csf303_computer_networks.TcpTransfer.Server.{Server, arrived}
use csf303_computer_networks.TcpTransfer.Server

-- The two programs and what is on its way, oldest first.
pub record System : Type 0 where
  pub client : Client
  pub server : Server
  pub to_server : List Packet
  pub to_client : List Packet

-- `malloc` returns a packet whose last payload byte is 0.
abbrev pub IsClean : Packet → Type 0
IsClean raw = drop packet_size raw.payload ≡ 0 ∷ []

pub data Step : System → System → Type 0 where
  client_send :
      (s : System) (raw : Packet) (ev : Event) (c : Client) (out : List Packet)
      → IsClean raw
      → s.client.state ≡ 0
      → round raw ev s.client ≡ ok (c, out)
      → Step s (record s { client = c; to_server = s.to_server ++ out })
  client_timeout :
      (s : System) (raw : Packet) (c : Client) (out : List Packet)
      → s.client.state ≡ 1
      → round raw timed_out s.client ≡ ok (c, out)
      → Step s (record s { client = c; to_server = s.to_server ++ out })
  client_read :
      (s : System) (raw ack : Packet) (rest : List Packet) (c : Client) (out : List Packet)
      → s.client.state ≡ 1
      → s.to_client ≡ ack ∷ rest
      → round raw (received ack) s.client ≡ ok (c, out)
      → Step s (record s { client = c; to_server = s.to_server ++ out; to_client = rest })
  server_read :
      (s : System) (r : ℕ) (p : Packet) (rest : List Packet) (v : Server) (out : List Packet)
      → s.to_server ≡ p ∷ rest
      → Server.round (arrived r p) s.server ≡ ok (v, out)
      → Step s (record s { server = v; to_server = rest; to_client = s.to_client ++ out })

pub data Reach : System → System → Type 0 where
  here : (s : System) → Reach s s
  next : {s t u : System} → Reach s t → Step t u → Reach s u
