-- ===== src/SelectiveRepeat/Relay.antt =====
-- Practice-RDT/SR/UDP_selectiverepeat/r1.c: a relay between client and server. r2.c differs from it
-- in the two port numbers and in what it prints.
pub mod Passes
use csf303_computer_networks.Prelude.{
  ℕ, ◌+◌, Bool, if◌then◌else◌, List, [], ◌∷◌, ◌++◌, length, Result, ok, err, sendto_failed,
  socket_failed, bind_failed, guard, ◌>>=◌, ◌>>◌,
}
use csf303_computer_networks.SelectiveRepeat.Packet.{Packet, drop_packet}
use csf303_computer_networks.SelectiveRepeat.Server.{SendOk}

-- `from_client` and `from_server` are the datagrams that wait at `s[0]` and at `s[1]`; the other
-- two list what has been sent to the server and to the client, oldest first.
pub record Relay : Type 0 where
  pub from_client : List Packet
  pub from_server : List Packet
  pub to_server : List Packet
  pub to_client : List Packet

abbrev sends : Relay → ℕ
sends s = length s.to_server + length s.to_client

-- `FD_ISSET(s[1], &readfds)`: the first waiting ACK goes to the client.
unfoldable pub relay_ack : SendOk → Relay → Result Relay
relay_ack send_ok s = elim s.from_server [
  | [] ↦ ok s
  | p ∷ rest ↦
      if send_ok (sends s)
      then ok (record s { from_server = rest; to_client = s.to_client ++ p ∷ [] })
      else err sendto_failed
]

-- `FD_ISSET(s[0], &readfds)`: the first waiting packet is dropped, which ends the round, or goes to
-- the server. `r` is what `rand()` returns for it.
unfoldable pub round : SendOk → ℕ → Relay → Result Relay
round send_ok r s = elim s.from_client [
  | [] ↦ relay_ack send_ok s
  | p ∷ rest ↦
      if drop_packet r
      then ok (record s { from_client = rest })
      else if send_ok (sends s)
      then relay_ack send_ok (record s { from_client = rest; to_server = s.to_server ++ p ∷ [] })
      else err sendto_failed
]

unfoldable pub run : SendOk → List ℕ → Relay → Result Relay
run send_ok [] s = ok s
run send_ok (r ∷ rs) s = do s' ← round send_ok r s; run send_ok rs s'

-- `main` of r1.c up to its loop: two sockets, of which the one towards the client is bound.
unfoldable pub r1_main : Bool → Bool → Bool → Result Relay
r1_main socket_1 socket_2 bind_ok = do
  guard socket_1 socket_failed
  guard socket_2 socket_failed
  guard bind_ok bind_failed
  ok (record { from_client = []; from_server = []; to_server = []; to_client = [] })

-- `main` of r2.c up to its loop, which is the loop of r1.c.
unfoldable pub r2_main : Bool → Bool → Bool → Result Relay
r2_main socket_1 socket_2 bind_ok = do
  guard socket_1 socket_failed
  guard socket_2 socket_failed
  guard bind_ok bind_failed
  ok (record { from_client = []; from_server = []; to_server = []; to_client = [] })
