-- ===== src/Merge/Tests.antt =====
-- A run of the three programs of Practice - 2023: each client's first field is taken.
use csf303_computer_networks.Prelude.{
  ◌≡◌, ◌≤◌, refl, true, false, List, [], ◌∷◌, ◌++◌, ok, some, length, replicate, map, arith, ℕ,
  c_string,
}
use csf303_computer_networks.Text.Literals.{codes}
use csf303_computer_networks.Merge.{
  Packet, Server, Socket, second, Arrival, recv_error, arrived, main, round, handle, serve,
  take_new, write, drop_packet,
}
use csf303_computer_networks.StopAndWait.Scan.{scan_field, skip_separators}
use csf303_computer_networks.Merge.Client.{
  Client, timed_out, fill, store_field, read_packet, next_packet, send_next,
}
use csf303_computer_networks.Merge.Client
use csf303_computer_networks.Merge.System.{
  System, Reach, here, next, at_one, at_two, client_pass, read_one, read_two, every_other,
}
use csf303_computer_networks.Merge.Delivery.{at_start, client_begun, server_begun, taken-by_turns}
use csf303_computer_networks.Merge.Fields.{Part, bytes_of, IsFile}
use csf303_computer_networks.Merge.Reads.{field_of}
use csf303_computer_networks.Merge.Output.{join}
use csf303_computer_networks.Merge.Merged.{file-merged}
use csf303_computer_networks.Merge.Exchange.{add_text, on, round-exchange}

abbrev raw : Packet
raw = record {
  ack_or_data = 7;
  data_bytes = replicate 256 7;
  seq_no = 7;
  len = 7;
  type_of = 7;
  final_packet = 7;
}

abbrev names : List Part
names =
    record { field = codes "ab"; separators = codes ",\n" }
    ∷ record { field = codes "c"; separators = codes "." }
    ∷ []

abbrev ids : List Part
ids = record { field = codes "12"; separators = [] } ∷ []

names-IsFile : IsFile names
unfolding IsFile
names-IsFile = (
  record {
    plain = ((refl, omega arith), ((refl, omega arith), tt));
    some_text = omega arith;
    fits = omega arith;
  },
  (refl, (refl, tt)),
  λ e. absurd (cc),
  (
    record { plain = ((refl, omega arith), tt); some_text = omega arith; fits = omega arith },
    (refl, tt),
    λ e. refl,
    tt,
  ),
)

ids-IsFile : IsFile ids
unfolding IsFile
ids-IsFile = (
  record {
    plain = ((refl, omega arith), ((refl, omega arith), tt));
    some_text = omega arith;
    fits = omega arith;
  },
  tt,
  λ e. refl,
  tt,
)

abbrev client_one : Client
client_one = client_begun (codes "ab,\nc.") raw

abbrev client_two : Client
client_two = client_begun (codes "12") raw

abbrev server : Server
server = server_begun raw

bytes_lem : bytes_of names ≡ codes "ab,\nc."
unfolding bytes_of
bytes_lem = refl

one_begun : Client.main true (some (bytes_of names)) raw ≡ ok client_one
unfolding Client.main bytes_of
one_begun = refl

two_begun : Client.main true (some (bytes_of ids)) raw ≡ ok client_two
unfolding Client.main bytes_of
two_begun = refl

server_begins : main true true true true true raw ≡ ok server
unfolding main
server_begins = refl

abbrev packet_one : Packet
packet_one = record {
  ack_or_data = 0;
  data_bytes = codes "ab" ++ replicate 254 0;
  seq_no = 0;
  len = 2;
  type_of = 7;
  final_packet = 7;
}

abbrev packet_two : Packet
packet_two = record {
  ack_or_data = 0;
  data_bytes = codes "12" ++ replicate 254 0;
  seq_no = 0;
  len = 2;
  type_of = 7;
  final_packet = 1;
}

abbrev ack : Packet
ack = record raw { seq_no = 0 }

abbrev sent_one : Client
sent_one = record { state = 1; input = codes "c."; pkt = packet_one; sent = packet_one ∷ [] }

abbrev sent_two : Client
sent_two = record { state = 1; input = []; pkt = packet_two; sent = packet_two ∷ [] }

abbrev took_one : Server
took_one = record { state = 1; ack_pkt = ack; file = some (codes "ab"); taken = packet_one ∷ [] }

abbrev took_two : Server
took_two = record {
  state = 2;
  ack_pkt = ack;
  file = some (codes "ab,12");
  taken = packet_one ∷ packet_two ∷ [];
}

abbrev done : System
done = record {
  one = record { client = sent_one; to_server = []; to_client = ack ∷ [] };
  two = record { client = sent_two; to_server = []; to_client = ack ∷ [] };
  server = took_two;
}

abbrev arrivals : Packet → Socket → Arrival
arrivals pkt k = arrived 2147483647 pkt

passes : Reach (at_start client_one client_two server) done
unfolding Client.round send_next read_packet store_field scan_field skip_separators fill next_packet
    round handle serve take_new write drop_packet c_string
passes =
    next
      (next
        (next
          (next (here _)
            (at_two _ _ (client_pass _ true timed_out sent_two (packet_two ∷ []) tt refl)))
          (at_one _ _ (client_pass _ true timed_out sent_one (packet_one ∷ []) tt refl)))
        (read_one _ true (arrivals packet_one) 2147483647 packet_one [] took_one (ack ∷ []) refl
          refl refl refl))
      (read_two _ true (arrivals packet_two) 2147483647 packet_two [] took_two (ack ∷ []) refl refl
        refl refl)

taken-by_turns_example :
    ((rest : List Packet) × (every_other true took_two.taken ++ rest ≡ sent_one.sent)
      × (length rest ≤ 1))
    × ((rest : List Packet) × (every_other false took_two.taken ++ rest ≡ sent_two.sent)
        × (length rest ≤ 1))
taken-by_turns_example =
    taken-by_turns true true true true true true (bytes_of names) (bytes_of ids) raw raw raw
      client_one client_two server done one_begun two_begun server_begins passes

file-merged_example :
    (texts later₁ later₂ : List (List ℕ)) × (some (codes "ab,12") ≡ some (join texts))
    × (every_other true texts ++ later₁ ≡ map field_of names)
    × (every_other false texts ++ later₂ ≡ map field_of ids)
file-merged_example =
    file-merged true true true true true true names ids raw raw raw client_one client_two server
      done names-IsFile ids-IsFile one_begun two_begun server_begins passes

round-exchange_example :
    (c₁ c₂ : Client) × (v : Server) × (pkt ack' : Packet) × (Client.round true timed_out client_two
      ≡ ok (Client.went c₁ (pkt ∷ [])))
    × (round true (on second (arrived 2147483647 pkt) recv_error) took_one ≡ ok (v, ack' ∷ []))
    × (Client.round true (Client.readable ack') c₁ ≡ ok (Client.went c₂ []))
    × (c₂.input ≡ bytes_of [])
    × (c₂.state ≡ 2)
    × (v.state ≡ 2)
    × (v.file ≡ some (add_text (codes "ab") (codes "12")))
unfolding bytes_of drop_packet
round-exchange_example =
    round-exchange second recv_error (record { field = codes "12"; separators = [] }) [] client_two
      timed_out took_one 2147483647 (codes "ab") ids-IsFile refl refl refl refl refl refl
