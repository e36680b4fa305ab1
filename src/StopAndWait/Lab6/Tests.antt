-- ===== src/StopAndWait/Lab6/Tests.antt =====
-- A run of lab6: one line is sent, taken and acknowledged.
use csf303_computer_networks.Prelude.{
  ◌≡◌, ◌≤◌, refl, true, List, [], ◌∷◌, ◌++◌, ok, length, replicate,
}
use csf303_computer_networks.StopAndWait.Lab6.{
  Packet, Client, Server, timed_out, gets, next_packet, main, server_main, round, send_next,
  wait_ack, handle_ack, ack_of, serve, drop_packet,
}
use csf303_computer_networks.StopAndWait.Lab6.System.{
  System, Reach, here, next, client_pass, client_read, server_read,
}
use csf303_computer_networks.StopAndWait.Lab6.Delivery.{
  at_start, lab6_taken-prefix, lab6_idle_complete,
}

abbrev blank : Packet
blank = record { sq_no = 0; ack_or_data = 0; data_bytes = replicate 512 0 }

abbrev begun : Client
begun = record { state = 0; input = (b'h' ∷ b'i' ∷ []) ∷ []; send_pkt = blank; sent = [] }

abbrev served : Server
served = record { state = 0; ack_pkt = blank; taken = [] }

abbrev first : Packet
first = record { sq_no = 0; ack_or_data = 1; data_bytes = b'h' ∷ b'i' ∷ replicate 510 0 }

abbrev sending : Client
sending = record { state = 1; input = []; send_pkt = first; sent = first ∷ [] }

abbrev took : Server
took = record { state = 1; ack_pkt = blank; taken = first ∷ [] }

abbrev done : System
done = record {
  client = record { state = 2; input = []; send_pkt = first; sent = first ∷ [] };
  server = took;
  to_server = [];
  to_client = [];
}

begun_lem : main true ((b'h' ∷ b'i' ∷ []) ∷ []) blank ≡ ok begun
unfolding main
begun_lem = refl

served_lem : server_main true true blank ≡ ok served
unfolding server_main
served_lem = refl

run : Reach (at_start begun served) done
unfolding round send_next gets next_packet wait_ack handle_ack serve ack_of drop_packet
run =
    next
      (next (next (here _) (client_pass _ true timed_out sending (first ∷ []) tt refl))
        (server_read _ true 2147483647 first [] took (blank ∷ []) refl refl))
      (client_read _ true blank [] 2147483647 _ [] refl refl refl)

lab6_taken-prefix_example :
    (rest : List Packet) × (took.taken ++ rest ≡ done.client.sent) × (length rest ≤ 1)
lab6_taken-prefix_example =
    lab6_taken-prefix true ((b'h' ∷ b'i' ∷ []) ∷ []) blank begun true true blank served done
      begun_lem served_lem run

lab6_idle_complete_example : took.taken ≡ done.client.sent
lab6_idle_complete_example =
    lab6_idle_complete true ((b'h' ∷ b'i' ∷ []) ∷ []) blank begun true true blank served done
      begun_lem served_lem run refl
