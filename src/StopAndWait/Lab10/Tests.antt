-- ===== src/StopAndWait/Lab10/Tests.antt =====
-- Lab10: a field is read; and a run in which one field is sent, taken and acknowledged.
use csf303_computer_networks.Prelude.{
  ℕ, ◌≡◌, ◌≤◌, refl, true, some, List, [], ◌∷◌, ◌++◌, ok, length, replicate,
}
use csf303_computer_networks.StopAndWait.Scan.{
  Packet, scan_field, skip_separators, before_nul, read_packet,
}
use csf303_computer_networks.StopAndWait.Lab10.{
  Client, Server, running, timed_out, main, server_main, round, send_next, wait_ack, handle_ack,
  serve, drop_packet,
}
use csf303_computer_networks.StopAndWait.Lab10.System.{
  System, Reach, here, next, client_pass, client_read, server_read,
}
use csf303_computer_networks.StopAndWait.Lab10.Delivery.{
  at_start, lab10_taken-prefix, lab10_idle_complete,
}

abbrev blank : Packet
blank = record { ack_or_data = 0; data_bytes = replicate 256 0; seq_no = 0; len = 0 }

-- "ab,c"
abbrev names : List ℕ
names = b'a' ∷ b'b' ∷ b',' ∷ b'c' ∷ []

abbrev begun : Client
begun = record { state = 0; fp = names; pkt = blank; sent = [] }

abbrev served : Server
served = record { state = 0; ack_pkt = blank; taken = [] }

abbrev first : Packet
first = record { ack_or_data = 0; data_bytes = b'a' ∷ b'b' ∷ replicate 254 0; seq_no = 0; len = 2 }

abbrev sending : Client
sending = record { state = 1; fp = b'c' ∷ []; pkt = first; sent = first ∷ [] }

abbrev took : Server
took = record { state = 1; ack_pkt = blank; taken = first ∷ [] }

abbrev done : System
done = record {
  client = record { state = 2; fp = b'c' ∷ []; pkt = first; sent = first ∷ [] };
  server = took;
  to_server = [];
  to_client = [];
}

begun_lem : main true (some names) blank ≡ ok begun
unfolding main
begun_lem = refl

served_lem : server_main true true blank ≡ ok served
unfolding server_main
served_lem = refl

run : Reach (at_start begun served) done
unfolding round send_next wait_ack handle_ack serve drop_packet read_packet scan_field
    skip_separators before_nul
run =
    next
      (next (next (here _) (client_pass _ true timed_out running sending (first ∷ []) tt refl))
        (server_read _ true 2147483647 first [] took (blank ∷ []) refl refl))
      (client_read _ true blank [] running _ [] refl refl refl)

lab10_taken-prefix_example :
    (rest : List Packet) × (took.taken ++ rest ≡ done.client.sent) × (length rest ≤ 1)
lab10_taken-prefix_example =
    lab10_taken-prefix true (some names) blank begun true true blank served done begun_lem
      served_lem run

lab10_idle_complete_example : took.taken ≡ done.client.sent
lab10_idle_complete_example =
    lab10_idle_complete true (some names) blank begun true true blank served done begun_lem
      served_lem run refl
