-- ===== src/GoBackN/Tcp/Tests.antt =====
-- A run over TCP: the client sends packets, the server takes the first, and its ACK comes back.
use csf303_computer_networks.Prelude.{◌≡◌, refl, some, List, ◌++◌, arith, ok, ℕ, c_string}
use csf303_computer_networks.GoBackN.Packet.{drop_packet}
use csf303_computer_networks.GoBackN.Input
use csf303_computer_networks.GoBackN.Client
use csf303_computer_networks.GoBackN.Client.{Client, waiting, finished, readable}
use csf303_computer_networks.GoBackN.Server
use csf303_computer_networks.GoBackN.Server.{Server, datagram}
use csf303_computer_networks.GoBackN.System.{System, Reach, here, next, receive_packet, receive_ack}
use csf303_computer_networks.GoBackN.Tcp.{
  main, round, serve, enter, fill, handle, handle_ack, accept,
}
use csf303_computer_networks.GoBackN.Tcp.Delivery.{transport, tcp_output_prefix, finished_complete}
use csf303_computer_networks.GoBackN.Runs.{blank, calm, calm_ends, hi, client_of, server_of, idle}

abbrev begun : Client
begun = client_of (main calm (λ _. blank) (some hi)) idle

abbrev served : Server
served =
    server_of (serve calm (datagram (begun.sent_packets 1) 2147483647) (Server.start blank))
      (Server.start blank)

abbrev acked : Client
acked = client_of (round calm (readable 7 served.snd_pkt) begun) idle

begun_lem : main calm (λ _. blank) (some hi) ≡ ok (waiting, begun)
unfolding main enter fill Client.start Client.push_packet Client.new_packet Client.send
    Input.open_input Input.input_into_buffer Input.getfilestream Input.clear Input.store
    Input.compute Input.create_packet Input.copy
begun_lem = refl

abbrev at_start : System
at_start = record { status = waiting; client = begun; server = Server.start blank }

abbrev at_end : System
at_end = record { status = finished; client = acked; server = served }

run : Reach (transport calm calm calm_ends hi) at_start at_end
unfolding main enter fill Client.start Client.push_packet Client.new_packet Client.send
    Input.open_input Input.input_into_buffer Input.getfilestream Input.clear Input.store
    Input.compute Input.create_packet Input.copy serve accept drop_packet Server.reply Server.fputs
    c_string round handle handle_ack
run =
    next
      (next here (receive_packet 0 2147483647 (begun.sent_packets 1) served waiting refl refl refl))
      (receive_ack 0 7 served.snd_pkt acked finished refl refl refl refl)

tcp_output_prefix_example : (rest : List ℕ) × (served.output ++ rest ≡ hi)
tcp_output_prefix_example =
    tcp_output_prefix calm calm calm_ends hi (omega arith) (λ _. blank) blank waiting begun
      begun_lem at_end run

finished_complete_example : served.output ≡ hi
finished_complete_example =
    finished_complete calm calm calm_ends hi (omega arith) (λ _. blank) blank waiting begun
      begun_lem at_end run refl
