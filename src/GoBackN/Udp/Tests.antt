-- ===== src/GoBackN/Udp/Tests.antt =====
-- A run over UDP: the client sends packets, the server takes the first, and its ACK comes back.
use csf303_computer_networks.Prelude.{
  ◌≡◌, refl, some, List, ◌++◌, arith, ok, err, null_file, Result, ◌>>=◌, ℕ, zero, suc, ◌+◌, ◌*◌,
  ◌/◌, ◌≤◌, length, false, c_string,
}
use csf303_computer_networks.GoBackN.Packet.{drop_packet}
use csf303_computer_networks.GoBackN.Input
use csf303_computer_networks.GoBackN.Client
use csf303_computer_networks.GoBackN.Client.{Client, Status, waiting, readable}
use csf303_computer_networks.GoBackN.Server
use csf303_computer_networks.GoBackN.Server.{Server, datagram}
use csf303_computer_networks.GoBackN.System.{System, Reach, here, next, receive_packet, receive_ack}
use csf303_computer_networks.GoBackN.Udp.{
  main, round, serve, enter, fill, handle, handle_ack, accept, fin_ack,
}
use csf303_computer_networks.GoBackN.Udp.Delivery.{transport, udp_output_prefix, never_finished}
use csf303_computer_networks.GoBackN.Runs.{blank, calm, calm_ends, hi, client_of, server_of, idle}

abbrev begun : Client
begun = client_of (main calm (λ _. blank) (some hi)) idle

abbrev served : Server
served =
    server_of (serve calm (datagram (begun.sent_packets 1) 2147483647) (Server.start blank))
      (Server.start blank)

abbrev acked : Client
acked = client_of (round calm (readable 7 served.snd_pkt) begun) idle

begun_lem : main calm (λ _. blank) (some hi) ≡ ok (waiting, begun)
unfolding main enter fill Client.start Client.push_packet Client.new_packet Client.send
    Input.open_input Input.input_into_buffer Input.getfilestream Input.clear Input.store
    Input.compute Input.create_packet Input.copy
begun_lem = refl

abbrev at_start : System
at_start = record { status = waiting; client = begun; server = Server.start blank }

abbrev at_end : System
at_end = record { status = waiting; client = acked; server = served }

run : Reach (transport calm calm calm_ends hi) at_start at_end
unfolding main enter fill Client.start Client.push_packet Client.new_packet Client.send
    Input.open_input Input.input_into_buffer Input.getfilestream Input.clear Input.store
    Input.compute Input.create_packet Input.copy serve accept drop_packet Server.reply Server.fputs
    c_string round handle handle_ack fin_ack
run =
    next
      (next here (receive_packet 0 2147483647 (begun.sent_packets 1) served waiting refl refl refl))
      (receive_ack 0 7 served.snd_pkt acked waiting refl refl refl refl)

udp_output_prefix_example : (rest : List ℕ) × (served.output ++ rest ≡ hi)
udp_output_prefix_example =
    udp_output_prefix calm calm calm_ends hi (omega arith) (λ _. blank) blank waiting begun
      begun_lem at_end run

never_finished_example :
    (waiting ≡ waiting)
    × (acked.check ≡ false)
    × (acked.base + 5 ≤ acked.nextseqnum)
    × (acked.nextseqnum ≤ 20 + 10 * (length hi / 1000))
never_finished_example =
    never_finished calm calm calm_ends hi (omega arith) (λ _. blank) blank waiting begun begun_lem
      at_end run

-- The ACKs of the first packets, in order.
abbrev acks_from : ℕ → ℕ → Client → Result (Status × Client)
acks_from zero i c = ok (waiting, c)
acks_from (suc n) i c =
    let rest = acks_from n (i + 1) in
    do (st, c') ← round calm (readable 7 (record blank { is_ack = 1; seq_no = i })) c; rest c'

-- The client lives through 14 ACKs of its file of two bytes; the next one ends it.
dies_lem : acks_from 15 1 begun ≡ err null_file
unfolding main enter fill Client.start Client.push_packet Client.new_packet Client.send
    Input.open_input Input.input_into_buffer Input.getfilestream Input.clear Input.store
    Input.compute Input.create_packet Input.copy round handle handle_ack fin_ack
dies_lem = refl

lives_lem : acks_from 14 1 begun ≡ ok (waiting, client_of (acks_from 14 1 begun) idle)
unfolding main enter fill Client.start Client.push_packet Client.new_packet Client.send
    Input.open_input Input.input_into_buffer Input.getfilestream Input.clear Input.store
    Input.compute Input.create_packet Input.copy round handle handle_ack fin_ack
lives_lem = refl
