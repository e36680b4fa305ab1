-- ===== src/TcpTransfer/Tests.antt =====
-- A run of TCP_Transfer in which a second ACK of one packet and the loss of the next one meet.
use csf303_computer_networks.Prelude.{
  ◌≡◌, refl, true, List, [], ◌∷◌, ◌++◌, ok, some, replicate, arith, ℕ, c_string,
}
use csf303_computer_networks.Prelude.Int.{pos}
use csf303_computer_networks.Text.Literals.{codes}
use csf303_computer_networks.GoBackN.Input
use csf303_computer_networks.GoBackN.Input.{Input, clear, store, copy}
use csf303_computer_networks.TcpTransfer.{
  Packet, Client, timed_out, main, round, send_packet, wait_ack, check_ack, load, compute,
  create_packet, input_into_buffer, getfilestream, drop_packet,
}
use csf303_computer_networks.TcpTransfer.Server.{Server, serve, accept, write}
use csf303_computer_networks.TcpTransfer.Server
use csf303_computer_networks.TcpTransfer.System.{
  System, Reach, here, next, client_send, client_timeout, client_read, server_read,
}
use csf303_computer_networks.TcpTransfer.Created.{texts}
use csf303_computer_networks.TcpTransfer.Delivery.{
  client_begun, server_begun, at_start, transfer_output-prefix, transfer_idle_complete,
}
use csf303_computer_networks.TcpTransfer.Stuck.{IsStuck, stuck-forever}

abbrev blank : Packet
blank = record {
  seq_no_0 = 0;
  final_packet = 0;
  channelid = 0;
  seq_no = 9;
  ack_or_data = 0;
  payload = replicate 101 0;
  size = 0;
}

abbrev opened : Input
opened = record {
  fp = some (record { rest = []; eof = true });
  currseq = 0;
  buffcount = pos 0;
  input_buffer = codes "hi" ++ replicate 999 0;
}

abbrev begun : Client
begun = client_begun opened

abbrev served : Server
served = server_begun blank blank

begun_lem : main true true (some (codes "hi")) ≡ ok begun
unfolding main input_into_buffer getfilestream Input.getfilestream clear store
begun_lem = refl

served_lem : Server.main true true true true blank blank ≡ ok served
unfolding Server.main
served_lem = refl

abbrev hi : Packet
hi = record {
  seq_no_0 = 0;
  final_packet = 0;
  channelid = 0;
  seq_no = 0;
  ack_or_data = 1;
  payload = codes "hi" ++ replicate 99 0;
  size = 100;
}

abbrev empty : Packet
empty = record {
  seq_no_0 = 0;
  final_packet = 0;
  channelid = 0;
  seq_no = 100;
  ack_or_data = 1;
  payload = replicate 101 0;
  size = 100;
}

abbrev ack : Packet
ack = record blank { seq_no = 0 }

abbrev waiting : Client
waiting = record {
  input = record opened { currseq = 100 };
  heap = hi ∷ [];
  pkt = 0;
  last_unack = 0;
  last_seq = 0;
  state = 1;
  sent = hi ∷ [];
}

abbrev took_hi : Server
took_hi = record { next_seq = 100; pkt = hi; ack_pkt = ack; output = some (codes "hi") }

abbrev acked : Client
acked = record waiting { heap = ack ∷ []; state = 0 }

abbrev between : System
between = record { client = acked; server = took_hi; to_server = []; to_client = ack ∷ [] }

abbrev waiting_again : Client
waiting_again = record {
  input = record opened { currseq = 200 };
  heap = ack ∷ empty ∷ [];
  pkt = 1;
  last_unack = 1;
  last_seq = 100;
  state = 1;
  sent = hi ∷ empty ∷ [];
}

abbrev overwritten : Client
overwritten = record waiting_again { heap = ack ∷ ack ∷ [] }

abbrev stuck : System
stuck = record {
  client = overwritten;
  server = record took_hi { pkt = empty };
  to_server = [];
  to_client = [];
}

first_half : Reach (at_start begun served) between
unfolding round send_packet create_packet copy compute wait_ack check_ack load Server.round serve
    accept write drop_packet c_string
first_half =
    next
      (next
        (next
          (next (next (here _) (client_send _ blank timed_out waiting (hi ∷ []) refl refl refl))
            (client_timeout _ blank waiting (hi ∷ []) refl refl))
          (server_read _ 2147483647 hi (hi ∷ []) took_hi (ack ∷ []) refl refl))
        (server_read _ 2147483647 hi [] took_hi (ack ∷ []) refl refl))
      (client_read _ blank ack (ack ∷ []) acked [] refl refl refl)

second_half : Reach (at_start begun served) stuck
unfolding round send_packet create_packet copy compute wait_ack check_ack load Server.round serve
    drop_packet
second_half =
    next
      (next
        (next first_half (client_send _ blank timed_out waiting_again (empty ∷ []) refl refl refl))
        (client_read _ blank ack [] overwritten [] refl refl refl))
      (server_read _ 0 empty [] (record took_hi { pkt = empty }) [] refl refl)

stuck-IsStuck : IsStuck stuck
stuck-IsStuck = record {
  waiting = refl;
  aliased = refl;
  due = refl;
  fore = tt;
  back = tt;
  held = (ack, refl, λ e. absurd (omega arith));
}

transfer_output-prefix_example :
    (bytes rest : List ℕ) × (some (codes "hi") ≡ some bytes) × (bytes ++ rest ≡ codes "hi")
transfer_output-prefix_example =
    transfer_output-prefix true true true true true (codes "hi") blank blank begun served between
      (omega arith, (omega arith, tt)) begun_lem served_lem first_half

transfer_idle_complete_example : some (codes "hi") ≡ some (texts (hi ∷ []))
transfer_idle_complete_example =
    transfer_idle_complete true true true true true (codes "hi") blank blank begun served between
      (omega arith, (omega arith, tt)) begun_lem served_lem first_half refl

-- The timeout sends the old ACK to the server.
resent : Reach stuck (record stuck { to_server = ack ∷ [] })
unfolding round wait_ack load
resent = next (here _) (client_timeout _ blank overwritten (ack ∷ []) refl refl)

stuck-forever_example :
    (overwritten.state ≡ 1)
    × (overwritten.sent ≡ hi ∷ empty ∷ [])
    × (took_hi.output ≡ some (codes "hi"))
stuck-forever_example =
    stuck-forever stuck (record stuck { to_server = ack ∷ [] }) stuck-IsStuck resent
