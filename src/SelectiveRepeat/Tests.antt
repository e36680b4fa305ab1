-- ===== src/SelectiveRepeat/Tests.antt =====
-- Runs of the server, the client and a relay on concrete packets.
use csf303_computer_networks.Prelude.{
  ℕ, ◌+◌, ◌%◌, ◌==◌, ◌≡◌, refl, true, false, ltb, not, if◌then◌else◌, ◌&&◌, none, some, List, [],
  ◌∷◌, arith, Result, ok, err, replicate,
}
use csf303_computer_networks.SelectiveRepeat.Packet.{
  Packet, window_size, drop_packet, increment_seq_no,
}
use csf303_computer_networks.SelectiveRepeat.Server
use csf303_computer_networks.SelectiveRepeat.Server.{
  Server, Activity, Channel, r1, r2, SendOk, datagram,
}
use csf303_computer_networks.SelectiveRepeat.Server.Exact.{IsExact, start-IsExact, run-IsExact}
use csf303_computer_networks.SelectiveRepeat.Server.Slide.{slide-stops}
use csf303_computer_networks.SelectiveRepeat.Client
use csf303_computer_networks.SelectiveRepeat.Client.{Client, Event}
use csf303_computer_networks.SelectiveRepeat.Client.Window.{HasWindow}
use csf303_computer_networks.SelectiveRepeat.Client.Resend.{Resends, timed_out-Resends}
use csf303_computer_networks.SelectiveRepeat.Client.Fill.{fill-stops, fill_at_wrap}
use csf303_computer_networks.SelectiveRepeat.Client.Stale.{stale_ack-slides}
use csf303_computer_networks.SelectiveRepeat.Relay.{Relay, run}
use csf303_computer_networks.SelectiveRepeat.Relay.Passes.{relayed, run-relayed}

abbrev blank : Packet
blank = record {
  final_packet = 0;
  seq_no = 0;
  ack_or_data = 0;
  payload = replicate 101 0;
  size = 0;
}

abbrev numbered : ℕ → Packet
numbered n = record blank { seq_no = n }

abbrev calm : SendOk
calm = λ _. true

abbrev value {ℓ} : {A : Type ℓ} → Result A → A → A
value (ok a) d = a
value (err f) d = d

-- Packet 1 comes first, then packet 0 twice: the base moves to 2.
abbrev arrivals : List Activity
arrivals =
    Activity.ready (some (datagram (numbered 1) 120)) none
    ∷ Activity.ready (some (datagram (numbered 0) 120)) (some (datagram (numbered 0) 120))
    ∷ []

abbrev written : Server
written = value (Server.run calm arrivals (Server.start blank)) (Server.start blank)

run_lem : Server.run calm arrivals (Server.start blank) ≡ ok written
unfolding Server.run Server.round Server.receive Server.send_ack Server.accept Server.slide
    increment_seq_no
run_lem = refl

base_lem : written.rcv_base ≡ 2
unfolding Server.run Server.round Server.receive Server.send_ack Server.accept Server.slide
    increment_seq_no
base_lem = refl

run-IsExact_example : IsExact written
run-IsExact_example =
    run-IsExact calm arrivals (Server.start blank)
      ((omega arith, tt), ((omega arith, omega arith), tt)) (start-IsExact blank) run_lem

-- Slots 0 and 1 are set.
abbrev flagged : Server
flagged = record (Server.start blank) { ackd = λ k. if ltb k 2 then 1 else 0 }

slide-stops_example :
    (Server.slide (window_size + 1) flagged).ackd
      ((Server.slide (window_size + 1) flagged).rcv_base % window_size)
    ≡ 0
slide-stops_example = slide-stops flagged (λ k. ground arith)

-- Packets 0 and 1 are sent, and 0 is acknowledged.
abbrev half : Client
half = record (Client.start (b'h' ∷ b'i' ∷ []) numbered blank) {
  currseq = 2;
  acks = λ k. if k == 0 then 1 else 0;
}

half-HasWindow : HasWindow half
half-HasWindow = record { room = omega arith; slots = λ i low high. omega arith; wire = tt }

abbrev resent : Client
resent = record half { packet = numbered 1; wire = (r1, numbered 1) ∷ [] }

resent_lem : Client.handle calm Event.timed_out half ≡ ok resent
unfolding Client.handle Client.resend Client.send
resent_lem = refl

timed_out-Resends_example : Resends half half.base resent
timed_out-Resends_example = timed_out-Resends calm half half-HasWindow resent_lem

-- A client that starts a window at 998 with three bytes left to send.
abbrev at_wrap : Client
at_wrap = record (Client.start (1 ∷ 2 ∷ 3 ∷ []) numbered blank) { base = 998; currseq = 998 }

abbrev filled : Client
filled = value (Client.fill calm (Client.enough at_wrap) at_wrap) at_wrap

filled_lem : Client.fill calm (Client.enough at_wrap) at_wrap ≡ ok filled
unfolding Client.fill Client.push_packet Client.read_packet Client.send increment_seq_no
filled_lem = refl

fill-stops_example : (ltb filled.currseq (filled.base + window_size) && not filled.fp.eof) ≡ false
fill-stops_example = fill-stops calm at_wrap filled_lem

fill_at_wrap_example : filled.fp.eof ≡ true
fill_at_wrap_example = fill_at_wrap calm at_wrap (omega arith) (omega arith) filled_lem

-- The window is at 5, and 5 is sent; the ACK is one of packet 0.
abbrev at_five : Client
at_five = record (Client.start [] numbered blank) { base = 5; currseq = 6 }

abbrev slid : Client
slid = value (Client.handle calm (Event.ready (some (numbered 0)) none) at_five) at_five

slid_lem : Client.handle calm (Event.ready (some (numbered 0)) none) at_five ≡ ok slid
unfolding Client.handle Client.slide increment_seq_no
slid_lem = refl

stale_ack-slides_example : slid.base ≡ 6
stale_ack-slides_example =
    stale_ack-slides calm at_five (numbered 0) (λ k. refl) refl (omega arith) slid_lem

-- One packet is dropped and one is sent on; both ACKs come through.
abbrev busy : Relay
busy = record {
  from_client = numbered 4 ∷ numbered 2 ∷ [];
  from_server = numbered 0 ∷ numbered 2 ∷ [];
  to_server = [];
  to_client = [];
}

abbrev draws : List ℕ
draws = 0 ∷ 2147483647 ∷ 2147483647 ∷ []

run-relayed_example : run calm draws busy ≡ ok (relayed draws busy)
run-relayed_example = run-relayed calm (λ n. refl) draws busy

relayed_lem : relayed draws busy ≡ record {
  from_client = [];
  from_server = [];
  to_server = numbered 2 ∷ [];
  to_client = numbered 0 ∷ numbered 2 ∷ [];
}
unfolding drop_packet
relayed_lem = refl
