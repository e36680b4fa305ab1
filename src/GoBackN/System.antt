-- ===== src/GoBackN/System.antt =====
-- A client and a server on a network that loses, repeats, delays and reorders: what is received is
-- anything that the other side has sent so far. The loops' bodies are a parameter, with what the
-- proofs need of them.
use csf303_computer_networks.Prelude.{
  ℕ, suc, ◌-◌, ◌≤◌, ◌≡◌, subst, some, List, ◌++◌, append_assoc, take-append-drop, arith, ok, Result,
  get_elem?, take, drop, All-get_elem?,
}
use csf303_computer_networks.GoBackN.Packet.{Packet}
use csf303_computer_networks.GoBackN.Input.Text.{unread}
use csf303_computer_networks.GoBackN.Created.{texts, texts-append, IsStream, IsOriginal}
use csf303_computer_networks.GoBackN.Client.{Client, Status, waiting, Event, timed_out, readable}
use csf303_computer_networks.GoBackN.Client.Window.{HasWindow}
use csf303_computer_networks.GoBackN.Client.Slide.{Grows}
use csf303_computer_networks.GoBackN.Server.{Server, Arrival, datagram}
use csf303_computer_networks.GoBackN.Server.Output.{HasOutput, Serves, HasOutput-more}

-- The two loops, and that they keep the client's window over `file` and the server's output.
pub record Transport (file : List ℕ) : Type 1 where
  pub round : Event → Client → Result (Status × Client)
  pub serve : Arrival → Server → Result (Status × Server)
  pub IsReply : Packet → Type 0
  pub Mode : Status → Client → List ℕ → Type 0
  pub times_out :
      (ps : List Packet) (n : ℕ) (c : Client) {st : Status} {c' : Client}
      → (w : HasWindow file ps c) → Mode waiting c w.content
      → c.base ≤ n
      → n ≤ c.nextseqnum
      → round timed_out c ≡ ok (st, c')
      → Grows Mode file ps n st c'
  pub takes_ack :
      (ps : List Packet) (n elapsed : ℕ) (a : Packet) (c : Client) {st : Status} {c' : Client}
      → (w : HasWindow file ps c) → Mode waiting c w.content
      → c.base ≤ n
      → n ≤ c.nextseqnum
      → suc a.seq_no ≤ n
      → IsReply a
      → round (readable elapsed a) c ≡ ok (st, c')
      → Grows Mode file ps n st c'
  pub takes_packet :
      (ps : List Packet) (s : Server) (p : Packet) (r : ℕ) {st : Status} {s' : Server}
      → IsStream 0 ps
      → HasOutput IsReply ps s
      → IsOriginal ps p
      → serve (datagram p r) s ≡ ok (st, s')
      → Serves IsReply ps s s'

-- `status` is the client's: its loop is left at `finished`.
pub record System : Type 0 where
  pub status : Status
  pub client : Client
  pub server : Server

module _ {file : List ℕ} (t : Transport file) where
  -- A call of `die` ends a process, so it is no step. The server's loop goes on for ever.
  pub data Step (s : System) (s' : System) : Type 0 where
    time_out :
        (c' : Client) (st : Status)
        → s.status ≡ waiting
        → t.round timed_out s.client ≡ ok (st, c')
        → record s { status = st; client = c' } ≡ s'
        → Step s s'
    receive_ack :
        (i elapsed : ℕ) (a : Packet) (c' : Client) (st : Status)
        → s.status ≡ waiting
        → get_elem? s.server.wire i ≡ some a
        → t.round (readable elapsed a) s.client ≡ ok (st, c')
        → record s { status = st; client = c' } ≡ s'
        → Step s s'
    receive_packet :
        (i r : ℕ) (p : Packet) (v' : Server) (st : Status)
        → get_elem? s.client.wire i ≡ some p
        → t.serve (datagram p r) s.server ≡ ok (st, v')
        → record s { server = v' } ≡ s'
        → Step s s'

  pub data Reach (s : System) : System → Type 0 where
    here : Reach s s
    next : {u v : System} → Reach s u → Step u v → Reach s v

  -- `ps` are the packets made so far.
  pub record Inv (ps : List Packet) (s : System) : Type 0 where
    pub window : HasWindow file ps s.client
    pub output : HasOutput t.IsReply ps s.server
    pub behind : s.client.base ≤ s.server.expected_seq_no
    pub mode : t.Mode s.status s.client window.content

  abbrev pub Holds : System → Type 0
  Holds s = (ps : List Packet) × Inv ps s

  grown :
      (ps : List Packet) (s : System) (st : Status) (c' : Client)
      → Inv ps s
      → Grows t.Mode file ps s.server.expected_seq_no st c'
      → Holds (record s { status = st; client = c' })
  grown ps s st c' v g = (
    ps ++ g.made,
    record {
      window = g.window;
      output = HasOutput-more t.IsReply ps g.made s.server v.output;
      behind = g.base;
      mode = g.mode;
    },
  )

  open_mode :
      {ps : List Packet} (s : System)
      → s.status ≡ waiting
      → (v : Inv ps s) → t.Mode waiting s.client v.window.content
  open_mode s w v = subst (λ st. t.Mode st s.client v.window.content) w v.mode

  pub Step-Holds : {s s' : System} → Step s s' → Holds s → Holds s'
  Step-Holds {s} (time_out c' st w e same) (ps, v) = subst Holds same (
      grown ps s st c' v (
        t.times_out ps s.server.expected_seq_no s.client v.window (open_mode s w v) v.behind
          (omega (arith, v.output.high, v.window.count)) e))
  Step-Holds {s} (receive_ack i elapsed a c' st w sent e same) (ps, v) =
      let (below, promise) = All-get_elem? _ s.server.wire i a v.output.acks sent in
      subst Holds same (
        grown ps s st c' v (
          t.takes_ack ps s.server.expected_seq_no elapsed a s.client v.window (open_mode s w v)
            v.behind (omega (arith, v.output.high, v.window.count)) below promise e))
  Step-Holds {s} (receive_packet i r p v' st sent e same) (ps, v) =
      let (output, on) =
        t.takes_packet ps s.server p r v.window.stream v.output
          (All-get_elem? _ s.client.wire i p v.window.wire sent) e in
      subst Holds same (
        ps,
        record {
          window = v.window;
          output = output;
          behind = omega (arith, v.behind);
          mode = v.mode;
        },
      )

  pub Reach-Holds : {s s' : System} → Holds s → Reach s s' → Holds s'
  Reach-Holds h here = h
  Reach-Holds h (next r st) = Step-Holds st (Reach-Holds h r)

  -- What the server has written is the text of the first packets.
  pub written-prefix :
      (ps : List Packet) (s : System)
      → Inv ps s
      → (rest : List ℕ) × (s.server.output ++ rest ≡ file)
  written-prefix ps s v =
      let k : ℕ = s.server.expected_seq_no - 1 in
      (
        texts (drop k ps) ++ unread v.window.content s.client.input,
        rw
            (
              v.output.written,
              ← append_assoc (texts (take k ps)) (texts (drop k ps))
                  (unread v.window.content s.client.input),
              ← texts-append (take k ps) (drop k ps),
              take-append-drop k ps,
            )
            v.window.carried,
      )
