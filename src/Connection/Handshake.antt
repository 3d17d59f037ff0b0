-- ===== src/Connection/Handshake.antt =====
-- The opening of a connection between two endpoints, up to the start of a link in each direction:
-- tloe_connection.c, then `RX` of tloe_receiver.c for the frame that each side sends last.
use omnixtend_c.Base.{
  ℕ, ◌≤◌, ◌<◌, ◌≡◌, ◌^◌, refl, ◌∙◌, ap, Bool, true, some, List, [], ◌∷◌, ◌++◌, ok, arith, none, inl,
  inr, ◌≢◌,
}
use omnixtend_c.TlMsg.{channel_num}
use omnixtend_c.Frame.{type_normal, type_ackonly, type_open_connection}
use omnixtend_c.Frame.Packet.{packet_of}
use omnixtend_c.CircularQueue.Contents.{IsValid, contents}
use omnixtend_c.SeqNum.{max_seq_num}
use omnixtend_c.FlowControl.{credit_default}
use omnixtend_c.Endpoint.{Endpoint, tloe_endpoint_init}
use omnixtend_c.Endpoint.Start.{IsStarted, init-IsStarted}
use omnixtend_c.Receiver.{rx}
use omnixtend_c.Link.{Link, IsStart}
use omnixtend_c.Connection.{Round, open_conn_master, open_conn_slave}
use omnixtend_c.Connection.Frames.{sent_frame, conn_packets}
use omnixtend_c.Connection.Waiting.{packets_in, next_packet, burst, IsInitial, IsOpened}
use omnixtend_c.Connection.Slave.{slave_opens, master_packet}
use omnixtend_c.Connection.Master.{master_opens}
use omnixtend_c.Connection.Last.{Settled, rx-last_master, rx-last_slave}

-- The frame that each side sends last.
abbrev pub last_of_master : List ℕ
last_of_master = packet_of (sent_frame type_normal 5 4 0 0) 6

abbrev pub last_of_slave : List ℕ
last_of_slave = packet_of (sent_frame type_ackonly 5 4 0 0) 6

-- A link with nothing under way.
abbrev pub idle_link : Endpoint → Endpoint → Link
idle_link a b = record { a = a; b = b; to_b = []; to_a = []; given = []; taken = [] }

started-IsInitial : {e e' : Endpoint} → e.handle_open ≡ true → IsStarted e e' → IsInitial e'
started-IsInitial open_ s = record {
  handle_open = s.handle_open ∙ open_;
  credits = s.credits;
  next_rx_seq = s.next_rx_seq;
}

-- What an endpoint keeps from its start, over the opening, to the receipt of the last frame.
record IsReady (e : Endpoint) (next_tx next_rx : ℕ) : Type 0 where
  handle_open : e.handle_open ≡ true
  next_tx_seq : e.next_tx_seq ≡ next_tx
  next_rx_seq : e.next_rx_seq ≡ next_rx
  window : IsValid e.retransmit_buffer
  window_slots : e.retransmit_buffer.size ≡ 5
  no_frames : contents e.retransmit_buffer ≡ []
  acks : IsValid e.ack_buffer
  messages : IsValid e.tl_msg_buffer
  room : 2 ≤ e.tl_msg_buffer.size
  no_messages : contents e.tl_msg_buffer ≡ []
  credits : (c : ℕ) → 1 ≤ c → c < channel_num → e.fc.credits c ≡ 2 ^ credit_default

ready :
    {e0 e e' e'' : Endpoint} {next_tx next_rx : ℕ} {first : List (List ℕ)} {last : List ℕ}
    → e0.handle_open ≡ true
    → IsStarted e0 e
    → IsOpened e e' next_tx first last
    → Settled e' e'' next_rx
    → IsReady e'' next_tx next_rx
ready open_ s o t = record {
  handle_open = t.handle_open ∙ o.queues.handle_open ∙ s.handle_open ∙ open_;
  next_tx_seq = t.next_tx_seq ∙ o.next_tx_seq;
  next_rx_seq = t.next_rx_seq;
  window = t.valid;
  window_slots = t.slots ∙ ap (λ q. q.size) (o.queues.retransmit_buffer) ∙ s.window_slots;
  no_frames = t.empty;
  acks = rw (t.ack_buffer ∙ o.queues.ack_buffer) (s.acks.valid);
  messages = rw (t.tl_msg_buffer ∙ o.queues.tl_msg_buffer) (s.messages.valid);
  room = rw (t.tl_msg_buffer ∙ o.queues.tl_msg_buffer) (s.room);
  no_messages = rw (t.tl_msg_buffer ∙ o.queues.tl_msg_buffer) (s.messages.empty);
  credits = λ c h k. ap (λ f. f c) (t.credits) ∙ o.credits c h k;
}

ready-IsStart :
    {a b : Endpoint} {n rx_a tx_b : ℕ}
    → n < 2 ^ 22
    → IsReady a n rx_a
    → IsReady b tx_b n
    → IsStart n (idle_link a b)
ready-IsStart h a b = record {
  open_a = a.handle_open;
  open_b = b.handle_open;
  window = a.window;
  window_slots = a.window_slots;
  no_frames = a.no_frames;
  acks_a = a.acks;
  next_tx_seq = omega (arith, a.next_tx_seq);
  messages = b.messages;
  room = b.room;
  no_messages = b.no_messages;
  acks_b = b.acks;
  next_rx_seq = omega (arith, b.next_rx_seq);
  none_to_b = refl;
  none_to_a = refl;
  none_given = refl;
  none_taken = refl;
}

-- What a connection is behind its opening.
pub record IsConnected (m m' m'' s s' s'' : Endpoint) : Type 0 where
  pub of_master : List (List ℕ)
  pub sent_by_master :
      m'.wire
      ≡ m.wire ++ (burst type_open_connection max_seq_num ++ (of_master ++ last_of_master ∷ []))
  pub of_slave : List (List ℕ)
  pub sent_by_slave : s'.wire ≡ s.wire ++ (burst type_normal 0 ++ (of_slave ++ last_of_slave ∷ []))
  pub last_at_slave : rx s' (some last_of_master) ≡ ok s''
  pub last_at_master : rx m' (some last_of_slave) ≡ ok m''
  pub credits_of_master : (c : ℕ) → 1 ≤ c → c < channel_num → m''.fc.credits c ≡ 2 ^ credit_default
  pub credits_of_slave : (c : ℕ) → 1 ≤ c → c < channel_num → s''.fc.credits c ≡ 2 ^ credit_default
  pub down : IsStart 6 (idle_link m'' s'')
  pub up : IsStart 5 (idle_link s'' m'')

first_packet :
    (r : Round) (rounds : List Round) (p : List ℕ) (ps : List (List ℕ))
    → r.packet ≢ none
    → packets_in (r ∷ rounds) ≡ p ∷ ps
    → (r.packet ≡ some p) × (packets_in rounds ≡ ps)
first_packet r rounds p ps come h = elim (next_packet r rounds p ps h) [
  | inl (nothing, later) ↦ absurd (come nothing)
  | inr now ↦ now
]

-- Two endpoints that were initialised with an open handle, one as master and one as slave, and that
-- hear the five frames which the other sends first, open: with any waits in between, and whatever
-- the resend times, except that the slave's is over in the round of the first frame,
-- `open_conn_master` and `open_conn_slave` return 1. The master has sent its five frames, perhaps
-- frames again, and one frame more; so has the slave. When `RX` has received that last frame on
-- each side, both have 2 ^ 10 credits on every channel from A to E and nothing in flight, and they
-- agree on the next number in each direction, 6 from the master and 5 from the slave: both
-- directions are the start of a link.
pub handshake :
    (wde : Bool) (m0 s0 m s : Endpoint) (fabric : ℕ) (at_master waits at_slave : List Round)
    (r : Round)
    → m0.handle_open ≡ true
    → s0.handle_open ≡ true
    → tloe_endpoint_init m0 fabric 1 ≡ ok m
    → tloe_endpoint_init s0 fabric 0 ≡ ok s
    → packets_in at_master ≡ burst type_normal 0
    → packets_in waits ≡ []
    → packets_in (r ∷ at_slave) ≡ burst type_open_connection max_seq_num
    → r.packet ≢ none
    → r.expired ≡ true
    → (m' : Endpoint) × (m'' : Endpoint) × (s' : Endpoint) × (s'' : Endpoint) × (open_conn_master
          wde m at_master
        ≡ ok (true, m'))
      × (open_conn_slave wde s (waits ++ r ∷ at_slave) ≡ ok (true, s'))
      × IsConnected m m' m'' s s' s''
handshake wde m0 s0 m s fabric at_master waits at_slave r open_m open_s init_m init_s hm hw hs come
      late =
    let sm = init-IsStarted m0 fabric 1 init_m in
    let ss = init-IsStarted s0 fabric 0 init_s in
    let (m', run_m, om) = master_opens wde 0 at_master m (started-IsInitial open_m sm) hm in
    let (comes, later) =
      first_packet r at_slave (master_packet 1 max_seq_num)
        (conn_packets type_open_connection 4 2 max_seq_num) come hs in
    let (s', run_s, os) =
      slave_opens wde max_seq_num waits r at_slave s (started-IsInitial open_s ss) hw comes late
        later in
    let (m'', rx_m, tm) =
      rx-last_slave m' om.next_rx_seq (rw (om.queues.retransmit_buffer) (sm.window.valid))
        (rw (om.queues.retransmit_buffer) (sm.window.empty)) in
    let (s'', rx_s, ts) =
      rx-last_master s' os.next_rx_seq (rw (os.queues.retransmit_buffer) (ss.window.valid))
        (rw (os.queues.retransmit_buffer) (ss.window.empty)) in
    let rm = ready open_m sm om tm in
    let rs = ready open_s ss os ts in
    (
      m',
      m'',
      s',
      s'',
      run_m,
      run_s,
      record {
        of_master = om.again;
        sent_by_master = om.wire;
        of_slave = os.again;
        sent_by_slave = os.wire;
        last_at_slave = rx_s;
        last_at_master = rx_m;
        credits_of_master = rm.credits;
        credits_of_slave = rs.credits;
        down = ready-IsStart (omega arith) rm rs;
        up = ready-IsStart (omega arith) rs rm;
      },
    )
