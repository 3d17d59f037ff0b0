-- ===== src/Connection/Closing.antt =====
-- tloe_connection.c: the closing of a connection from both sides, and what `d` makes of the endpoints.
use omnixtend_c.Base.{
  ℕ, ◌*◌, ◌%◌, ◌^◌, ◌≡◌, refl, sym, ap, ◌∙◌, Bool, true, false, some, inl, inr, Option-cases, List,
  [], ◌∷◌, ◌++◌, append-nil, append_assoc, Outcome, ok, if◌then◌else◌, ◌==◌, All,
}
use omnixtend_c.Frame.{
  Frame, max_size_flit, zero_frame, type_close_connection, packet_to_tloe_frame,
}
use omnixtend_c.Frame.Packet.{packet_of}
use omnixtend_c.SeqNum.{tloe_seqnum_prev, tloe_seqnum_next}
use omnixtend_c.Endpoint.{Endpoint}
use omnixtend_c.Connection.{
  Round, conn_frame, serve_close_conn, recv_close_conn, close_master_loop, close_slave_loop,
}
use omnixtend_c.Connection.Frames.{sent_frame, heard, send_frame_lem}
use omnixtend_c.Connection.Waiting.{packets_in, KeepsQueues, round_lem}

abbrev pub close_packet : ℕ → ℕ → List ℕ
close_packet seq_num ack = packet_of (sent_frame type_close_connection seq_num ack 0 0) 6

-- A packet whose frame does not close a connection.
pub record IsOther (p : List ℕ) : Type 0 where
  pub frame : Frame
  pub reads : packet_to_tloe_frame p (zero_frame (max_size_flit * 8)) ≡ ok frame
  pub other : (frame.header.type == type_close_connection) ≡ false

-- An endpoint that has sent close frames, and heard none.
pub record Closing (e0 e : Endpoint) : Type 0 where
  pub queues : KeepsQueues e0 e
  pub next_tx_seq : e.next_tx_seq ≡ e0.next_tx_seq
  pub next_rx_seq : e.next_rx_seq ≡ e0.next_rx_seq

-- The close frame of an endpoint.
abbrev pub close_of : Endpoint → List ℕ
close_of e = close_packet e.next_tx_seq (tloe_seqnum_prev e.next_rx_seq)

pub serve_close_lem :
    (e0 e : Endpoint)
    → e0.handle_open ≡ true
    → Closing e0 e
    → (e' : Endpoint) × (serve_close_conn e ≡ ok e')
      × Closing e0 e'
      × (e'.wire ≡ e.wire ++ close_of e0 ∷ [])
unfolding serve_close_conn
serve_close_lem e0 e open_ c = (
  record e { wire = e.wire ++ close_of e ∷ [] },
  send_frame_lem e type_close_connection e.next_tx_seq (tloe_seqnum_prev e.next_rx_seq) 0 0
      (c.queues.handle_open ∙ open_),
  record {
    queues = record {
      retransmit_buffer = c.queues.retransmit_buffer;
      message_buffer = c.queues.message_buffer;
      ack_buffer = c.queues.ack_buffer;
      tl_msg_buffer = c.queues.tl_msg_buffer;
      response_buffer = c.queues.response_buffer;
      handle_open = c.queues.handle_open;
    };
    next_tx_seq = c.next_tx_seq;
    next_rx_seq = c.next_rx_seq;
  },
  ap (λ p. e.wire ++ p ∷ []) (rw (c.next_tx_seq, c.next_rx_seq) refl),
)

-- The receive of what does not close, or of nothing, and of what closes.
hears_other :
    (e : Endpoint) (known : Bool) (r : Round)
    → All IsOther (packets_in (r ∷ []))
    → recv_close_conn e known r.packet ≡ ok (known, e)
unfolding recv_close_conn
hears_other e known r h = elim (Option-cases (r.packet)) [
  | inl nothing ↦ rw nothing refl
  | inr (p, comes) ↦
      let (o, rest) = rw (comes, packets_in) at h in
      rw (comes, recv_close_conn, o.reads, o.other) refl
]

-- The packet of the first round, and those of the others.
first_rest :
    (r : Round) (rounds : List Round)
    → All IsOther (packets_in (r ∷ rounds))
    → All IsOther (packets_in (r ∷ [])) × All IsOther (packets_in rounds)
first_rest r rounds h = elim (Option-cases (r.packet)) [
  | inl nothing ↦ (rw (nothing, packets_in) tt, rw (nothing, packets_in) at h)
  | inr (p, comes) ↦
      let (o, rest) = rw (comes, packets_in) at h in (rw (comes, packets_in) (o, tt), rest)
]

abbrev pub closed_at : Endpoint → ℕ → ℕ → Endpoint
closed_at e seq_num ack = record e {
  next_rx_seq = tloe_seqnum_next (seq_num % 2 ^ 22);
  acked_seq = ack % 2 ^ 22;
}

hears_close :
    (e : Endpoint) (known : Bool) (seq_num ack : ℕ)
    → recv_close_conn e known (some (close_packet seq_num ack)) ≡ ok (true, closed_at e seq_num ack)
unfolding recv_close_conn conn_frame
hears_close e known seq_num ack = rw (heard type_close_connection seq_num ack 0 0) refl

-- A loop of the endpoint that was `e0` at first, now at `e`, has ended by the peer's close frame.
pub record Closed (e0 e : Endpoint) (run : Outcome (Bool × Endpoint)) : Type 0 where
  pub last : Endpoint
  pub sent : List (List ℕ)
  pub ends : run ≡ ok (true, last)
  pub queues : KeepsQueues e0 last
  pub wire : last.wire ≡ e.wire ++ sent

closed-KeepsQueues :
    {e0 e : Endpoint} (seq_num ack : ℕ) → Closing e0 e → KeepsQueues e0 (closed_at e seq_num ack)
closed-KeepsQueues seq_num ack c = record {
  retransmit_buffer = c.queues.retransmit_buffer;
  message_buffer = c.queues.message_buffer;
  ack_buffer = c.queues.ack_buffer;
  tl_msg_buffer = c.queues.tl_msg_buffer;
  response_buffer = c.queues.response_buffer;
  handle_open = c.queues.handle_open;
}

-- What may be sent at the start of a round.
pub may_close :
    (e0 e : Endpoint) (timer : Bool)
    → e0.handle_open ≡ true
    → Closing e0 e
    → (e' : Endpoint) × (sent : List (List ℕ)) × ((if timer then serve_close_conn e else ok e)
        ≡ ok e')
      × Closing e0 e'
      × (e'.wire ≡ e.wire ++ sent)
may_close e0 e true open_ c =
    let (e', run, c', w) = serve_close_lem e0 e open_ c in (e', close_of e0 ∷ [], run, c', w)
may_close e0 e false open_ c = (e, [], refl, c, sym (append-nil e.wire))

-- A round of the master's loop behind its receive.
abbrev after_master : Bool → List Round → Bool × Endpoint → Outcome (Bool × Endpoint)
after_master expired rounds c = elim (c.0) [
  | true ↦ ok c
  | false ↦ close_master_loop c.1 expired rounds
]

pub master_loop :
    (e0 e : Endpoint) (timer : Bool) (waits : List Round) (r : Round) (rounds : List Round)
    (seq_num ack : ℕ)
    → e0.handle_open ≡ true
    → All IsOther (packets_in waits)
    → r.packet ≡ some (close_packet seq_num ack)
    → Closing e0 e
    → Closed e0 e (close_master_loop e timer (waits ++ r ∷ rounds))
unfolding close_master_loop
master_loop e0 e timer [] r rounds seq_num ack open_ h comes c =
    let (e1, sent, run, c1, w) = may_close e0 e timer open_ c in
    let now : recv_close_conn e1 false r.packet ≡ ok (true, closed_at e1 seq_num ack) =
      rw comes (hears_close e1 false seq_num ack) in
    record {
      last = closed_at e1 seq_num ack;
      sent = sent;
      ends =
          round_lem (λ e'. recv_close_conn e' false r.packet) (after_master r.expired rounds) run
            now;
      queues = closed-KeepsQueues seq_num ack c1;
      wire = w;
    }
master_loop e0 e timer (q ∷ waits) r rounds seq_num ack open_ h comes c =
    let (e1, sent, run, c1, w) = may_close e0 e timer open_ c in
    let (now, later) = first_rest q waits h in
    let o = master_loop e0 e1 q.expired waits r rounds seq_num ack open_ later comes c1 in
    record {
      last = o.last;
      sent = sent ++ o.sent;
      ends =
          round_lem (λ e'. recv_close_conn e' false q.packet)
            (after_master q.expired (waits ++ r ∷ rounds)) run (hears_other e1 false q now)
          ∙ o.ends;
      queues = o.queues;
      wire = o.wire ∙ ap (λ x. x ++ o.sent) w ∙ append_assoc e.wire sent o.sent;
    }

-- The slave's loop behind a receive, while it has not heard of the end.
abbrev after_slave : List Round → Bool × Endpoint → Outcome (Bool × Endpoint)
after_slave rounds c = close_slave_loop c.1 c.0 rounds

pub slave_waits :
    (e : Endpoint) (waits rounds : List Round)
    → All IsOther (packets_in waits)
    → close_slave_loop e false (waits ++ rounds) ≡ close_slave_loop e false rounds
unfolding close_slave_loop
slave_waits e [] rounds h = refl
slave_waits e (q ∷ waits) rounds h =
    let (now, later) = first_rest q waits h in
    round_lem {served = ok e} (λ e'. recv_close_conn e' false q.packet)
      (after_slave (waits ++ rounds)) refl (hears_other e false q now)
    ∙ slave_waits e waits rounds later

pub slave_hears :
    (e : Endpoint) (r : Round) (rounds : List Round) (seq_num ack : ℕ)
    → r.packet ≡ some (close_packet seq_num ack)
    → close_slave_loop e false (r ∷ rounds) ≡ close_slave_loop (closed_at e seq_num ack) true rounds
unfolding close_slave_loop
slave_hears e r rounds seq_num ack comes =
    let now : recv_close_conn e false r.packet ≡ ok (true, closed_at e seq_num ack) =
      rw comes (hears_close e false seq_num ack) in
    round_lem {served = ok e} (λ e'. recv_close_conn e' false r.packet) (after_slave rounds) refl
      now

pub slave_answers :
    (e : Endpoint) (r : Round) (rounds : List Round)
    → e.handle_open ≡ true
    → All IsOther (packets_in (r ∷ []))
    → close_slave_loop e true (r ∷ rounds)
      ≡ ok (true, record e { wire = e.wire ++ close_of e ∷ [] })
unfolding close_slave_loop serve_close_conn
slave_answers e r rounds open_ h =
    let e1 = record e { wire = e.wire ++ close_of e ∷ [] } in
    round_lem {C = Bool × Endpoint} (λ e'. recv_close_conn e' true r.packet) (λ c. ok (true, c.1))
      (send_frame_lem e type_close_connection e.next_tx_seq (tloe_seqnum_prev e.next_rx_seq) 0 0
        open_)
      (hears_other e1 true r h)
