-- ===== src/Connection/Ended.antt =====
-- tloe_connection.c: a connection that both sides close, and what the command `d` makes of them.
use omnixtend_c.Base.{
  ℕ, ◌%◌, ◌^◌, ◌≡◌, refl, ap, ◌∙◌, arith, true, false, some, List, [], ◌∷◌, ◌++◌, append_assoc, ok,
  All,
}
use omnixtend_c.SeqNum.{tloe_seqnum_prev}
use omnixtend_c.SeqNum.Order.{prev-next}
use omnixtend_c.Endpoint.{Endpoint, tloe_endpoint_init}
use omnixtend_c.Endpoint.Start.{IsStarted, init-IsStarted, tloe_endpoint_init_lem}
use omnixtend_c.Connection.{
  Round, serve_close_conn, close_master_loop, close_conn_master, close_conn_slave,
}
use omnixtend_c.Connection.Waiting.{packets_in, KeepsQueues}
use omnixtend_c.Connection.Closing.{
  close_packet, close_of, closed_at, IsOther, Closing, serve_close_lem, master_loop, slave_waits,
  slave_hears, slave_answers,
}

-- The slave's answer acknowledges the master's close frame.
abbrev pub answer_of : Endpoint → Endpoint → List ℕ
answer_of s m = close_packet s.next_tx_seq (m.next_tx_seq % 2 ^ 22)

-- What `d` leaves at an endpoint: it has closed, and is initialised again.
pub record IsClosed (e e' e'' : Endpoint) (fabric_type master_slave : ℕ) : Type 0 where
  pub again : tloe_endpoint_init e' fabric_type master_slave ≡ ok e''
  pub started : IsStarted e' e''
  pub handle_open : e''.handle_open ≡ true

again-IsClosed :
    (e e' : Endpoint) (fabric_type master_slave : ℕ)
    → e.handle_open ≡ true
    → e'.handle_open ≡ e.handle_open
    → (e'' : Endpoint) × IsClosed e e' e'' fabric_type master_slave
again-IsClosed e e' fabric_type master_slave open_ kept =
    let t = tloe_endpoint_init_lem e' fabric_type master_slave 0 (omega arith) in
    let s = init-IsStarted e' fabric_type master_slave t.1 in
    (t.0, record { again = t.1; started = s; handle_open = s.handle_open ∙ kept ∙ open_ })

close_slave_lem :
    (s : Endpoint) (waits rounds : List Round) (r answers : Round) (seq_num ack : ℕ)
    → s.handle_open ≡ true
    → All IsOther (packets_in waits)
    → r.packet ≡ some (close_packet seq_num ack)
    → All IsOther (packets_in (answers ∷ []))
    → let s1 = closed_at s seq_num ack in
      close_conn_slave s (waits ++ r ∷ answers ∷ rounds)
      ≡ ok (true, record s1 { wire = s.wire ++ close_of s1 ∷ [] })
unfolding close_conn_slave
close_slave_lem s waits rounds r answers seq_num ack open_ h comes h' =
    slave_waits s waits (r ∷ answers ∷ rounds) h
    ∙ slave_hears s r (answers ∷ rounds) seq_num ack comes
    ∙ slave_answers (closed_at s seq_num ack) answers rounds open_ h'

here : (e : Endpoint) → Closing e e
here e = record {
  queues = record {
    retransmit_buffer = refl;
    message_buffer = refl;
    ack_buffer = refl;
    tl_msg_buffer = refl;
    response_buffer = refl;
    handle_open = refl;
  };
  next_tx_seq = refl;
  next_rx_seq = refl;
}

-- The master's first round serves.
served_first :
    (e e1 : Endpoint) (waits rounds : List Round) (r : Round) (rest : List Round)
    → rounds ≡ r ∷ rest
    → serve_close_conn e ≡ ok e1
    → close_master_loop e true (waits ++ rounds) ≡ close_master_loop e1 false (waits ++ rounds)
unfolding close_master_loop
served_first e e1 [] rounds r rest h run = rw h (rw run refl)
served_first e e1 (q ∷ waits) rounds r rest h run = rw run refl

close_master_lem :
    (m : Endpoint) (waits rounds : List Round) (r : Round) (seq_num ack : ℕ)
    → m.handle_open ≡ true
    → All IsOther (packets_in waits)
    → r.packet ≡ some (close_packet seq_num ack)
    → (m' : Endpoint) × (again : List (List ℕ)) × (close_conn_master m (waits ++ r ∷ rounds)
        ≡ ok (true, m'))
      × KeepsQueues m m'
      × (m'.wire ≡ m.wire ++ (close_of m ∷ again))
unfolding close_conn_master
close_master_lem m waits rounds r seq_num ack open_ h comes =
    let (m1, run1, c1, w1) = serve_close_lem m m open_ (here m) in
    let o = master_loop m m1 false waits r rounds seq_num ack open_ h comes c1 in
    (
      o.last,
      o.sent,
      served_first m m1 waits (r ∷ rounds) r rounds refl run1 ∙ o.ends,
      o.queues,
      o.wire ∙ ap (λ x. x ++ o.sent) w1 ∙ append_assoc m.wire (close_of m ∷ []) o.sent,
    )

-- A master and a slave with open handles, each of which hears the other's close frame, the slave
-- with a further round behind it, close: both `close_conn` functions return 1, whatever the times
-- and whatever other frames come before, none of which closes. The master has sent its close frame
-- at least once, the slave has answered once, with the number of the master's frame as its
-- acknowledgement, and each can be initialised again, with its handle still open, to a start from
-- which it can open.
pub closing :
    (m s : Endpoint) (fabric_type : ℕ) (waits_m waits_s rounds_m rounds_s : List Round)
    (r_m r_s answers : Round)
    → m.handle_open ≡ true
    → s.handle_open ≡ true
    → All IsOther (packets_in waits_m)
    → r_m.packet ≡ some (answer_of s m)
    → All IsOther (packets_in waits_s)
    → r_s.packet ≡ some (close_of m)
    → All IsOther (packets_in (answers ∷ []))
    → (m' : Endpoint) × (s' : Endpoint) × (m'' : Endpoint) × (s'' : Endpoint) × (again : List
        (List ℕ))
      × (close_conn_master m (waits_m ++ r_m ∷ rounds_m) ≡ ok (true, m'))
      × (m'.wire ≡ m.wire ++ (close_of m ∷ again))
      × (close_conn_slave s (waits_s ++ r_s ∷ answers ∷ rounds_s) ≡ ok (true, s'))
      × (s'.wire ≡ s.wire ++ answer_of s m ∷ [])
      × IsClosed m m' m'' fabric_type 1
      × IsClosed s s' s'' fabric_type 0
closing m s fabric_type waits_m waits_s rounds_m rounds_s r_m r_s answers open_m open_s hm comes_m
      hs comes_s h =
    let (m', again, run_m, keeps, w) =
      close_master_lem m waits_m rounds_m r_m s.next_tx_seq (m.next_tx_seq % 2 ^ 22) open_m hm
        comes_m in
    let run_s =
      close_slave_lem s waits_s rounds_s r_s answers m.next_tx_seq (tloe_seqnum_prev m.next_rx_seq)
        open_s hs comes_s h in
    let s1 = closed_at s m.next_tx_seq (tloe_seqnum_prev m.next_rx_seq) in
    let s' = record s1 { wire = s.wire ++ close_of s1 ∷ [] } in
    let (m'', cm) = again-IsClosed m m' fabric_type 1 open_m (keeps.handle_open) in
    let (s'', cs) = again-IsClosed s s' fabric_type 0 open_s refl in
    (
      m',
      s',
      m'',
      s'',
      again,
      run_m,
      w,
      run_s,
      ap (λ n. s.wire ++ close_packet s.next_tx_seq n ∷ [])
          (prev-next (m.next_tx_seq % 2 ^ 22) (omega arith)).0,
      cm,
      cs,
    )
