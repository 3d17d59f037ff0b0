-- ===== src/Connection/WellFormed.antt =====
-- The opening and closing of a connection keep what holds of an endpoint.
use omnixtend_c.Base.{
  ℕ, zero, suc, ◌+◌, ◌-◌, ◌*◌, ◌^◌, ◌<◌, arith, Bool, true, false, ◌&&◌, ◌||◌, Option, none, some,
  List, [], ◌∷◌, ◌==◌, if◌then◌else◌, ok, is_negative, is_positive, Ensures, Ensures-bind,
  Ensures-skip, Ensures-if, Ensures-elim,
}
use omnixtend_c.TlMsg.{channel_a}
use omnixtend_c.Frame.{
  Frame, max_size_flit, zero_frame, type_normal, type_ackonly, type_open_connection,
  type_close_connection, tloe_set_mask, tloe_frame_to_packet, packet_to_tloe_frame,
}
use omnixtend_c.SeqNum.{tloe_seqnum_cmp, tloe_seqnum_prev}
use omnixtend_c.SeqNum.Order.{next_lem}
use omnixtend_c.FlowControl.{credit_default, set_credit, check_all_channels}
use omnixtend_c.Endpoint.{Endpoint, tloe_seqnum_next_tx_seq_inc}
use omnixtend_c.Endpoint.WellFormed.{IsWellFormed, with_next_tx, with_next_rx, with_acked}
use omnixtend_c.Retransmission.WellFormed.{fabric_send-IsWellFormed}
use omnixtend_c.Receiver.WellFormed.{
  HasAck, packet-HasAck, next_rx-IsWellFormed, acked-IsWellFormed,
}
use omnixtend_c.Connection.{
  Round, conn_packet_size, conn_frame, send_frame, take_credit, recv_conn_master, recv_conn_slave,
  serve_from, serve_conn_master, serve_conn_slave, open_master_loop, open_slave_loop,
  open_conn_master, open_conn_slave, serve_close_conn, recv_close_conn, close_master_loop,
  close_slave_loop, close_conn_master, close_conn_slave,
}

send-IsWellFormed :
    (e : Endpoint) (type seq_num ack chan credit : ℕ)
    → IsWellFormed e
    → Ensures IsWellFormed (send_frame e type seq_num ack chan credit)
unfolding send_frame
send-IsWellFormed e type seq_num ack chan credit w =
    Ensures-skip IsWellFormed
      (tloe_set_mask (conn_frame type seq_num ack chan credit) 0 conn_packet_size) _
      (λ f.
        Ensures-skip IsWellFormed (tloe_frame_to_packet f conn_packet_size) _
          (λ p. fabric_send-IsWellFormed e p w))

credit-IsWellFormed :
    (e : Endpoint) (f : Frame) → HasAck f → IsWellFormed e → Ensures IsWellFormed (take_credit e f)
unfolding take_credit
credit-IsWellFormed e f h w =
    Ensures-skip IsWellFormed (set_credit e.fc f.header.chan f.header.credit) _ (λ fc.
      let e' = record e { fc = fc } in acked-IsWellFormed _ f h (next_rx-IsWellFormed e' f w))

-- What a loop or a receive has come to.
abbrev pub Known : Bool × Endpoint → Type 0
Known c = IsWellFormed c.1

recv_master-IsWellFormed :
    (e : Endpoint) (packet : Option (List ℕ))
    → IsWellFormed e
    → Ensures IsWellFormed (recv_conn_master e packet)
unfolding recv_conn_master
recv_master-IsWellFormed e none w = w
recv_master-IsWellFormed e (some p) w =
    Ensures-bind HasAck IsWellFormed (packet_to_tloe_frame p (zero_frame (max_size_flit * 8))) _
      (packet-HasAck p _)
      (λ f h.
        let order = tloe_seqnum_cmp f.header.seq_num e.next_rx_seq in
        Ensures-if IsWellFormed (is_negative order || is_positive order) _ _ w
          (credit-IsWellFormed e f h w))

recv_slave-IsWellFormed :
    (e : Endpoint) (flag : Bool) (packet : Option (List ℕ))
    → IsWellFormed e
    → Ensures Known (recv_conn_slave e flag packet)
unfolding recv_conn_slave
recv_slave-IsWellFormed e flag none w = w
recv_slave-IsWellFormed e flag (some p) w =
    Ensures-bind HasAck Known (packet_to_tloe_frame p (zero_frame (max_size_flit * 8))) _
      (packet-HasAck p _)
      (λ f h.
        Ensures-if Known (f.header.type == type_open_connection || flag) _ _
          (Ensures-bind IsWellFormed Known (take_credit e f) _ (credit-IsWellFormed e f h w)
            (λ e' w'. w'))
          w)

recv_close-IsWellFormed :
    (e : Endpoint) (known : Bool) (packet : Option (List ℕ))
    → IsWellFormed e
    → Ensures Known (recv_close_conn e known packet)
unfolding recv_close_conn
recv_close-IsWellFormed e known none w = w
recv_close-IsWellFormed e known (some p) w =
    Ensures-bind HasAck Known (packet_to_tloe_frame p (zero_frame (max_size_flit * 8))) _
      (packet-HasAck p _)
      (λ f h.
        Ensures-if Known (f.header.type == type_close_connection) _ _
          (with_acked (with_next_rx w (omega (arith, next_lem f.header.seq_num))) h) w)

serve-IsWellFormed :
    (opens n i : ℕ) (e : Endpoint)
    → n + i < 2 ^ 22
    → IsWellFormed e
    → Ensures IsWellFormed (serve_from opens n i e)
unfolding serve_from
serve-IsWellFormed opens zero i e h w = w
serve-IsWellFormed opens (suc n) i e h w =
    let type = if i == channel_a then opens else type_normal in
    let ack = tloe_seqnum_prev e.next_rx_seq in
    Ensures-bind IsWellFormed IsWellFormed (send_frame e type (i - 1) ack i credit_default) _
      (send-IsWellFormed e type (i - 1) ack i credit_default w)
      (λ e' w'.
        serve-IsWellFormed opens n (i + 1) (record e' { next_tx_seq = i }) (omega arith)
          (with_next_tx w' (omega arith)))

serve_close-IsWellFormed :
    (e : Endpoint) → IsWellFormed e → Ensures IsWellFormed (serve_close_conn e)
unfolding serve_close_conn
serve_close-IsWellFormed e w =
    send-IsWellFormed e type_close_connection e.next_tx_seq (tloe_seqnum_prev e.next_rx_seq) 0 0 w

master_loop-IsWellFormed :
    (wde : Bool) (e : Endpoint) (timer : Bool) (rounds : List Round)
    → IsWellFormed e
    → Ensures Known (open_master_loop wde e timer rounds)
unfolding open_master_loop serve_conn_master
master_loop-IsWellFormed wde e timer [] w = w
master_loop-IsWellFormed wde e timer (r ∷ rounds) w =
    Ensures-bind IsWellFormed Known _ _
      (Ensures-if IsWellFormed timer (serve_from type_open_connection 5 1 e) (ok e)
        (serve-IsWellFormed type_open_connection 5 1 e (omega arith) w) w)
      (λ e1 w1.
        Ensures-bind IsWellFormed Known (recv_conn_master e1 r.packet) _
          (recv_master-IsWellFormed e1 r.packet w1)
          (λ e2 w2.
            Ensures-elim Known (check_all_channels wde e2.fc) _ _ w2
              (master_loop-IsWellFormed wde e2 r.expired rounds w2)))

slave_loop-IsWellFormed :
    (wde : Bool) (e : Endpoint) (flag timer : Bool) (rounds : List Round)
    → IsWellFormed e
    → Ensures Known (open_slave_loop wde e flag timer rounds)
unfolding open_slave_loop serve_conn_slave
slave_loop-IsWellFormed wde e flag timer [] w = w
slave_loop-IsWellFormed wde e flag timer (r ∷ rounds) w =
    Ensures-bind IsWellFormed Known _ _
      (Ensures-if IsWellFormed (flag && timer) (serve_from type_normal 5 1 e) (ok e)
        (serve-IsWellFormed type_normal 5 1 e (omega arith) w) w)
      (λ e1 w1.
        Ensures-bind Known Known (recv_conn_slave e1 flag r.packet) _
          (recv_slave-IsWellFormed e1 flag r.packet w1)
          (λ c w2.
            Ensures-elim Known (check_all_channels wde c.1.fc) _ _ w2
              (slave_loop-IsWellFormed wde c.1 c.0 r.expired rounds w2)))

close_master_loop-IsWellFormed :
    (e : Endpoint) (timer : Bool) (rounds : List Round)
    → IsWellFormed e
    → Ensures Known (close_master_loop e timer rounds)
unfolding close_master_loop
close_master_loop-IsWellFormed e timer [] w = w
close_master_loop-IsWellFormed e timer (r ∷ rounds) w =
    Ensures-bind IsWellFormed Known _ _
      (Ensures-if IsWellFormed timer (serve_close_conn e) (ok e) (serve_close-IsWellFormed e w) w)
      (λ e1 w1.
        Ensures-bind Known Known (recv_close_conn e1 false r.packet) _
          (recv_close-IsWellFormed e1 false r.packet w1)
          (λ c w2.
            Ensures-elim Known (c.0) _ _ w2
              (close_master_loop-IsWellFormed c.1 r.expired rounds w2)))

close_slave_loop-IsWellFormed :
    (e : Endpoint) (flag : Bool) (rounds : List Round)
    → IsWellFormed e
    → Ensures Known (close_slave_loop e flag rounds)
unfolding close_slave_loop
close_slave_loop-IsWellFormed e flag [] w = w
close_slave_loop-IsWellFormed e flag (r ∷ rounds) w =
    Ensures-bind IsWellFormed Known _ _
      (Ensures-if IsWellFormed flag (serve_close_conn e) (ok e) (serve_close-IsWellFormed e w) w)
      (λ e1 w1.
        Ensures-bind Known Known (recv_close_conn e1 flag r.packet) _
          (recv_close-IsWellFormed e1 flag r.packet w1)
          (λ c w2.
            Ensures-elim Known flag _ _ w2 (close_slave_loop-IsWellFormed c.1 c.0 rounds w2)))

module _ (e : Endpoint) (rounds : List Round) (w : IsWellFormed e) where
  pub open_master-IsWellFormed : (wde : Bool) → Ensures Known (open_conn_master wde e rounds)
  unfolding open_conn_master tloe_seqnum_next_tx_seq_inc
  open_master-IsWellFormed wde =
      Ensures-bind Known Known (open_master_loop wde e true rounds) _
        (master_loop-IsWellFormed wde e true rounds w)
        (λ r w1.
          Ensures-if Known (r.0) _ _
            (Ensures-bind IsWellFormed Known
              (send_frame r.1 type_normal r.1.next_tx_seq (tloe_seqnum_prev r.1.next_rx_seq) 0 0) _
              (send-IsWellFormed r.1 _ _ _ _ _ w1)
              (λ e2 w2. with_next_tx w2 (omega (arith, next_lem e2.next_tx_seq))))
            w1)

  pub open_slave-IsWellFormed : (wde : Bool) → Ensures Known (open_conn_slave wde e rounds)
  unfolding open_conn_slave
  open_slave-IsWellFormed wde =
      Ensures-bind Known Known (open_slave_loop wde e false true rounds) _
        (slave_loop-IsWellFormed wde e false true rounds w)
        (λ r w1.
          Ensures-if Known (r.0) _ _
            (Ensures-bind IsWellFormed Known
              (send_frame r.1 type_ackonly r.1.next_tx_seq (tloe_seqnum_prev r.1.next_rx_seq) 0 0) _
              (send-IsWellFormed r.1 _ _ _ _ _ w1) (λ e2 w2. w2))
            w1)

  pub close_master-IsWellFormed : Ensures Known (close_conn_master e rounds)
  unfolding close_conn_master
  close_master-IsWellFormed = close_master_loop-IsWellFormed e true rounds w

  pub close_slave-IsWellFormed : Ensures Known (close_conn_slave e rounds)
  unfolding close_conn_slave
  close_slave-IsWellFormed = close_slave_loop-IsWellFormed e false rounds w
