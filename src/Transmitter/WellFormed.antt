-- ===== src/Transmitter/WellFormed.antt =====
-- `TX` keeps what holds of an endpoint.
use omnixtend_c.Base.{
  ℕ, ◌+◌, ◌-◌, ◌*◌, ◌++◌, take, drop, refl, arith, Bool, true, not, ◌&&◌, Option, Option-cases,
  none, some, inl, inr, get_or, ◌==◌, leb, exits, out_of_bounds, Ensures, Ensures-bind,
  Ensures-skip, Ensures-if, Ensures-require,
}
use omnixtend_c.TlMsg.{TlMsg}
use omnixtend_c.Frame.{
  Frame, tloe_ack, type_ackonly, tloe_set_mask, max_size_flit, tloe_get_fsize, zero_frame,
  tloe_frame_to_packet,
}
use omnixtend_c.SeqNum.Order.{next_lem}
use omnixtend_c.FlowControl.{
  minus_one, fc_credit_dec, get_outgoing_credits, select_max_credit_channel,
}
use omnixtend_c.CircularQueue.{is_queue_empty, is_queue_full, dequeue, getfront}
use omnixtend_c.Timeout.{get_current_timestamp, is_timeout_tx, is_timeout_tx_half}
use omnixtend_c.Endpoint.{
  Endpoint, RetransmitBufferElement, init, tloe_seqnum_set_next_and_acked_seq,
  tloe_seqnum_next_tx_seq_inc,
}
use omnixtend_c.Endpoint.WellFormed.{
  IsWellFormed, with_window, with_acks, with_next_tx, enqueue-IsValid, enqueue-size,
  dequeue-IsValid, write_slot-IsValid,
}
use omnixtend_c.Retransmission.WellFormed.{fabric_send-IsWellFormed, retransmit-IsWellFormed}
use omnixtend_c.Transmitter.{
  is_none, send_ackonly_frame, enqueue_retransmit_buffer, prepare_normal_frame,
  send_request_normal_frame, tx_ackonly_asked, tx_ackonly_half, tx_credit, tx_take_ack,
  tx_give_credit, mark_sent, tx_frame, tx_timeout, tx_request, tx,
}

ackonly-IsWellFormed :
    (garbage : Frame) (e : Endpoint)
    → IsWellFormed e
    → Ensures IsWellFormed (send_ackonly_frame garbage e)
unfolding send_ackonly_frame
ackonly-IsWellFormed garbage e w =
    let size = tloe_get_fsize none in
    let f0 = record garbage { header = record (garbage.header) { type = type_ackonly } } in
    let f1 = tloe_seqnum_set_next_and_acked_seq f0 e in
    let f2 = record f1 { header = record (f1.header) { ack = tloe_ack } } in
    Ensures-skip IsWellFormed (tloe_set_mask f2 0 size) _ (λ f.
      Ensures-skip IsWellFormed
        (tloe_frame_to_packet (record f { header = record (f.header) { chan = 0; credit = 0 } })
          size)
        _ (λ p. fabric_send-IsWellFormed e p w))

pub asked-IsWellFormed :
    (garbage : Frame) (e : Endpoint)
    → IsWellFormed e
    → Ensures IsWellFormed (tx_ackonly_asked garbage e)
unfolding tx_ackonly_asked
asked-IsWellFormed garbage e w =
    Ensures-if IsWellFormed (e.should_send_ackonly_frame) _ _
      (Ensures-bind IsWellFormed IsWellFormed (send_ackonly_frame garbage e) _
        (ackonly-IsWellFormed garbage e w) (λ e' w'. w'))
      w

pub half-IsWellFormed :
    (garbage : Frame) (e : Endpoint)
    → IsWellFormed e
    → Ensures IsWellFormed (tx_ackonly_half garbage e)
unfolding tx_ackonly_half
half-IsWellFormed garbage e w =
    Ensures-if IsWellFormed (is_queue_full e.retransmit_buffer && not e.ackonly_frame_sent) _ _
      (elim (Option-cases (getfront e.retransmit_buffer)) [
        | inl nothing ↦ rw (nothing, Ensures) tt
        | inr (rbe, first) ↦
            rw (first, Ensures)
              (Ensures-if IsWellFormed (is_timeout_tx_half e.iteration_ts rbe.send_time) _ _
                (Ensures-bind IsWellFormed IsWellFormed
                  (send_ackonly_frame garbage (record e { ackonly_frame_sent = true })) _
                  (ackonly-IsWellFormed garbage (record e { ackonly_frame_sent = true }) w)
                  (λ e' w'. w'))
                w)
      ])
      w

abbrev Credited : Bool × Option TlMsg × Option TlMsg × Endpoint → Type 0
Credited c = IsWellFormed (c.3)

credit-IsWellFormed :
    (e : Endpoint) (tlmsg : Option TlMsg) → IsWellFormed e → Ensures Credited (tx_credit e tlmsg)
unfolding tx_credit
credit-IsWellFormed e none w = w
credit-IsWellFormed e (some m) w = Ensures-skip Credited (fc_credit_dec e.fc m) _ (λ r.
    Ensures-if Credited (r.0 == minus_one) _ _
      (Ensures-if Credited (is_queue_empty e.ack_buffer) _ _ w w) w)

abbrev Changed : Frame × Endpoint → Type 0
Changed r = IsWellFormed r.1

take_ack-IsWellFormed :
    (e : Endpoint) (f : Frame) → IsWellFormed e → Ensures Changed (tx_take_ack e f)
unfolding tx_take_ack
take_ack-IsWellFormed e f w =
    Ensures-if Changed (is_queue_empty e.ack_buffer) _ _ w
      (elim (Option-cases (dequeue e.ack_buffer).0) [
        | inl nothing ↦ rw (nothing, Ensures) tt
        | inr (g, first) ↦
            rw (first, Ensures) (with_acks w (dequeue-IsValid e.ack_buffer (w.acks_valid)))
      ])

give_credit-IsWellFormed :
    (e : Endpoint) (f : Frame) (chan : ℕ)
    → IsWellFormed e
    → Ensures Changed (tx_give_credit e f chan)
unfolding tx_give_credit
give_credit-IsWellFormed e f chan w =
    Ensures-if Changed (chan == 0) _ _ w
      (Ensures-skip Changed (get_outgoing_credits e.fc chan) _ (λ r. w))

abbrev Added : Bool × Endpoint → Type 0
Added r = IsWellFormed r.1

keep_frame-IsWellFormed :
    (e : Endpoint) (f : Frame) (size : ℕ)
    → IsWellFormed e
    → Ensures Added (enqueue_retransmit_buffer e f size)
unfolding enqueue_retransmit_buffer
keep_frame-IsWellFormed e f size w =
    let room = max_size_flit * 8 in
    let rbe : RetransmitBufferElement = record {
      state = init;
      f_size = size;
      send_time = get_current_timestamp e.iteration_ts;
      tloe_frame = record f {
        flits = take (size - 8) f.flits ++ drop (size - 8) (zero_frame room).flits;
      };
    } in
    Ensures-require Added (leb size (8 + room)) out_of_bounds _ (
      with_window w (enqueue-IsValid e.retransmit_buffer (w.window_valid) rbe)
        (enqueue-size e.retransmit_buffer (w.window_valid) rbe))

mark-IsWellFormed : (e : Endpoint) (i : ℕ) → IsWellFormed e → Ensures IsWellFormed (mark_sent e i)
unfolding mark_sent
mark-IsWellFormed e i w = elim (Option-cases (get_or e.retransmit_buffer.slots i none)) [
  | inl nothing ↦ rw (nothing, Ensures) tt
  | inr (rbe, there) ↦
      rw (there, Ensures)
        (with_window w (write_slot-IsValid e.retransmit_buffer (w.window_valid) i _ there) refl)
]

frame-IsWellFormed :
    (e : Endpoint) (tlmsg : Option TlMsg) (chan : ℕ)
    → IsWellFormed e
    → Ensures IsWellFormed (tx_frame e tlmsg chan)
unfolding tx_frame send_request_normal_frame tloe_seqnum_next_tx_seq_inc
frame-IsWellFormed e tlmsg chan w =
    let size = tloe_get_fsize tlmsg in
    Ensures-skip IsWellFormed (prepare_normal_frame e (zero_frame (size - 8)) tlmsg size) _ (λ f.
      Ensures-bind Changed IsWellFormed (tx_take_ack e f) _ (take_ack-IsWellFormed e f w) (λ a wa.
        Ensures-bind Changed IsWellFormed (tx_give_credit a.1 a.0 chan) _
          (give_credit-IsWellFormed a.1 a.0 chan wa)
          (λ c wc.
            Ensures-bind Added IsWellFormed (enqueue_retransmit_buffer c.1 c.0 size) _
              (keep_frame-IsWellFormed c.1 c.0 size wc)
              (λ r wr. Ensures-require IsWellFormed r.0 exits _ (
                Ensures-bind IsWellFormed IsWellFormed (send_request_normal_frame r.1 c.0 size) _
                  (Ensures-skip IsWellFormed (tloe_frame_to_packet c.0 size) _
                    (λ p. fabric_send-IsWellFormed r.1 p wr))
                  (λ e' w'.
                    Ensures-bind IsWellFormed IsWellFormed (mark_sent e' c.1.retransmit_buffer.rear)
                      _ (mark-IsWellFormed e' _ w')
                      (λ e'' w''. with_next_tx w'' (omega (arith, next_lem e''.next_tx_seq)))))))))

timeout-IsWellFormed : (e : Endpoint) → IsWellFormed e → Ensures IsWellFormed (tx_timeout e)
unfolding tx_timeout
timeout-IsWellFormed e w = elim (Option-cases (getfront e.retransmit_buffer)) [
  | inl nothing ↦ rw (nothing, Ensures) w
  | inr (rbe, first) ↦
      rw (first, Ensures)
        (Ensures-if IsWellFormed (is_timeout_tx e.iteration_ts rbe.send_time) _ _
          (retransmit-IsWellFormed e rbe.tloe_frame.header.seq_num w) w)
]

abbrev Left : Option TlMsg × Endpoint → Type 0
Left r = IsWellFormed r.1

pub tx_request-IsWellFormed :
    (e : Endpoint) (tlmsg : Option TlMsg) (chan : ℕ)
    → IsWellFormed e
    → Ensures Left (tx_request e tlmsg chan)
unfolding tx_request
tx_request-IsWellFormed e tlmsg chan w = Ensures-if Left (is_queue_full e.retransmit_buffer) _ _ w (
    Ensures-if Left (is_none tlmsg && is_queue_empty e.ack_buffer && chan == 0) _ _ w (
      Ensures-bind Credited Left (tx_credit e tlmsg) _ (credit-IsWellFormed e tlmsg w) (λ c wc.
        Ensures-if Left (c.0) _ _
          (Ensures-bind IsWellFormed Left (tx_frame (c.3) (c.1) chan) _
            (frame-IsWellFormed (c.3) (c.1) chan wc) (λ e' w'. w'))
          wc)))

pub tx-IsWellFormed :
    (garbage garbage' : Frame) (e : Endpoint) (tlmsg : Option TlMsg)
    → IsWellFormed e
    → Ensures Left (tx garbage garbage' e tlmsg)
unfolding tx
tx-IsWellFormed garbage garbage' e tlmsg w =
    Ensures-bind IsWellFormed Left (tx_ackonly_asked garbage e) _ (asked-IsWellFormed garbage e w)
      (λ e1 w1.
        Ensures-bind IsWellFormed Left (tx_ackonly_half garbage' e1) _
          (half-IsWellFormed garbage' e1 w1)
          (λ e2 w2.
            Ensures-bind Left Left (tx_request e2 tlmsg (select_max_credit_channel e.fc)) _
              (tx_request-IsWellFormed e2 tlmsg _ w2)
              (λ r wr.
                Ensures-bind IsWellFormed Left (tx_timeout r.1) _ (timeout-IsWellFormed r.1 wr)
                  (λ e3 w3. w3))))
