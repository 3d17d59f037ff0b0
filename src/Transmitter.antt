-- ===== src/Transmitter.antt =====
-- tloe_transmitter.c: one round of sending. `TX` returns the endpoint and the message that could not
-- be sent yet. malloc is taken to succeed, and the functions of tloe_nsm.h drop no frame.
pub mod Append
pub mod Prepare
pub mod Request
pub mod Requested
pub mod Turn
pub mod Numbered
pub mod Answers
pub mod Send
pub mod WellFormed
use omnixtend_c.Base.{
  ℕ, ◌+◌, ◌-◌, ◌*◌, ◌%◌, ◌^◌, Bool, true, false, not, ◌&&◌, Option, none, some, ◌++◌, take, drop,
  get_or, ◌==◌, leb, if◌then◌else◌, Outcome, ok, exits, out_of_bounds, null_pointer, fail, require,
  ◌>>=◌, ◌>>◌,
}
use omnixtend_c.TlMsg.{TlMsg}
use omnixtend_c.Frame.{
  Frame, tloe_ack, type_ackonly, max_size_flit, zero_frame, tloe_get_fsize, tloe_set_mask,
  tloe_set_tlmsg, tloe_frame_to_packet,
}
use omnixtend_c.CircularQueue.{
  is_queue_empty, is_queue_full, enqueue, dequeue, getfront, write_slot,
}
use omnixtend_c.FlowControl.{
  minus_one, fc_credit_dec, select_max_credit_channel, get_outgoing_credits,
}
use omnixtend_c.Timeout.{get_current_timestamp, is_timeout_tx, is_timeout_tx_half}
use omnixtend_c.Endpoint.{
  Endpoint, init, sent, tloe_fabric_send, tloe_seqnum_next_tx_seq_inc,
  tloe_seqnum_set_next_and_acked_seq, tloe_seqnum_set_frame_seq_num_ack,
}
use omnixtend_c.Retransmission.{retransmit}

-- The frame lies uninitialised on the stack: `garbage` is what it held, of which the reserved
-- bit-fields, `vc` and all flits but the mask are sent as they are.
unfoldable pub send_ackonly_frame : Frame → Endpoint → Outcome Endpoint
send_ackonly_frame garbage e = do
  let fsize = tloe_get_fsize none
  let f = record garbage { header = record (garbage.header) { type = type_ackonly } }
  let f = tloe_seqnum_set_next_and_acked_seq f e
  f ← tloe_set_mask (record f { header = record (f.header) { ack = tloe_ack } }) 0 fsize
  packet ←
      tloe_frame_to_packet (record f { header = record (f.header) { chan = 0; credit = 0 } }) fsize
  ok (tloe_fabric_send e packet)

-- The element's frame has room for 65 flits, and memcpy fills the first `f_size` bytes of it.
unfoldable pub enqueue_retransmit_buffer : Endpoint → Frame → ℕ → Outcome (Bool × Endpoint)
enqueue_retransmit_buffer e f f_size = do
  require (leb f_size (8 + max_size_flit * 8)) out_of_bounds
  let copy = record f {
    flits = take (f_size - 8) f.flits ++ drop (f_size - 8) (zero_frame (max_size_flit * 8)).flits;
  }
  let (added, q) = enqueue e.retransmit_buffer (record {
    state = init;
    f_size = f_size;
    send_time = get_current_timestamp e.iteration_ts;
    tloe_frame = copy;
  })
  ok (added, record e { retransmit_buffer = q })

unfoldable pub prepare_normal_frame : Endpoint → Frame → Option TlMsg → ℕ → Outcome Frame
prepare_normal_frame e f tlmsg f_size = do
  let f = tloe_seqnum_set_next_and_acked_seq f e
  let f = record f { header = record (f.header) { ack = tloe_ack } }
  f ← elim tlmsg [
    | some m ↦ tloe_set_tlmsg f m >>= λ g. tloe_set_mask g 1 f_size
    | none ↦ tloe_set_mask f 0 f_size
  ]
  ok (record f { header = record (f.header) { chan = 0; credit = 0 } })

unfoldable pub send_request_normal_frame : Endpoint → Frame → ℕ → Outcome Endpoint
send_request_normal_frame e f f_size = do
  packet ← tloe_frame_to_packet f f_size
  ok (tloe_fabric_send e packet)

abbrev is_none {ℓ} : {A : Type ℓ} → Option A → Bool
is_none none = true
is_none (some a) = false

-- The first two tests of `TX`: an acknowledgement that the receiver asked for, and one when the
-- window is full for half the timeout.
unfoldable pub tx_ackonly_asked : Frame → Endpoint → Outcome Endpoint
tx_ackonly_asked garbage e =
    if e.should_send_ackonly_frame
    then (do e ← send_ackonly_frame garbage e; ok (record e { should_send_ackonly_frame = false }))
    else ok e

unfoldable pub tx_ackonly_half : Frame → Endpoint → Outcome Endpoint
tx_ackonly_half garbage e =
    if is_queue_full e.retransmit_buffer && not e.ackonly_frame_sent
    then elim (getfront e.retransmit_buffer) [
      | none ↦ fail null_pointer
      | some rbe ↦
          if is_timeout_tx_half e.iteration_ts rbe.send_time
          then (do
            e ← send_ackonly_frame garbage (record e { ackonly_frame_sent = true })
            ok (record e { ackonly_cnt = e.ackonly_cnt + 1 }))
          else ok e
    ]
    else ok e

-- The credit test. The first part of the result says whether a frame is sent, then come the message
-- for the frame and the message to return.
unfoldable pub tx_credit :
    Endpoint → Option TlMsg → Outcome (Bool × Option TlMsg × Option TlMsg × Endpoint)
tx_credit e none = ok (true, none, none, e)
tx_credit e (some m) = do
  r ← fc_credit_dec e.fc m
  if r.0 == minus_one
      then (if is_queue_empty e.ack_buffer
          then ok (false, none, some m, e)
          else ok (true, none, some m, e))
      else ok (true, some m, none, record e { fc = r.1 })

-- A queued acknowledgement gives the frame its `seq_num_ack`, and nothing else.
unfoldable pub tx_take_ack : Endpoint → Frame → Outcome (Frame × Endpoint)
tx_take_ack e f =
    if is_queue_empty e.ack_buffer
    then ok (f, e)
    else (let (front, q) = dequeue e.ack_buffer in
        elim front [
          | none ↦ fail null_pointer
          | some ack_frame ↦ ok (
            tloe_seqnum_set_frame_seq_num_ack f ack_frame.header.seq_num_ack,
            record e { ack_buffer = q },
          )
        ])

unfoldable pub tx_give_credit : Endpoint → Frame → ℕ → Outcome (Frame × Endpoint)
tx_give_credit e f chan = if chan == 0 then ok (f, e) else (do
  r ← get_outgoing_credits e.fc chan
  ok (
    record f { header = record (f.header) { chan = chan % 2 ^ 3; credit = r.0 % 2 ^ 5 } },
    record e { fc = r.1 },
  ))

-- `rbe->state = TLOE_SENT`, on the element that was put in slot `i`
unfoldable pub mark_sent : Endpoint → ℕ → Outcome Endpoint
mark_sent e i = elim (get_or e.retransmit_buffer.slots i none) [
  | none ↦ fail null_pointer
  | some rbe ↦ ok (record e {
    retransmit_buffer = write_slot e.retransmit_buffer i (record rbe { state = sent });
  })
]

-- From the frame's size to the advance of the sequence number.
unfoldable pub tx_frame : Endpoint → Option TlMsg → ℕ → Outcome Endpoint
unfolding tx_take_ack tx_give_credit mark_sent enqueue_retransmit_buffer send_request_normal_frame
tx_frame e tlmsg target_credit_chan = do
  let size = tloe_get_fsize tlmsg
  f ← prepare_normal_frame e (zero_frame (size - 8)) tlmsg size
  a ← tx_take_ack e f
  c ← tx_give_credit a.1 a.0 target_credit_chan
  let slot = c.1.retransmit_buffer.rear
  r ← enqueue_retransmit_buffer c.1 c.0 size
  require r.0 exits
  e ← send_request_normal_frame r.1 c.0 size
  e ← mark_sent e slot
  ok (tloe_seqnum_next_tx_seq_inc e)

-- What `TX` does behind the label `out`.
unfoldable pub tx_timeout : Endpoint → Outcome Endpoint
tx_timeout e = elim (getfront e.retransmit_buffer) [
  | none ↦ ok e
  | some rbe ↦
      if is_timeout_tx e.iteration_ts rbe.send_time
      then retransmit e rbe.tloe_frame.header.seq_num
      else ok e
]

-- The part of `TX` behind its two acknowledgements and before `out`.
unfoldable pub tx_request : Endpoint → Option TlMsg → ℕ → Outcome (Option TlMsg × Endpoint)
tx_request e tlmsg target_credit_chan =
    if is_queue_full e.retransmit_buffer
    then ok (tlmsg, e)
    else if is_none tlmsg && is_queue_empty e.ack_buffer && target_credit_chan == 0
    then ok (none, e)
    else (do
      c ← tx_credit e tlmsg
      if c.0 then (do e ← tx_frame c.3 c.1 target_credit_chan; ok (c.2, e)) else ok (c.2, c.3))

unfoldable pub tx : Frame → Frame → Endpoint → Option TlMsg → Outcome (Option TlMsg × Endpoint)
unfolding tx_ackonly_asked tx_ackonly_half tx_request tx_credit tx_frame tx_timeout
tx garbage garbage' e tlmsg = do
  let target_credit_chan = select_max_credit_channel e.fc
  e ← tx_ackonly_asked garbage e
  e ← tx_ackonly_half garbage' e
  r ← tx_request e tlmsg target_credit_chan
  e ← tx_timeout r.1
  ok (r.0, e)
