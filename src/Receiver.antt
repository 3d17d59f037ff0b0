-- ===== src/Receiver.antt =====
-- tloe_receiver.h and tloe_receiver.c: what an endpoint does with a packet. `RX` takes what
-- `tloe_fabric_recv` returned: `none` for a negative size, else the bytes received. The build is the
-- one without TEST_TIMEOUT_DROP and TEST_NORMAL_FRAME_DROP, in which the functions of tloe_nsm.h
-- drop no frame. Counters and the messages on stderr have no other effect.
pub mod Order
pub mod Extract
pub mod Rounds
pub mod Serve
pub mod Messages
pub mod WellFormed
use omnixtend_c.Base.{
  ℕ, zero, suc, ◌+◌, ◌*◌, ◌/◌, ◌%◌, ◌^◌, Bool, true, false, Option, none, some, ◌==◌, if◌then◌else◌,
  Outcome, ok, exits, require, ◌>>=◌, ◌>>◌, is_negative, is_positive, length, List,
}
use omnixtend_c.TlMsg.{TlMsg}
use omnixtend_c.Frame.{
  Frame, tloe_nak, tloe_ack, max_size_flit, zero_frame, tloe_set_mask, tloe_get_mask,
  tloe_get_tlmsg, is_zero_tl_frame, is_ackonly_frame, packet_to_tloe_frame,
}
use omnixtend_c.CircularQueue.{CircularQueue, enqueue}
use omnixtend_c.SeqNum.{tloe_seqnum_cmp, tloe_seqnum_prev, tloe_seqnum_next}
use omnixtend_c.FlowControl.{fc_credit_inc}
use omnixtend_c.Endpoint.{
  Endpoint, tloe_seqnum_update_next_rx_seq, tloe_seqnum_update_acked_seq,
  tloe_seqnum_set_frame_seq_num_ack,
}
use omnixtend_c.Retransmission.{slide_window, retransmit}

pub data RxReqType : Type 0 where
  req_normal req_duplicate req_oos : RxReqType

unfoldable pub tloe_rx_get_req_type : Endpoint → Frame → RxReqType
tloe_rx_get_req_type e f =
    let diff_seq = tloe_seqnum_cmp f.header.seq_num e.next_rx_seq in
    if is_negative diff_seq
    then req_duplicate
    else if is_positive diff_seq
    then req_oos
    else req_normal

unfoldable pub serve_ack : Endpoint → Frame → Outcome Endpoint
serve_ack e f = do
  let e = slide_window e f
  e ←
      if f.header.ack == tloe_nak
      then retransmit e (tloe_seqnum_next f.header.seq_num_ack)
      else ok e
  ok (record e { ack_cnt = e.ack_cnt + 1 })

-- The loop over the bits of the mask, which has 64 of them. The bit `i` stands for a message that
-- starts at flit `i`.
unfoldable pub extract_from :
    ℕ → ℕ → ℕ → Frame → CircularQueue TlMsg → Outcome (CircularQueue TlMsg)
extract_from zero mask i f q = ok q
extract_from (suc fuel) mask i f q = elim (mask == 0) [
  | true ↦ ok q
  | false ↦ elim (mask % 2 == 1) [
    | true ↦ tloe_get_tlmsg f i >>= λ tlmsg.
        let (added, q') = enqueue q tlmsg in
        require added exits >>= λ _. extract_from fuel (mask / 2) (i + 1) f q'
    | false ↦ extract_from fuel (mask / 2) (i + 1) f q
  ]
]

unfoldable pub serve_normal_request : Endpoint → Frame → ℕ → Outcome Endpoint
serve_normal_request e f f_size = do
  let e = tloe_seqnum_update_next_rx_seq e f
  let e = tloe_seqnum_update_acked_seq e f
  mask ← tloe_get_mask f f_size
  q ← extract_from 64 mask 0 f e.tl_msg_buffer
  r ← fc_credit_inc e.fc f.header
  ok (record e { tl_msg_buffer = q; fc = r.1 })

unfoldable pub serve_zero_tlmsg_request : Endpoint → Frame → Outcome Endpoint
serve_zero_tlmsg_request e f = do
  let e = tloe_seqnum_update_next_rx_seq e f
  let e = tloe_seqnum_update_acked_seq e f
  r ← fc_credit_inc e.fc f.header
  ok (record e { should_send_ackonly_frame = true; fc = r.1 })

-- Puts a reply in the queue of acknowledgements.
unfoldable pub enqueue_ack : Endpoint → Frame → Outcome Endpoint
enqueue_ack e f =
    let (added, q) = enqueue e.ack_buffer f in
    require added exits >> ok (record e { ack_buffer = q })

unfoldable pub serve_duplicate_request : Endpoint → Frame → ℕ → Outcome Endpoint
unfolding enqueue_ack
serve_duplicate_request e f size = do
  reply ←
      tloe_set_mask
        (record f {
          header = record (f.header) {
            seq_num_ack = f.header.seq_num;
            ack = tloe_ack;
            chan = 0;
            credit = 0;
          };
        })
        0 size
  e ← enqueue_ack e reply
  ok (record e { dup_cnt = e.dup_cnt + 1 })

unfoldable pub serve_oos_request : Endpoint → Frame → ℕ → ℕ → Outcome Endpoint
unfolding enqueue_ack
serve_oos_request e f size seq_num = do
  let answer = tloe_seqnum_set_frame_seq_num_ack f seq_num
  masked ←
      tloe_set_mask (record answer { header = record (answer.header) { ack = tloe_nak } }) 0 size
  e ← enqueue_ack e (record masked { header = record (masked.header) { chan = 0; credit = 0 } })
  ok (record e { oos_cnt = e.oos_cnt + 1 })

-- The switch of `RX` on the kind of the request.
unfoldable pub serve_request : RxReqType → Endpoint → Frame → ℕ → Outcome Endpoint
serve_request req_normal e f size = do
  zero_tl ← is_zero_tl_frame f size
  if zero_tl then serve_zero_tlmsg_request e f else serve_normal_request e f size
serve_request req_duplicate e f size = serve_duplicate_request e f size
serve_request req_oos e f size = serve_oos_request e f size (tloe_seqnum_prev e.next_rx_seq)

unfoldable pub rx : Endpoint → Option (List ℕ) → Outcome Endpoint
unfolding serve_request
rx e none = ok e
rx e (some packet) = do
  f ← packet_to_tloe_frame packet (zero_frame (max_size_flit * 8))
  e ← serve_ack e f
  let e = record e { ackonly_frame_sent = false }
  if is_ackonly_frame f
      then ok (tloe_seqnum_update_acked_seq e f)
      else serve_request (tloe_rx_get_req_type e f) e f (length packet)
