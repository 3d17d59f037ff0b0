-- ===== src/Retransmission.antt =====
-- retransmission.h and retransmission.c: the buffer of the frames that were sent and not yet
-- acknowledged.
pub mod Window
pub mod Resend
pub mod WellFormed
use omnixtend_c.Base.{
  ℕ, zero, suc, Bool, true, false, Option, none, some, List, [], ◌∷◌, ◌++◌, ◌==◌, if◌then◌else◌,
  Outcome, ok, fail, null_pointer, out_of_bounds, ◌>>=◌, is_negative, is_positive, get_or, ◌%◌, ◌+◌,
}
use omnixtend_c.Frame.{Frame, tloe_frame_to_packet}
use omnixtend_c.CircularQueue.{CircularQueue, getfront, dequeue, traverse}
use omnixtend_c.SeqNum.{tloe_seqnum_cmp}
use omnixtend_c.Timeout.{get_current_timestamp}
use omnixtend_c.Endpoint.{
  Endpoint, RetransmitBufferElement, resent, tloe_fabric_send, tloe_seqnum_set_seq_num_ack,
}

-- The body of the loop of `retransmit`. The endpoint is the loop's state for the packets sent; the
-- loop writes none of the fields that it reads.
unfoldable pub retransmit_one :
    ℕ → RetransmitBufferElement → Endpoint → Outcome (RetransmitBufferElement × Endpoint)
retransmit_one seq_num element e =
    if is_negative (tloe_seqnum_cmp element.tloe_frame.header.seq_num seq_num)
    then ok (element, e)
    else do
      packet ←
          tloe_frame_to_packet (tloe_seqnum_set_seq_num_ack element.tloe_frame e) element.f_size
      ok (
        record element { state = resent; send_time = get_current_timestamp e.iteration_ts },
        tloe_fabric_send e packet,
      )

-- Its result is always 0, and no caller reads it.
unfoldable pub retransmit : Endpoint → ℕ → Outcome Endpoint
retransmit e seq_num = do
  r ← traverse (retransmit_one seq_num) e.retransmit_buffer e
  ok (record (r.1) { retransmit_buffer = r.0 })

-- The loop of `slide_window`, which takes an element off in each round.
unfoldable pub slide_from :
    ℕ → CircularQueue RetransmitBufferElement → ℕ → CircularQueue RetransmitBufferElement
slide_from zero q seq_num_ack = q
slide_from (suc fuel) q seq_num_ack = elim (getfront q) [
  | none ↦ q
  | some rbe ↦ elim (is_positive (tloe_seqnum_cmp rbe.tloe_frame.header.seq_num seq_num_ack)) [
    | true ↦ q
    | false ↦ slide_from fuel (dequeue q).1 seq_num_ack
  ]
]

unfoldable pub slide_window : Endpoint → Frame → Endpoint
slide_window e f = record e {
  retransmit_buffer = slide_from e.retransmit_buffer.size e.retransmit_buffer f.header.seq_num_ack;
}

-- The loop of `get_earliest_element`: the first element that has a send time.
unfoldable pub earliest_from :
    ℕ → ℕ → CircularQueue RetransmitBufferElement → Outcome (Option RetransmitBufferElement)
earliest_from zero i q = fail out_of_bounds
earliest_from (suc fuel) i q = elim (i == q.rear) [
  | true ↦ ok none
  | false ↦ elim (get_or q.slots i none) [
    | none ↦ fail null_pointer
    | some element ↦ elim (element.send_time == 0) [
      | true ↦ earliest_from fuel ((i + 1) % q.size) q
      | false ↦ ok (some element)
    ]
  ]
]

unfoldable pub get_earliest_element :
    CircularQueue RetransmitBufferElement → Outcome (Option RetransmitBufferElement)
unfolding earliest_from
get_earliest_element q = earliest_from (suc q.size) q.front q
