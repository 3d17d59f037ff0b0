-- ===== src/Endpoint.antt =====
-- tloe_endpoint.h: the state of an endpoint, and `tloe_endpoint_init` of tloe_endpoint.c; the
-- functions of tloe_seq_mgr.c on it; `tloe_fabric_send` of tloe_fabric.c as a record of what was
-- sent; the element of the retransmission buffer, from retransmission.h.
-- The counters are unbounded numbers. `wire` holds the packets handed to the medium so far, oldest
-- first, and `handle_open` says whether `fabric_ops.handle` is set.
pub mod Start
pub mod WellFormed
use omnixtend_c.Base.{
  ℕ, ◌+◌, ◌%◌, ◌^◌, Bool, false, List, [], ◌∷◌, ◌++◌, if◌then◌else◌, Outcome, ok, ◌>>=◌,
  is_positive,
}
use omnixtend_c.TlMsg.{TlMsg}
use omnixtend_c.Frame.{Frame}
use omnixtend_c.CircularQueue.{CircularQueue, create_queue}
use omnixtend_c.FlowControl.{Flowcontrol, init_flowcontrol}
use omnixtend_c.Timeout.{Timespec}
use omnixtend_c.SeqNum.{max_seq_num, tloe_seqnum_cmp, tloe_seqnum_prev, tloe_seqnum_next}

-- `TLOE_INIT` and so on, of which the code sets three
pub data RbeState : Type 0 where
  init sent resent : RbeState

pub record RetransmitBufferElement : Type 0 where
  pub state : RbeState
  pub f_size : ℕ
  pub send_time : ℕ
  pub tloe_frame : Frame

pub record Endpoint : Type 0 where
  pub handle_open : Bool
  pub wire : List (List ℕ)
  pub retransmit_buffer : CircularQueue RetransmitBufferElement
  pub message_buffer : CircularQueue TlMsg
  pub ack_buffer : CircularQueue Frame
  pub tl_msg_buffer : CircularQueue TlMsg
  pub response_buffer : CircularQueue TlMsg
  pub iteration_ts : Timespec
  pub fc : Flowcontrol
  pub connection : ℕ
  pub master : ℕ
  pub is_done : ℕ
  pub fabric_type : ℕ
  pub next_tx_seq : ℕ
  pub next_rx_seq : ℕ
  pub acked_seq : ℕ
  pub should_send_ackonly_frame : Bool
  pub ackonly_frame_sent : Bool
  pub ack_cnt : ℕ
  pub dup_cnt : ℕ
  pub oos_cnt : ℕ
  pub drop_cnt : ℕ
  pub accessack_cnt : ℕ
  pub accessackdata_cnt : ℕ
  pub ackonly_cnt : ℕ
  pub drop_npacket_size : ℕ
  pub drop_npacket_cnt : ℕ
  pub drop_tlmsg_cnt : ℕ
  pub drop_response_cnt : ℕ

abbrev pub window_size : ℕ
window_size = 4

-- The queues that were there are freed.
unfoldable pub tloe_endpoint_init : Endpoint → ℕ → ℕ → Outcome Endpoint
tloe_endpoint_init e fabric_type master_slave = do
  fc ← init_flowcontrol e.fc
  ok (record e {
    is_done = 0;
    connection = 0;
    master = master_slave;
    fabric_type = fabric_type;
    next_tx_seq = 0;
    next_rx_seq = 0;
    acked_seq = max_seq_num;
    retransmit_buffer = create_queue (window_size + 1);
    message_buffer = create_queue 10000;
    ack_buffer = create_queue 2048;
    tl_msg_buffer = create_queue 10000;
    response_buffer = create_queue 100;
    should_send_ackonly_frame = false;
    ackonly_frame_sent = false;
    fc = fc;
    ack_cnt = 0;
    dup_cnt = 0;
    oos_cnt = 0;
    drop_cnt = 0;
    accessack_cnt = 0;
    accessackdata_cnt = 0;
    ackonly_cnt = 0;
    drop_tlmsg_cnt = 0;
    drop_response_cnt = 0;
    drop_npacket_size = 0;
    drop_npacket_cnt = 0;
  })

-- Its callers ignore the result, so a send with no handle is only not made.
unfoldable pub tloe_fabric_send : Endpoint → List ℕ → Endpoint
tloe_fabric_send e packet = if e.handle_open then record e { wire = e.wire ++ packet ∷ [] } else e

unfoldable pub tloe_seqnum_next_tx_seq_inc : Endpoint → Endpoint
tloe_seqnum_next_tx_seq_inc e = record e { next_tx_seq = tloe_seqnum_next e.next_tx_seq }

-- A store to a bit-field keeps its low bits.
unfoldable pub tloe_seqnum_set_seq_num : Frame → ℕ → Frame
tloe_seqnum_set_seq_num f seq_num = record f {
  header = record (f.header) { seq_num = seq_num % 2 ^ 22 };
}

unfoldable pub tloe_seqnum_set_frame_seq_num_ack : Frame → ℕ → Frame
tloe_seqnum_set_frame_seq_num_ack f seq_num_ack = record f {
  header = record (f.header) { seq_num_ack = seq_num_ack % 2 ^ 22 };
}

unfoldable pub tloe_seqnum_set_next_tx_seq : Frame → Endpoint → Frame
tloe_seqnum_set_next_tx_seq f e = record f {
  header = record (f.header) { seq_num = e.next_tx_seq % 2 ^ 22 };
}

unfoldable pub tloe_seqnum_set_seq_num_ack : Frame → Endpoint → Frame
tloe_seqnum_set_seq_num_ack f e = record f {
  header = record (f.header) { seq_num_ack = tloe_seqnum_prev e.next_rx_seq % 2 ^ 22 };
}

unfoldable pub tloe_seqnum_set_next_and_acked_seq : Frame → Endpoint → Frame
unfolding tloe_seqnum_set_next_tx_seq tloe_seqnum_set_seq_num_ack
tloe_seqnum_set_next_and_acked_seq f e =
    tloe_seqnum_set_seq_num_ack (tloe_seqnum_set_next_tx_seq f e) e

unfoldable pub tloe_seqnum_update_next_rx_seq : Endpoint → Frame → Endpoint
tloe_seqnum_update_next_rx_seq e f = record e { next_rx_seq = tloe_seqnum_next f.header.seq_num }

unfoldable pub tloe_seqnum_update_acked_seq : Endpoint → Frame → Endpoint
tloe_seqnum_update_acked_seq e f = record e {
  acked_seq =
      if is_positive (tloe_seqnum_cmp f.header.seq_num_ack e.acked_seq)
      then f.header.seq_num_ack
      else e.acked_seq;
}
