-- ===== src/Tests/Links.antt =====
-- A link on which a read is sent, taken by the receiver and acknowledged.
use omnixtend_c.Base.{
  ℕ, ◌≡◌, ◌≤◌, ◌+◌, refl, arith, inl, some, none, List, [], ◌∷◌, ◌++◌, take, replicate, Outcome, ok,
  fail,
}
use omnixtend_c.Memory.{read_bytes, write_bytes, le_value, le_bytes}
use omnixtend_c.TlMsg.{tlmsg_get_total_size, tlmsg_get_header_size, tlmsg_get_data_size}
use omnixtend_c.TlMsg.Header.{of_word, to_word}
use omnixtend_c.Frame.{
  is_ackonly_frame, is_zero_tl_frame, packet_to_tloe_frame, header_word, word_header, swap_words,
  tloe_get_mask, tloe_get_tlmsg, tloe_get_fsize, msg_bytes, tloe_set_tlmsg, tloe_set_mask,
  tloe_frame_to_packet,
}
use omnixtend_c.SeqNum.{tloe_seqnum_next, tloe_seqnum_prev, tloe_seqnum_cmp}
use omnixtend_c.CircularQueue.{is_queue_empty, is_queue_full, enqueue, dequeue, getfront}
use omnixtend_c.Timeout.{get_current_timestamp}
use omnixtend_c.Endpoint.{
  Endpoint, tloe_fabric_send, tloe_seqnum_update_next_rx_seq, tloe_seqnum_update_acked_seq,
  tloe_seqnum_set_next_and_acked_seq, tloe_seqnum_next_tx_seq_inc,
}
use omnixtend_c.Retransmission.{slide_from, slide_window}
use omnixtend_c.FlowControl.{fc_credit_inc}
use omnixtend_c.Receiver.{
  rx, serve_ack, serve_request, serve_normal_request, tloe_rx_get_req_type, extract_from,
}
use omnixtend_c.Transmitter.{
  send_ackonly_frame, tx_frame, prepare_normal_frame, tx_take_ack, tx_give_credit,
  enqueue_retransmit_buffer, send_request_normal_frame, mark_sent,
}
use omnixtend_c.CircularQueue.Contents.{contents}
use omnixtend_c.Link.{
  Link, send, receive, take_up, reply, acknowledged, Reach, Steps, start, next, IsStart,
  new_packets,
}
use omnixtend_c.Link.Delivery.{delivered_in_order, acknowledged_delivered}
use omnixtend_c.Link.Recovery.{recovers}
use omnixtend_c.Tests.Requests.{empty_queue-IsValid}
use omnixtend_c.Tests.Sends.{get-IsWellSized}
use omnixtend_c.Tests.Data.{get, empty_frame, endpoint}

abbrev result : Outcome Endpoint → Endpoint
result (ok e) = e
result (fail fault) = endpoint

abbrev a0 : Endpoint
a0 = record endpoint {
  retransmit_buffer = record { front = 2; rear = 2; size = 5; slots = replicate 5 none };
  next_tx_seq = 10;
}

abbrev a1 : Endpoint
a1 = result (tx_frame a0 (some get) 0)

sent : tx_frame a0 (some get) 0 ≡ ok a1
unfolding tx_frame prepare_normal_frame tx_take_ack tx_give_credit enqueue_retransmit_buffer
    send_request_normal_frame mark_sent tloe_get_fsize tlmsg_get_total_size tlmsg_get_header_size
    tlmsg_get_data_size tloe_set_tlmsg tloe_set_mask tloe_frame_to_packet msg_bytes read_bytes
    write_bytes le_value le_bytes to_word of_word tloe_fabric_send
    tloe_seqnum_set_next_and_acked_seq tloe_seqnum_next_tx_seq_inc tloe_seqnum_next tloe_seqnum_prev
    get_current_timestamp is_queue_empty is_queue_full enqueue
sent = refl

abbrev p1 : List (List ℕ)
p1 = new_packets a0 a1

abbrev front_of : List (List ℕ) → List ℕ
front_of [] = []
front_of (p ∷ ps) = p

abbrev b0 : Endpoint
b0 = endpoint

abbrev b1 : Endpoint
b1 = result (rx b0 (some (front_of p1)))

taken_in : rx b0 (some (front_of p1)) ≡ ok b1
unfolding rx serve_ack serve_request serve_normal_request tloe_rx_get_req_type extract_from
    slide_from slide_window fc_credit_inc is_ackonly_frame is_zero_tl_frame packet_to_tloe_frame
    header_word word_header swap_words tloe_get_mask tloe_get_tlmsg tloe_seqnum_cmp dequeue getfront
    tloe_seqnum_update_next_rx_seq tloe_seqnum_update_acked_seq tx_frame prepare_normal_frame
    tx_take_ack tx_give_credit enqueue_retransmit_buffer send_request_normal_frame mark_sent
    tloe_get_fsize tlmsg_get_total_size tlmsg_get_header_size tlmsg_get_data_size tloe_set_tlmsg
    tloe_set_mask tloe_frame_to_packet msg_bytes read_bytes write_bytes le_value le_bytes to_word
    of_word tloe_fabric_send tloe_seqnum_set_next_and_acked_seq tloe_seqnum_next_tx_seq_inc
    tloe_seqnum_next tloe_seqnum_prev get_current_timestamp is_queue_empty is_queue_full enqueue
taken_in = refl

abbrev b2 : Endpoint
b2 = record (b1) { tl_msg_buffer = (dequeue b1.tl_msg_buffer).1 }

abbrev b3 : Endpoint
b3 = result (send_ackonly_frame (empty_frame 0 0) b2)

answered : send_ackonly_frame (empty_frame 0 0) b2 ≡ ok b3
unfolding send_ackonly_frame rx serve_ack serve_request serve_normal_request tloe_rx_get_req_type
    extract_from slide_from slide_window fc_credit_inc is_ackonly_frame is_zero_tl_frame
    packet_to_tloe_frame header_word word_header swap_words tloe_get_mask tloe_get_tlmsg
    tloe_seqnum_cmp dequeue getfront tloe_seqnum_update_next_rx_seq tloe_seqnum_update_acked_seq
    tx_frame prepare_normal_frame tx_take_ack tx_give_credit enqueue_retransmit_buffer
    send_request_normal_frame mark_sent tloe_get_fsize tlmsg_get_total_size tlmsg_get_header_size
    tlmsg_get_data_size tloe_set_tlmsg tloe_set_mask tloe_frame_to_packet msg_bytes read_bytes
    write_bytes le_value le_bytes to_word of_word tloe_fabric_send
    tloe_seqnum_set_next_and_acked_seq tloe_seqnum_next_tx_seq_inc tloe_seqnum_next tloe_seqnum_prev
    get_current_timestamp is_queue_empty is_queue_full enqueue
answered = refl

abbrev a2 : Endpoint
a2 = result (rx a1 (some (front_of (new_packets b2 b3))))

acked : rx a1 (some (front_of (new_packets b2 b3))) ≡ ok a2
unfolding send_ackonly_frame rx serve_ack serve_request serve_normal_request tloe_rx_get_req_type
    extract_from slide_from slide_window fc_credit_inc is_ackonly_frame is_zero_tl_frame
    packet_to_tloe_frame header_word word_header swap_words tloe_get_mask tloe_get_tlmsg
    tloe_seqnum_cmp dequeue getfront tloe_seqnum_update_next_rx_seq tloe_seqnum_update_acked_seq
    tx_frame prepare_normal_frame tx_take_ack tx_give_credit enqueue_retransmit_buffer
    send_request_normal_frame mark_sent tloe_get_fsize tlmsg_get_total_size tlmsg_get_header_size
    tlmsg_get_data_size tloe_set_tlmsg tloe_set_mask tloe_frame_to_packet msg_bytes read_bytes
    write_bytes le_value le_bytes to_word of_word tloe_fabric_send
    tloe_seqnum_set_next_and_acked_seq tloe_seqnum_next_tx_seq_inc tloe_seqnum_next tloe_seqnum_prev
    get_current_timestamp is_queue_empty is_queue_full enqueue
acked = refl

abbrev l0 : Link
l0 = record { a = a0; b = b0; to_b = []; to_a = []; given = []; taken = [] }

l0-IsStart : IsStart 10 l0
l0-IsStart = record {
  open_a = refl;
  open_b = refl;
  window = record { front_in = omega arith; rear_in = omega arith; storage = refl; filled = refl };
  window_slots = refl;
  no_frames = refl;
  acks_a = empty_queue-IsValid;
  next_tx_seq = refl;
  messages = empty_queue-IsValid;
  room = omega arith;
  no_messages = refl;
  acks_b = empty_queue-IsValid;
  next_rx_seq = refl;
  none_to_b = refl;
  none_to_a = refl;
  none_given = refl;
  none_taken = refl;
}

abbrev l1 : Link
l1 = record l0 { a = a1; to_b = [] ++ new_packets a0 a1; given = [] ++ get ∷ [] }

abbrev l2 : Link
l2 = record (l1) { b = b1; to_b = [] }

abbrev l3 : Link
l3 = record (l2) { b = b2; taken = [] ++ get ∷ [] }

abbrev l4 : Link
l4 = record (l3) { b = b3; to_a = [] ++ new_packets b2 b3 }

abbrev l5 : Link
l5 = record (l4) { a = a2; to_a = [] }

l1-Reach : Reach 10 l1
unfolding is_queue_full tlmsg_get_total_size tlmsg_get_header_size tlmsg_get_data_size
l1-Reach =
    next (start l0-IsStart)
      (send get 0 get-IsWellSized (omega arith) refl (omega arith) (inl refl) (omega arith) sent)

l5-Reach : Reach 10 l5
unfolding send_ackonly_frame rx serve_ack serve_request serve_normal_request tloe_rx_get_req_type
    extract_from slide_from slide_window fc_credit_inc is_ackonly_frame is_zero_tl_frame
    packet_to_tloe_frame header_word word_header swap_words tloe_get_mask tloe_get_tlmsg
    tloe_seqnum_cmp dequeue getfront tloe_seqnum_update_next_rx_seq tloe_seqnum_update_acked_seq
    tx_frame prepare_normal_frame tx_take_ack tx_give_credit enqueue_retransmit_buffer
    send_request_normal_frame mark_sent tloe_get_fsize tlmsg_get_total_size tlmsg_get_header_size
    tlmsg_get_data_size tloe_set_tlmsg tloe_set_mask tloe_frame_to_packet msg_bytes read_bytes
    write_bytes le_value le_bytes to_word of_word tloe_fabric_send
    tloe_seqnum_set_next_and_acked_seq tloe_seqnum_next_tx_seq_inc tloe_seqnum_next tloe_seqnum_prev
    get_current_timestamp is_queue_empty is_queue_full enqueue
l5-Reach =
    next
      (next
        (next (next l1-Reach (receive {p = front_of p1} refl (omega arith) (omega arith) taken_in))
          (take_up {m = get} refl))
        (reply (empty_frame 0 0) (omega arith) (omega arith) answered))
      (acknowledged {p = front_of (new_packets b2 b3)} refl acked)

delivered_in_order_example :
    (got : ℕ) × (l5.taken ++ contents l5.b.tl_msg_buffer ≡ take got (get ∷ []))
    × (got ≤ 1)
    × (1 ≤ got + 4)
delivered_in_order_example = delivered_in_order 10 l5 l5-Reach

acknowledged_delivered_example : l5.taken ++ contents l5.b.tl_msg_buffer ≡ get ∷ []
unfolding send_ackonly_frame rx serve_ack serve_request serve_normal_request tloe_rx_get_req_type
    extract_from slide_from slide_window fc_credit_inc is_ackonly_frame is_zero_tl_frame
    packet_to_tloe_frame header_word word_header swap_words tloe_get_mask tloe_get_tlmsg
    tloe_seqnum_cmp dequeue getfront tloe_seqnum_update_next_rx_seq tloe_seqnum_update_acked_seq
    tx_frame prepare_normal_frame tx_take_ack tx_give_credit enqueue_retransmit_buffer
    send_request_normal_frame mark_sent tloe_get_fsize tlmsg_get_total_size tlmsg_get_header_size
    tlmsg_get_data_size tloe_set_tlmsg tloe_set_mask tloe_frame_to_packet msg_bytes read_bytes
    write_bytes le_value le_bytes to_word of_word tloe_fabric_send
    tloe_seqnum_set_next_and_acked_seq tloe_seqnum_next_tx_seq_inc tloe_seqnum_next tloe_seqnum_prev
    get_current_timestamp is_queue_empty is_queue_full enqueue
acknowledged_delivered_example = acknowledged_delivered 10 l5 l5-Reach refl

recovers_example : (l' : Link) × Steps l1 l' × (l'.given ≡ get ∷ []) × (l'.taken ≡ get ∷ [])
recovers_example = recovers 10 l1 l1-Reach
