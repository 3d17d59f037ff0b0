-- ===== src/Tests/Lives.antt =====
-- An endpoint that starts and is told to write, requests that are handled, and queues that are chosen from.
use omnixtend_c.Base.{◌≡◌, refl, arith, some, none, false, [], ◌∷◌, Outcome, ok, fail}
use omnixtend_c.Memory.{read_bytes, write_bytes, le_value, le_bytes}
use omnixtend_c.TlMsg.Header.{of_word, to_word}
use omnixtend_c.SeqNum.{tloe_seqnum_next, tloe_seqnum_prev}
use omnixtend_c.Timeout.{get_current_timestamp, is_timeout_tx, is_timeout_tx_half}
use omnixtend_c.Frame.{
  zero_frame, header_word, swap_words, tloe_get_fsize, msg_bytes, tloe_set_tlmsg, tloe_set_mask,
  tloe_frame_to_packet,
}
use omnixtend_c.Receiver.{rx}
use omnixtend_c.Transmitter.{
  tx, tx_frame, prepare_normal_frame, tx_take_ack, tx_give_credit, enqueue_retransmit_buffer,
  send_request_normal_frame, mark_sent,
}
use omnixtend_c.CircularQueue.{
  CircularQueue, enqueue, dequeue, is_queue_full, is_queue_empty, getfront, create_queue,
}
use omnixtend_c.CircularQueue.Contents.{IsValid, contents}
use omnixtend_c.TlMsg.{
  TlMsg, tlmsg_get_total_size, tlmsg_get_header_size, tlmsg_get_data_size, tlmsg_get_flits_cnt,
  convert_size_to_flits,
}
use omnixtend_c.FlowControl.{
  select_max_credit_channel, fc_credit_dec, get_outgoing_credits, init_flowcontrol, init_from,
  set_credit,
}
use omnixtend_c.Endpoint.{
  Endpoint, tloe_endpoint_init, tloe_fabric_send, tloe_seqnum_set_next_and_acked_seq,
  tloe_seqnum_next_tx_seq_inc,
}
use omnixtend_c.Endpoint.WellFormed.{IsWellFormed}
use omnixtend_c.Handler.{Memory, tl_handler}
use omnixtend_c.Handler.Service.{IsRequest, puts, gets, answers, handle_all, handle_all_lem}
use omnixtend_c.Loop.{Thread, Input, round, write_message, write_memory, select_buffer}
use omnixtend_c.Loop.Fairness.{IsWaiting, Served, select_buffer_serves}
use omnixtend_c.Life.{Life, goes_round, starts, writes, life-IsWellFormed}
use omnixtend_c.Teardown.{tloe_endpoint_close, tloe_endpoint_close_lem}
use omnixtend_c.Tests.Data.{endpoint, put, get}

abbrev two_requests : CircularQueue TlMsg
two_requests = record {
  front = 3;
  rear = 1;
  size = 4;
  slots = some get ∷ none ∷ none ∷ some put ∷ [];
}

abbrev busy : Endpoint
busy = record endpoint { tl_msg_buffer = two_requests }

abbrev zeros : Memory
zeros i = 0

two_requests-IsValid : IsValid two_requests
two_requests-IsValid = omega arith

empty-IsValid : IsValid (endpoint.response_buffer)
empty-IsValid = omega arith

put-IsRequest : IsRequest put
unfolding le_value
put-IsRequest = puts refl refl refl (omega arith)

get-IsRequest : IsRequest get
unfolding le_value
get-IsRequest = gets refl refl (omega arith) (omega arith)

handle_all_lem_example :
    (e' : Endpoint) × (handle_all 2 busy zeros ≡ ok (e', (answers zeros (put ∷ get ∷ [])).1))
    × IsValid e'.tl_msg_buffer
    × (contents e'.tl_msg_buffer ≡ [])
    × IsValid e'.response_buffer
    × (contents e'.response_buffer ≡ (answers zeros (put ∷ get ∷ [])).0)
handle_all_lem_example =
    handle_all_lem (put ∷ get ∷ []) [] busy zeros (put-IsRequest, (get-IsRequest, tt))
      two_requests-IsValid refl empty-IsValid (omega arith)

-- Both queues have messages.
abbrev both : Endpoint
both = record endpoint { message_buffer = two_requests; response_buffer = two_requests }

both-IsWaiting : IsWaiting put both
both-IsWaiting = record {
  requests = two_requests-IsValid;
  responses = two_requests-IsValid;
  behind = get ∷ [];
  front = refl;
}

select_buffer_serves_example : Served put 4 (both ∷ both ∷ both ∷ both ∷ [])
select_buffer_serves_example =
    select_buffer_serves put 4 4 (both ∷ both ∷ both ∷ both ∷ []) (omega arith) (omega arith) refl
      (both-IsWaiting, (both-IsWaiting, (both-IsWaiting, (both-IsWaiting, tt))))

abbrev result : Outcome Endpoint → Endpoint
result (ok e) = e
result (fail fault) = endpoint

abbrev newborn : Thread
newborn = record {
  endpoint = result (tloe_endpoint_init endpoint 1 1);
  memory = zeros;
  counter = 4;
  request_tlmsg = none;
}

newborn-Life : Life newborn
unfolding tloe_endpoint_init init_flowcontrol init_from set_credit create_queue
newborn-Life = starts endpoint zeros 1 1 refl

abbrev told : Thread
told = record newborn { endpoint = (write_memory (newborn.endpoint) 64 7).1 }

told-Life : Life told
told-Life = writes 64 7 newborn-Life

-- The round in which the write is sent; no packet comes.
abbrev thread_of : Outcome Thread → Thread
thread_of (ok t) = t
thread_of (fail fault) = told

abbrev quiet : Input
quiet = record {
  now = record { tv_sec = 9; tv_nsec = 0 };
  packet = none;
  garbage = zero_frame 520;
  garbage' = zero_frame 520;
}

sent-Life : Life (thread_of (round told quiet))
unfolding round tx rx tl_handler tx_frame prepare_normal_frame tx_take_ack tx_give_credit
    enqueue_retransmit_buffer send_request_normal_frame mark_sent tloe_get_fsize
    tlmsg_get_total_size tlmsg_get_header_size tlmsg_get_data_size tloe_set_tlmsg tloe_set_mask
    tloe_frame_to_packet msg_bytes read_bytes write_bytes le_value le_bytes to_word of_word
    tloe_fabric_send tloe_seqnum_set_next_and_acked_seq tloe_seqnum_next_tx_seq_inc tloe_seqnum_next
    tloe_seqnum_prev get_current_timestamp is_queue_empty is_queue_full enqueue dequeue getfront
    select_buffer is_timeout_tx is_timeout_tx_half select_max_credit_channel fc_credit_dec
    tlmsg_get_flits_cnt tloe_endpoint_init init_flowcontrol init_from set_credit create_queue
    header_word swap_words write_memory write_message get_outgoing_credits convert_size_to_flits
sent-Life = goes_round quiet told-Life refl

life-IsWellFormed_example : IsWellFormed (thread_of (round told quiet)).endpoint
life-IsWellFormed_example = life-IsWellFormed sent-Life

tloe_endpoint_close_lem_example :
    tloe_endpoint_close (told.endpoint) (some (told.memory))
    ≡ ok (
      record {
        messages = contents (told.endpoint).message_buffer;
        window = contents (told.endpoint).retransmit_buffer;
        acks = contents (told.endpoint).ack_buffer;
        taken = contents (told.endpoint).tl_msg_buffer;
        responses = contents (told.endpoint).response_buffer;
      },
      record (told.endpoint) { handle_open = false },
      none,
    )
tloe_endpoint_close_lem_example = tloe_endpoint_close_lem told told-Life
