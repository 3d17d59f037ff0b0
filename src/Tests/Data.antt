-- ===== src/Tests/Data.antt =====
-- The messages, frames and queues that the tests share.
use omnixtend_c.Base.{ℕ, List, [], ◌∷◌, ◌++◌, none, some, true, false, replicate}
use omnixtend_c.TlMsg.{TlHeader, TlMsg}
use omnixtend_c.Frame.{FrameHeader, Frame, zero_header}
use omnixtend_c.CircularQueue.{CircularQueue}
use omnixtend_c.FlowControl.{Flowcontrol}
use omnixtend_c.Endpoint.{Endpoint, RetransmitBufferElement, sent}

abbrev pub header_with : ℕ → ℕ → ℕ → TlHeader
header_with chan opcode size = record {
  source = 3;
  reserved = 0;
  err = 0;
  domain = 0;
  size = size;
  param = 0;
  reserved2 = 0;
  opcode = opcode;
  chan = chan;
  reserved1 = 0;
}

abbrev pub address : List ℕ
address = 64 ∷ 0 ∷ 0 ∷ 0 ∷ 0 ∷ 0 ∷ 0 ∷ 0 ∷ []

-- a write of eight bytes to the address 64, and a read of them
abbrev pub put : TlMsg
put = record { header = header_with 1 0 3; payload = address ++ 1 ∷ 2 ∷ 3 ∷ 4 ∷ 5 ∷ 6 ∷ 7 ∷ 8 ∷ [] }

abbrev pub get : TlMsg
get = record { header = header_with 1 4 3; payload = address }

-- a write of 32 bytes, which makes 48 with the header and the address
abbrev pub large_put : TlMsg
large_put = record { header = header_with 1 0 5; payload = address ++ replicate 32 7 }

abbrev pub frame_header : ℕ → ℕ → FrameHeader
frame_header seq_num seq_num_ack = record zero_header {
  seq_num = seq_num;
  seq_num_ack = seq_num_ack;
  chan = 1;
  credit = 4;
}

-- a frame of 56 bytes that carries `get`, with the mask 1
abbrev pub get_frame : ℕ → ℕ → Frame
get_frame seq_num seq_num_ack = record {
  header = frame_header seq_num seq_num_ack;
  flits =
      (3 ∷ 0 ∷ 0 ∷ 0 ∷ 0 ∷ 0 ∷ 3 ∷ 24 ∷ []) ++ (address ++ (replicate 24 0 ++ 1 ∷ replicate 7 0));
}

abbrev pub empty_frame : ℕ → ℕ → Frame
empty_frame seq_num seq_num_ack = record {
  header = frame_header seq_num seq_num_ack;
  flits = replicate 48 0;
}

abbrev pub empty_queue {ℓ} : {A : Type ℓ} → CircularQueue A
empty_queue = record { front = 2; rear = 2; size = 4; slots = replicate 4 none }

abbrev pub element : ℕ → RetransmitBufferElement
element seq_num = record {
  state = sent;
  f_size = 56;
  send_time = 5;
  tloe_frame = get_frame seq_num 9;
}

-- Three frames round the end of the array and of the sequence numbers.
abbrev pub three_sent : CircularQueue RetransmitBufferElement
three_sent = record {
  front = 3;
  rear = 1;
  size = 5;
  slots = some (element 1) ∷ none ∷ none ∷ some (element 4194303) ∷ some (element 0) ∷ [];
}

abbrev pub flow : Flowcontrol
flow = record {
  credits = λ c. 100;
  tx_flow_credits = λ c. 11;
  inc_cnt = λ c. 0;
  inc_value = λ c. 0;
  dec_cnt = λ c. 0;
  dec_value = λ c. 0;
}

abbrev pub endpoint : Endpoint
endpoint = record {
  handle_open = true;
  wire = [];
  retransmit_buffer = three_sent;
  message_buffer = empty_queue;
  ack_buffer = empty_queue;
  tl_msg_buffer = empty_queue;
  response_buffer = empty_queue;
  iteration_ts = record { tv_sec = 7; tv_nsec = 0 };
  fc = flow;
  connection = 1;
  master = 1;
  is_done = 0;
  fabric_type = 0;
  next_tx_seq = 2;
  next_rx_seq = 10;
  acked_seq = 4194302;
  should_send_ackonly_frame = false;
  ackonly_frame_sent = false;
  ack_cnt = 0;
  dup_cnt = 0;
  oos_cnt = 0;
  drop_cnt = 0;
  accessack_cnt = 0;
  accessackdata_cnt = 0;
  ackonly_cnt = 0;
  drop_npacket_size = 0;
  drop_npacket_cnt = 0;
  drop_tlmsg_cnt = 0;
  drop_response_cnt = 0;
}
